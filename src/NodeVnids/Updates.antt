-- ===== src/NodeVnids/Updates.antt =====
-- What a node's operations on its two maps do, on maps that agree.
use mathlib.Core.List.{Mem, mem-cons_self, mem-cons_of_mem}
use k8s_ovs.Base.{
  ◌<◌, ◌++◌, length, ℕ, zero, suc, ◌≡◌, ◌≢◌, ◌↔◌, refl, inl, inr, true, ok, none, List, [], ◌∷◌,
  Text, text_dec, ℕ_discrete, lookup, lookup-delete, ite, arith, Option-cases,
}
use k8s_ovs.Etcd.{NetNamespace}
use k8s_ovs.NodeVnids.{
  NodeVnidMap, new_node_vnid_map, remove_namespace_from_set, get_namespaces, get_vnid, try_get_vnid,
  wait_and_get_vnid, set_vnid, unset_vnid, set_all,
}
use k8s_ovs.NodeVnids.Sets.{StringSets, SetLaws}
use k8s_ovs.NodeVnids.Invariant.{
  member, IsConsistent, member-remove, inhabited-remove, ids-remove, set_vnid-IsConsistent,
}

pub new_node_vnid_map-IsConsistent : (z : StringSets) → IsConsistent z (new_node_vnid_map z)
unfolding new_node_vnid_map lookup
new_node_vnid_map-IsConsistent z = record {
  agree = λ id name. refl;
  inhabited = λ id s e. ground arith;
}

module _ {z : StringSets} (laws : SetLaws z) where
  -- `unsetVNID` answers with the namespace's VNID and forgets that namespace in both maps and no other;
  -- for a namespace without a VNID it fails and changes nothing.
  pub unset_vnid-IsConsistent :
      (m : NodeVnidMap z) (name : Text)
      → IsConsistent z m
      → IsConsistent z (unset_vnid z m name).0
        × ((unset_vnid z m name).1 ≡ get_vnid z m name)
        × ((other : Text)
            → lookup text_dec other (unset_vnid z m name).0.ids
              ≡ ite (text_dec name other) none (lookup text_dec other m.ids))
  unfolding unset_vnid get_vnid
  unset_vnid-IsConsistent m name v = elim (Option-cases (lookup text_dec name m.ids)) [
    | inl e ↦ rw (unset_vnid, get_vnid, e) (v, refl, λ other. ground (arith, e))
    | inr (old, e) ↦
        let m' = remove_namespace_from_set z m name old in
        rw (unset_vnid, get_vnid, e)
          (
            record {
              agree = λ j n. ground (
                arith,
                member-remove laws m name n old j,
                v.agree j n,
                e,
                ids-remove laws m name old,
                lookup-delete text_dec name n m'.ids,
              );
              inhabited = λ j s. inhabited-remove laws m name old j s (v.inhabited j);
            },
            refl,
            λ other.
                ground
                  (arith, ids-remove laws m name old, lookup-delete text_dec name other m'.ids),
          )
  ]

  get_vnid-member :
      (m : NodeVnidMap z) (id : ℕ) (name : Text)
      → IsConsistent z m
      → (member z m id name ≡ true) ↔ (get_vnid z m name ≡ ok id)
  unfolding get_vnid
  get_vnid-member m id name v = ground (arith, v.agree id name)

  -- On maps that agree, `GetNamespaces` answers with a nil slice only for a VNID that no namespace has.
  pub get_namespaces_nil :
      (m : NodeVnidMap z) (id : ℕ) (name : Text)
      → IsConsistent z m
      → get_namespaces z m id ≡ none
      → get_vnid z m name ≢ ok id
  unfolding get_namespaces
  get_namespaces_nil m id name v h = elim (Option-cases (lookup ℕ_discrete id m.namespaces)) [
    | inl e ↦ ground (arith, e, get_vnid-member m id name v)
    | inr (s, e) ↦ ground (arith, e, h)
  ]

  -- `populateVNIDs` on the list that etcd holds: the maps agree afterwards.
  pub set_all-IsConsistent :
      (nets : List NetNamespace) (m : NodeVnidMap z)
      → IsConsistent z m
      → IsConsistent z (set_all z m nets)
  unfolding set_all
  set_all-IsConsistent [] m v = v
  set_all-IsConsistent (net ∷ nets) m v =
      set_all-IsConsistent nets (set_vnid z m net.net_name net.net_id)
        (set_vnid-IsConsistent laws m net.net_name net.net_id v).0

module _ {z : StringSets} (m : NodeVnidMap z) (after : List (NodeVnidMap z)) (name : Text)
    (id : ℕ) where
  try_get_vnid-found :
      (steps : ℕ) (seen : List (NodeVnidMap z))
      → ((n : NodeVnidMap z) → Mem n seen → lookup text_dec name n.ids ≡ none)
      → length seen < steps
      → get_vnid z m name ≡ ok id
      → try_get_vnid z steps (seen ++ m ∷ after) name ≡ ok id
  unfolding try_get_vnid get_vnid
  try_get_vnid-found zero seen missing short h = ground arith
  try_get_vnid-found (suc steps) [] missing short h = rw (try_get_vnid, h) refl
  try_get_vnid-found (suc steps) (n ∷ seen) missing short h =
      let absent : lookup text_dec name n.ids ≡ none = missing n mem-cons_self in
      let rest =
        try_get_vnid-found steps seen (λ k i. missing k (mem-cons_of_mem n i)) (ground arith) h in
      rw (try_get_vnid, get_vnid, absent) rest

  -- If one of the first five maps that the wait looks at has the namespace, and none before it
  -- does, the wait answers with the VNID from that map.
  pub wait_and_get_vnid-found :
      (before : List (NodeVnidMap z))
      → length before < 5
      → ((n : NodeVnidMap z) → Mem n before → lookup text_dec name n.ids ≡ none)
      → get_vnid z m name ≡ ok id
      → wait_and_get_vnid z (before ++ m ∷ after) name ≡ ok id
  unfolding wait_and_get_vnid
  wait_and_get_vnid-found before short missing h = try_get_vnid-found 5 before missing short h
