-- ===== src/NodeVnids.antt =====
-- ksdn/vnids_node.go: a node's map of namespaces to VNIDs, with the set of namespaces of each VNID.
pub mod Sets
pub mod ListSets
pub mod Invariant
pub mod Updates
pub mod Services
pub mod Netns
use k8s_ovs.Base.{
  ℕ, zero, suc, ◌≡◌, Bool, true, false, Result, ok, err, message, Option, none, some, List, [], ◌∷◌,
  Text, text_dec, ℕ_discrete, lookup, insert, delete, ite, ◌==◌, if◌then◌else◌,
}
use k8s_ovs.Etcd.{NetNamespace, EtcdManager}
use Sets.{StringSets}

-- `nodeVNIDMap`.
pub record NodeVnidMap (z : StringSets) : Type 0 where
  pub ids : List (Text × ℕ)
  pub namespaces : List (ℕ × z.Set)

module _ (z : StringSets) where
  unfoldable pub new_node_vnid_map : NodeVnidMap z
  new_node_vnid_map = record { ids = []; namespaces = [] }

  unfoldable pub add_namespace_to_set : NodeVnidMap z → Text → ℕ → NodeVnidMap z
  add_namespace_to_set m name vnid =
      let set : z.Set = elim (lookup ℕ_discrete vnid m.namespaces) [ some s ↦ s | none ↦ z.new ] in
      record m { namespaces = insert ℕ_discrete vnid (z.insert name set) m.namespaces }

  unfoldable pub remove_namespace_from_set : NodeVnidMap z → Text → ℕ → NodeVnidMap z
  remove_namespace_from_set m name vnid = elim (lookup ℕ_discrete vnid m.namespaces) [
    | none ↦ m
    | some set ↦
        let set' = z.delete name set in
        if z.len set' == 0
        then record m { namespaces = delete ℕ_discrete vnid m.namespaces }
        else record m { namespaces = insert ℕ_discrete vnid set' m.namespaces }
  ]

  -- `none` for a nil slice.
  unfoldable pub get_namespaces : NodeVnidMap z → ℕ → Option (List Text)
  get_namespaces m id = elim (lookup ℕ_discrete id m.namespaces) [
    | some set ↦ some (z.list set)
    | none ↦ none
  ]

  unfoldable pub get_vnid : NodeVnidMap z → Text → Result ℕ
  get_vnid m name = elim (lookup text_dec name m.ids) [
    | some id ↦ ok id
    | none ↦ err (message "Failed to find netid for namespace in vnid map")
  ]

  -- `WaitAndGetVNID`: the map as the tries find it, at most `steps` of them. The delays between the
  -- tries, in which others change the map, are not modelled.
  unfoldable pub try_get_vnid : ℕ → List (NodeVnidMap z) → Text → Result ℕ
  try_get_vnid zero seen name = err (message "Failed to find netid for namespace in vnid map")
  try_get_vnid (suc steps) [] name = err (message "Failed to find netid for namespace in vnid map")
  try_get_vnid (suc steps) (m ∷ seen) name =
      let again = try_get_vnid steps seen name in
      elim (get_vnid m name) [ ok id ↦ ok id | err e ↦ again ]

  -- The backoff has five steps.
  unfoldable pub wait_and_get_vnid : List (NodeVnidMap z) → Text → Result ℕ
  unfolding try_get_vnid get_vnid
  wait_and_get_vnid seen name = try_get_vnid 5 seen name

  unfoldable pub set_vnid : NodeVnidMap z → Text → ℕ → NodeVnidMap z
  set_vnid m name id =
      let m' : NodeVnidMap z = elim (lookup text_dec name m.ids) [
        | some old ↦ remove_namespace_from_set m name old
        | none ↦ m
      ] in
      add_namespace_to_set (record m' { ids = insert text_dec name id m'.ids }) name id

  unfoldable pub unset_vnid : NodeVnidMap z → Text → NodeVnidMap z × Result ℕ
  unset_vnid m name = elim (lookup text_dec name m.ids) [
    | none ↦ (m, err (message "Failed to find netid for namespace in vnid map"))
    | some id ↦
        let m' = remove_namespace_from_set m name id in
        (record m' { ids = delete text_dec name m'.ids }, ok id)
  ]

  unfoldable pub set_all : NodeVnidMap z → List NetNamespace → NodeVnidMap z
  set_all m [] = m
  set_all m (net ∷ rest) = set_all (set_vnid m net.net_name net.net_id) rest

  unfoldable pub populate_vnids :
      (e : EtcdManager) → NodeVnidMap z → e.Store → (NodeVnidMap z × e.Store) × Result (Unit {0})
  unfolding set_all
  populate_vnids e m w =
      let (w', answer) = e.get_net_namespaces w in
      elim answer [ err x ↦ ((m, w'), err x) | ok netns_list ↦ ((set_all m netns_list, w'), ok tt) ]
