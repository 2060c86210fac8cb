-- ===== src/NodeVnids/Invariant.antt =====
-- The two maps of a node say the same: a namespace is in the set of a VNID exactly if it has that VNID.
use k8s_ovs.Base.{
  map_laws, ℕ, ◌≡◌, ◌≢◌, refl, inl, inr, Bool, true, false, Option, none, some, Text, text_dec,
  ℕ_discrete, lookup, insert, lookup-insert, lookup-delete, ite, arith, Option-cases,
}
use k8s_ovs.NodeVnids.{NodeVnidMap, add_namespace_to_set, remove_namespace_from_set, set_vnid}
use k8s_ovs.NodeVnids.Sets.{StringSets, SetLaws}

module _ (z : StringSets) where
  -- The namespace is in the set of the VNID.
  abbrev pub in_set : Option z.Set → Text → Bool
  in_set none name = false
  in_set (some s) name = z.has name s

  abbrev pub member : NodeVnidMap z → ℕ → Text → Bool
  member m id name = in_set (lookup ℕ_discrete id m.namespaces) name

  abbrev pub is_id : Option ℕ → ℕ → Bool
  is_id none id = false
  is_id (some x) id = ite (ℕ_discrete x id) true false

  pub record IsConsistent (m : NodeVnidMap z) : Type 0 where
    pub agree : (id : ℕ) (name : Text) → member m id name ≡ is_id (lookup text_dec name m.ids) id
    -- No set is empty.
    pub inhabited : (id : ℕ) (s : z.Set) → lookup ℕ_discrete id m.namespaces ≡ some s → z.len s ≢ 0

module _ {z : StringSets} (laws : SetLaws z) where
  member-add :
      (m : NodeVnidMap z) (name n : Text) (id j : ℕ)
      → member z (add_namespace_to_set z m name id) j n
        ≡ ite (ℕ_discrete id j) (ite (text_dec name n) true (member z m j n)) (member z m j n)
  unfolding add_namespace_to_set
  member-add m name n id j = elim (Option-cases (lookup ℕ_discrete id m.namespaces)) [
    | inl e ↦ ground (
      arith,
      e,
      lookup-insert ℕ_discrete id j (z.insert name z.new) m.namespaces,
      laws.has-insert name n z.new,
      laws.has-new n,
    )
    | inr (s, e) ↦ ground (
      arith,
      e,
      lookup-insert ℕ_discrete id j (z.insert name s) m.namespaces,
      laws.has-insert name n s,
    )
  ]

  pub member-remove :
      (m : NodeVnidMap z) (name n : Text) (id j : ℕ)
      → member z (remove_namespace_from_set z m name id) j n
        ≡ ite (ℕ_discrete id j) (ite (text_dec name n) false (member z m j n)) (member z m j n)
  unfolding remove_namespace_from_set
  member-remove m name n id j = elim (Option-cases (lookup ℕ_discrete id m.namespaces)) [
    | inl e ↦ ground (arith, e)
    | inr (s, e) ↦ ground (
      arith,
      e,
      lookup-insert ℕ_discrete id j (z.delete name s) m.namespaces,
      lookup-delete ℕ_discrete id j m.namespaces,
      laws.has-delete name n s,
      laws.len_zero (z.delete name s) n,
    )
  ]

  inhabited-add :
      (m : NodeVnidMap z) (name : Text) (id j : ℕ) (s : z.Set)
      → ((s' : z.Set) → lookup ℕ_discrete j m.namespaces ≡ some s' → z.len s' ≢ 0)
      → lookup ℕ_discrete j (add_namespace_to_set z m name id).namespaces ≡ some s
      → z.len s ≢ 0
  unfolding add_namespace_to_set
  inhabited-add m name id j s before e = elim (Option-cases (lookup ℕ_discrete id m.namespaces)) [
    | inl h ↦
        let t = z.insert name z.new in
        ground (
          arith,
          h,
          before s,
          lookup-insert ℕ_discrete id j t m.namespaces,
          laws.has-insert name name z.new,
          laws.len_pos t name,
        )
    | inr (u, h) ↦
        let t = z.insert name u in
        ground (
          arith,
          h,
          before s,
          lookup-insert ℕ_discrete id j t m.namespaces,
          laws.has-insert name name u,
          laws.len_pos t name,
        )
  ]

  pub inhabited-remove :
      (m : NodeVnidMap z) (name : Text) (id j : ℕ) (s : z.Set)
      → ((s' : z.Set) → lookup ℕ_discrete j m.namespaces ≡ some s' → z.len s' ≢ 0)
      → lookup ℕ_discrete j (remove_namespace_from_set z m name id).namespaces ≡ some s
      → z.len s ≢ 0
  unfolding remove_namespace_from_set
  inhabited-remove m name id j s before e =
      elim (Option-cases (lookup ℕ_discrete id m.namespaces)) [
        | inl h ↦ ground (arith, h, before s)
        | inr (u, h) ↦ ground (
          arith,
          h,
          before s,
          lookup-insert ℕ_discrete id j (z.delete name u) m.namespaces,
          lookup-delete ℕ_discrete id j m.namespaces,
        )
      ]

  pub ids-remove :
      (m : NodeVnidMap z) (name : Text) (id : ℕ)
      → (remove_namespace_from_set z m name id).ids ≡ m.ids
  unfolding remove_namespace_from_set
  ids-remove m name id = ground arith

  ids-add :
      (m : NodeVnidMap z) (name : Text) (id : ℕ) → (add_namespace_to_set z m name id).ids ≡ m.ids
  unfolding add_namespace_to_set
  ids-add m name id = refl

  -- The two cases of `setVNID`, after the old VNID has been given up.
  regained-IsConsistent :
      (m m' : NodeVnidMap z) (name : Text) (id : ℕ)
      → IsConsistent z m
      → ((j : ℕ) (n : Text) → member z m' j n ≡ ite (text_dec name n) false (member z m j n))
      → ((j : ℕ) (s : z.Set) → lookup ℕ_discrete j m'.namespaces ≡ some s → z.len s ≢ 0)
      → m'.ids ≡ m.ids
      → IsConsistent z
          (add_namespace_to_set z (record m' { ids = insert text_dec name id m'.ids }) name id)
  unfolding add_namespace_to_set
  regained-IsConsistent m m' name id v without full same =
      let mid : NodeVnidMap z = record m' { ids = insert text_dec name id m'.ids } in
      record {
        agree = λ j n. ground (
          arith,
          member-add mid name n id j,
          without j n,
          v.agree j n,
          same,
          lookup-insert text_dec name n id m'.ids,
        );
        inhabited = λ j s e. inhabited-add mid name id j s (full j) e;
      }

  -- `setVNID` keeps the two maps in agreement, gives the namespace the VNID, and changes no other.
  pub set_vnid-IsConsistent :
      (m : NodeVnidMap z) (name : Text) (id : ℕ)
      → IsConsistent z m
      → IsConsistent z (set_vnid z m name id)
        × ((other : Text)
            → lookup text_dec other (set_vnid z m name id).ids
              ≡ ite (text_dec name other) (some id) (lookup text_dec other m.ids))
  unfolding set_vnid add_namespace_to_set
  set_vnid-IsConsistent m name id v = elim (Option-cases (lookup text_dec name m.ids)) [
    | inl e ↦ rw e (
      regained-IsConsistent m m name id v (λ j n. ground (arith, v.agree j n, e)) v.inhabited refl,
      λ other. grind map_laws,
    )
    | inr (old, e) ↦
        let m' = remove_namespace_from_set z m name old in
        rw e (
          regained-IsConsistent m m' name id v
              (λ j n. ground (arith, member-remove m name n old j, v.agree j n, e))
              (λ j s. inhabited-remove m name old j s (v.inhabited j)) (ids-remove m name old),
          λ other.
              ground (arith, ids-remove m name old, lookup-insert text_dec name other id m'.ids),
        )
  ]
