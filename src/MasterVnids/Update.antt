-- ===== src/MasterVnids/Update.antt =====
-- `allocateNetID` and `updateNetID`: which ids the namespaces have afterwards, on every branch.
use k8s_ovs.Base.{
  map_laws, ℕ, ◌^◌, ◌≤◌, ◌<◌, ◌≡◌, refl, ◌⊎◌, inl, inr, Bool, true, false, Result, ok, err,
  err_full, Error, none, some, Text, text_dec, lookup, insert, delete, if◌then◌else◌, arith,
  Bool-cases, Result-cases, ap,
}
use k8s_ovs.Vnid.Bitmap.{Bitmap, BitmapLaws}
use k8s_ovs.Vnid.Allocator.{Allocator, has}
use k8s_ovs.Vnid.Allocator
use k8s_ovs.Vnid.Allocator.Laws.{allocate_next_fresh, allocate_next_full}
use k8s_ovs.Vnid.Allocator.Invariant.{allocate_next-IsAllocator}
use k8s_ovs.MasterVnids.{
  MasterVnidMap, count_value, set_vnid, member, release_net_id, allocate_net_id, replace_net_id,
}
use k8s_ovs.MasterVnids.Invariant.{
  Holds, IsValid, set-Holds_fresh, set-Holds_shared, release-Holds, ids-release,
}

module _ {b : Bitmap} (laws : BitmapLaws b) (m : MasterVnidMap b) where
  -- The map after `AllocateNext`: the new id is held, unused and in the range.
  pub next-Holds :
      (x : ℕ)
      → IsValid laws m
      → (Allocator.allocate_next b m.net_id_manager).1 ≡ ok x
      → Holds laws x (record m { net_id_manager = (Allocator.allocate_next b m.net_id_manager).0 })
        × (count_value x m.ids ≡ 0)
        × (10 ≤ x)
        × (x < 2 ^ 24)
  next-Holds x v e =
      let (inside, unused, held) = allocate_next_fresh laws m.net_id_manager x v.allocator e in
      let high : 10 ≤ x = omega (arith, v.allocator.range) in
      let free : count_value x m.ids ≡ 0 = ground (arith, v.agree x) in
      (
        record {
          allocator = allocate_next-IsAllocator laws m.net_id_manager v.allocator;
          distinct = v.distinct;
          agree = λ id pos. ground (arith, v.agree id pos, held id);
        },
        free,
        high,
        omega (arith, v.allocator.range),
      )

  pub next_failed :
      (e : Error)
      → IsValid laws m
      → (Allocator.allocate_next b m.net_id_manager).1 ≡ err e
      → (record m { net_id_manager = (Allocator.allocate_next b m.net_id_manager).0 }) ≡ m
  next_failed e v h =
      ap (λ a. record m { net_id_manager = a })
        (allocate_next_full laws m.net_id_manager e v.allocator h).1

  -- `replaceNetID` with an id that is held in advance, or one that another namespace keeps.
  pub replace-IsValid :
      (extra : ℕ) (name : Text) (old x : ℕ) (flag : Bool)
      → Holds laws extra m
      → lookup text_dec name m.ids ≡ some old
      → ((extra ≡ x) × (count_value x m.ids ≡ 0))
        ⊎ ((extra ≡ 0) × ((x ≡ 0) ⊎ (0 < count_value x (delete text_dec name m.ids))))
      → IsValid laws (replace_net_id b m name x flag).0
        × ((replace_net_id b m name x flag).1 ≡ ok x)
        × ((replace_net_id b m name x flag).0.ids
            ≡ insert text_dec name x (delete text_dec name m.ids))
  unfolding replace_net_id
  replace-IsValid extra name old x flag v found h =
      let (answer, kept) = release-Holds laws extra m name old v found (ground arith) in
      let gone : lookup text_dec name (release_net_id b m name).0.ids ≡ none =
        rw (ids-release laws m name) (grind map_laws) in
      rw (answer, replace_net_id)
        (done kept gone, refl, ap (insert text_dec name x) (ids-release laws m name))
    where
      done :
          Holds laws extra (release_net_id b m name).0
          → lookup text_dec name (release_net_id b m name).0.ids ≡ none
          → IsValid laws (set_vnid b (release_net_id b m name).0 name x)
      done kept gone = elim h [
        | inl (same, _) ↦ set-Holds_fresh laws _ name x (rw same at kept) gone
        | inr (zero_extra, shared) ↦
            set-Holds_shared laws _ name x (rw zero_extra at kept) gone
              (rw (ids-release laws m name) shared)
      ]

  -- `allocateNetID`, an existing namespace: its id, and no change.
  pub allocate_net_id_known :
      (name : Text) (id : ℕ)
      → lookup text_dec name m.ids ≡ some id
      → allocate_net_id b m name ≡ (m, ok (id, true))
  unfolding allocate_net_id
  allocate_net_id_known name id found = rw (found, allocate_net_id)

  -- What `allocateNetID` makes of a new namespace: the global id for an admin namespace, else an id
  -- between MinVNID and MaxVNID that no namespace has, or ErrFull and no change.
  abbrev pub Allocates : Text → MasterVnidMap b × Result (ℕ × Bool) → Type 0
  Allocates name r =
      ((id : ℕ) × (r.1 ≡ ok (id, false))
        × (r.0.ids ≡ insert text_dec name id m.ids)
        × (if member name m.admin_namespaces
            then id ≡ 0
            else ((10 ≤ id) × (id < 2 ^ 24) × (count_value id m.ids ≡ 0))))
      ⊎ ((r ≡ (m, err err_full)) × (member name m.admin_namespaces ≡ false))

  -- `allocateNetID` for a namespace that a valid map does not have: the map stays valid, and the
  -- namespace gets the global id if it is an admin namespace, else an id between MinVNID and
  -- MaxVNID that no namespace has; or the result is ErrFull for a namespace that is no admin one,
  -- and nothing changes.
  pub allocate_net_id_new :
      (name : Text)
      → IsValid laws m
      → lookup text_dec name m.ids ≡ none
      → IsValid laws (allocate_net_id b m name).0 × Allocates name (allocate_net_id b m name)
  unfolding allocate_net_id
  allocate_net_id_new name v absent = elim (Bool-cases (member name m.admin_namespaces)) [
    | inl admin ↦
        rw (absent, admin, allocate_net_id)
          (set-Holds_shared laws m name 0 v absent (inl refl), inl (0, refl, refl, refl))
    | inr plain ↦ elim (Result-cases (Allocator.allocate_next b m.net_id_manager).1) [
      | inl (x, e) ↦
          let (held, unused, low, high) = next-Holds x v e in
          rw (absent, plain, e, allocate_net_id)
            (set-Holds_fresh laws _ name x held absent, inl (x, refl, refl, (low, high, unused)))
      | inr (x, e) ↦
          let full = (allocate_next_full laws m.net_id_manager x v.allocator e).0 in
          rw (absent, plain, e, allocate_net_id, next_failed x v e, full) (v, inr (refl, refl))
    ]
  ]
