-- ===== src/MasterVnids/Populate.antt =====
-- `newMasterVNIDMap` and `populateVNIDs`: the map with which the master starts.
use k8s_ovs.Base.{
  ℕ, ◌^◌, ◌≤◌, ◌<◌, ◌≡◌, refl, ◌⊎◌, inl, inr, false, ok, Option, none, some, List, [], ◌∷◌, map,
  Text, text_dec, lookup, insert, lookup-insert, insert-Distinct, Distinct, ◌==◌, arith, ◌∙◌, sym,
}
use k8s_ovs.Vnid.Range.{NetIdRange, IsRange}
use k8s_ovs.Vnid.Bitmap.{Bitmap, BitmapLaws}
use k8s_ovs.Vnid.Allocator.{Allocator, has, new}
use k8s_ovs.Vnid.Allocator
use k8s_ovs.Vnid.Allocator.Laws.{InRange, allocate-InRange}
use k8s_ovs.Vnid.Allocator.Invariant.{new-IsAllocator, allocate-IsAllocator}
use k8s_ovs.Etcd.{NetNamespace}
use k8s_ovs.MasterVnids.{
  MasterVnidMap, Ids, new_master_vnid_map, populate_one, populate_all, sdn_namespace, count_value,
}
use k8s_ovs.MasterVnids.Count.{count-insert}
use k8s_ovs.MasterVnids.Invariant.{IsValid, set-Holds_shared}

Option_ext {ℓ} :
    {A : Type ℓ} (o p : Option A)
    → ((a : A) → o ≡ some a → p ≡ some a)
    → ((a : A) → p ≡ some a → o ≡ some a)
    → o ≡ p
Option_ext none none f g = refl
Option_ext none (some a) f g = g a refl
Option_ext (some a) p f g = sym (f a refl)

-- The range from MinVNID to MaxVNID.
abbrev whole : NetIdRange
whole = record { base = 10; size = 16777206 }

whole-IsRange : IsRange whole
whole-IsRange = record {
  above_reserved = omega arith;
  nonempty = omega arith;
  below_max = omega arith;
}

range-allocate :
    (b : Bitmap) (id : ℕ) (a : Allocator b)
    → (Allocator.allocate b id a).0.net_id_range ≡ a.net_id_range
unfolding Allocator.allocate
range-allocate b id a = ground arith

-- What `newMasterVNIDMap` builds.
abbrev pub empty_map : (b : Bitmap) → MasterVnidMap b
empty_map b = record {
  ids = [];
  net_id_manager = new b whole;
  admin_namespaces = sdn_namespace ∷ [];
}

pub new_master_vnid_map-ok : (b : Bitmap) → new_master_vnid_map b ≡ ok (empty_map b)
unfolding new_master_vnid_map
new_master_vnid_map-ok b = refl

module _ {b : Bitmap} (laws : BitmapLaws b) where
  pub empty_map-IsValid : IsValid laws (empty_map b)
  unfolding count_value
  empty_map-IsValid =
      let (proper, empty) = new-IsAllocator laws whole whole-IsRange in
      record { allocator = proper; distinct = tt; agree = λ id pos. ground (arith, empty id) }

  -- The master starts without a panic, with no namespace and one admin namespace.
  pub new_master_vnid_map-IsValid :
      (m : MasterVnidMap b) × (new_master_vnid_map b ≡ ok m)
      × IsValid laws m
      × (m.ids ≡ [])
      × (m.admin_namespaces ≡ sdn_namespace ∷ [])
  new_master_vnid_map-IsValid =
      (empty_map b, new_master_vnid_map-ok b, empty_map-IsValid, refl, refl)

  -- One namespace that the map does not have yet, with the global id or one of the range.
  populate_one-IsValid :
      (m : MasterVnidMap b) (n : NetNamespace)
      → IsValid laws m
      → lookup text_dec n.net_name m.ids ≡ none
      → (n.net_id ≡ 0) ⊎ InRange m.net_id_manager.net_id_range n.net_id
      → ((populate_one b m n).1 ≡ ok tt)
        × IsValid laws (populate_one b m n).0
        × ((populate_one b m n).0.ids ≡ insert text_dec n.net_name n.net_id m.ids)
        × ((populate_one b m n).0.net_id_manager.net_id_range ≡ m.net_id_manager.net_id_range)
  unfolding populate_one
  populate_one-IsValid m n v absent (inl zero_id) =
      rw (zero_id, populate_one)
        (refl, set-Holds_shared laws m n.net_name 0 v absent (inl refl), refl, refl)
  populate_one-IsValid m n v absent (inr inside) =
      let (answer, held) = allocate-InRange laws m.net_id_manager n.net_id inside in
      let other_id : (n.net_id == 0) ≡ false = ground (arith, v.allocator.range) in
      rw (other_id, populate_one)
        (
          rw answer (ground arith),
          record {
            allocator = allocate-IsAllocator laws n.net_id m.net_id_manager v.allocator;
            distinct = insert-Distinct text_dec n.net_name n.net_id m.ids v.distinct;
            agree = λ id pos. ground (
              arith,
              v.agree id pos,
              held id,
              count-insert id n.net_id n.net_name m.ids v.distinct,
            );
          },
          refl,
          range-allocate b n.net_id m.net_id_manager,
        )

-- The names and ids of the netnamespaces that etcd holds.
abbrev pub pairs : List NetNamespace → Ids
pairs = map (λ n. (n.net_name, n.net_id))

-- Each id is the global one or lies between MinVNID and MaxVNID.
abbrev pub Assignable : List NetNamespace → Type 0
Assignable [] = Unit
Assignable (n ∷ l) = ((n.net_id ≡ 0) ⊎ ((10 ≤ n.net_id) × (n.net_id < 2 ^ 24))) × Assignable l

module _ {b : Bitmap} (laws : BitmapLaws b) where
  populate_more-IsValid :
      (m : MasterVnidMap b) (l : List NetNamespace)
      → IsValid laws m
      → m.net_id_manager.net_id_range ≡ whole
      → Distinct text_dec (pairs l)
      → Assignable l
      → ((name : Text)
          → (lookup text_dec name m.ids ≡ none) ⊎ (lookup text_dec name (pairs l) ≡ none))
      → ((populate_all b m l).1 ≡ ok tt)
        × IsValid laws (populate_all b m l).0
        × ((name : Text) (id : ℕ)
            → lookup text_dec name (populate_all b m l).0.ids ≡ some id
            → (lookup text_dec name m.ids ≡ some id) ⊎ (lookup text_dec name (pairs l) ≡ some id))
        × ((name : Text) (id : ℕ)
            → (lookup text_dec name m.ids ≡ some id) ⊎ (lookup text_dec name (pairs l) ≡ some id)
            → lookup text_dec name (populate_all b m l).0.ids ≡ some id)
  unfolding populate_all lookup
  populate_more-IsValid m [] v r d a apart =
      (refl, v, λ name id h. inl h, λ name id h. ground arith)
  populate_more-IsValid m (n ∷ l) v r d a apart =
      let absent : lookup text_dec n.net_name m.ids ≡ none = ground (arith, apart n.net_name) in
      let (answer, valid, ids, range) =
        populate_one-IsValid laws m n v absent (ground (arith, r)) in
      let look = λ (name : Text). lookup-insert text_dec n.net_name name n.net_id m.ids in
      let (all, done, only, every) =
        populate_more-IsValid (populate_one b m n).0 l valid (range ∙ r) d.1 a.1
          (λ name. ground (arith, apart name, look name, ids, d.0)) in
      rw (answer, populate_all)
        (
          all,
          done,
          λ name id h. ground (arith, only name id h, look name, ids),
          λ name id h. every name id (ground (arith, look name, ids, d.0, apart name)),
        )

  from_empty :
      (l : List NetNamespace)
      → Distinct text_dec (pairs l)
      → Assignable l
      → let r = populate_all b (empty_map b) l in
        (r.1 ≡ ok tt)
        × IsValid laws r.0
        × ((name : Text) → lookup text_dec name r.0.ids ≡ lookup text_dec name (pairs l))
  unfolding lookup new
  from_empty l d a =
      let (all, done, only, every) =
        populate_more-IsValid (empty_map b) l (empty_map-IsValid laws) refl d a
          (λ name. inl refl) in
      (
        all,
        done,
        λ name.
            Option_ext _ _ (λ id h. ground (arith, only name id h)) (λ id h. every name id (inr h)),
      )

  -- From the map that the master starts with, and netnamespaces with distinct names whose ids are
  -- the global one or lie between MinVNID and MaxVNID: `populateVNIDs` succeeds, the map is valid,
  -- and each namespace has exactly the id that etcd has for it. Namespaces that share an id are no
  -- error.
  pub populate_all-IsValid :
      (m : MasterVnidMap b) (l : List NetNamespace)
      → new_master_vnid_map b ≡ ok m
      → Distinct text_dec (pairs l)
      → Assignable l
      → ((populate_all b m l).1 ≡ ok tt)
        × IsValid laws (populate_all b m l).0
        × ((name : Text)
            → lookup text_dec name (populate_all b m l).0.ids ≡ lookup text_dec name (pairs l))
  populate_all-IsValid m l e d a =
      let start : m ≡ empty_map b = cc (new_master_vnid_map-ok b) in rw start (from_empty l d a)
