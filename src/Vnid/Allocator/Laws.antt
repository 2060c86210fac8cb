-- ===== src/Vnid/Allocator/Laws.antt =====
-- The allocator as a set of netids: which ids it holds after each operation, and what it answers.
use k8s_ovs.Base.{
  ℕ, ◌+◌, ◌-◌, ◌≤◌, ◌<◌, ◌≡◌, refl, ◌⊎◌, inl, inr, Bool, true, false, Result, ok, err, err_full,
  err_not_in_range, err_allocated, Error, Option, none, some, ite, ℕ_discrete, arith, if◌then◌else◌,
  ap,
}
use k8s_ovs.Vnid.Range.{NetIdRange, IsRange, contains-in, contains-out, InRange-cases}
use k8s_ovs.Vnid.Bitmap.{Bitmap, BitmapLaws}
use k8s_ovs.Vnid.Allocator.{
  Allocator, allocate, allocate_next, release, has, has_at, allocate_at, release_at, next_id,
}

abbrev pub InRange : NetIdRange → ℕ → Type 0
InRange r id = (r.base ≤ id) × (id < r.base + r.size)

module _ {b : Bitmap} (laws : BitmapLaws b) where
  -- The range is one of the accepted ones, and the bitmap is as large.
  pub record IsAllocator (a : Allocator b) : Type 0 where
    pub range : IsRange a.net_id_range
    pub sized : laws.limit a.alloc ≡ a.net_id_range.size
    pub within : (i : ℕ) → b.has i a.alloc ≡ true → i < a.net_id_range.size

module _ (b : Bitmap) (a : Allocator b) (id : ℕ) where
  pub has_in : InRange a.net_id_range id → has b id a ≡ b.has (id - a.net_id_range.base) a.alloc
  unfolding has
  has_in h = rw (contains-in a.net_id_range id h.0 h.1, has_at)

  pub has_out :
      (id < a.net_id_range.base) ⊎ (a.net_id_range.base + a.net_id_range.size ≤ id)
      → has b id a ≡ false
  unfolding has
  has_out h = rw (contains-out a.net_id_range id h, has_at)

  pub allocate_in :
      InRange a.net_id_range id → allocate b id a ≡ allocate_at b a (true, id - a.net_id_range.base)
  unfolding allocate
  allocate_in h = rw (contains-in a.net_id_range id h.0 h.1)

  pub allocate_out :
      (id < a.net_id_range.base) ⊎ (a.net_id_range.base + a.net_id_range.size ≤ id)
      → allocate b id a ≡ (a, err err_not_in_range)
  unfolding allocate
  allocate_out h = rw (contains-out a.net_id_range id h, allocate_at)

  pub release_in :
      InRange a.net_id_range id → release b id a ≡ release_at b a (true, id - a.net_id_range.base)
  unfolding release
  release_in h = rw (contains-in a.net_id_range id h.0 h.1)

  pub release_out :
      (id < a.net_id_range.base) ⊎ (a.net_id_range.base + a.net_id_range.size ≤ id)
      → release b id a ≡ (a, ok tt)
  unfolding release
  release_out h = rw (contains-out a.net_id_range id h, release_at)

-- A change of the bitmap at one offset is a change of the held ids at one id.
has_update :
    (b : Bitmap) (a : Allocator b) (s : b.State) (v : Bool) (id j : ℕ)
    → InRange a.net_id_range id
    → b.has (j - a.net_id_range.base) s
      ≡ ite
          (ℕ_discrete (id - a.net_id_range.base) (j - a.net_id_range.base))
          v
          (b.has (j - a.net_id_range.base) a.alloc)
    → has b j (record a { alloc = s }) ≡ ite (ℕ_discrete id j) v (has b j a)
has_update b a s v id j h e = elim (InRange-cases a.net_id_range j) [
  | inl inside ↦ ground (arith, has_in b a j inside, has_in b (record a { alloc = s }) j inside)
  | inr outside ↦
      ground (arith, has_out b a j outside, has_out b (record a { alloc = s }) j outside)
]

module _ {b : Bitmap} (laws : BitmapLaws b) (a : Allocator b) where
  -- `Allocate` of an id in the range: it is held afterwards, the answer is ErrAllocated exactly if
  -- it was held before, and no other id changes.
  pub allocate-InRange :
      (id : ℕ)
      → InRange a.net_id_range id
      → ((allocate b id a).1 ≡ (if has b id a then err err_allocated else ok tt))
        × ((j : ℕ) → has b j (allocate b id a).0 ≡ ite (ℕ_discrete id j) true (has b j a))
  unfolding allocate_at
  allocate-InRange id h = (
    answer,
    λ j. rw (allocate_in b a id h) (has_update b a _ true id j h (laws.has-allocate _ _ a.alloc)),
  )
    where
      offset : ℕ
      offset = id - a.net_id_range.base

      answer : (allocate b id a).1 ≡ (if has b id a then err err_allocated else ok tt)
      answer =
          rw
            (
              allocate_in b a id h,
              allocate_at,
              laws.allocate_result offset a.alloc,
              has_in b a id h,
            )
            (ground arith)

  -- An id out of the range: an error, and no change.
  pub allocate_out_of_range :
      (id : ℕ) → ¬ InRange a.net_id_range id → allocate b id a ≡ (a, err err_not_in_range)
  allocate_out_of_range id h = elim (InRange-cases a.net_id_range id) [
    | inl i ↦ absurd (h i)
    | inr o ↦ allocate_out b a id o
  ]

  -- `Release` never fails: the id is free afterwards, in the range or not, and no other id
  -- changes.
  pub release_frees :
      (id : ℕ)
      → ((release b id a).1 ≡ ok tt)
        × ((j : ℕ) → has b j (release b id a).0 ≡ ite (ℕ_discrete id j) false (has b j a))
  release_frees id = elim (InRange-cases a.net_id_range id) [
    | inl i ↦ (
      rw (release_in b a id i) (unfold release_at in laws.release_result _ a.alloc),
      λ j.
          rw (release_in b a id i)
            (unfold release_at in has_update b a _ false id j i (laws.has-release _ _ a.alloc)),
    )
    | inr o ↦ (
      rw (release_out b a id o),
      λ j. rw (release_out b a id o) (ground (arith, has_out b a id o)),
    )
  ]

  -- If `AllocateNext` hands out an id on an allocator that is well formed, the id is in the range
  -- and was not held, it is held afterwards, and no other id changes.
  pub allocate_next_fresh :
      (id : ℕ)
      → IsAllocator laws a
      → (allocate_next b a).1 ≡ ok id
      → InRange a.net_id_range id
        × (has b id a ≡ false)
        × ((j : ℕ) → has b j (allocate_next b a).0 ≡ ite (ℕ_discrete id j) true (has b j a))
  unfolding allocate_next next_id
  allocate_next_fresh id v e = go (b.allocate_next a.alloc).1 refl e
    where
      go :
          (answer : Result (Option ℕ))
          → (b.allocate_next a.alloc).1 ≡ answer
          → next_id b a answer ≡ ok id
          → InRange a.net_id_range id
            × (has b id a ≡ false)
            × ((j : ℕ) → has b j (allocate_next b a).0 ≡ ite (ℕ_discrete id j) true (has b j a))
      go (err x) q r = cc
      go (ok none) q r = cc
      go (ok (some i)) q r =
          let (low, unused) = laws.next_free a.alloc i q in
          let there : id ≡ a.net_id_range.base + i = ground (arith, v.sized) in
          let inside : InRange a.net_id_range id = omega (arith, v.sized) in
          let same : id - a.net_id_range.base ≡ i = omega arith in
          (
            inside,
            rw (has_in b a id inside, same) unused,
            λ j. has_update b a _ true id j inside (rw same (laws.has-next a.alloc i _ q)),
          )

  -- `AllocateNext` on an allocator that is well formed fails only with ErrFull, when every id of
  -- the range is held, and nothing changes then.
  pub allocate_next_full :
      (e : Error)
      → IsAllocator laws a
      → (allocate_next b a).1 ≡ err e
      → (e ≡ err_full)
        × ((allocate_next b a).0 ≡ a)
        × ((id : ℕ) → InRange a.net_id_range id → has b id a ≡ true)
  unfolding allocate_next next_id
  allocate_next_full e v h = go (b.allocate_next a.alloc).1 refl h
    where
      go :
          (answer : Result (Option ℕ))
          → (b.allocate_next a.alloc).1 ≡ answer
          → next_id b a answer ≡ err e
          → (e ≡ err_full)
            × ((allocate_next b a).0 ≡ a)
            × ((id : ℕ) → InRange a.net_id_range id → has b id a ≡ true)
      go (err x) q r = absurd (laws.next_no_error a.alloc x q)
      go (ok (some i)) q r = cc
      go (ok none) q r =
          let (kept, full) = laws.next_full a.alloc (λ i m. rw v.sized (v.within i m)) q in
          (
            cc,
            ap (λ s. record a { alloc = s }) kept,
            λ id i. rw (has_in b a id i) (full _ (omega (arith, v.sized))),
          )
