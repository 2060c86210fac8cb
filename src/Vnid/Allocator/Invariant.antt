-- ===== src/Vnid/Allocator/Invariant.antt =====
-- The well-formedness of the allocator: it is built well formed, and every operation keeps it so.
use k8s_ovs.Base.{
  ℕ, ◌-◌, ◌<◌, ◌≡◌, refl, inl, inr, true, false, Result, ok, err, Option, none, some, arith, ◌∙◌,
}
use k8s_ovs.Vnid.Range.{NetIdRange, IsRange, range_to_string, InRange-cases}
use k8s_ovs.Vnid.Bitmap.{Bitmap, BitmapLaws}
use k8s_ovs.Vnid.Allocator.{
  Allocator, new, allocate, allocate_next, release, has, allocate_at, release_at,
}
use k8s_ovs.Vnid.Allocator.Laws.{
  IsAllocator, allocate_in, allocate_out, release_in, release_out, has_in, has_out,
}

module _ {b : Bitmap} (laws : BitmapLaws b) where
  pub new-IsAllocator :
      (r : NetIdRange)
      → IsRange r
      → IsAllocator laws (new b r) × ((id : ℕ) → has b id (new b r) ≡ false)
  unfolding new
  new-IsAllocator r v = (
    record {
      range = v;
      sized = laws.limit-create r.size _;
      within = λ i h. cc (h, laws.has-create r.size (range_to_string r) i);
    },
    λ id. elim (InRange-cases r id) [
      | inl i ↦ has_in b (new b r) id i ∙ laws.has-create _ _ _
      | inr o ↦ has_out b (new b r) id o
    ],
  )

  -- The bitmap may be replaced by one as large whose offsets stay in the range.
  replaced :
      (a : Allocator b) (s : b.State)
      → IsAllocator laws a
      → laws.limit s ≡ laws.limit a.alloc
      → ((i : ℕ) → b.has i s ≡ true → i < a.net_id_range.size)
      → IsAllocator laws (record a { alloc = s })
  replaced a s v e w = record { range = v.range; sized = e ∙ v.sized; within = w }

  pub allocate-IsAllocator :
      (id : ℕ) (a : Allocator b) → IsAllocator laws a → IsAllocator laws (allocate b id a).0
  unfolding allocate_at
  allocate-IsAllocator id a v = elim (InRange-cases a.net_id_range id) [
    | inr o ↦ rw (allocate_out b a id o) v
    | inl i ↦ rw (allocate_in b a id i) (
        replaced a _ v (laws.limit-allocate _ _) (λ j h.
          ground (arith, laws.has-allocate (id - a.net_id_range.base) j a.alloc, v.within j)))
  ]

  pub release-IsAllocator :
      (id : ℕ) (a : Allocator b) → IsAllocator laws a → IsAllocator laws (release b id a).0
  unfolding release_at
  release-IsAllocator id a v = elim (InRange-cases a.net_id_range id) [
    | inr o ↦ rw (release_out b a id o) v
    | inl i ↦ rw (release_in b a id i) (
        replaced a _ v (laws.limit-release _ _) (λ j h.
          ground (arith, laws.has-release (id - a.net_id_range.base) j a.alloc, v.within j)))
  ]

  pub allocate_next-IsAllocator :
      (a : Allocator b) → IsAllocator laws a → IsAllocator laws (allocate_next b a).0
  unfolding allocate_next
  allocate_next-IsAllocator a v = go (b.allocate_next a.alloc).1 refl
    where
      go :
          (answer : Result (Option ℕ))
          → (b.allocate_next a.alloc).1 ≡ answer
          → IsAllocator laws (allocate_next b a).0
      go (err x) q = absurd (laws.next_no_error a.alloc x q)
      go (ok none) q =
          let (kept, _) = laws.next_full a.alloc (λ i m. rw v.sized (v.within i m)) q in
          replaced a _ v (laws.limit-next _) (rw kept v.within)
      go (ok (some i)) q =
          let (low, _) = laws.next_free a.alloc i q in
          replaced a _ v (laws.limit-next _)
            (λ j h. ground (arith, laws.has-next a.alloc i j q, v.within j, v.sized))
