-- ===== src/Vnid/Allocator.antt =====
-- pkg/vnid/netid/allocator.go: netids handed out of a range, over the bitmap of offsets.
pub mod Laws
pub mod Invariant
use k8s_ovs.Base.{
  ℕ, ◌-◌, ◌≡◌, Bool, true, false, Result, ok, err, err_full, err_not_in_range, err_allocated, Error,
  Option, none, some, Text,
}
use k8s_ovs.Vnid.Range.{NetIdRange, contains, add32, range_to_string}
use k8s_ovs.Vnid.Bitmap.{Bitmap}

-- `Allocator`, over the state of the bitmap.
pub record Allocator (b : Bitmap) : Type 0 where
  pub net_id_range : NetIdRange
  pub alloc : b.State

module _ (b : Bitmap) where
  -- `New`, with the factory of `NewInMemory`.
  unfoldable pub new : NetIdRange → Allocator b
  unfolding range_to_string
  new r = record { net_id_range = r; alloc = b.create r.size (range_to_string r) }

  unfoldable pub free : Allocator b → ℕ
  free a = b.free a.alloc

  -- The error of `Allocate`, from the answer of the bitmap.
  unfoldable pub allocated : Result Bool → Result (Unit {0})
  allocated (err e) = err e
  allocated (ok true) = ok tt
  allocated (ok false) = err err_allocated

  unfoldable pub allocate_at : Allocator b → Bool × ℕ → Allocator b × Result (Unit {0})
  unfolding allocated
  allocate_at a (false, offset) = (a, err err_not_in_range)
  allocate_at a (true, offset) =
      let (s, answer) = b.allocate offset a.alloc in (record a { alloc = s }, allocated answer)

  unfoldable pub allocate : ℕ → Allocator b → Allocator b × Result (Unit {0})
  unfolding contains allocate_at
  allocate id a = allocate_at a (contains a.net_id_range id)

  unfoldable pub next_id : Allocator b → Result (Option ℕ) → Result ℕ
  next_id a (err e) = err e
  next_id a (ok none) = err err_full
  next_id a (ok (some offset)) = ok (add32 a.net_id_range.base offset)

  unfoldable pub allocate_next : Allocator b → Allocator b × Result ℕ
  unfolding next_id
  allocate_next a =
      let (s, answer) = b.allocate_next a.alloc in (record a { alloc = s }, next_id a answer)

  unfoldable pub release_at : Allocator b → Bool × ℕ → Allocator b × Result (Unit {0})
  release_at a (false, offset) = (a, ok tt)
  release_at a (true, offset) =
      let (s, answer) = b.release offset a.alloc in (record a { alloc = s }, answer)

  unfoldable pub release : ℕ → Allocator b → Allocator b × Result (Unit {0})
  unfolding contains release_at
  release id a = release_at a (contains a.net_id_range id)

  unfoldable pub has_at : Allocator b → Bool × ℕ → Bool
  has_at a (false, offset) = false
  has_at a (true, offset) = b.has offset a.alloc

  unfoldable pub has : ℕ → Allocator b → Bool
  unfolding contains has_at
  has id a = has_at a (contains a.net_id_range id)
