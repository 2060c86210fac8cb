-- ===== src/Vnid/Bitmap.antt =====
-- The interface `allocator.Interface` of the Kubernetes service registry, which the netid allocator
-- calls: its operations over an abstract state, and the behaviour that it documents.
use k8s_ovs.Base.{
  ℕ, ◌<◌, ◌≡◌, ◌≢◌, Bool, true, false, not, Result, ok, err, Error, Option, none, some, ite,
  ℕ_discrete, Text,
}

-- `Allocate` gives `(bool, error)`; `AllocateNext` gives `(int, bool, error)`, its integer and its flag
-- read as an option.
pub record Bitmap : Type 1 where
  pub State : Type 0
  -- `allocatorFactory`: the size of the range and its printed form.
  pub create : ℕ → Text → State
  pub allocate : ℕ → State → State × Result Bool
  pub allocate_next : State → State × Result (Option ℕ)
  pub release : ℕ → State → State × Result (Unit {0})
  pub has : ℕ → State → Bool
  pub free : State → ℕ

-- What `NewAllocationMap` documents: a set of offsets below a maximum, and no errors of its own.
pub record BitmapLaws (b : Bitmap) : Type 0 where
  pub limit : b.State → ℕ
  pub limit-create : (n : ℕ) (t : Text) → limit (b.create n t) ≡ n
  pub has-create : (n : ℕ) (t : Text) (i : ℕ) → b.has i (b.create n t) ≡ false
  pub allocate_result : (i : ℕ) (s : b.State) → (b.allocate i s).1 ≡ ok (not (b.has i s))
  pub limit-allocate : (i : ℕ) (s : b.State) → limit (b.allocate i s).0 ≡ limit s
  pub has-allocate :
      (i j : ℕ) (s : b.State) → b.has j (b.allocate i s).0 ≡ ite (ℕ_discrete i j) true (b.has j s)
  pub release_result : (i : ℕ) (s : b.State) → (b.release i s).1 ≡ ok tt
  pub limit-release : (i : ℕ) (s : b.State) → limit (b.release i s).0 ≡ limit s
  pub has-release :
      (i j : ℕ) (s : b.State) → b.has j (b.release i s).0 ≡ ite (ℕ_discrete i j) false (b.has j s)
  pub next_no_error : (s : b.State) (e : Error) → (b.allocate_next s).1 ≢ err e
  pub limit-next : (s : b.State) → limit (b.allocate_next s).0 ≡ limit s
  pub next_free :
      (s : b.State) (i : ℕ)
      → (b.allocate_next s).1 ≡ ok (some i)
      → (i < limit s) × (b.has i s ≡ false)
  pub has-next :
      (s : b.State) (i j : ℕ)
      → (b.allocate_next s).1 ≡ ok (some i)
      → b.has j (b.allocate_next s).0 ≡ ite (ℕ_discrete i j) true (b.has j s)
  pub next_full :
      (s : b.State)
      → ((i : ℕ) → b.has i s ≡ true → i < limit s)
      → (b.allocate_next s).1 ≡ ok none
      → ((b.allocate_next s).0 ≡ s) × ((i : ℕ) → i < limit s → b.has i s ≡ true)
