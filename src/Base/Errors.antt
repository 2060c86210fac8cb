-- ===== src/Base/Errors.antt =====
-- Go's `(value, error)` results. The errors that the code tells apart have constructors of their own.
use Prim.Native.Nat.{ℕ}
use Prim.Native.String.{String}
use mathlib.Core.Path.{◌≡◌, refl}
use mathlib.Core.Logic.{◌⊎◌, inl, inr}

pub data Error : Type 0 where
  -- The sentinel errors of pkg/vnid/netid/allocator.go.
  err_full err_not_in_range err_allocated : Error
  -- `etcd.Error`, by its fields `Code` and `Index`.
  etcd_error : ℕ → ℕ → Error
  -- `context.Canceled` and `context.DeadlineExceeded`.
  canceled deadline_exceeded : Error
  -- Any other error: `fmt.Errorf` and `errors.New`, by the constant part of the message.
  message : String → Error

pub data Result {ℓ} (A : Type ℓ) : Type ℓ where
  ok : A → Result A
  err : Error → Result A

infixl 5 ◌>>=◌
abbrev pub ◌>>=◌ {ℓ κ} : {A : Type ℓ} {B : Type κ} → Result A → (A → Result B) → Result B
ok a >>= f = f a
err e >>= f = err e

pub Result-cases {ℓ} :
    {A : Type ℓ} (r : Result A) → ((a : A) × (r ≡ ok a)) ⊎ ((e : Error) × (r ≡ err e))
Result-cases (ok a) = inl (a, refl)
Result-cases (err e) = inr (e, refl)
