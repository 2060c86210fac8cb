-- ===== src/Base/Actions.antt =====
-- Calls that change a world and answer with a value or an error; the world after an error is kept.
use mathlib.Core.Path.{◌≡◌}
use mathlib.Core.Logic.{inl, inr}
use native.Mathlib.Omega.{arith}
use k8s_ovs.Base.Errors.{Error, Result, ok, err, Result-cases}

abbrev pub Action : Type 0 → Type 0 → Type 0
Action W A = W → W × Result A

module _ {W : Type 0} where
  abbrev pub pure : {A : Type 0} → A → Action W A
  pure a w = (w, ok a)

  abbrev pub raise : {A : Type 0} → Error → Action W A
  raise e w = (w, err e)

  infixl 5 ◌>>=◌ ◌>>◌
  abbrev pub ◌>>=◌ : {A B : Type 0} → Action W A → (A → Action W B) → Action W B
  ◌>>=◌ m f w = let (w', answer) = m w in elim answer [ ok a ↦ f a w' | err e ↦ (w', err e) ]

  abbrev pub ◌>>◌ : {A B : Type 0} → Action W A → Action W B → Action W B
  m >> k = m >>= λ _. k

  -- A call whose answer is dropped, an error too.
  abbrev pub drop_error : {A : Type 0} → Action W A → Action W (Unit {0})
  drop_error m w = ((m w).0, ok tt)

  -- The error of a call in a message of its own.
  abbrev pub or_else : {A : Type 0} → Action W A → Error → Action W A
  or_else m e w = let (w', answer) = m w in (w', elim answer [ ok a ↦ ok a | err _ ↦ err e ])

  -- A call deferred to the end of another one, whatever that one answers.
  abbrev pub deferred : {A : Type 0} → (W → W) → Action W A → Action W A
  deferred last m w = let (w', answer) = m w in (last w', answer)

  -- A call that runs another one if it fails.
  abbrev pub unless_ok : {A : Type 0} → Action W (Unit {0}) → Action W A → Action W A
  unless_ok release m w =
      let (w', answer) = m w in elim answer [ ok a ↦ (w', ok a) | err e ↦ ((release w').0, err e) ]

-- A call of which the answer is known.
module _ {W A B : Type 0} (m : Action W A) (f : A → Action W B) (w : W) where
  pub >>=-ok : (a : A) → (m w).1 ≡ ok a → (m >>= f) w ≡ f a (m w).0
  >>=-ok a done = ground (arith, done)

  pub >>=-err : (e : Error) → (m w).1 ≡ err e → (m >>= f) w ≡ ((m w).0, err e)
  >>=-err e failed = ground (arith, failed)

  -- A call that answered, in two steps.
  pub >>=-ok_cases :
      (b : B) → ((m >>= f) w).1 ≡ ok b → (a : A) × ((m w).1 ≡ ok a) × ((f a (m w).0).1 ≡ ok b)
  >>=-ok_cases b e = elim (Result-cases (m w).1) [
    | inl (a, done) ↦ (a, done, ground (arith, done, e))
    | inr (x, failed) ↦ absurd (ground (arith, failed, e))
  ]

-- What calls leave as it was.
module _ {W : Type 0} (I : W → Type 0) where
  abbrev pub Keeps : {A : Type 0} → Action W A → Type 0
  Keeps m = (w : W) → I w → I (m w).0

  -- The same, if the call fails.
  abbrev pub KeepsOnError : {A : Type 0} → Action W A → Type 0
  KeepsOnError m = (w : W) (e : Error) → (m w).1 ≡ err e → I w → I (m w).0

  pub >>=-Keeps :
      {A B : Type 0} (m : Action W A) (f : A → Action W B)
      → Keeps m
      → ((a : A) → Keeps (f a))
      → Keeps (m >>= f)
  >>=-Keeps m f first next w i = elim (Result-cases (m w).1) [
    | inl (a, done) ↦ rw (◌>>=◌, done) (next a (m w).0 (first w i))
    | inr (e, failed) ↦ rw (◌>>=◌, failed) (first w i)
  ]

  pub >>=-KeepsOnError :
      {A B : Type 0} (m : Action W A) (f : A → Action W B)
      → Keeps m
      → ((a : A) → KeepsOnError (f a))
      → KeepsOnError (m >>= f)
  >>=-KeepsOnError m f first next w e failed i = elim (Result-cases (m w).1) [
    | inl (a, done) ↦ ground (arith, done, failed, next a (m w).0 e, first w i)
    | inr (d, stopped) ↦ ground (arith, stopped, first w i)
  ]
