-- ===== src/Base/Split.antt =====
-- `strings.Split` on a text that is joined from parts.
use Prim.Native.Nat.{ℕ}
use mathlib.Core.Path.{◌≡◌, refl}
use mathlib.Core.Bool.{false}
use mathlib.Core.List.{[], ◌∷◌, ◌++◌}
use native.Mathlib.Omega.{arith}
use k8s_ovs.Base.Tests.{Text, ◌==◌}
use k8s_ovs.Base.Strings.{split}

-- A text without a byte.
abbrev pub Lacks : ℕ → Text → Type 0
Lacks sep [] = Unit {0}
Lacks sep (c ∷ s) = ((c == sep) ≡ false) × Lacks sep s

pub split-append :
    (t s : Text) (sep : ℕ) → Lacks sep t → split (t ++ (sep ∷ s)) sep ≡ t ∷ split s sep
unfolding split
split-append [] s sep n = ground arith
split-append (c ∷ t) s sep n = ground (arith, split-append t s sep n.1)

pub split_lacking : (t : Text) (sep : ℕ) → Lacks sep t → split t sep ≡ t ∷ []
unfolding split
split_lacking [] sep n = refl
split_lacking (c ∷ t) sep n = ground (arith, split_lacking t sep n.1)

pub Lacks-append : (t s : Text) (sep : ℕ) → Lacks sep t → Lacks sep s → Lacks sep (t ++ s)
Lacks-append [] s sep n m = m
Lacks-append (c ∷ t) s sep n m = (n.0, Lacks-append t s sep n.1 m)
