-- ===== src/Base/Strings.antt =====
-- What the program uses of Go's package strings, over bytes. `to_lower` and `trim_space` treat ASCII.
use Prim.Native.Nat.{ℕ, zero, suc, ◌+◌}
use mathlib.Core.Path.{◌≡◌, refl}
use mathlib.Core.Bool.{Bool, true, false, ◌&&◌, ◌||◌}
use mathlib.Core.Option.{Option, none, some}
use mathlib.Core.List.{List, [], ◌∷◌, ◌++◌, map}
use k8s_ovs.Base.Tests.{Text, codes, leb, ◌==◌, if◌then◌else◌}

-- `strings.HasPrefix(s, p)`.
unfoldable pub has_prefix : Text → Text → Bool
has_prefix s [] = true
has_prefix [] (c ∷ p) = false
has_prefix (d ∷ s) (c ∷ p) = let rest = has_prefix s p in if d == c then rest else false

-- `strings.Contains(s, sub)`.
unfoldable pub contains : Text → Text → Bool
unfolding has_prefix
contains [] sub = has_prefix [] sub
contains (c ∷ s) sub = let rest = contains s sub in if has_prefix (c ∷ s) sub then true else rest

-- `s[n:]`; the source only cuts within the text.
abbrev pub drop : ℕ → Text → Text
drop zero s = s
drop (suc n) [] = []
drop (suc n) (c ∷ s) = drop n s

-- The text from the first occurrence of `sub` on; `none` if `strings.Index` is -1.
unfoldable pub from_index : Text → Text → Option Text
unfolding has_prefix
from_index [] sub = if has_prefix [] sub then some [] else none
from_index (c ∷ s) sub =
    let rest = from_index s sub in if has_prefix (c ∷ s) sub then some (c ∷ s) else rest

abbrev pub onto_first : ℕ → List Text → List Text
onto_first c [] = (c ∷ []) ∷ []
onto_first c (t ∷ l) = (c ∷ t) ∷ l

-- `strings.Split(s, sep)` for a separator of one byte.
unfoldable pub split : Text → ℕ → List Text
split [] sep = [] ∷ []
split (c ∷ s) sep = let rest = split s sep in if c == sep then [] ∷ rest else onto_first c rest

abbrev pub is_space : ℕ → Bool
is_space c = (leb 9 c && leb c 13) || c == 32

unfoldable pub trim_left : Text → Text
trim_left [] = []
trim_left (c ∷ s) = let rest = trim_left s in if is_space c then rest else c ∷ s

-- Without the spaces at the end.
unfoldable pub trim_right : Text → Text
trim_right [] = []
trim_right (c ∷ s) =
    let rest = trim_right s in
    elim rest [ [] ↦ if is_space c then [] else c ∷ [] | d ∷ t ↦ c ∷ d ∷ t ]

-- `strings.TrimSpace`.
unfoldable pub trim_space : Text → Text
unfolding trim_left trim_right
trim_space s = trim_left (trim_right s)

-- `strings.ToLower`.
unfoldable pub to_lower : Text → Text
to_lower = map (λ c. if leb 65 c && leb c 90 then c + 32 else c)

-- `strings.Join(l, sep)`.
unfoldable pub intercalate : Text → List Text → Text
intercalate sep [] = []
intercalate sep (t ∷ []) = t
intercalate sep (t ∷ u ∷ l) = t ++ (sep ++ intercalate sep (u ∷ l))

split_args : split (codes "a=b;c") b';' ≡ codes "a=b" ∷ codes "c" ∷ []
unfolding split
split_args = refl

trim_both : trim_space (codes " a b  ") ≡ codes "a b"
unfolding trim_space
trim_both = refl
