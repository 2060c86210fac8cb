-- ===== src/Base/Atoi.antt =====
-- `strconv.Atoi` on 64 bits, and the integers that it gives.
use Prim.Native.Nat.{ℕ, ◌+◌, ◌-◌, ◌*◌}
use mathlib.Core.Path.{◌≡◌, refl}
use mathlib.Core.Bool.{Bool, true, false, ◌&&◌}
use mathlib.Core.Option.{Option, none, some}
use mathlib.Core.List.{[], ◌∷◌}
use k8s_ovs.Base.Tests.{Text, codes, leb, ◌==◌, if◌then◌else◌}
use k8s_ovs.Base.Errors.{Result, ok, err, message}

-- `negsuc n` is -(n + 1).
pub data ℤ : Type 0 where
  pos : ℕ → ℤ
  negsuc : ℕ → ℤ

-- The number that the digits continue; `none` at a byte that is no digit.
unfoldable pub digits_value : ℕ → Text → Option ℕ
digits_value n [] = some n
digits_value n (c ∷ s) =
    let rest = digits_value (n * 10 + (c - b'0')) s in
    if leb b'0' c && leb c b'9' then rest else none

-- At least one digit.
unfoldable pub magnitude : Text → Option ℕ
unfolding digits_value
magnitude [] = none
magnitude (c ∷ s) = digits_value 0 (c ∷ s)

abbrev pub minus : ℕ → ℤ
minus n = if n == 0 then pos 0 else negsuc (n - 1)

unfoldable pub signed : Bool → Option ℕ → Result ℤ
signed negative none = err (message "invalid syntax")
signed true (some n) =
    if leb n 9223372036854775808 then ok (minus n) else err (message "value out of range")
signed false (some n) =
    if leb n 9223372036854775807 then ok (pos n) else err (message "value out of range")

unfoldable pub atoi : Text → Result ℤ
unfolding magnitude signed
atoi [] = err (message "invalid syntax")
atoi (c ∷ s) =
    if c == b'-'
    then signed true (magnitude s)
    else if c == b'+'
    then signed false (magnitude s)
    else signed false (magnitude (c ∷ s))

atoi_negative : atoi (codes "-1") ≡ ok (negsuc 0)
unfolding atoi
atoi_negative = refl
