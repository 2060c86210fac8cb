-- ===== src/Base/Decimal.antt =====
-- Numbers in decimal, as `fmt` prints them with `%d`.
use Prim.Native.Nat.{ℕ, zero, suc, ◌+◌, ◌/◌, ◌%◌}
use mathlib.Core.Path.{◌≡◌, refl}
use mathlib.Core.List.{[], ◌∷◌}
use k8s_ovs.Base.Tests.{Text, codes, ltb, if◌then◌else◌}

-- The digits of `n` in front of `rest`; `n` has fewer digits than the fuel `suc n`.
unfoldable pub digits_onto : ℕ → ℕ → Text → Text
digits_onto zero n rest = rest
digits_onto (suc fuel) n rest =
    let more = digits_onto fuel (n / 10) ((b'0' + n % 10) ∷ rest) in
    if ltb n 10 then (b'0' + n) ∷ rest else more

unfoldable pub decimal : ℕ → Text
unfolding digits_onto
decimal n = digits_onto (suc n) n []

decimal_many : decimal 16777215 ≡ codes "16777215"
unfolding decimal
decimal_many = refl
