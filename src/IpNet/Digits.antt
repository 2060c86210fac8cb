-- ===== src/IpNet/Digits.antt =====
-- A number comes back from its decimal digits.
use k8s_ovs.Base.{
  ℕ, zero, suc, ◌+◌, ◌-◌, ◌*◌, ◌/◌, ◌%◌, ◌≤◌, ◌<◌, ◌≡◌, refl, sym, ap, ◌∙◌, some, [], ◌∷◌, Text,
  digits_onto, decimal, arith, dec_lt,
}
use k8s_ovs.Base.Atoi.{digits_value, magnitude}
use k8s_ovs.Base.Split.{Lacks}
use k8s_ovs.IpNet.{number_to}

digits_onto_last :
    (fuel n : ℕ) (rest : Text) → n < 10 → digits_onto (suc fuel) n rest ≡ (48 + n) ∷ rest
unfolding digits_onto
digits_onto_last fuel n rest low = ground arith

digits_onto_next :
    (fuel n : ℕ) (rest : Text)
    → 10 ≤ n
    → digits_onto (suc fuel) n rest ≡ digits_onto fuel (n / 10) ((48 + n % 10) ∷ rest)
unfolding digits_onto
digits_onto_next fuel n rest high = ground arith

digits_value_digit :
    (n d : ℕ) (rest : Text)
    → d < 10
    → digits_value n ((48 + d) ∷ rest) ≡ digits_value (n * 10 + d) rest
unfolding digits_value
digits_value_digit n d rest low = let back : 48 + d - 48 ≡ d = omega arith in ground (arith, back)

-- The digits of a number, read as a number.
digits_value-digits_onto :
    (fuel n : ℕ) (rest : Text)
    → n ≤ fuel
    → digits_value 0 (digits_onto (suc fuel) n rest) ≡ digits_value n rest
digits_value-digits_onto zero n rest low =
    let small : n < 10 = omega arith in
    rw (digits_onto_last zero n rest small)
      (digits_value_digit 0 n rest small ∙ ap (λ (t : ℕ). digits_value t rest) (omega arith))
digits_value-digits_onto (suc fuel) n rest low = elim (dec_lt n 10) [
  | yes small ↦
      rw (digits_onto_last (suc fuel) n rest small)
        (digits_value_digit 0 n rest small ∙ ap (λ (t : ℕ). digits_value t rest) (omega arith))
  | no large ↦ rw (digits_onto_next (suc fuel) n rest (omega arith)) (
      digits_value-digits_onto fuel (n / 10) ((48 + n % 10) ∷ rest) (omega arith)
      ∙ digits_value_digit (n / 10) (n % 10) rest (omega arith)
      ∙ ap (λ (t : ℕ). digits_value t rest) (omega arith))
]

digits_onto-Lacks :
    (sep fuel n : ℕ) (rest : Text) → sep < 48 → Lacks sep rest → Lacks sep (digits_onto fuel n rest)
unfolding digits_onto
digits_onto-Lacks sep zero n rest low h = h
digits_onto-Lacks sep (suc fuel) n rest low h = elim (dec_lt n 10) [
  | yes small ↦ rw (digits_onto_last fuel n rest small) (ground arith, h)
  | no large ↦
      rw (digits_onto_next fuel n rest (omega arith))
        (digits_onto-Lacks sep fuel (n / 10) ((48 + n % 10) ∷ rest) low (ground arith, h))
]

pub decimal-Lacks : (sep n : ℕ) → sep < 48 → Lacks sep (decimal n)
unfolding decimal
decimal-Lacks sep n low = digits_onto-Lacks sep (suc n) n [] low tt

digits_onto_more :
    (fuel n c : ℕ) (rest : Text) → (d : ℕ) × (s : Text) × (digits_onto fuel n (c ∷ rest) ≡ d ∷ s)
unfolding digits_onto
digits_onto_more zero n c rest = (c, rest, refl)
digits_onto_more (suc fuel) n c rest = elim (dec_lt n 10) [
  | yes small ↦ (48 + n, c ∷ rest, digits_onto_last fuel n (c ∷ rest) small)
  | no large ↦
      let (d, s, e) = digits_onto_more fuel (n / 10) (48 + n % 10) (c ∷ rest) in
      (d, s, digits_onto_next fuel n (c ∷ rest) (omega arith) ∙ e)
]

decimal_more : (n : ℕ) → (d : ℕ) × (s : Text) × (decimal n ≡ d ∷ s)
unfolding decimal
decimal_more n = elim (dec_lt n 10) [
  | yes small ↦ (48 + n, [], digits_onto_last n n [] small)
  | no large ↦
      let (d, s, e) = digits_onto_more n (n / 10) (48 + n % 10) [] in
      (d, s, digits_onto_next n n [] (omega arith) ∙ e)
]

magnitude_more : (d : ℕ) (s : Text) → magnitude (d ∷ s) ≡ digits_value 0 (d ∷ s)
unfolding magnitude
magnitude_more d s = refl

value_none_left : (n : ℕ) → digits_value n [] ≡ some n
unfolding digits_value
value_none_left n = refl

decimal-digits_value : (n : ℕ) → digits_value 0 (decimal n) ≡ some n
unfolding decimal
decimal-digits_value n = digits_value-digits_onto n n [] (omega arith) ∙ value_none_left n

pub magnitude-decimal : (n : ℕ) → magnitude (decimal n) ≡ some n
magnitude-decimal n =
    let (d, s, e) = decimal_more n in
    ap magnitude e
    ∙ magnitude_more d s
    ∙ sym (ap (λ (t : Text). digits_value 0 t) e)
    ∙ decimal-digits_value n

pub number_to-decimal : (most n : ℕ) → n ≤ most → number_to most (decimal n) ≡ some n
unfolding number_to
number_to-decimal most n low = ground (arith, magnitude-decimal n)
