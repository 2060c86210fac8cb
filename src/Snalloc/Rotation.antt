-- ===== src/Snalloc/Rotation.antt =====
-- pkg/snalloc: the order in which `GetNetwork` numbers the subnets. It rotates the bits of the number,
-- which visits each subnet once.
use native.Mathlib.Nat.{
  mod-lt, mod-eq_of_lt, div-eq_of_lt, div-lt_iff_lt-mul, mul-add-div_right, mul-add-mod_self_right,
  div-add-mod', mul-le-mul_right,
}
use k8s_ovs.Base.{ℕ, suc, ◌+◌, ◌*◌, ◌/◌, ◌%◌, ◌≤◌, ◌<◌, ◌≡◌, refl, sym, ap, ◌∙◌, arith}

-- A function that maps the numbers below a bound to them, each to another.
pub record IsPermutation (bound : ℕ) (f : ℕ → ℕ) : Type 0 where
  pub below : (n : ℕ) → n < bound → f n < bound
  pub injective : (n m : ℕ) → n < bound → m < bound → f n ≡ f m → n ≡ m
  pub onto : (t : ℕ) → t < bound → (n : ℕ) × (n < bound) × (f n ≡ t)

pub same-IsPermutation : (bound : ℕ) → IsPermutation bound (λ n. n)
same-IsPermutation bound = record {
  below = λ n low. low;
  injective = λ n m p q e. e;
  onto = λ t low. (t, low, refl);
}

-- The digits of a number of two digits, the lower one below `p`, the other way round.
abbrev pub rotate : ℕ → ℕ → ℕ → ℕ
rotate p l n = n % p * l + n / p

pub upper_digit : (p l n : ℕ) → 0 < p → n < p * l → n / p < l
upper_digit p l n pos low = (div-lt_iff_lt-mul pos).1 (omega arith)

rotate_below : (p l n : ℕ) → 0 < p → n < p * l → rotate p l n < p * l
rotate_below p l n pos low =
    let upper = upper_digit p l n pos low in
    let lower : suc (n % p) ≤ p = mod-lt n pos in omega (arith, upper, mul-le-mul_right l lower)

rotate-rotate : (p l n : ℕ) → 0 < p → 0 < l → n < p * l → rotate l p (rotate p l n) ≡ n
rotate-rotate p l n pos pos' low =
    let upper = upper_digit p l n pos low in
    let remainder : rotate p l n % l ≡ n / p =
      mul-add-mod_self_right (n % p) l (n / p) ∙ mod-eq_of_lt upper in
    let quotient : rotate p l n / l ≡ n % p =
      mul-add-div_right pos' (n % p) (n / p)
      ∙ ap (λ (t : ℕ). n % p + t) (div-eq_of_lt upper)
      ∙ omega arith in
    rw (remainder, quotient) (div-add-mod' n p)

pub rotate-IsPermutation : (p l : ℕ) → 0 < p → 0 < l → IsPermutation (p * l) (rotate p l)
rotate-IsPermutation p l pos pos' = record {
  below = λ n low. rotate_below p l n pos low;
  injective = λ n m low low' e.
      sym (rotate-rotate p l n pos pos' low)
      ∙ ap (rotate l p) e
      ∙ rotate-rotate p l m pos pos' low';
  onto = λ t low.
      let low' : t < l * p = omega arith in
      (
        rotate l p t,
        omega (arith, rotate_below l p t pos' low'),
        rotate-rotate l p t pos' pos low',
      );
}
