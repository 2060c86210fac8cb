-- ===== src/Snalloc/Layout.antt =====
-- pkg/snalloc/subnet_allocator.go: where the subnets of an allocator lie, from the shifts and the masks
-- that `NewSubnetAllocator` chooses.
use native.Mathlib.Nat.{
  pow-suc, pow-le-pow_right, one-le-pow, mod-eq_of_lt, mod-lt, mul-le-mul_right, mul-div-mul_right,
  div-div-eq-div-mul, mod-mod_of_dvd, dvd-mul_right, mul-add-mod_self_right, div-add-mod',
}
use Prim.Native.Nat.{bit_and, bit_or}
use k8s_ovs.Base.{
  ℕ, zero, suc, ◌+◌, ◌-◌, ◌*◌, ◌/◌, ◌%◌, ◌^◌, ◌≤◌, ◌<◌, ◌≡◌, refl, sym, ap, ◌∙◌, arith, dec_lt,
}
use k8s_ovs.Snalloc.{shift_left, shift_right, less_one}
use k8s_ovs.Snalloc.Bits.{
  bit_or_apart, bit_and_low, bit_and_nothing, bit_and_middle, bit_or_nothing,
}
use k8s_ovs.Snalloc.Rotation.{rotate, upper_digit}

add_zero : (m : ℕ) → m + 0 ≡ m
add_zero m = omega arith

add_suc : (m n : ℕ) → m + suc n ≡ suc (m + n)
add_suc m n = omega arith

pub two_pow_add : (m n : ℕ) → 2 ^ (m + n) ≡ 2 ^ m * 2 ^ n
two_pow_add m zero = rw (add_zero m) (omega arith)
two_pow_add m (suc n) =
    rw (add_suc m n, pow-suc 2 (m + n), pow-suc 2 n) (omega (arith, two_pow_add m n))

pub pow_pos : (n : ℕ) → 0 < 2 ^ n
pow_pos n = one-le-pow n 2 (omega arith)

pow_32 : (n : ℕ) → n ≤ 32 → 2 ^ n ≤ 4294967296
pow_32 n low = pow-le-pow_right {n = 2} (omega arith) low

pub mul_less : (x y k : ℕ) → x < y → 0 < k → x * k < y * k
mul_less x y k low pos = let le : suc x ≤ y = low in omega (arith, pos, mul-le-mul_right k le)

-- `1 << k - 1` in a uint32.
pub less_one-shift_left : (k : ℕ) → k ≤ 32 → less_one (shift_left 1 k) ≡ 2 ^ k - 1
less_one-shift_left k low = elim (dec_lt k 32) [
  | yes less ↦
      let half : 2 ^ k ≤ 2 ^ 31 = pow-le-pow_right {n = 2} (omega arith) {j = 31} (omega arith) in
      omega (arith, pow_pos k, half)
  | no at_most ↦ let same : k ≡ 32 = omega arith in rw same refl
]

-- A shift that loses no bit.
pub shift_left_fits : (x k n : ℕ) → x < 2 ^ n → n + k ≤ 32 → shift_left x k ≡ x * 2 ^ k
shift_left_fits x k n low fits =
    let less : x * 2 ^ k < 2 ^ n * 2 ^ k = mul_less x (2 ^ n) (2 ^ k) low (pow_pos k) in
    mod-eq_of_lt (omega (arith, less, two_pow_add n k, pow_32 (n + k) fits))

-- A remainder by a power that divides 2 ^ 32.
mod_32 : (x k : ℕ) → k ≤ 32 → x % 4294967296 % 2 ^ k ≡ x % 2 ^ k
mod_32 x k low =
    let whole : k + (32 - k) ≡ 32 = omega arith in
    let power : 2 ^ 32 ≡ 2 ^ (k + (32 - k)) = ap (λ (t : ℕ). 2 ^ t) (sym whole) in
    ap (λ (t : ℕ). x % t % 2 ^ k) (power ∙ two_pow_add k (32 - k))
    ∙ mod-mod_of_dvd (2 ^ k) x (dvd-mul_right (2 ^ k) (2 ^ (32 - k)))

-- A remainder of a multiple.
multiple_mod : (x p k : ℕ) → 0 < p → 0 < k → x * k % (p * k) ≡ x % p * k
multiple_mod x p k pos pos' =
    let split : x * k ≡ x / p * (p * k) + x % p * k =
      ap (λ (t : ℕ). t * k) (sym (div-add-mod' x p)) ∙ omega arith in
    let less : x % p * k < p * k = mul_less (x % p) p k (mod-lt x pos) pos' in
    ap (λ (t : ℕ). t % (p * k)) split
    ∙ mul-add-mod_self_right (x / p) (p * k) (x % p * k)
    ∙ mod-eq_of_lt less

sums : (p l h : ℕ) → p + l + h ≡ p + (h + l)
sums p l h = omega arith

-- The parts of an address of a subnet: the number has `p` bits and `l` more, the hosts have `h`.
left_part :
    (p l h n : ℕ)
    → p + l + h ≤ 32
    → n < 2 ^ (p + l)
    → bit_and (shift_left (shift_left n h) l) (2 ^ (p + l + h) - 1) ≡ n % 2 ^ p * 2 ^ (h + l)
left_part p l h n fits low =
    let power : 2 ^ (p + l + h) ≡ 2 ^ p * 2 ^ (h + l) =
      ap (λ (t : ℕ). 2 ^ t) (sums p l h) ∙ two_pow_add p (h + l) in
    let moved : n * 2 ^ h * 2 ^ l ≡ n * 2 ^ (h + l) = rw (two_pow_add h l) (omega arith) in
    ap (λ (t : ℕ). bit_and (shift_left t l) (2 ^ (p + l + h) - 1))
      (shift_left_fits n h (p + l) low fits)
    ∙ bit_and_low (p + l + h) (shift_left (n * 2 ^ h) l)
    ∙ mod_32 (n * 2 ^ h * 2 ^ l) (p + l + h) fits
    ∙ ap (λ (t : ℕ). t % 2 ^ (p + l + h)) moved
    ∙ ap (λ (t : ℕ). n * 2 ^ (h + l) % t) power
    ∙ multiple_mod n (2 ^ p) (2 ^ (h + l)) (pow_pos p) (pow_pos (h + l))

right_part :
    (p l h n : ℕ)
    → p + l + h ≤ 32
    → n < 2 ^ (p + l)
    → bit_and (shift_right (shift_left n h) p) ((2 ^ l - 1) * 2 ^ h) ≡ n / 2 ^ p * 2 ^ h
right_part p l h n fits low =
    let low' : n < 2 ^ p * 2 ^ l = omega (arith, low, two_pow_add p l) in
    ap (λ (t : ℕ). bit_and (shift_right t p) ((2 ^ l - 1) * 2 ^ h))
      (shift_left_fits n h (p + l) low fits)
    ∙ bit_and_middle h l (n * 2 ^ h / 2 ^ p)
    ∙ ap (λ (t : ℕ). t % 2 ^ l * 2 ^ h)
        (div-div-eq-div-mul (n * 2 ^ h) (2 ^ p) (2 ^ h) ∙ mul-div-mul_right n (2 ^ p) (pow_pos h))
    ∙ ap (λ (t : ℕ). t * 2 ^ h) (mod-eq_of_lt (upper_digit (2 ^ p) (2 ^ l) n (pow_pos p) low'))

-- The rotated number, above the bits of the hosts.
pub rotated_address :
    (p l h base n : ℕ)
    → p + l + h ≤ 32
    → n < 2 ^ (p + l)
    → bit_or
        (bit_or
          (base * 2 ^ (p + l + h))
          (bit_and (shift_left (shift_left n h) l) (2 ^ (p + l + h) - 1)))
        (bit_and (shift_right (shift_left n h) p) ((2 ^ l - 1) * 2 ^ h))
      ≡ base * 2 ^ (p + l + h) + rotate (2 ^ p) (2 ^ l) n * 2 ^ h
rotated_address p l h base n fits low =
    let upper = 2 ^ (h + l) in
    let left = n % 2 ^ p * upper in
    let right = n / 2 ^ p * 2 ^ h in
    let whole : 2 ^ (p + l + h) ≡ 2 ^ p * upper =
      ap (λ (t : ℕ). 2 ^ t) (sums p l h) ∙ two_pow_add p (h + l) in
    let low' : n < 2 ^ p * 2 ^ l = omega (arith, low, two_pow_add p l) in
    let left_less : left < 2 ^ (p + l + h) =
      omega (
        arith,
        mul_less (n % 2 ^ p) (2 ^ p) upper (mod-lt n (pow_pos p)) (pow_pos (h + l)),
        whole,
      ) in
    let right_less : right < upper = omega (
      arith,
      mul_less (n / 2 ^ p) (2 ^ l) (2 ^ h) (upper_digit (2 ^ p) (2 ^ l) n (pow_pos p) low')
          (pow_pos h),
      two_pow_add h l,
    ) in
    let sum : base * 2 ^ (p + l + h) + left ≡ (base * 2 ^ p + n % 2 ^ p) * upper =
      rw whole (omega arith) in
    rw (left_part p l h n fits low, right_part p l h n fits low)
      (ap (λ (t : ℕ). bit_or t right) (bit_or_apart (p + l + h) base left left_less ∙ sum)
        ∙ bit_or_apart (h + l) (base * 2 ^ p + n % 2 ^ p) right right_less
        ∙ ap (λ (t : ℕ). t + right) (sym sum)
        ∙ (rw (two_pow_add h l) (omega arith)))

-- The number itself, above the bits of the hosts.
pub plain_address :
    (s h base n : ℕ)
    → s + h ≤ 32
    → n < 2 ^ s
    → bit_or
        (bit_or (base * 2 ^ (s + h)) (bit_and (shift_left (shift_left n h) 0) 4294967295))
        (bit_and (shift_right (shift_left n h) 0) 0)
      ≡ base * 2 ^ (s + h) + n * 2 ^ h
plain_address s h base n fits low =
    let less : n * 2 ^ h < 2 ^ (s + h) =
      omega (arith, mul_less n (2 ^ s) (2 ^ h) low (pow_pos h), two_pow_add s h) in
    let small : n * 2 ^ h < 4294967296 = omega (arith, less, pow_32 (s + h) fits) in
    let shifted : shift_left (shift_left n h) 0 ≡ n * 2 ^ h =
      ap (λ (t : ℕ). shift_left t 0) (shift_left_fits n h s low fits)
      ∙ (let one : n * 2 ^ h * 1 ≡ n * 2 ^ h = omega arith in rw one (mod-eq_of_lt small)) in
    rw (shifted, bit_and_nothing (shift_right (shift_left n h) 0))
      (bit_or_nothing (bit_or (base * 2 ^ (s + h)) (bit_and (n * 2 ^ h) 4294967295))
        ∙ ap (λ (t : ℕ). bit_or (base * 2 ^ (s + h)) t)
            (bit_and_low 32 (n * 2 ^ h) ∙ mod-eq_of_lt small)
        ∙ bit_or_apart (s + h) base (n * 2 ^ h) less)
