-- ===== src/Snalloc/Bits.antt =====
-- The bit operations of `GetNetwork` as arithmetic: a mask of low bits, a mask of bits in the middle, and
-- the union of parts that share no bit.
use Prim.Native.Nat.{min, max, digits, bitwise, bit_and, bit_or, bit_and-bitwise, bit_or-bitwise}
use native.Mathlib.Nat.{pow-suc, one-le-pow, le_refl, div-add-mod', mod-lt}
use k8s_ovs.Base.{
  ℕ, zero, suc, ◌+◌, ◌-◌, ◌*◌, ◌/◌, ◌%◌, ◌^◌, ◌≤◌, ◌<◌, ◌≡◌, refl, sym, ◌∙◌, ap, arith,
}

-- The count of digits does not matter once it is that of the first number.
digits_enough :
    (z : ℕ → ℕ) (f : ℕ → ℕ → ℕ) (n k a b : ℕ)
    → (a ≤ n) × (a ≤ k)
    → digits z f n a b ≡ digits z f k a b
digits_enough z f zero zero a b low = refl
digits_enough z f (suc n) (suc k) zero b low = refl
digits_enough z f zero (suc k) zero b low = refl
digits_enough z f (suc n) zero zero b low = refl
digits_enough z f zero (suc k) (suc a) b low = absurd (omega (arith, low.0))
digits_enough z f (suc n) zero (suc a) b low = absurd (omega (arith, low.1))
digits_enough z f (suc n) (suc k) (suc a) b (p, q) =
    ap (λ (t : ℕ). t * 2 + f (suc a % 2) (b % 2))
      (digits_enough z f n k (suc a / 2) (b / 2) (omega arith, omega arith))

lowest_digit :
    (z : ℕ → ℕ) (f : ℕ → ℕ → ℕ) (a b : ℕ)
    → bitwise z f (suc a) b ≡ bitwise z f (suc a / 2) (b / 2) * 2 + f (suc a % 2) (b % 2)
lowest_digit z f a b =
    ap (λ (t : ℕ). t * 2 + f (suc a % 2) (b % 2))
      (digits_enough z f a (suc a / 2) (suc a / 2) (b / 2) (omega arith, le_refl _))

and_digit : (a b : ℕ) → bit_and a b ≡ bit_and (a / 2) (b / 2) * 2 + min (a % 2) (b % 2)
and_digit zero b = simp bit_and-bitwise (omega arith)
and_digit (suc a) b = simp bit_and-bitwise (lowest_digit (λ y. 0) min a b)

or_digit : (a b : ℕ) → bit_or a b ≡ bit_or (a / 2) (b / 2) * 2 + max (a % 2) (b % 2)
or_digit zero b = simp bit_or-bitwise (omega arith)
or_digit (suc a) b = simp bit_or-bitwise (lowest_digit (λ y. y) max a b)

-- With a bound on the number of digits, a digit at a time.
or_nothing : (n a : ℕ) → a ≤ n → bit_or a 0 ≡ a
or_nothing zero zero low = simp bit_or-bitwise (omega arith)
or_nothing zero (suc a) low = absurd (omega arith)
or_nothing (suc n) zero low = simp bit_or-bitwise (omega arith)
or_nothing (suc n) (suc a) low =
    omega (arith, or_digit (suc a) 0, or_nothing n (suc a / 2) (omega arith))

and_nothing : (n a : ℕ) → a ≤ n → bit_and a 0 ≡ 0
and_nothing zero zero low = simp bit_and-bitwise (omega arith)
and_nothing zero (suc a) low = absurd (omega arith)
and_nothing (suc n) zero low = simp bit_and-bitwise (omega arith)
and_nothing (suc n) (suc a) low =
    omega (arith, and_digit (suc a) 0, and_nothing n (suc a / 2) (omega arith))

doubled : (q k : ℕ) → q * 2 ^ suc k ≡ 2 * (q * 2 ^ k)
doubled q k = omega (arith, ap (λ (t : ℕ). q * t) (pow-suc 2 k))

-- The union of a number that has no bit below the `k`th with one that has no other is their sum.
pub bit_or_apart : (k q r : ℕ) → r < 2 ^ k → bit_or (q * 2 ^ k) r ≡ q * 2 ^ k + r
bit_or_apart zero q zero low = ground (arith, or_nothing q q (le_refl q))
bit_or_apart zero q (suc r) low = absurd (omega arith)
bit_or_apart (suc k) q r low = ground (
  arith,
  or_digit (q * 2 ^ suc k) r,
  doubled q k,
  pow-suc 2 k,
  bit_or_apart k q (r / 2) (omega (arith, pow-suc 2 k)),
)

low_bits : (k q r : ℕ) → r < 2 ^ k → bit_and (q * 2 ^ k + r) (2 ^ k - 1) ≡ r
low_bits zero q zero low = ground (arith, and_nothing q q (le_refl q))
low_bits zero q (suc r) low = absurd (omega arith)
low_bits (suc k) q r low = ground (
  arith,
  and_digit (q * 2 ^ suc k + r) (2 ^ suc k - 1),
  doubled q k,
  pow-suc 2 k,
  one-le-pow k 2,
  low_bits k q (r / 2) (omega (arith, pow-suc 2 k)),
)

middle_bits :
    (h l q m r : ℕ)
    → r < 2 ^ h
    → m < 2 ^ l
    → bit_and ((q * 2 ^ l + m) * 2 ^ h + r) ((2 ^ l - 1) * 2 ^ h) ≡ m * 2 ^ h
middle_bits zero l q m zero small low = ground (arith, low_bits l q m low)
middle_bits zero l q m (suc r) small low = absurd (omega arith)
middle_bits (suc h) l q m r small low = ground (
  arith,
  and_digit ((q * 2 ^ l + m) * 2 ^ suc h + r) ((2 ^ l - 1) * 2 ^ suc h),
  doubled (q * 2 ^ l + m) h,
  doubled (2 ^ l - 1) h,
  doubled m h,
  pow-suc 2 h,
  middle_bits h l q m (r / 2) (omega (arith, pow-suc 2 h)) low,
)

-- A mask of the lowest `k` bits is the remainder by their power.
pub bit_and_low : (k x : ℕ) → bit_and x (2 ^ k - 1) ≡ x % 2 ^ k
bit_and_low k x =
    let pos = one-le-pow k 2 (omega arith) in
    let split = div-add-mod' x (2 ^ k) in
    sym (ap (λ (t : ℕ). bit_and t (2 ^ k - 1)) split)
    ∙ low_bits k (x / 2 ^ k) (x % 2 ^ k) (mod-lt x pos)

pub bit_and_nothing : (x : ℕ) → bit_and x 0 ≡ 0
bit_and_nothing x = and_nothing x x (le_refl x)

-- A mask of the `l` bits from the `h`th on.
pub bit_and_middle : (h l x : ℕ) → bit_and x ((2 ^ l - 1) * 2 ^ h) ≡ x / 2 ^ h % 2 ^ l * 2 ^ h
bit_and_middle h l x = ground (
  arith,
  div-add-mod' x (2 ^ h),
  div-add-mod' (x / 2 ^ h) (2 ^ l),
  middle_bits h l (x / 2 ^ h / 2 ^ l) (x / 2 ^ h % 2 ^ l) (x % 2 ^ h)
      (mod-lt x (one-le-pow h 2 (omega arith))) (mod-lt (x / 2 ^ h) (one-le-pow l 2 (omega arith))),
)

pub bit_or_nothing : (x : ℕ) → bit_or x 0 ≡ x
bit_or_nothing x = or_nothing x x (le_refl x)
