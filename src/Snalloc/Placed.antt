-- ===== src/Snalloc/Placed.antt =====
-- pkg/snalloc/subnet_allocator.go: where the subnets of an allocator that `NewSubnetAllocator` returns
-- lie.
use Prim.Native.Nat.{bit_and, bit_or}
use mathlib.Core.Path.{subst}
use k8s_ovs.Base.{
  ==_iff, ℕ, ◌+◌, ◌-◌, ◌*◌, ◌/◌, ◌%◌, ◌^◌, ◌≤◌, ◌<◌, ◌≡◌, ◌≢◌, inl, inr, refl, sym, ap, ◌∙◌, Bool,
  true, not, ◌&&◌, ok, List, [], Text, ◌==◌, ltb, arith, Option-cases, Bool-cases,
}
use k8s_ovs.IpNet.{IpNet, parse_cidr}
use k8s_ovs.IpNet.Parsed.{IsMasked, parse_cidr-IsMasked}
use k8s_ovs.Snalloc.{
  SubnetAllocator, gen_subnet, new_subnet_allocator, in_use_map, shift_left, shift_right, less_one,
}
use k8s_ovs.Snalloc.Layout.{
  rotated_address, plain_address, less_one-shift_left, pow_pos, two_pow_add, shift_left_fits,
}
use k8s_ovs.Snalloc.Rotation.{rotate, rotate-IsPermutation, same-IsPermutation}
use k8s_ovs.Snalloc.Tiles.{IsPlaced, Tiles, ReadsBack, IsPlaced-Tiles, IsPlaced-ReadsBack}

abbrev rotates : ℕ → ℕ → Bool
rotates host_bits subnet_bits =
    not (host_bits % 8 == 0) && not ((host_bits - 1) / 8 == (host_bits + subnet_bits - 1) / 8)

-- The allocators of the two orders.
abbrev rotated : IpNet → ℕ → List (Text × Bool) → SubnetAllocator
rotated net_ip host_bits amap =
    let left_shift = 8 - host_bits % 8 in
    record {
      network = net_ip;
      host_bits = host_bits;
      left_shift = left_shift;
      left_mask = less_one (shift_left 1 (32 - net_ip.bits));
      right_shift = 32 - net_ip.bits - host_bits - left_shift;
      right_mask = shift_left (less_one (shift_left 1 left_shift)) host_bits;
      next = 0;
      alloc_map = amap;
    }

abbrev plain : IpNet → ℕ → List (Text × Bool) → SubnetAllocator
plain net_ip host_bits amap = record {
  network = net_ip;
  host_bits = host_bits;
  left_shift = 0;
  left_mask = 4294967295;
  right_shift = 0;
  right_mask = 0;
  next = 0;
  alloc_map = amap;
}

rotates-fits : (h s : ℕ) → rotates h s ≡ true → (8 - h % 8 ≤ s) × (0 < h)
rotates-fits h s e = elim (Bool-cases (h % 8 == 0)) [
  | inl whole ↦ absurd (ground (arith, whole, e))
  | inr odd ↦ elim (Bool-cases ((h - 1) / 8 == (h + s - 1) / 8)) [
    | inl one ↦ absurd (ground (arith, odd, one, e))
    | inr two ↦
        let odd' : h % 8 ≢ 0 = λ z. ground (arith, odd, (==_iff (h % 8) 0).1 z) in
        let two' : (h - 1) / 8 ≢ (h + s - 1) / 8 =
          λ z. ground (arith, two, (==_iff ((h - 1) / 8) ((h + s - 1) / 8)).1 z) in
        omega (arith, odd', two')
  ]
]

-- What `GetNetwork` computes of a number.
abbrev address :
    (host_bits left_shift right_shift number : ℕ) → (start left_mask right_mask : ℕ) → ℕ
address h l p m start left_mask right_mask =
    bit_or (bit_or start (bit_and (shift_left (shift_left m h) l) left_mask))
      (bit_and (shift_right (shift_left m h) p) right_mask)

module _ (n : IpNet) (h : ℕ) (amap : List (Text × Bool)) (k : IsMasked n)
    (low : h ≤ 32 - n.bits) where
  start_power : (s : ℕ) → s + h ≡ 32 - n.bits → n.ip ≡ k.base * 2 ^ (s + h)
  start_power s e = k.masked ∙ ap (λ (t : ℕ). k.base * 2 ^ t) (sym e)

  rotated-IsPlaced :
      (p l : ℕ)
      → l ≡ 8 - h % 8
      → p ≡ 32 - n.bits - h - l
      → rotates h (32 - n.bits - h) ≡ true
      → IsPlaced (rotated n h amap) (p + l) h k.base (rotate (2 ^ p) (2 ^ l))
  unfolding gen_subnet
  rotated-IsPlaced p l l_is p_is e =
      let (fits, pos) = rotates-fits h (32 - n.bits - h) e in
      let sum : p + l + h ≡ 32 - n.bits = omega (arith, fits, l_is, p_is, low) in
      let left : less_one (shift_left 1 (32 - n.bits)) ≡ 2 ^ (p + l + h) - 1 =
        less_one-shift_left (32 - n.bits) (omega arith) ∙ ap (λ (t : ℕ). 2 ^ t - 1) (sym sum) in
      let less : 2 ^ l - 1 < 2 ^ l = omega (arith, pow_pos l) in
      let right : shift_left (less_one (shift_left 1 l)) h ≡ (2 ^ l - 1) * 2 ^ h =
        ap (λ (t : ℕ). shift_left t h) (less_one-shift_left l (omega (arith, sum)))
        ∙ shift_left_fits (2 ^ l - 1) h l less (omega (arith, sum)) in
      record {
        whole = omega (arith, sum, k.bits_le, pos);
        host = refl;
        host_pos = pos;
        start_less = k.ip_less;
        start = start_power (p + l) sum;
        permutation =
            rw (two_pow_add p l) (rotate-IsPermutation (2 ^ p) (2 ^ l) (pow_pos p) (pow_pos l));
        placed = λ m below.
            rw⁻¹ (l_is, p_is)
              (ap
                  (λ (t : ℕ).
                    address h l p m t (less_one (shift_left 1 (32 - n.bits)))
                      (shift_left (less_one (shift_left 1 l)) h))
                  (start_power (p + l) sum)
                ∙ ap
                    (λ (t : ℕ).
                      address h l p m (k.base * 2 ^ (p + l + h)) t
                        (shift_left (less_one (shift_left 1 l)) h))
                    left
                ∙ ap (λ (t : ℕ). address h l p m (k.base * 2 ^ (p + l + h)) (2 ^ (p + l + h) - 1) t)
                    right
                ∙ rotated_address p l h k.base m (omega (arith, sum)) below);
      }

  plain-IsPlaced : h ≢ 0 → IsPlaced (plain n h amap) (32 - n.bits - h) h k.base (λ m. m)
  unfolding gen_subnet
  plain-IsPlaced some_bits =
      let s = 32 - n.bits - h in
      let sum : s + h ≡ 32 - n.bits = omega (arith, low) in
      record {
        whole = omega (arith, sum, k.bits_le);
        host = refl;
        host_pos = omega (arith, some_bits);
        start_less = k.ip_less;
        start = start_power s sum;
        permutation = same-IsPermutation (2 ^ s);
        placed = λ m below.
            ap (λ (t : ℕ). address h 0 0 m t 4294967295 0) (start_power s sum)
            ∙ plain_address s h k.base m (omega (arith, sum)) below;
      }

-- What is known of an allocator that `NewSubnetAllocator` returns.
pub record IsNew (a : SubnetAllocator) (in_use : List Text) : Type 0 where
  pub tiles : Tiles a
  pub reads_back : ReadsBack a
  pub marked : a.alloc_map ≡ in_use_map a.network in_use []

IsPlaced-IsNew :
    (a : SubnetAllocator) (in_use : List Text) (s h base : ℕ) (pos : ℕ → ℕ)
    → a.alloc_map ≡ in_use_map a.network in_use []
    → IsPlaced a s h base pos
    → IsNew a in_use
IsPlaced-IsNew a in_use s h base pos marked p = record {
  tiles = IsPlaced-Tiles a s h base pos p;
  reads_back = IsPlaced-ReadsBack a s h base pos p;
  marked = marked;
}

pub new_subnet_allocator-IsNew :
    (network : Text) (host_bits : ℕ) (in_use : List Text) (a : SubnetAllocator)
    → new_subnet_allocator network host_bits in_use ≡ ok a
    → IsNew a in_use
unfolding new_subnet_allocator
new_subnet_allocator-IsNew network host_bits in_use a e = elim (Option-cases (parse_cidr network)) [
  | inl bad ↦ absurd (ground (arith, bad, e))
  | inr (n, parsed) ↦
      let k = parse_cidr-IsMasked network n parsed in
      let amap = in_use_map n in_use [] in
      elim (Bool-cases (host_bits == 0)) [
        | inl none_left ↦ absurd (ground (arith, parsed, none_left, e))
        | inr some_bits ↦ elim (Bool-cases (ltb (32 - n.bits) host_bits)) [
          | inl large ↦ absurd (ground (arith, parsed, some_bits, large, e))
          | inr fits ↦
              let low : host_bits ≤ 32 - n.bits = ground (arith, fits) in
              elim (Bool-cases (rotates host_bits (32 - n.bits - host_bits))) [
                | inl yes_rotates ↦
                    let same : rotated n host_bits amap ≡ a =
                      ground (arith, parsed, some_bits, fits, yes_rotates, e) in
                    let l = 8 - host_bits % 8 in
                    let p = 32 - n.bits - host_bits - l in
                    subst (λ (c : SubnetAllocator). IsNew c in_use) same
                      (IsPlaced-IsNew _ in_use _ _ _ _ refl
                        (rotated-IsPlaced n host_bits amap k low p l refl refl yes_rotates))
                | inr no_rotates ↦
                    let same : plain n host_bits amap ≡ a =
                      ground (arith, parsed, some_bits, fits, no_rotates, e) in
                    let ne : host_bits ≢ 0 =
                      λ z. ground (arith, some_bits, (==_iff host_bits 0).1 z) in
                    subst (λ (c : SubnetAllocator). IsNew c in_use) same
                      (IsPlaced-IsNew _ in_use _ _ _ _ refl
                        (plain-IsPlaced n host_bits amap k low ne))
              ]
        ]
      ]
]

-- Whichever order `NewSubnetAllocator` chooses, the subnets of its allocator tile the network:
-- each address that a subnet contains is in the network, and each address of the network is in the
-- subnet of exactly one number.
pub new_subnet_allocator-Tiles :
    (network : Text) (host_bits : ℕ) (in_use : List Text) (a : SubnetAllocator)
    → new_subnet_allocator network host_bits in_use ≡ ok a
    → Tiles a
new_subnet_allocator-Tiles network host_bits in_use a e =
    (new_subnet_allocator-IsNew network host_bits in_use a e).tiles
