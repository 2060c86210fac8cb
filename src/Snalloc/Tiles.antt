-- ===== src/Snalloc/Tiles.antt =====
-- pkg/snalloc/subnet_allocator.go: the subnets that `GetNetwork` numbers divide the network.
use native.Mathlib.Nat.{
  mul-div_cancel, mul-le-mul_right, lt_of_mul-lt-mul_right, mod-lt, div-add-mod',
  div-div-eq-div-mul, mul-add-div_right, div-eq_of_lt, mod-eq_of_lt, pow-le-pow_right,
}
use k8s_ovs.Base.{
  ==_iff, ℕ, ◌+◌, ◌-◌, ◌*◌, ◌/◌, ◌%◌, ◌^◌, ◌≤◌, ◌<◌, ◌≡◌, ◌↔◌, sym, ap, ◌∙◌, true, some, arith,
}
use k8s_ovs.IpNet.{IpNet, parse_cidr, net_contains, net_to_string, mask}
use k8s_ovs.IpNet.RoundTrip.{parse_cidr-net_to_string}
use k8s_ovs.Snalloc.{SubnetAllocator, num_subnets, gen_subnet}
use k8s_ovs.Snalloc.Layout.{two_pow_add, mul_less, pow_pos}
use k8s_ovs.Snalloc.Rotation.{IsPermutation}

-- What a network contains, by the number of its prefix.
net_contains_iff :
    (k : IpNet) (ip q m : ℕ)
    → 2 ^ (32 - k.bits) ≡ m
    → 0 < m
    → k.ip ≡ q * m
    → (net_contains k ip ≡ true) ↔ (q ≡ ip / m)
unfolding net_contains mask
net_contains_iff k ip q m size pos start =
    let prefix : k.ip / m ≡ q = ap (λ (t : ℕ). t / m) start ∙ mul-div_cancel q pos in
    rw (size, prefix)
      (
        λ e.
            sym (mul-div_cancel q pos)
            ∙ ap (λ (t : ℕ). t / m) ((==_iff (q * m) (ip / m * m)).0 e)
            ∙ mul-div_cancel (ip / m) pos,
        λ e. (==_iff (q * m) (ip / m * m)).1 (ap (λ (t : ℕ). t * m) e),
      )

-- Where the subnets lie: `s` bits number them, `h` bits are for the hosts.
pub record IsPlaced (a : SubnetAllocator) (s h base : ℕ) (pos : ℕ → ℕ) : Type 0 where
  pub whole : a.network.bits + (s + h) ≡ 32
  pub host : a.host_bits ≡ h
  pub host_pos : 0 < h
  pub start_less : a.network.ip < 4294967296
  pub start : a.network.ip ≡ base * 2 ^ (s + h)
  pub permutation : IsPermutation (2 ^ s) pos
  pub placed : (n : ℕ) → n < 2 ^ s → (gen_subnet a n).ip ≡ base * 2 ^ (s + h) + pos n * 2 ^ h

-- Each address of a subnet is in the network, and each of the network is in one subnet.
pub record Tiles (a : SubnetAllocator) : Type 0 where
  pub inside :
      (n ip : ℕ)
      → n < num_subnets a
      → net_contains (gen_subnet a n) ip ≡ true
      → net_contains a.network ip ≡ true
  pub covered :
      (ip : ℕ)
      → net_contains a.network ip ≡ true
      → (n : ℕ) × (n < num_subnets a) × (net_contains (gen_subnet a n) ip ≡ true)
  pub alone :
      (n m ip : ℕ)
      → n < num_subnets a
      → m < num_subnets a
      → net_contains (gen_subnet a n) ip ≡ true
      → net_contains (gen_subnet a m) ip ≡ true
      → n ≡ m

-- The subnets come back from their texts.
abbrev pub ReadsBack : SubnetAllocator → Type 0
ReadsBack a =
    (n : ℕ)
    → n < num_subnets a
    → parse_cidr (net_to_string (gen_subnet a n)) ≡ some (gen_subnet a n)

module _ (a : SubnetAllocator) (s h base : ℕ) (pos : ℕ → ℕ) (p : IsPlaced a s h base pos) where
  num_subnets_power : num_subnets a ≡ 2 ^ s
  unfolding num_subnets
  num_subnets_power =
      let bits : 32 - a.network.bits - a.host_bits ≡ s = omega (arith, p.whole, p.host) in
      let low : s ≤ 31 = omega (arith, p.whole, p.host_pos) in
      let half : 2 ^ s ≤ 2 ^ 31 = pow-le-pow_right {n = 2} (omega arith) low in
      let small : 1 * 2 ^ s < 4294967296 = omega (arith, half) in
      rw bits (mod-eq_of_lt small ∙ omega arith)

  below_power : (n : ℕ) → n < num_subnets a → n < 2 ^ s
  below_power n low = omega (arith, low, num_subnets_power)

  host_part : (n : ℕ) → 32 - (gen_subnet a n).bits ≡ h
  unfolding gen_subnet
  host_part n = omega (arith, p.whole, p.host)

  upper : (q r : ℕ) → r < 2 ^ s → (q * 2 ^ s + r) / 2 ^ s ≡ q
  upper q r low =
      mul-add-div_right (pow_pos s) q r ∙ ap (λ (t : ℕ). q + t) (div-eq_of_lt low) ∙ omega arith

  in_network : (ip : ℕ) → (net_contains a.network ip ≡ true) ↔ (base ≡ ip / 2 ^ h / 2 ^ s)
  in_network ip =
      let bits : 32 - a.network.bits ≡ s + h = omega (arith, p.whole) in
      let parts : ip / 2 ^ (s + h) ≡ ip / 2 ^ h / 2 ^ s =
        ap (λ (t : ℕ). ip / t) (two_pow_add s h ∙ omega arith)
        ∙ sym (div-div-eq-div-mul ip (2 ^ h) (2 ^ s)) in
      rw⁻¹ parts (
        net_contains_iff a.network ip base (2 ^ (s + h)) (ap (λ (t : ℕ). 2 ^ t) bits)
          (pow_pos (s + h)) p.start)

  address_of_subnet : (n : ℕ) → n < 2 ^ s → (gen_subnet a n).ip ≡ (base * 2 ^ s + pos n) * 2 ^ h
  address_of_subnet n low = p.placed n low ∙ rw (two_pow_add s h) (omega arith)

  in_subnet :
      (n ip : ℕ)
      → n < 2 ^ s
      → (net_contains (gen_subnet a n) ip ≡ true) ↔ (base * 2 ^ s + pos n ≡ ip / 2 ^ h)
  in_subnet n ip low =
      net_contains_iff (gen_subnet a n) ip (base * 2 ^ s + pos n) (2 ^ h)
        (ap (λ (t : ℕ). 2 ^ t) (host_part n)) (pow_pos h) (address_of_subnet n low)

  pub IsPlaced-Tiles : Tiles a
  IsPlaced-Tiles = record {
    inside = λ n ip low here.
        let at = (in_subnet n ip (below_power n low)).0 here in
        let below = p.permutation.below n (below_power n low) in
        (in_network ip).1 (sym (upper base (pos n) below) ∙ ap (λ (t : ℕ). t / 2 ^ s) at);
    covered = λ ip here.
        let at = (in_network ip).0 here in
        let (n, low, is) =
          p.permutation.onto (ip / 2 ^ h % 2 ^ s) (mod-lt (ip / 2 ^ h) (pow_pos s)) in
        (
          n,
          rw num_subnets_power low,
          (in_subnet n ip low).1 (rw (at, is) (div-add-mod' (ip / 2 ^ h) (2 ^ s))),
        );
    alone = λ n m ip low low' here here'.
        let at = (in_subnet n ip (below_power n low)).0 here in
        let at' = (in_subnet m ip (below_power m low')).0 here' in
        p.permutation.injective n m (below_power n low) (below_power m low')
          (omega (arith, at ∙ sym at'));
  }

  -- The base of the network leaves room for the numbers.
  base_less : base + 1 ≤ 2 ^ a.network.bits
  base_less =
      let size = 2 ^ (s + h) in
      let whole : 2 ^ 32 ≡ 2 ^ a.network.bits * size =
        ap (λ (t : ℕ). 2 ^ t) (sym p.whole) ∙ two_pow_add a.network.bits (s + h) in
      let less : base * size < 2 ^ a.network.bits * size =
        omega (arith, p.start, p.start_less, whole) in
      omega (arith, lt_of_mul-lt-mul_right size less)

  gen_subnet-less : (n : ℕ) → n < 2 ^ s → (gen_subnet a n).ip < 4294967296
  gen_subnet-less n low =
      let size = 2 ^ (s + h) in
      let whole : 2 ^ 32 ≡ 2 ^ a.network.bits * size =
        ap (λ (t : ℕ). 2 ^ t) (sym p.whole) ∙ two_pow_add a.network.bits (s + h) in
      let inner : pos n * 2 ^ h < 2 ^ s * 2 ^ h =
        mul_less (pos n) (2 ^ s) (2 ^ h) (p.permutation.below n low) (pow_pos h) in
      let room : (base + 1) * size ≤ 2 ^ a.network.bits * size = mul-le-mul_right size base_less in
      omega (arith, p.placed n low, inner, two_pow_add s h, room, whole)

  gen_subnet-mask :
      (n : ℕ) → n < 2 ^ s → mask (gen_subnet a n).ip (gen_subnet a n).bits ≡ (gen_subnet a n).ip
  unfolding mask
  gen_subnet-mask n low =
      let q = base * 2 ^ s + pos n in
      let size : 2 ^ (32 - (gen_subnet a n).bits) ≡ 2 ^ h = ap (λ (t : ℕ). 2 ^ t) (host_part n) in
      let start = address_of_subnet n low in
      rw (size, start) (ap (λ (t : ℕ). t * 2 ^ h) (mul-div_cancel q (pow_pos h)))

  gen_subnet-bits : (n : ℕ) → (gen_subnet a n).bits ≤ 32
  unfolding gen_subnet
  gen_subnet-bits n = omega (arith, p.whole)

  pub IsPlaced-ReadsBack : ReadsBack a
  IsPlaced-ReadsBack n low =
      let low' = below_power n low in
      parse_cidr-net_to_string (gen_subnet a n) (gen_subnet-less n low') (gen_subnet-bits n)
        (gen_subnet-mask n low')
