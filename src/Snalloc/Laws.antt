-- ===== src/Snalloc/Laws.antt =====
-- pkg/snalloc: what the allocator of host subnets hands out and takes back.
use native.Mathlib.Nat.{one-le-pow, pow-le-pow_right, mod-eq_of_lt}
use k8s_ovs.Base.{
  ==_iff, ℕ, ◌+◌, ◌-◌, ◌*◌, ◌^◌, ◌≤◌, ◌<◌, ◌≡◌, ◌≢◌, ◌⊎◌, inl, inr, Bool, true, false, ok, err,
  message, List, Text, text_dec, ite, ◌==◌, refl, arith, Option-cases, Bool-cases,
}
use k8s_ovs.IpNet.{IpNet, parse_cidr, net_contains, net_to_string}
use k8s_ovs.Snalloc.{
  SubnetAllocator, is_allocated, num_subnets, gen_subnet, free_number, get_network, release_network,
  new_subnet_allocator,
}
use k8s_ovs.Snalloc.Search.{
  IsValid, is_used, is_allocated-insert, free_number-some, free_number-none, reached,
}

-- The map of what is in use, after a key has been set.
abbrev pub Sets : Text → Bool → List (Text × Bool) → List (Text × Bool) → Type 0
Sets key b before after =
    (j : Text) → is_allocated after j ≡ ite (text_dec key j) b (is_allocated before j)

-- On a valid allocator, `GetNetwork` either hands out the subnet of some number, which was not in
-- use and is from then on, the others as before; or it fails, leaves the map unchanged, and the
-- subnet of every number is in use. The allocator stays valid.
pub get_network_cases :
    (a : SubnetAllocator)
    → IsValid a
    → let (after, answer) = get_network a in
      ((n : ℕ) × (n < num_subnets a)
        × (answer ≡ ok (gen_subnet a n))
        × (is_used a (gen_subnet a n) ≡ false)
        × Sets (net_to_string (gen_subnet a n)) true a.alloc_map after.alloc_map
        × IsValid after)
      ⊎ ((answer ≡ err (message "No subnets available."))
          × (after.alloc_map ≡ a.alloc_map)
          × ((n : ℕ) → n < num_subnets a → is_used a (gen_subnet a n) ≡ true)
          × IsValid after)
unfolding get_network num_subnets
get_network_cases a v = elim (Option-cases (free_number a (num_subnets a) 0)) [
  | inl e ↦
      rw (get_network, e)
        (inr (
          refl,
          refl,
          λ n low.
              let (j, less, is) = reached a v n low in
              let used = free_number-none a (num_subnets a) 0 e j less in
              let start : 0 + j ≡ j = omega arith in rw⁻¹ is (rw⁻¹ start used),
          record { next_le = omega arith; num_pos = v.num_pos; num_le = v.num_le },
        ))
  | inr (n, e) ↦
      let (free, low) = free_number-some a (num_subnets a) 0 n v.num_pos e in
      let small : n + 1 < 4294967296 = omega (arith, low, v.num_le) in
      rw (get_network, e)
        (inl (
          n,
          low,
          refl,
          free,
          λ j. is_allocated-insert (net_to_string (gen_subnet a n)) j true a.alloc_map,
          record {
            next_le = rw (mod-eq_of_lt small) (omega (arith, low));
            num_pos = v.num_pos;
            num_le = v.num_le;
          },
        ))
]

-- `ReleaseNetwork` on a valid allocator succeeds for a subnet of the network that is in use, and
-- then it alone is free again; otherwise it fails and nothing changes. The allocator stays valid.
pub release_network_cases :
    (a : SubnetAllocator) (subnet : IpNet)
    → IsValid a
    → let (after, answer) = release_network a subnet in
      IsValid after
      × (((net_contains a.network subnet.ip ≡ true)
            × (is_used a subnet ≡ true)
            × (answer ≡ ok tt)
            × Sets (net_to_string subnet) false a.alloc_map after.alloc_map)
          ⊎ (((net_contains a.network subnet.ip ≡ false) ⊎ (is_used a subnet ≡ false))
              × (answer ≢ ok tt)
              × (after ≡ a)))
unfolding release_network num_subnets
release_network_cases a subnet v = elim (Bool-cases (net_contains a.network subnet.ip)) [
  | inr outside ↦ rw (release_network, outside) (v, inr (inl refl, λ h. ground (arith, h), refl))
  | inl inside ↦ elim (Bool-cases (is_used a subnet)) [
    | inr free ↦
        rw (release_network, inside, free) (v, inr (inr refl, λ h. ground (arith, h), refl))
    | inl used ↦
        rw (release_network, inside, used)
          (
            record { next_le = v.next_le; num_pos = v.num_pos; num_le = v.num_le },
            inl (
              refl,
              refl,
              refl,
              λ j. is_allocated-insert (net_to_string subnet) j false a.alloc_map,
            ),
          )
  ]
]

one_mul : (n : ℕ) → 1 * n ≡ n
one_mul n = omega arith

power_small :
    (bits host_bits : ℕ)
    → host_bits ≢ 0
    → (0 < 2 ^ (32 - bits - host_bits)) × (2 ^ (32 - bits - host_bits) ≤ 2147483648)
power_small bits host_bits ne =
    let le : 32 - bits - host_bits ≤ 31 = omega (arith, ne) in
    (one-le-pow (32 - bits - host_bits) 2 (omega arith), pow-le-pow_right {n = 2} (omega arith) le)

new_subnet_allocator-fields :
    (network : Text) (host_bits : ℕ) (in_use : List Text) (a : SubnetAllocator)
    → new_subnet_allocator network host_bits in_use ≡ ok a
    → (host_bits ≢ 0) × (a.host_bits ≡ host_bits) × (a.next ≡ 0)
unfolding new_subnet_allocator
new_subnet_allocator-fields network host_bits in_use a h =
    elim (Option-cases (parse_cidr network)) [
      | inl e ↦ ground (arith, rw (new_subnet_allocator, e) at h)
      | inr (net_ip, e) ↦
          let k = rw (new_subnet_allocator, e) at h in
          elim (Bool-cases (host_bits == 0)) [
            | inl zero_bits ↦ ground (arith, rw zero_bits at k)
            | inr some_bits ↦ ground (arith, rw some_bits at k, ==_iff host_bits 0)
          ]
    ]

-- An allocator that `NewSubnetAllocator` returns is valid: it has at least one subnet and at most
-- 2^31, and its next number is in reach.
pub new_subnet_allocator-IsValid :
    (network : Text) (host_bits : ℕ) (in_use : List Text) (a : SubnetAllocator)
    → new_subnet_allocator network host_bits in_use ≡ ok a
    → IsValid a
unfolding num_subnets
new_subnet_allocator-IsValid network host_bits in_use a h =
    let (ne, same, start) = new_subnet_allocator-fields network host_bits in_use a h in
    let (pos, le) = power_small a.network.bits a.host_bits (rw same ne) in
    let power = 2 ^ (32 - a.network.bits - a.host_bits) in
    let small : power < 4294967296 = omega (arith, le) in
    let whole : num_subnets a ≡ power = rw (one_mul power) (mod-eq_of_lt small) in
    record {
      next_le = rw (start, whole) (omega arith);
      num_pos = rw whole pos;
      num_le = rw whole le;
    }
