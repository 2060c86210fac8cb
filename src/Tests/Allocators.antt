-- ===== src/Tests/Allocators.antt =====
-- The allocators of netids and of host subnets, and the ranges.
use k8s_ovs.Base.{
  ℕ, ◌≡◌, ◌≢◌, ◌≤◌, ◌<◌, ◌+◌, ◌-◌, ◌^◌, ◌%◌, ◌⊎◌, ◌↔◌, inl, inr, refl, true, false, Result, ok, err,
  err_full, err_allocated, message, none, some, List, [], ◌∷◌, Text, codes, text_dec, ite,
  ℕ_discrete, if◌then◌else◌, arith,
}
use k8s_ovs.Vnid.Range.{NetIdRange, IsRange, new_net_id_range, new_net_id_range-ok}
use k8s_ovs.Vnid.ListBitmap.{list_bitmap, list_bitmap_laws}
use k8s_ovs.Vnid.Allocator.{Allocator, new, has, allocate, allocate_next}
use k8s_ovs.Vnid.Allocator.Laws.{InRange, IsAllocator, allocate_next_fresh}
use k8s_ovs.Vnid.Allocator.Invariant.{new-IsAllocator, allocate-IsAllocator}
use k8s_ovs.IpNet.{IpNet, net_contains, net_to_string}
use k8s_ovs.Snalloc.{
  SubnetAllocator, new_subnet_allocator, num_subnets, gen_subnet, get_network, release_network,
}
use k8s_ovs.Snalloc.Laws.{
  Sets, get_network_cases, release_network_cases, new_subnet_allocator-IsValid,
}
use k8s_ovs.Snalloc.Search.{IsValid, is_used}

-- The netids 10 and 11.
abbrev pair : NetIdRange
pair = record { base = 10; size = 2 }

pair-IsRange : IsRange pair
pair-IsRange = record {
  above_reserved = omega arith;
  nonempty = omega arith;
  below_max = omega arith;
}

abbrev empty : Allocator list_bitmap
empty = new list_bitmap pair

empty-IsAllocator : IsAllocator list_bitmap_laws empty
empty-IsAllocator = (new-IsAllocator list_bitmap_laws pair pair-IsRange).0

next_ten : (allocate_next list_bitmap empty).1 ≡ ok 10
unfolding allocate_next k8s_ovs.Vnid.ListBitmap.scan new k8s_ovs.Vnid.ListBitmap.member
next_ten = refl

allocate_next_fresh_example :
    InRange empty.net_id_range 10
    × (has list_bitmap 10 empty ≡ false)
    × ((j : ℕ)
        → has list_bitmap j (allocate_next list_bitmap empty).0
          ≡ ite (ℕ_discrete 10 j) true (has list_bitmap j empty))
allocate_next_fresh_example =
    allocate_next_fresh list_bitmap_laws empty 10 empty-IsAllocator next_ten

-- Both ids are held.
abbrev filled : Allocator list_bitmap
filled = (allocate list_bitmap 11 (allocate list_bitmap 10 empty).0).0

filled-IsAllocator : IsAllocator list_bitmap_laws filled
filled-IsAllocator =
    allocate-IsAllocator list_bitmap_laws 11 (allocate list_bitmap 10 empty).0
      (allocate-IsAllocator list_bitmap_laws 10 empty empty-IsAllocator)

filled_full : (allocate_next list_bitmap filled).1 ≡ err err_full
unfolding allocate_next k8s_ovs.Vnid.ListBitmap.scan allocate new k8s_ovs.Vnid.ListBitmap.member
filled_full = refl

new_net_id_range-ok_example : (new_net_id_range 10 11 ≡ ok pair) ↔ (
    (10 ≤ 10)
    × (11 < 2 ^ 24)
    × (11 + 1 ≢ 10)
    × (pair.base ≡ 10)
    × (pair.size ≡ (11 + 1 + 2 ^ 32 - 10) % 2 ^ 32))
new_net_id_range-ok_example = new_net_id_range-ok 10 11 pair (omega arith) (omega arith)

-- 10.1.0.0/16 with subnets of eight host bits, of which 10.1.0.0/24 is in use.
abbrev pub subnets : SubnetAllocator
subnets = record {
  network = record { ip = 167837696; bits = 16 };
  host_bits = 8;
  left_shift = 0;
  left_mask = 4294967295;
  right_shift = 0;
  right_mask = 0;
  next = 0;
  alloc_map = (codes "10.1.0.0/24", true) ∷ [];
}

subnets_new : new_subnet_allocator (codes "10.1.0.0/16") 8 (codes "10.1.0.0/24" ∷ []) ≡ ok subnets
unfolding new_subnet_allocator k8s_ovs.Base.insert
subnets_new = refl

pub subnets-IsValid : IsValid subnets
subnets-IsValid =
    new_subnet_allocator-IsValid (codes "10.1.0.0/16") 8 (codes "10.1.0.0/24" ∷ []) subnets
      subnets_new

get_network_cases_example :
    ((n : ℕ) × (n < num_subnets subnets)
      × ((get_network subnets).1 ≡ ok (gen_subnet subnets n))
      × (is_used subnets (gen_subnet subnets n) ≡ false)
      × Sets
          (net_to_string (gen_subnet subnets n))
          true
          subnets.alloc_map
          (get_network subnets).0.alloc_map
      × IsValid (get_network subnets).0)
    ⊎ (((get_network subnets).1 ≡ err (message "No subnets available."))
        × ((get_network subnets).0.alloc_map ≡ subnets.alloc_map)
        × ((n : ℕ) → n < num_subnets subnets → is_used subnets (gen_subnet subnets n) ≡ true)
        × IsValid (get_network subnets).0)
get_network_cases_example = get_network_cases subnets subnets-IsValid

abbrev first_subnet : IpNet
first_subnet = record { ip = 167837696; bits = 24 }

release_network_cases_example :
    IsValid (release_network subnets first_subnet).0
    × (((net_contains subnets.network first_subnet.ip ≡ true)
          × (is_used subnets first_subnet ≡ true)
          × ((release_network subnets first_subnet).1 ≡ ok tt)
          × Sets
              (net_to_string first_subnet)
              false
              subnets.alloc_map
              (release_network subnets first_subnet).0.alloc_map)
        ⊎ (((net_contains subnets.network first_subnet.ip ≡ false)
              ⊎ (is_used subnets first_subnet ≡ false))
            × ((release_network subnets first_subnet).1 ≢ ok tt)
            × ((release_network subnets first_subnet).0 ≡ subnets)))
release_network_cases_example = release_network_cases subnets first_subnet subnets-IsValid
