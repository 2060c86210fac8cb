-- ===== src/Tests/Subnets.antt =====
-- The allocator of host subnets: where its subnets lie, and who holds them.
use k8s_ovs.Base.{ℕ, ◌≡◌, refl, sym, inl, true, ok, some, List, [], ◌∷◌, Text, codes, arith}
use k8s_ovs.IpNet.{IpNet, net_to_string}
use k8s_ovs.Snalloc.{SubnetAllocator, gen_subnet, new_subnet_allocator}
use k8s_ovs.Snalloc.Held.{AllApart}
use k8s_ovs.Snalloc.History.{Call, get, release, after_calls, after_calls-AllApart}
use k8s_ovs.Snalloc.InUse.{AreSubnets}
use k8s_ovs.Snalloc.Placed.{new_subnet_allocator-Tiles}
use k8s_ovs.Snalloc.Tiles.{Tiles}

-- Subnets of 64 addresses, whose numbers are rotated, with one in use.
abbrev quarters : SubnetAllocator
quarters = record {
  network = record { ip = 167837696; bits = 16 };
  host_bits = 6;
  left_shift = 2;
  left_mask = 65535;
  right_shift = 8;
  right_mask = 192;
  next = 0;
  alloc_map = (codes "10.1.1.0/26", true) ∷ [];
}

quarters_new : new_subnet_allocator (codes "10.1.0.0/16") 6 (codes "10.1.1.0/26" ∷ []) ≡ ok quarters
unfolding new_subnet_allocator k8s_ovs.Base.insert
quarters_new = refl

-- 10.1.1.0/26 and 10.1.0.64/26.
second_quarter : gen_subnet quarters 1 ≡ record { ip = 167837952; bits = 26 }
unfolding gen_subnet
second_quarter = refl

rotated_quarter : gen_subnet quarters 256 ≡ record { ip = 167837760; bits = 26 }
unfolding gen_subnet
rotated_quarter = refl

new_subnet_allocator-Tiles_example : Tiles quarters
new_subnet_allocator-Tiles_example =
    new_subnet_allocator-Tiles (codes "10.1.0.0/16") 6 (codes "10.1.1.0/26" ∷ []) quarters
      quarters_new

abbrev held_quarter : IpNet
held_quarter = record { ip = 167837952; bits = 26 }

abbrev some_calls : List Call
some_calls = get ∷ get ∷ release held_quarter ∷ get ∷ []

held_quarter-AreSubnets : AreSubnets quarters (held_quarter ∷ [])
unfolding gen_subnet k8s_ovs.Snalloc.num_subnets
held_quarter-AreSubnets = ((1, omega arith, refl), tt)

held_quarter_text : codes "10.1.1.0/26" ≡ net_to_string held_quarter
unfolding net_to_string
held_quarter_text = refl

after_calls-AllApart_example : AllApart (after_calls some_calls quarters (held_quarter ∷ [])).1
after_calls-AllApart_example =
    after_calls-AllApart (codes "10.1.0.0/16") 6 (codes "10.1.1.0/26" ∷ []) quarters
      (held_quarter ∷ []) some_calls quarters_new held_quarter-AreSubnets
      (inl (sym held_quarter_text), tt) (tt, tt)
