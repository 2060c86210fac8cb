-- ===== src/Snalloc/History.antt =====
-- pkg/snalloc/subnet_allocator.go: the subnets that are held after any calls of `GetNetwork` and
-- `ReleaseNetwork`.
use mathlib.Core.Path.{subst}
use k8s_ovs.Base.{
  ℕ, ◌≡◌, inl, inr, refl, sym, ap, ◌∙◌, ok, err, List, [], ◌∷◌, Text, text_dec, if_pos, arith,
  Result-cases,
}
use k8s_ovs.IpNet.{IpNet, net_to_string}
use k8s_ovs.Snalloc.{
  SubnetAllocator, gen_subnet, get_network, release_network, new_subnet_allocator, is_allocated,
}
use k8s_ovs.Snalloc.Laws.{get_network_cases, release_network_cases, new_subnet_allocator-IsValid}
use k8s_ovs.Snalloc.Placed.{new_subnet_allocator-IsNew}
use k8s_ovs.Snalloc.Held.{
  without, AllApart, IsHeld, get_network-Same, release_network-Same, Same-Tiles, fresh-ApartFrom,
  without-AllApart, marked, kept-AllUsed, without-AllUsed,
}
use k8s_ovs.Snalloc.InUse.{AllListed, AreSubnets, listed-AllUsed}

pub data Call : Type 0 where
  get : Call
  release : IpNet → Call

-- The allocator and the subnets that are held, after a call.
abbrev pub after_call : Call → SubnetAllocator → List IpNet → SubnetAllocator × List IpNet
after_call get a held =
    let (a', answer) = get_network a in (a', elim answer [ ok x ↦ x ∷ held | err e ↦ held ])
after_call (release x) a held =
    let (a', answer) = release_network a x in
    (a', elim answer [ ok _ ↦ without x held | err e ↦ held ])

abbrev pub after_calls : List Call → SubnetAllocator → List IpNet → SubnetAllocator × List IpNet
after_calls [] a held = (a, held)
after_calls (c ∷ calls) a held = let (a', held') = after_call c a held in after_calls calls a' held'

after_call-IsHeld :
    (c : Call) (a : SubnetAllocator) (held : List IpNet)
    → IsHeld a held
    → let (a', held') = after_call c a held in IsHeld a' held'
after_call-IsHeld get a held h = elim (get_network_cases a h.valid) [
  | inl (n, low, answer, free, sets, valid) ↦
      let b = (get_network a).0 in
      let same = get_network-Same a in
      let key = net_to_string (gen_subnet a n) in
      rw (after_call, answer)
        (record {
          valid = valid;
          tiles = Same-Tiles a b same h.tiles;
          used = (
            (
              n,
              omega (arith, low, same.0),
              sym (same.1 n),
              sets key ∙ if_pos (text_dec key key) refl _ _,
            ),
            kept-AllUsed a b held same (λ y used. marked (gen_subnet a n) y a b sets used) h.used,
          );
          apart = (fresh-ApartFrom a n held h.tiles low free h.used, h.apart);
        })
  | inr (answer, unchanged, full, valid) ↦
      let b = (get_network a).0 in
      let same = get_network-Same a in
      rw (after_call, answer)
        (record {
          valid = valid;
          tiles = Same-Tiles a b same h.tiles;
          used =
              kept-AllUsed a b held same
                (λ y used. ap (λ m. is_allocated m (net_to_string y)) unchanged ∙ used) h.used;
          apart = h.apart;
        })
]
after_call-IsHeld (release x) a held h =
    let (valid, cases) = release_network_cases a x h.valid in
    let b = (release_network a x).0 in
    let same = release_network-Same a x in
    elim cases [
      | inl (inside, used, answer, sets) ↦
          rw (after_call, answer)
            (record {
              valid = valid;
              tiles = Same-Tiles a b same h.tiles;
              used = without-AllUsed a b x held same sets h.used;
              apart = without-AllApart x held h.apart;
            })
      | inr (why, refused, unchanged) ↦ elim (Result-cases (release_network a x).1) [
        | inl (u, answer) ↦ absurd (refused answer)
        | inr (e, answer) ↦
            rw (after_call, answer)
              (subst (λ (c : SubnetAllocator). IsHeld c held) (sym unchanged) h)
      ]
    ]

after_calls-IsHeld :
    (calls : List Call) (a : SubnetAllocator) (held : List IpNet)
    → IsHeld a held
    → let (a', held') = after_calls calls a held in IsHeld a' held'
after_calls-IsHeld [] a held h = h
after_calls-IsHeld (c ∷ calls) a held h =
    let (a', held') = after_call c a held in
    after_calls-IsHeld calls a' held' (after_call-IsHeld c a held h)

-- Take an allocator that `NewSubnetAllocator` returns, and some of the subnets that it was told
-- are in use, which are subnets of its own numbers, so of its own network and size, and share no
-- address: after any calls of `GetNetwork` and `ReleaseNetwork`, no two of these and of those
-- handed out since, less the released ones, share an address. Of a subnet in use that has another
-- size nothing is said.
pub after_calls-AllApart :
    (network : Text) (host_bits : ℕ) (in_use : List Text) (a : SubnetAllocator) (held : List IpNet)
    (calls : List Call)
    → new_subnet_allocator network host_bits in_use ≡ ok a
    → AreSubnets a held
    → AllListed in_use held
    → AllApart held
    → AllApart (after_calls calls a held).1
after_calls-AllApart network host_bits in_use a held calls e subnets listed apart =
    let new = new_subnet_allocator-IsNew network host_bits in_use a e in
    let start : IsHeld a held = record {
      valid = new_subnet_allocator-IsValid network host_bits in_use a e;
      tiles = new.tiles;
      used = listed-AllUsed a in_use held new subnets listed;
      apart = apart;
    } in
    (after_calls-IsHeld calls a held start).apart
