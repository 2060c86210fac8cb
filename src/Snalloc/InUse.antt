-- ===== src/Snalloc/InUse.antt =====
-- pkg/snalloc/subnet_allocator.go: the subnets that `NewSubnetAllocator` is told are in use.
use mathlib.Core.Path.{subst}
use k8s_ovs.Base.{
  ℕ, ◌<◌, ◌≡◌, ◌⊎◌, inl, inr, refl, sym, ap, ◌∙◌, Bool, true, false, none, some, List, [], ◌∷◌,
  Text, text_dec, insert, ite, if_pos, Bool-cases, Option-cases, ==_iff,
}
use k8s_ovs.IpNet.{IpNet, net_contains, net_to_string, parse_cidr, mask}
use k8s_ovs.Snalloc.{SubnetAllocator, num_subnets, gen_subnet, is_allocated, in_use_map}
use k8s_ovs.Snalloc.Held.{AllUsed}
use k8s_ovs.Snalloc.Placed.{IsNew}
use k8s_ovs.Snalloc.Search.{is_used, is_allocated-insert}

-- Subnets of an allocator's numbers.
abbrev pub AreSubnets : SubnetAllocator → List IpNet → Type 0
AreSubnets a [] = Unit {0}
AreSubnets a (x ∷ xs) = ((n : ℕ) × (n < num_subnets a) × (x ≡ gen_subnet a n)) × AreSubnets a xs

abbrev pub Listed : Text → List Text → Type 0
Listed t [] = ⊥
Listed t (u ∷ l) = (t ≡ u) ⊎ Listed t l

-- The text of each stands in the list.
abbrev pub AllListed : List Text → List IpNet → Type 0
AllListed in_use [] = Unit {0}
AllListed in_use (x ∷ xs) = Listed (net_to_string x) in_use × AllListed in_use xs

contains_itself : (x : IpNet) → net_contains x x.ip ≡ true
unfolding net_contains mask
contains_itself x = (==_iff _ _).1 refl

inserted-stays :
    (key j : Text) (m : List (Text × Bool))
    → is_allocated m j ≡ true
    → is_allocated (insert text_dec key true m) j ≡ true
inserted-stays key j m h =
    is_allocated-insert key j true m
    ∙ (elim (text_dec key j) as (λ d. ite d true (is_allocated m j) ≡ true) [
      | yes _ ↦ refl
      | no _ ↦ h
    ])

in_use_map_skips :
    (network : IpNet) (t : Text) (in_use : List Text) (m : List (Text × Bool))
    → parse_cidr t ≡ none
    → in_use_map network (t ∷ in_use) m ≡ in_use_map network in_use m
unfolding in_use_map
in_use_map_skips network t in_use m bad = rw (in_use_map, bad) refl

in_use_map_outside :
    (network : IpNet) (t : Text) (in_use : List Text) (m : List (Text × Bool)) (k : IpNet)
    → parse_cidr t ≡ some k
    → net_contains network k.ip ≡ false
    → in_use_map network (t ∷ in_use) m ≡ in_use_map network in_use m
unfolding in_use_map
in_use_map_outside network t in_use m k e outside = rw (in_use_map, e, outside) refl

in_use_map_inside :
    (network : IpNet) (t : Text) (in_use : List Text) (m : List (Text × Bool)) (k : IpNet)
    → parse_cidr t ≡ some k
    → net_contains network k.ip ≡ true
    → in_use_map network (t ∷ in_use) m
      ≡ in_use_map network in_use (insert text_dec (net_to_string k) true m)
unfolding in_use_map
in_use_map_inside network t in_use m k e inside = rw (in_use_map, e, inside) refl

-- A text of the list marks no less.
in_use_map_next :
    (network : IpNet) (t : Text) (in_use : List Text) (m : List (Text × Bool))
    → (m' : List (Text × Bool)) × (in_use_map network (t ∷ in_use) m ≡ in_use_map network in_use m')
      × ((key : Text) → is_allocated m key ≡ true → is_allocated m' key ≡ true)
in_use_map_next network t in_use m = elim (Option-cases (parse_cidr t)) [
  | inl bad ↦ (m, in_use_map_skips network t in_use m bad, λ key h. h)
  | inr (k, e) ↦ elim (Bool-cases (net_contains network k.ip)) [
    | inr outside ↦ (m, in_use_map_outside network t in_use m k e outside, λ key h. h)
    | inl inside ↦ (
      insert text_dec (net_to_string k) true m,
      in_use_map_inside network t in_use m k e inside,
      λ key h. inserted-stays (net_to_string k) key m h,
    )
  ]
]

in_use_map_end : (network : IpNet) (m : List (Text × Bool)) → in_use_map network [] m ≡ m
unfolding in_use_map
in_use_map_end network m = refl

in_use_map_stays :
    (network : IpNet) (in_use : List Text) (m : List (Text × Bool)) (key : Text)
    → is_allocated m key ≡ true
    → is_allocated (in_use_map network in_use m) key ≡ true
in_use_map_stays network [] m key h =
    ap (λ (l : List (Text × Bool)). is_allocated l key) (in_use_map_end network m) ∙ h
in_use_map_stays network (t ∷ in_use) m key h =
    let (m', e, stays) = in_use_map_next network t in_use m in
    ap (λ (l : List (Text × Bool)). is_allocated l key) e
    ∙ in_use_map_stays network in_use m' key (stays key h)

in_use_map_marks :
    (network : IpNet) (in_use : List Text) (m : List (Text × Bool)) (x : IpNet)
    → parse_cidr (net_to_string x) ≡ some x
    → net_contains network x.ip ≡ true
    → Listed (net_to_string x) in_use
    → is_allocated (in_use_map network in_use m) (net_to_string x) ≡ true
in_use_map_marks network [] m x reads inside listed = absurd listed
in_use_map_marks network (t ∷ in_use) m x reads inside listed = elim (listed) [
  | inl same ↦
      let key = net_to_string x in
      let e = in_use_map_inside network t in_use m x (ap parse_cidr (sym same) ∙ reads) inside in
      ap (λ (l : List (Text × Bool)). is_allocated l key) e
      ∙ in_use_map_stays network in_use (insert text_dec key true m) key
          (is_allocated-insert key key true m ∙ if_pos (text_dec key key) refl _ _)
  | inr later ↦
      let (m', e, stays) = in_use_map_next network t in_use m in
      ap (λ (l : List (Text × Bool)). is_allocated l (net_to_string x)) e
      ∙ in_use_map_marks network in_use m' x reads inside later
]

pub listed-AllUsed :
    (a : SubnetAllocator) (in_use : List Text) (held : List IpNet)
    → IsNew a in_use
    → AreSubnets a held
    → AllListed in_use held
    → AllUsed a held
listed-AllUsed a in_use [] new subnets listed = tt
listed-AllUsed a in_use (x ∷ xs) new ((n, low, is), rest) (here, there) =
    let own = gen_subnet a n in
    let inside = new.tiles.inside n own.ip low (contains_itself own) in
    let listed : Listed (net_to_string own) in_use =
      subst (λ (k : IpNet). Listed (net_to_string k) in_use) is here in
    let marked = in_use_map_marks a.network in_use [] own (new.reads_back n low) inside listed in
    let used : is_used a x ≡ true =
      ap (λ (k : IpNet). is_used a k) is
      ∙ ap (λ (l : List (Text × Bool)). is_allocated l (net_to_string own)) new.marked
      ∙ marked in
    ((n, low, is, used), listed-AllUsed a in_use xs new rest there)
