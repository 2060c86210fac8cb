-- ===== src/Snalloc/Held.antt =====
-- pkg/snalloc/subnet_allocator.go: subnets that are held apart, and what a call changes for them.
use k8s_ovs.Base.{
  ℕ, ◌<◌, ◌≡◌, inl, inr, refl, sym, ap, ◌∙◌, true, false, List, [], ◌∷◌, text_dec, ite, if_neg,
  arith, Bool-cases, Option-cases,
}
use k8s_ovs.IpNet.{IpNet, net_contains, net_to_string}
use k8s_ovs.Snalloc.{
  SubnetAllocator, num_subnets, gen_subnet, free_number, get_network, release_network,
}
use k8s_ovs.Snalloc.Search.{IsValid, is_used}
use k8s_ovs.Snalloc.Laws.{Sets}
use k8s_ovs.Snalloc.Tiles.{Tiles}

-- The subnets that are held after a subnet has been released: a released one is told by its text.
abbrev pub without : IpNet → List IpNet → List IpNet
without x [] = []
without x (y ∷ ys) =
    ite (text_dec (net_to_string x) (net_to_string y)) (without x ys) (y ∷ without x ys)

-- Two networks that share no address.
abbrev pub Apart : IpNet → IpNet → Type 0
Apart x y = (ip : ℕ) → net_contains x ip ≡ true → net_contains y ip ≡ false

abbrev pub ApartFrom : IpNet → List IpNet → Type 0
ApartFrom x [] = Unit {0}
ApartFrom x (y ∷ ys) = Apart x y × ApartFrom x ys

abbrev pub AllApart : List IpNet → Type 0
AllApart [] = Unit {0}
AllApart (x ∷ xs) = ApartFrom x xs × AllApart xs

-- The subnets of a list belong to numbers and are in use.
abbrev pub AllUsed : SubnetAllocator → List IpNet → Type 0
AllUsed a [] = Unit {0}
AllUsed a (x ∷ xs) =
    ((n : ℕ) × (n < num_subnets a) × (x ≡ gen_subnet a n) × (is_used a x ≡ true)) × AllUsed a xs

pub record IsHeld (a : SubnetAllocator) (held : List IpNet) : Type 0 where
  pub valid : IsValid a
  pub tiles : Tiles a
  pub used : AllUsed a held
  pub apart : AllApart held

-- Only the map and the next number differ.
abbrev pub Same : SubnetAllocator → SubnetAllocator → Type 0
Same a b =
    (num_subnets b ≡ num_subnets a)
    × ((n : ℕ) → gen_subnet b n ≡ gen_subnet a n)
    × (b.network ≡ a.network)

pub get_network-Same : (a : SubnetAllocator) → Same a (get_network a).0
unfolding get_network num_subnets gen_subnet
get_network-Same a = elim (Option-cases (free_number a (num_subnets a) 0)) [
  | inl e ↦ rw (get_network, e) (refl, λ n. refl, refl)
  | inr (n, e) ↦ rw (get_network, e) (refl, λ m. refl, refl)
]

pub release_network-Same : (a : SubnetAllocator) (x : IpNet) → Same a (release_network a x).0
unfolding release_network num_subnets gen_subnet
release_network-Same a x = elim (Bool-cases (net_contains a.network x.ip)) [
  | inr outside ↦ rw (release_network, outside) (refl, λ n. refl, refl)
  | inl inside ↦ elim (Bool-cases (is_used a x)) [
    | inr free ↦ rw (release_network, inside, free) (refl, λ n. refl, refl)
    | inl used ↦ rw (release_network, inside, used) (refl, λ n. refl, refl)
  ]
]

pub Same-Tiles : (a b : SubnetAllocator) → Same a b → Tiles a → Tiles b
Same-Tiles a b s t = record {
  inside = λ n ip low here.
      rw s.2 (t.inside n ip (omega (arith, low, s.0)) (sym (contains_same n ip) ∙ here));
  covered = λ ip here.
      let (n, low, is) = t.covered ip (rw s.2 at here) in
      (n, omega (arith, low, s.0), contains_same n ip ∙ is);
  alone = λ n m ip low low' here here'.
      t.alone n m ip (omega (arith, low, s.0)) (omega (arith, low', s.0))
        (sym (contains_same n ip) ∙ here) (sym (contains_same m ip) ∙ here');
}
  where
    contains_same : (n ip : ℕ) → net_contains (gen_subnet b n) ip ≡ net_contains (gen_subnet a n) ip
    contains_same n ip = ap (λ (k : IpNet). net_contains k ip) (s.1 n)

pub fresh-ApartFrom :
    (a : SubnetAllocator) (n : ℕ) (held : List IpNet)
    → Tiles a
    → n < num_subnets a
    → is_used a (gen_subnet a n) ≡ false
    → AllUsed a held
    → ApartFrom (gen_subnet a n) held
fresh-ApartFrom a n [] t low free used = tt
fresh-ApartFrom a n (x ∷ xs) t low free ((m, low', is, used), rest) = (
  λ ip here. elim (Bool-cases (net_contains x ip)) [
    | inr not_there ↦ not_there
    | inl there ↦
        let same =
          t.alone n m ip low low' here (ap (λ (k : IpNet). net_contains k ip) (sym is) ∙ there) in
        absurd (ground (arith, free, used, is, same))
  ],
  fresh-ApartFrom a n xs t low free rest,
)

without-ApartFrom : (x y : IpNet) (ys : List IpNet) → ApartFrom y ys → ApartFrom y (without x ys)
without-ApartFrom x y [] h = tt
without-ApartFrom x y (z ∷ ys) h =
    elim (text_dec (net_to_string x) (net_to_string z))
      as (λ d. ApartFrom y (ite d (without x ys) (z ∷ without x ys))) [
        | yes _ ↦ without-ApartFrom x y ys h.1
        | no _ ↦ (h.0, without-ApartFrom x y ys h.1)
      ]

pub without-AllApart : (x : IpNet) (ys : List IpNet) → AllApart ys → AllApart (without x ys)
without-AllApart x [] h = tt
without-AllApart x (y ∷ ys) h =
    elim (text_dec (net_to_string x) (net_to_string y))
      as (λ d. AllApart (ite d (without x ys) (y ∷ without x ys))) [
        | yes _ ↦ without-AllApart x ys h.1
        | no _ ↦ (without-ApartFrom x y ys h.0, without-AllApart x ys h.1)
      ]

pub marked :
    (x y : IpNet) (a b : SubnetAllocator)
    → Sets (net_to_string x) true a.alloc_map b.alloc_map
    → is_used a y ≡ true
    → is_used b y ≡ true
marked x y a b sets used =
    sets (net_to_string y)
    ∙ (elim (text_dec (net_to_string x) (net_to_string y))
        as (λ d. ite d true (is_used a y) ≡ true) [ yes _ ↦ refl | no _ ↦ used ])

pub kept-AllUsed :
    (a b : SubnetAllocator) (held : List IpNet)
    → Same a b
    → ((y : IpNet) → is_used a y ≡ true → is_used b y ≡ true)
    → AllUsed a held
    → AllUsed b held
kept-AllUsed a b [] s keeps used = tt
kept-AllUsed a b (y ∷ ys) s keeps ((n, low, is, used), rest) =
    ((n, omega (arith, low, s.0), is ∙ sym (s.1 n), keeps y used), kept-AllUsed a b ys s keeps rest)

pub without-AllUsed :
    (a b : SubnetAllocator) (x : IpNet) (held : List IpNet)
    → Same a b
    → Sets (net_to_string x) false a.alloc_map b.alloc_map
    → AllUsed a held
    → AllUsed b (without x held)
without-AllUsed a b x [] s sets used = tt
without-AllUsed a b x (y ∷ ys) s sets ((n, low, is, used), rest) =
    elim (text_dec (net_to_string x) (net_to_string y))
      as (λ d. AllUsed b (ite d (without x ys) (y ∷ without x ys))) [
        | yes _ ↦ without-AllUsed a b x ys s sets rest
        | no ne ↦ (
          (
            n,
            omega (arith, low, s.0),
            is ∙ sym (s.1 n),
            sets (net_to_string y)
                ∙ if_neg (text_dec (net_to_string x) (net_to_string y)) ne _ _
                ∙ used,
          ),
          without-AllUsed a b x ys s sets rest,
        )
      ]
