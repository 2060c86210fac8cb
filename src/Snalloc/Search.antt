-- ===== src/Snalloc/Search.antt =====
-- pkg/snalloc: the search of `GetNetwork` for a free subnet.
use native.Mathlib.Nat.{mod-lt, mod-eq_of_lt, add-mod_right}
use k8s_ovs.Base.{
  map_laws, dec_lt, sym, ◌∙◌, ℕ, zero, suc, ◌+◌, ◌-◌, ◌%◌, ◌≤◌, ◌<◌, ◌≡◌, inl, inr, Bool, true,
  false, none, some, List, Text, text_dec, insert, ite, refl, arith, Bool-cases,
}
use k8s_ovs.IpNet.{IpNet, net_to_string}
use k8s_ovs.Snalloc.{SubnetAllocator, is_allocated, num_subnets, gen_subnet, free_number}

-- The next number is in reach of the uint32 arithmetic.
pub record IsValid (a : SubnetAllocator) : Type 0 where
  pub next_le : a.next ≤ num_subnets a
  pub num_pos : 0 < num_subnets a
  pub num_le : num_subnets a ≤ 2147483648

-- The subnet of a number is in use.
abbrev pub is_used : SubnetAllocator → IpNet → Bool
is_used a subnet = is_allocated a.alloc_map (net_to_string subnet)

pub is_allocated-insert :
    (k j : Text) (v : Bool) (m : List (Text × Bool))
    → is_allocated (insert text_dec k v m) j ≡ ite (text_dec k j) v (is_allocated m j)
unfolding is_allocated
is_allocated-insert k j v m = grind map_laws

module _ (a : SubnetAllocator) where
  -- The number that the loop looks at in round `i`.
  abbrev pub number : ℕ → ℕ
  number i = (i + a.next) % 4294967296 % num_subnets a

  free_number-zero : (i : ℕ) → free_number a zero i ≡ none
  unfolding free_number
  free_number-zero i = refl

  free_number-used :
      (left i : ℕ)
      → is_used a (gen_subnet a (number i)) ≡ true
      → free_number a (suc left) i ≡ free_number a left (suc i)
  unfolding free_number
  free_number-used left i used = rw (free_number, used) refl

  free_number-free :
      (left i : ℕ)
      → is_used a (gen_subnet a (number i)) ≡ false
      → free_number a (suc left) i ≡ some (number i)
  unfolding free_number
  free_number-free left i free = rw (free_number, free) refl

  pub free_number-some :
      (left i n : ℕ)
      → 0 < num_subnets a
      → free_number a left i ≡ some n
      → (is_used a (gen_subnet a n) ≡ false) × (n < num_subnets a)
  free_number-some zero i n pos h = ground (arith, sym (free_number-zero i) ∙ h)
  free_number-some (suc left) i n pos h = elim (Bool-cases (is_used a (gen_subnet a (number i)))) [
    | inl used ↦ free_number-some left (suc i) n pos (sym (free_number-used left i used) ∙ h)
    | inr free ↦
        let same : number i ≡ n = ground (arith, sym (free_number-free left i free) ∙ h) in
        rw⁻¹ same (free, mod-lt ((i + a.next) % 4294967296) pos)
  ]

  pub free_number-none :
      (left i : ℕ)
      → free_number a left i ≡ none
      → (j : ℕ) → j < left
      → is_used a (gen_subnet a (number (i + j))) ≡ true
  free_number-none zero i h j low = ground arith
  free_number-none (suc left) i h j low = elim (Bool-cases (is_used a (gen_subnet a (number i)))) [
    | inr free ↦ ground (arith, sym (free_number-free left i free) ∙ h)
    | inl used ↦
        go j low (free_number-none left (suc i) (sym (free_number-used left i used) ∙ h)) used
  ]
    where
      go :
          (j : ℕ)
          → j < suc left
          → ((j : ℕ) → j < left → is_used a (gen_subnet a (number (suc i + j))) ≡ true)
          → is_used a (gen_subnet a (number i)) ≡ true
          → is_used a (gen_subnet a (number (i + j))) ≡ true
      go zero low rest used = let e : i + 0 ≡ i = omega arith in rw e used
      go (suc j) low rest used =
          let e : i + suc j ≡ suc i + j = omega arith in rw e (rest j (ground arith))

  -- Every number is reached from `next` on.
  pub reached :
      IsValid a → (n : ℕ) → n < num_subnets a → (j : ℕ) × (j < num_subnets a) × (number j ≡ n)
  reached v n low = elim (dec_lt n a.next) [
    | no above ↦
        let back : n - a.next + a.next ≡ n = omega arith in
        let small : n < 4294967296 = omega arith in
        (n - a.next, omega arith, rw (back, mod-eq_of_lt small) (mod-eq_of_lt low))
    | yes below ↦
        let m = num_subnets a in
        let back : n + m - a.next + a.next ≡ n + m = omega arith in
        let small : n + m < 4294967296 = omega arith in
        (
          n + m - a.next,
          omega arith,
          rw (back, mod-eq_of_lt small, add-mod_right n m) (mod-eq_of_lt low),
        )
  ]
