-- ===== src/IpNet/Parsed.antt =====
-- What `net.ParseIP` and `net.ParseCIDR` can give: addresses of 32 bits, and networks without host bits.
use native.Mathlib.Nat.{div-mul-le_self}
use k8s_ovs.Base.{
  ℕ, ◌+◌, ◌-◌, ◌*◌, ◌/◌, ◌^◌, ◌≤◌, ◌<◌, ◌≡◌, inl, inr, sym, ◌∙◌, Option, none, some, List, [], ◌∷◌,
  Text, leb, arith, Option-cases, Bool-cases,
}
use k8s_ovs.Base.Atoi.{magnitude}
use k8s_ovs.Base.Strings.{split}
use k8s_ovs.IpNet.{IpNet, octets, parse_cidr, parse_ip, number_to, mask}

number_to-le : (most : ℕ) (s : Text) (n : ℕ) → number_to most s ≡ some n → n ≤ most
unfolding number_to
number_to-le most s n e = elim (Option-cases (magnitude s)) [
  | inl bad ↦ absurd (ground (arith, bad, e))
  | inr (m, is) ↦ elim (Bool-cases (leb m most)) [
    | inl low ↦ ground (arith, is, e, low)
    | inr high ↦ absurd (ground (arith, is, e, high))
  ]
]

octets_end-same : (n ip : ℕ) → octets n [] ≡ some ip → n ≡ ip
unfolding octets
octets_end-same n ip e = ground (arith, e)

octets_first :
    (n ip : ℕ) (s : Text) (rest : List Text)
    → octets n (s ∷ rest) ≡ some ip
    → (d : ℕ) × (d ≤ 255) × (octets (n * 256 + d) rest ≡ some ip)
unfolding octets
octets_first n ip s rest e = elim (Option-cases (number_to 255 s)) [
  | inl bad ↦ absurd (ground (arith, bad, e))
  | inr (d, is) ↦ (d, number_to-le 255 s d is, ground (arith, is, e))
]

octets-less : (a b c d : Text) (ip : ℕ) → octets 0 (a ∷ b ∷ c ∷ d ∷ []) ≡ some ip → ip < 4294967296
octets-less a b c d ip e =
    let (i, i_le, e1) = octets_first 0 ip a (b ∷ c ∷ d ∷ []) e in
    let (j, j_le, e2) = octets_first (0 * 256 + i) ip b (c ∷ d ∷ []) e1 in
    let (k, k_le, e3) = octets_first ((0 * 256 + i) * 256 + j) ip c (d ∷ []) e2 in
    let (l, l_le, e4) = octets_first (((0 * 256 + i) * 256 + j) * 256 + k) ip d [] e3 in
    omega (arith, octets_end-same ((((0 * 256 + i) * 256 + j) * 256 + k) * 256 + l) ip e4)

-- `parse_ip` on the parts of its text.
abbrev address_of : List Text → Option ℕ
address_of (a ∷ b ∷ c ∷ d ∷ []) = octets 0 (a ∷ b ∷ c ∷ d ∷ [])
address_of [] = none
address_of (a ∷ []) = none
address_of (a ∷ b ∷ []) = none
address_of (a ∷ b ∷ c ∷ []) = none
address_of (a ∷ b ∷ c ∷ d ∷ part ∷ parts) = none

parse_ip-address_of : (s : Text) → parse_ip s ≡ address_of (split s 46)
unfolding parse_ip
parse_ip-address_of s = ground arith

address_of-less : (l : List Text) (ip : ℕ) → address_of l ≡ some ip → ip < 4294967296
address_of-less (a ∷ b ∷ c ∷ d ∷ []) ip e = octets-less a b c d ip e
address_of-less [] ip e = absurd (ground (arith, e))
address_of-less (a ∷ []) ip e = absurd (ground (arith, e))
address_of-less (a ∷ b ∷ []) ip e = absurd (ground (arith, e))
address_of-less (a ∷ b ∷ c ∷ []) ip e = absurd (ground (arith, e))
address_of-less (a ∷ b ∷ c ∷ d ∷ part ∷ parts) ip e = absurd (ground (arith, e))

parse_ip-less : (s : Text) (ip : ℕ) → parse_ip s ≡ some ip → ip < 4294967296
parse_ip-less s ip e = address_of-less (split s 46) ip (sym (parse_ip-address_of s) ∙ e)

-- A network that parses has no bit below its mask.
pub record IsMasked (n : IpNet) : Type 0 where
  pub bits_le : n.bits ≤ 32
  pub ip_less : n.ip < 4294967296
  pub base : ℕ
  pub masked : n.ip ≡ base * 2 ^ (32 - n.bits)

new_network-IsMasked :
    (ip bits : ℕ) (n : IpNet)
    → bits ≤ 32
    → ip < 4294967296
    → some (record { ip = mask ip bits; bits = bits }) ≡ some n
    → IsMasked n
unfolding mask
new_network-IsMasked ip bits n low less e =
    let ip_is : mask ip bits ≡ n.ip = ground (arith, e) in
    let bits_is : bits ≡ n.bits = ground (arith, e) in
    record {
      bits_le = rw⁻¹ bits_is low;
      ip_less = omega (arith, ip_is, div-mul-le_self ip (2 ^ (32 - bits)), less);
      base = ip / 2 ^ (32 - bits);
      masked = rw⁻¹ bits_is (sym ip_is);
    }

-- `parse_cidr` on the parts of its text.
abbrev network_of : List Text → Option IpNet
network_of (addr ∷ length ∷ []) = elim (parse_ip addr) [
  | none ↦ none
  | some ip ↦ elim (number_to 32 length) [
    | none ↦ none
    | some bits ↦ some (record { ip = mask ip bits; bits = bits })
  ]
]
network_of [] = none
network_of (addr ∷ []) = none
network_of (addr ∷ length ∷ part ∷ parts) = none

parse_cidr-network_of : (s : Text) → parse_cidr s ≡ network_of (split s 47)
unfolding parse_cidr
parse_cidr-network_of s = ground arith

network_of-IsMasked : (l : List Text) (n : IpNet) → network_of l ≡ some n → IsMasked n
network_of-IsMasked [] n e = absurd (ground (arith, e))
network_of-IsMasked (addr ∷ []) n e = absurd (ground (arith, e))
network_of-IsMasked (addr ∷ length ∷ part ∷ parts) n e = absurd (ground (arith, e))
network_of-IsMasked (addr ∷ length ∷ []) n e = elim (Option-cases (parse_ip addr)) [
  | inl bad ↦ absurd (ground (arith, bad, e))
  | inr (ip, is) ↦ elim (Option-cases (number_to 32 length)) [
    | inl bad ↦ absurd (ground (arith, is, bad, e))
    | inr (bits, is') ↦
        new_network-IsMasked ip bits n (number_to-le 32 length bits is') (parse_ip-less addr ip is)
          (ground (arith, is, is', e))
  ]
]

pub parse_cidr-IsMasked : (s : Text) (n : IpNet) → parse_cidr s ≡ some n → IsMasked n
parse_cidr-IsMasked s n e = network_of-IsMasked (split s 47) n (sym (parse_cidr-network_of s) ∙ e)
