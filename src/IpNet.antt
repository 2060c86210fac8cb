-- ===== src/IpNet.antt =====
-- The IPv4 addresses and networks of Go's `net` package that the program uses, and pkg/utils/common.go's
-- conversions: an address is a number below 2^32, a network its address and the length of its mask.
pub mod Digits
pub mod Parsed
pub mod RoundTrip
use k8s_ovs.Base.{
  ℕ, ◌+◌, ◌-◌, ◌*◌, ◌/◌, ◌%◌, ◌^◌, ◌≡◌, Bool, Option, none, some, List, [], ◌∷◌, ◌++◌, Text, codes,
  leb, if◌then◌else◌, ◌==◌, decimal, refl,
}
use k8s_ovs.Base.Atoi.{magnitude}
use k8s_ovs.Base.Strings.{split}

-- `net.IPNet`, of IPv4.
pub record IpNet : Type 0 where
  pub ip : ℕ
  pub bits : ℕ

-- A decimal number of at most `most`.
unfoldable pub number_to : ℕ → Text → Option ℕ
unfolding magnitude
number_to most s = elim (magnitude s) [ none ↦ none | some n ↦ if leb n most then some n else none ]

-- Four octets, onto the number read so far.
unfoldable pub octets : ℕ → List Text → Option ℕ
unfolding number_to
octets n [] = some n
octets n (s ∷ rest) = elim (number_to 255 s) [ none ↦ none | some d ↦ octets (n * 256 + d) rest ]

-- `net.ParseIP`, of an IPv4 address.
unfoldable pub parse_ip : Text → Option ℕ
unfolding octets split
parse_ip s = elim (split s 46) [ a ∷ b ∷ c ∷ d ∷ [] ↦ octets 0 (a ∷ b ∷ c ∷ d ∷ []) | _ ↦ none ]

-- The address with its host bits cleared.
unfoldable pub mask : ℕ → ℕ → ℕ
mask ip bits = ip / 2 ^ (32 - bits) * 2 ^ (32 - bits)

-- `net.ParseCIDR`, of an IPv4 network: the network; the address itself is not used.
unfoldable pub parse_cidr : Text → Option IpNet
unfolding parse_ip mask number_to split
parse_cidr s = elim (split s 47) [
  | addr ∷ length ∷ [] ↦ elim (parse_ip addr) [
    | none ↦ none
    | some ip ↦ elim (number_to 32 length) [
      | none ↦ none
      | some bits ↦ some (record { ip = mask ip bits; bits = bits })
    ]
  ]
  | _ ↦ none
]

-- `(*IPNet).Contains`.
unfoldable pub net_contains : IpNet → ℕ → Bool
unfolding mask
net_contains n ip = mask n.ip n.bits == mask ip n.bits

-- `GenerateDefaultGateway`: the address with its lowest bit set.
unfoldable pub gateway_of : IpNet → ℕ
gateway_of n = if n.ip % 2 == 0 then n.ip + 1 else n.ip

-- `(IP).String` and `(*IPNet).String`.
unfoldable pub ip_to_string : ℕ → Text
unfolding decimal
ip_to_string ip =
    decimal (ip / 16777216 % 256)
    ++ 46 ∷ decimal (ip / 65536 % 256)
    ++ 46 ∷ decimal (ip / 256 % 256)
    ++ 46 ∷ decimal (ip % 256)

unfoldable pub net_to_string : IpNet → Text
unfolding ip_to_string decimal
net_to_string n = ip_to_string n.ip ++ 47 ∷ decimal n.bits

parse_cidr_test : parse_cidr (codes "10.1.3.7/16") ≡ some (record { ip = 167837696; bits = 16 })
unfolding parse_cidr
parse_cidr_test = refl

net_to_string_test : net_to_string (record { ip = 167837696; bits = 16 }) ≡ codes "10.1.0.0/16"
unfolding net_to_string
net_to_string_test = refl
