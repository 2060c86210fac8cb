-- ===== src/Snalloc.antt =====
-- pkg/snalloc/subnet_allocator.go: the allocator of host subnets. The mutex is left out: each call
-- holds it from start to end.
pub mod Bits
pub mod Rotation
pub mod Layout
pub mod Tiles
pub mod Placed
pub mod Held
pub mod InUse
pub mod History
pub mod Search
pub mod Laws
use Prim.Native.Nat.{bit_and, bit_or}
use k8s_ovs.Base.{
  ℕ, zero, suc, ◌+◌, ◌-◌, ◌*◌, ◌/◌, ◌%◌, ◌^◌, ◌≡◌, Bool, true, false, not, ◌&&◌, Result, ok, err,
  Error, message, Option, none, some, List, [], ◌∷◌, Text, codes, text_dec, lookup, insert, ltb,
  if◌then◌else◌, ◌==◌, refl,
}
use k8s_ovs.IpNet.{IpNet, parse_cidr, net_contains, net_to_string}

pub record SubnetAllocator : Type 0 where
  pub network : IpNet
  pub host_bits : ℕ
  pub left_shift : ℕ
  pub left_mask : ℕ
  pub right_shift : ℕ
  pub right_mask : ℕ
  pub next : ℕ
  pub alloc_map : List (Text × Bool)

-- Shifts and decrement of a uint32.
abbrev pub shift_left : ℕ → ℕ → ℕ
shift_left x s = x * 2 ^ s % 4294967296

abbrev pub shift_right : ℕ → ℕ → ℕ
shift_right x s = x / 2 ^ s

abbrev pub less_one : ℕ → ℕ
less_one x = (x + 4294967295) % 4294967296

-- `allocMap[key]`, false for a missing key.
unfoldable pub is_allocated : List (Text × Bool) → Text → Bool
is_allocated m key = elim (lookup text_dec key m) [ some b ↦ b | none ↦ false ]

-- The loop over the networks that are in use: those that cannot be parsed or lie outside are skipped.
unfoldable pub in_use_map : IpNet → List Text → List (Text × Bool) → List (Text × Bool)
unfolding parse_cidr net_contains net_to_string
in_use_map network [] amap = amap
in_use_map network (net_str ∷ in_use) amap = elim (parse_cidr net_str) [
  | none ↦ in_use_map network in_use amap
  | some n_ip ↦ in_use_map network in_use (
      if net_contains network n_ip.ip then insert text_dec (net_to_string n_ip) true amap else amap)
]

unfoldable pub new_subnet_allocator : Text → ℕ → List Text → Result SubnetAllocator
unfolding parse_cidr in_use_map
new_subnet_allocator network host_bits in_use = elim (parse_cidr network) [
  | none ↦ err (message "Failed to parse network address")
  | some net_ip ↦
      let size = net_ip.bits in
      let subnet_bits = 32 - size - host_bits in
      let amap = in_use_map net_ip in_use [] in
      let rotates =
        not (host_bits % 8 == 0)
        && not ((host_bits - 1) / 8 == (host_bits + subnet_bits - 1) / 8) in
      let left_shift = 8 - host_bits % 8 in
      let rotated : SubnetAllocator = record {
        network = net_ip;
        host_bits = host_bits;
        left_shift = left_shift;
        left_mask = less_one (shift_left 1 (32 - size));
        right_shift = subnet_bits - left_shift;
        right_mask = shift_left (less_one (shift_left 1 left_shift)) host_bits;
        next = 0;
        alloc_map = amap;
      } in
      let plain : SubnetAllocator = record {
        network = net_ip;
        host_bits = host_bits;
        left_shift = 0;
        left_mask = 4294967295;
        right_shift = 0;
        right_mask = 0;
        next = 0;
        alloc_map = amap;
      } in
      if host_bits == 0
      then err (message "Host capacity cannot be zero.")
      else if ltb (32 - size) host_bits
      then err (message "Subnet capacity cannot be larger than number of networks available.")
      else if rotates
      then ok rotated
      else ok plain
]

-- The number of subnets.
unfoldable pub num_subnets : SubnetAllocator → ℕ
num_subnets a = shift_left 1 (32 - a.network.bits - a.host_bits)

-- The subnet of a number.
unfoldable pub gen_subnet : SubnetAllocator → ℕ → IpNet
gen_subnet a n =
    let shifted = shift_left n a.host_bits in
    let ipu =
      bit_or (bit_or a.network.ip (bit_and (shift_left shifted a.left_shift) a.left_mask))
        (bit_and (shift_right shifted a.right_shift) a.right_mask) in
    record { ip = ipu; bits = 32 - a.network.bits - a.host_bits + a.network.bits }

-- The loop of `GetNetwork` from `i`, with `left` rounds to go: the first free number.
unfoldable pub free_number : SubnetAllocator → ℕ → ℕ → Option ℕ
unfolding num_subnets gen_subnet is_allocated net_to_string
free_number a zero i = none
free_number a (suc left) i =
    let n = (i + a.next) % 4294967296 % num_subnets a in
    let rest = free_number a left (suc i) in
    if is_allocated a.alloc_map (net_to_string (gen_subnet a n)) then rest else some n

unfoldable pub get_network : SubnetAllocator → SubnetAllocator × Result IpNet
unfolding free_number
get_network a = elim (free_number a (num_subnets a) 0) [
  | none ↦ (record a { next = 0 }, err (message "No subnets available."))
  | some n ↦
      let subnet = gen_subnet a n in
      (
        record a {
          alloc_map = insert text_dec (net_to_string subnet) true a.alloc_map;
          next = (n + 1) % 4294967296;
        },
        ok subnet,
      )
]

unfoldable pub release_network : SubnetAllocator → IpNet → SubnetAllocator × Result (Unit {0})
unfolding is_allocated net_contains net_to_string
release_network a ipnet =
    let ipnet_str = net_to_string ipnet in
    if not (net_contains a.network ipnet.ip)
    then (a, err (message "Provided subnet doesn't belong to the network."))
    else if not (is_allocated a.alloc_map ipnet_str)
    then (a, err (message "Provided subnet is already available."))
    else (record a { alloc_map = insert text_dec ipnet_str false a.alloc_map }, ok tt)
