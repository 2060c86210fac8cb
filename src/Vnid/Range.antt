-- ===== src/Vnid/Range.antt =====
-- pkg/vnid/netid/netid.go: a range of netids, over 32-bit words.
use k8s_ovs.Base.{
  ℕ, ◌+◌, ◌-◌, ◌%◌, ◌^◌, ◌≤◌, ◌<◌, ◌≡◌, refl, ◌↔◌, ◌≢◌, ◌⊎◌, Bool, true, false, ◌&&◌, Result, ok,
  err, message, leb, ltb, ◌==◌, if◌then◌else◌, arith, Text, decimal, [], ◌∷◌, ◌++◌,
}

abbrev pub u32 : ℕ
u32 = 4294967296

-- `a + b` and `a - b` on uint32.
abbrev pub add32 : ℕ → ℕ → ℕ
add32 a b = (a + b) % u32

abbrev pub sub32 : ℕ → ℕ → ℕ
sub32 a b = (a + u32 - b) % u32

pub record NetIdRange : Type 0 where
  pub base : ℕ
  pub size : ℕ

-- The code subtracts only where the first test has passed, so the difference does not wrap.
unfoldable pub contains : NetIdRange → ℕ → Bool × ℕ
contains r netid =
    if leb r.base netid && ltb (netid - r.base) r.size then (true, netid - r.base) else (false, 0)

-- `NetIDRange.String`.
unfoldable pub range_to_string : NetIdRange → Text
unfolding decimal
range_to_string r =
    if r.size == 0 then [] else decimal r.base ++ b'-' ∷ decimal (sub32 (add32 r.base r.size) 1)

-- `Set`; the literals are `vnid.MinVNID` and `vnid.MaxVNID`.
unfoldable pub set_range : NetIdRange → ℕ → ℕ → Result NetIdRange
set_range r base size =
    if ltb base 10
    then err (message "invalid netid base, must be greater than MinVNID")
    else if size == 0
    then err (message "invalid netid size, must be greater than zero")
    else if ltb 16777215 (sub32 (add32 base size) 1)
    then err (message "netid range exceeded max value MaxVNID")
    else ok (record { base = base; size = size })

unfoldable pub new_net_id_range : ℕ → ℕ → Result NetIdRange
unfolding set_range
new_net_id_range low high = set_range (record { base = 0; size = 0 }) low (add32 (sub32 high low) 1)

-- What every range that the allocator is built over satisfies.
pub record IsRange (r : NetIdRange) : Type 0 where
  pub above_reserved : 10 ≤ r.base
  pub nonempty : 0 < r.size
  pub below_max : r.base + r.size ≤ 16777216

-- For 32-bit words, two bounds are accepted as a range exactly when the first is at least MinVNID,
-- the second is at most MaxVNID and is not the predecessor of the first; the base is the first,
-- the size their distance plus one modulo 2^32.
pub new_net_id_range-ok :
    (low high : ℕ) (r : NetIdRange)
    → low < 2 ^ 32
    → high < 2 ^ 32
    → (new_net_id_range low high ≡ ok r) ↔ (
        (10 ≤ low)
        × (high < 2 ^ 24)
        × (high + 1 ≢ low)
        × (r.base ≡ low)
        × (r.size ≡ (high + 1 + 2 ^ 32 - low) % 2 ^ 32))
unfolding new_net_id_range
new_net_id_range-ok low high r hl hh = ground arith

-- Ordered bounds between MinVNID and MaxVNID give the range from the first to the second.
pub new_net_id_range-IsRange :
    (low high : ℕ)
    → 10 ≤ low
    → low ≤ high
    → high < 2 ^ 24
    → (r : NetIdRange) × (new_net_id_range low high ≡ ok r)
      × IsRange r
      × (r.base ≡ low)
      × (r.base + r.size ≡ high + 1)
unfolding new_net_id_range
new_net_id_range-IsRange low high a b c =
    (record { base = low; size = high + 1 - low }, ground arith, ground arith, refl, omega arith)

-- `Contains` is membership in the interval, and gives the distance from the base.
pub contains-in :
    (r : NetIdRange) (id : ℕ)
    → r.base ≤ id
    → id < r.base + r.size
    → contains r id ≡ (true, id - r.base)
unfolding contains
contains-in r id lo hi = ground arith

pub contains-out :
    (r : NetIdRange) (id : ℕ) → (id < r.base) ⊎ (r.base + r.size ≤ id) → contains r id ≡ (false, 0)
unfolding contains
contains-out r id out = ground arith

pub InRange-cases :
    (r : NetIdRange) (id : ℕ)
    → ((r.base ≤ id) × (id < r.base + r.size)) ⊎ ((id < r.base) ⊎ (r.base + r.size ≤ id))
InRange-cases r id = grind arith
