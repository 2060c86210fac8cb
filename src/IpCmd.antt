-- ===== src/IpCmd.antt =====
-- pkg/ipcmd/ipcmd.go: the wrapper around the ip command.
pub mod Transaction
use k8s_ovs.Base.{
  ◌≡◌, refl, ℕ, zero, suc, ◌+◌, Bool, true, false, ◌&&◌, ◌||◌, Result, ok, err, Error, message,
  Option, none, some, List, [], ◌∷◌, ◌++◌, Text, codes, leb, if◌then◌else◌, ◌==◌, length,
}
use k8s_ovs.Base.Strings.{split, has_prefix, drop}
use k8s_ovs.Ovs.{Exec}

-- `Transaction`: the interface, and the first error.
pub record IpTransaction : Type 0 where
  pub link : Text
  pub error : Option Error

abbrev is_digit : ℕ → Bool
is_digit c = leb 48 c && leb c 57

-- The longest prefix in a class of bytes, and the rest.
unfoldable pub span : (ℕ → Bool) → Text → Text × Text
span class [] = ([], [])
span class (c ∷ s) = let (t, rest) = span class s in if class c then (c ∷ t, rest) else ([], c ∷ s)

-- The group of a match of `[0-9.]*/[0-9]* ` at the start, whose classes do not overlap with what
-- follows them, so that the longest choice is the only one.
unfoldable pub match_cidr : Text → Option Text
unfolding span
match_cidr s =
    let (ip, rest) = span (λ c. is_digit c || c == b'.') s in
    elim rest [
      | [] ↦ none
      | c ∷ rest' ↦
          let (bits, rest'') = span is_digit rest' in
          elim rest'' [
            | [] ↦ none
            | d ∷ _ ↦ if c == b'/' && d == 32 then some (ip ++ (c ∷ bits)) else none
          ]
    ]

-- The group of a match of `addressRegexp` at the start.
unfoldable pub match_address : Text → Option Text
unfolding has_prefix match_cidr
match_address s = if has_prefix s (codes "inet ") then match_cidr (drop 5 s) else none

-- `addressRegexp.FindAllStringSubmatch`: the groups of the matches, from the left, none overlapping;
-- the number is that of the bytes that the last match still covers.
unfoldable pub find_addresses : ℕ → Text → List Text
unfolding match_address
find_addresses covered [] = []
find_addresses (suc covered) (c ∷ s) = find_addresses covered s
find_addresses zero (c ∷ s) =
    let rest = find_addresses zero s in
    elim (match_address (c ∷ s)) [
      | none ↦ rest
      | some group ↦ group ∷ find_addresses (length group + 5) s
    ]

-- All elements but the last.
unfoldable pub but_last : List Text → List Text
but_last [] = []
but_last (t ∷ []) = []
but_last (t ∷ u ∷ l) = t ∷ but_last (u ∷ l)

module _ (x : Exec) where
  -- `NewTransaction`.
  unfoldable pub new_transaction : Text → IpTransaction
  new_transaction link = record { link = link; error = none }

  -- `Transaction.exec`.
  unfoldable pub exec :
      List Text → IpTransaction → x.World → IpTransaction × (x.World × Result Text)
  exec args tx w = elim tx.error [
    | some e ↦ (tx, (w, err e))
    | none ↦ elim (x.look_path (codes "ip") w) [
      | err _ ↦ let e = message "ip is not installed" in (record tx { error = some e }, (w, err e))
      | ok path ↦
          let (w', output) = x.run path args w in
          elim output [
            | err e ↦ (record tx { error = some e }, (w', err e))
            | ok out ↦ (tx, (w', ok out))
          ]
    ]
  ]

  unfoldable pub get_addresses :
      IpTransaction → x.World → IpTransaction × (x.World × Result (List Text))
  unfolding exec find_addresses
  get_addresses tx w =
      let (tx', (w', output)) =
        exec (codes "addr" ∷ codes "show" ∷ codes "dev" ∷ tx.link ∷ []) tx w in
      (tx', (w', elim output [ err e ↦ err e | ok out ↦ ok (find_addresses 0 out) ]))

  unfoldable pub get_routes :
      IpTransaction → x.World → IpTransaction × (x.World × Result (List Text))
  unfolding exec split but_last
  get_routes tx w =
      let (tx', (w', output)) =
        exec (codes "route" ∷ codes "show" ∷ codes "dev" ∷ tx.link ∷ []) tx w in
      (tx', (w', elim output [ err e ↦ err e | ok out ↦ ok (but_last (split out 10)) ]))

  -- `IgnoreError`.
  unfoldable pub ignore_error : IpTransaction → IpTransaction
  ignore_error tx = record tx { error = none }

  -- `EndTransaction`.
  unfoldable pub end_transaction : IpTransaction → IpTransaction × Result (Unit {0})
  end_transaction tx = (record tx { error = none }, elim tx.error [ none ↦ ok tt | some e ↦ err e ])

addresses_of_tun0 :
    find_addresses 0 (codes "inet 10.1.2.1/24 scope global tun0 inet 10/8 inet x/8 inet6 ::1/8 ")
    ≡ codes "10.1.2.1/24" ∷ codes "10/8" ∷ []
unfolding find_addresses
addresses_of_tun0 = refl
