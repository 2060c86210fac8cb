-- ===== src/Setup/Version.antt =====
-- ksdn/controller.go, lines 119 to 141 and 316 to 319: the flow that notes the version.
use k8s_ovs.Base.{
  ◌≤◌, ◌≡◌, refl, inl, inr, Bool, true, false, not, some, [], ◌∷◌, ◌++◌, Text, arith, Bool-cases,
  length, text_dec,
}
use k8s_ovs.Base.Strings.{has_prefix, contains, from_index, split, drop}
use k8s_ovs.Rules.{get_plugin_version}
use mathlib.Core.List.{append_assoc}
use k8s_ovs.Setup.{version_table, version_action, matches_version, is_version_flow}
use k8s_ovs.Setup.Run.{version_flow}

-- What is shown of a flow after the note: nothing, or more bytes.
pub data NoteEnd : Text → Type 0 where
  ended : NoteEnd []
  more : (s : Text) → NoteEnd (b'.' ∷ s)

has_prefix-append :
    (s rest p : Text) → length p ≤ length s → has_prefix (s ++ rest) p ≡ has_prefix s p
unfolding has_prefix
has_prefix-append s rest [] h = ground arith
has_prefix-append [] rest (c ∷ p) h = absurd (omega arith)
has_prefix-append (d ∷ s) rest (c ∷ p) h = ground (arith, has_prefix-append s rest p (omega arith))

has_prefix_longer : (s rest p : Text) → has_prefix s p ≡ true → has_prefix (s ++ rest) p ≡ true
unfolding has_prefix
has_prefix_longer s rest [] h = ground arith
has_prefix_longer [] rest (c ∷ p) h = ground arith
has_prefix_longer (d ∷ s) rest (c ∷ p) h = ground (arith, has_prefix_longer s rest p)

contains-append : (s rest sub : Text) → contains s sub ≡ true → contains (s ++ rest) sub ≡ true
unfolding contains has_prefix
contains-append [] [] [] h = h
contains-append [] (d ∷ rest) [] h = refl
contains-append [] rest (c ∷ sub) h = ground arith
contains-append (c ∷ s) rest sub h = elim (Bool-cases (has_prefix (c ∷ s) sub)) [
  | inl here ↦ ground (arith, here, has_prefix_longer (c ∷ s) rest sub here)
  | inr later ↦ ground (arith, later, contains-append s rest sub)
]

from_index-length : (s sub found : Text) → from_index s sub ≡ some found → length found ≤ length s
unfolding from_index has_prefix
from_index-length [] sub found h = ground arith
from_index-length (c ∷ s) sub found h = ground (arith, from_index-length s sub found)

-- The first occurrence in a text is the first one in every longer text.
from_index-append :
    (s rest sub found : Text)
    → from_index s sub ≡ some found
    → length sub ≤ length found
    → from_index (s ++ rest) sub ≡ some (found ++ rest)
unfolding from_index has_prefix
from_index-append [] [] [] found h short = ground arith
from_index-append [] (d ∷ rest) [] found h short = ground arith
from_index-append [] rest (c ∷ sub) found h short = ground arith
from_index-append (c ∷ s) rest sub found h short = elim (Bool-cases (has_prefix (c ∷ s) sub)) [
  | inl here ↦ ground (arith, here, has_prefix_longer (c ∷ s) rest sub here)
  | inr later ↦
      let tail : from_index s sub ≡ some found = ground (arith, later) in
      let shorter = from_index-length s sub found tail in
      let same = has_prefix-append (c ∷ s) rest sub (omega arith) in
      ground (arith, later, same, from_index-append s rest sub found tail short)
]

-- The action of the flow that `SetupSDN` writes.
abbrev pub note : Bool → Text
note multitenant = drop 11 (version_flow (get_plugin_version multitenant))

abbrev pub same_type : Bool → Bool → Bool
same_type true checking = checking
same_type false checking = not checking

note_matches :
    (noting checking : Bool) (rest : Text)
    → NoteEnd rest
    → matches_version (split (drop 13 (note noting ++ rest)) b'.') (get_plugin_version checking)
      ≡ same_type noting checking
unfolding version_flow get_plugin_version split matches_version text_dec
note_matches true true _ ended = refl
note_matches true false _ ended = refl
note_matches false true _ ended = refl
note_matches false false _ ended = refl
note_matches true true _ (more s) = refl
note_matches true false _ (more s) = refl
note_matches false true _ (more s) = refl
note_matches false false _ (more s) = refl

-- The note without the words in front.
abbrev bytes : Bool → Text
bytes multitenant = drop 24 (version_flow (get_plugin_version multitenant))

note-bytes : (multitenant : Bool) → note multitenant ≡ version_action ++ bytes multitenant
unfolding version_flow get_plugin_version
note-bytes true = refl
note-bytes false = refl

note_found :
    (multitenant : Bool) (front rest : Text)
    → from_index (front ++ version_action) version_action ≡ some version_action
    → from_index (front ++ (note multitenant ++ rest)) version_action
      ≡ some (note multitenant ++ rest)
note_found multitenant front rest first =
    let found =
      from_index-append (front ++ version_action) (bytes multitenant ++ rest) version_action
        version_action first (omega arith) in
    rw (note-bytes multitenant, append_assoc version_action (bytes multitenant) rest)
      (rw (← append_assoc front version_action (bytes multitenant ++ rest)) found)

-- A flow that a dump shows with the table of the version in front, and then, as the first note,
-- the action that `SetupSDN` writes, with or without more bytes: a node takes it for its version's
-- flow exactly if it is of the type, multitenant or not, of the node that wrote it.
pub is_version_flow-version_flow :
    (noting checking : Bool) (front rest : Text)
    → contains front version_table ≡ true
    → from_index (front ++ version_action) version_action ≡ some version_action
    → NoteEnd rest
    → is_version_flow checking (front ++ (note noting ++ rest)) ≡ same_type noting checking
unfolding is_version_flow version_flow get_plugin_version
is_version_flow-version_flow noting checking front rest table first e =
    let text = note noting ++ rest in
    let shown = contains-append front text version_table table in
    let matched = note_matches noting checking rest e in
    ground (arith, shown, note_found noting front rest first, matched)
