-- ===== src/EventQueue/PerKey.antt =====
-- The compressor, seen one key at a time.
use k8s_ovs.Base.{
  ℕ, ◌+◌, ◌≡◌, ◌≢◌, refl, Bool, true, false, Result, ok, err, Option, none, some, List, [], ◌∷◌,
  ◌++◌, Text, text_dec, ite, arith,
}
use k8s_ovs.EventQueue.{
  DeltaType, Object, Delta, Action, action_add, action_compress, action_delete, delta_action_matrix,
  remove_deltas_with_key, choose_action,
}

-- Whether the object has the key.
abbrev pub has_key : Text → Result Text → Bool
has_key k (err e) = false
has_key k (ok j) = ite (text_dec j k) true false

module _ {A : Type 0} (key_func : Object A → Result Text) where
  -- The first delta of a key.
  unfoldable pub first : Text → List (Delta A) → Option (Delta A)
  first k [] = none
  first k (d ∷ l) = elim (has_key k (key_func d.object)) [ true ↦ some d | false ↦ first k l ]

  -- How many deltas of a key there are.
  unfoldable pub count : Text → List (Delta A) → ℕ
  count k [] = 0
  count k (d ∷ l) =
      let n = count k l in elim (has_key k (key_func d.object)) [ true ↦ n + 1 | false ↦ n ]

  pub first-remove :
      (k j : Text) (l : List (Delta A))
      → first k (remove_deltas_with_key key_func l j) ≡ ite (text_dec j k) none (first k l)
  unfolding first remove_deltas_with_key
  first-remove k j [] = ground arith
  first-remove k j (d ∷ l) = ground (arith, first-remove k j l)

  pub count-remove :
      (k j : Text) (l : List (Delta A))
      → count k (remove_deltas_with_key key_func l j) ≡ ite (text_dec j k) 0 (count k l)
  unfolding count remove_deltas_with_key
  count-remove k j [] = ground arith
  count-remove k j (d ∷ l) = ground (arith, count-remove k j l)

  pub first-append :
      (k : Text) (l : List (Delta A)) (d : Delta A)
      → first k (l ++ d ∷ []) ≡ elim (first k l) [
        | some e ↦ some e
        | none ↦ elim (has_key k (key_func d.object)) [ true ↦ some d | false ↦ none ]
      ]
  unfolding first
  first-append k [] d = refl
  first-append k (e ∷ l) d = ground (arith, first-append k l d)

  pub count-append :
      (k : Text) (l : List (Delta A)) (d : Delta A)
      → count k (l ++ d ∷ [])
        ≡ count k l + (elim (has_key k (key_func d.object)) [ true ↦ 1 | false ↦ 0 ])
  unfolding count
  count-append k [] d = ground arith
  count-append k (e ∷ l) d = ground (arith, count-append k l d)

  pub count-none : (k : Text) (l : List (Delta A)) → first k l ≡ none → count k l ≡ 0
  unfolding first count
  count-none k [] h = refl
  count-none k (d ∷ l) h = ground (arith, count-none k l)

pub matrix_never_adds : (old t u : DeltaType) → delta_action_matrix old t ≢ some (action_add, u)
unfolding delta_action_matrix
matrix_never_adds old t u h = ground arith

pub only_new_adds :
    (old : Option DeltaType) (t u : DeltaType)
    → choose_action old t ≡ some (action_add, u)
    → old ≡ none
unfolding choose_action
only_new_adds none t u h = refl
only_new_adds (some old) t u h = absurd (matrix_never_adds old t u h)

-- The type that the compressor remembers for an entry.
abbrev pub type_of : {A : Type 0} → Option (Delta A) → Option DeltaType
type_of none = none
type_of (some d) = some d.type

-- What a delta makes of the entry of its key; the outer `none` is the panic.
abbrev pub acted : {A : Type 0} → Delta A → Option (Action × DeltaType) → Option (Option (Delta A))
acted d none = none
acted d (some (action_add, t)) = some (some d)
acted d (some (action_compress, t)) = some (some (record { type = t; object = d.object }))
acted d (some (action_delete, t)) = some none

unfoldable pub merge : {A : Type 0} → Option (Delta A) → Delta A → Option (Option (Delta A))
unfolding choose_action delta_action_matrix
merge entry d = acted d (choose_action (type_of entry) d.type)

module _ {A : Type 0} (key_func : Object A → Result Text) where
  -- The deltas of one key, folded by `merge`.
  unfoldable pub fold_key : Text → Option (Delta A) → List (Delta A) → Option (Option (Delta A))
  fold_key k entry [] = some entry
  fold_key k entry (d ∷ l) = elim (has_key k (key_func d.object)) [
    | false ↦ fold_key k entry l
    | true ↦ elim (merge entry d) [ none ↦ none | some entry' ↦ fold_key k entry' l ]
  ]
