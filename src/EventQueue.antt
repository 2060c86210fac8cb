-- ===== src/EventQueue.antt =====
-- ksdn/eventqueue.go: the queue that compresses the deltas of an object and hands them out. The
-- DeltaFIFO and the store of known objects are Kubernetes code: the store is an interface here.
pub mod PerKey
pub mod Merged
pub mod Panic
pub mod Replay
use k8s_ovs.Base.{
  ℕ, ◌≡◌, Bool, true, false, Result, ok, err, Error, message, Option, none, some, List, [], ◌∷◌,
  ◌++◌, Text, text_dec, lookup, insert, delete, ite, ℕ_discrete,
}

-- `cache.DeltaType`.
pub data DeltaType : Type 0 where
  added updated deleted sync : DeltaType

-- An object of the API, by its Go type and its value, or a `cache.DeletedFinalStateUnknown`, by its
-- key and the last known object.
pub data Object (A : Type 0) : Type 0 where
  object : ℕ → A → Object A
  final_state_unknown : Text → ℕ → A → Object A

pub record Delta (A : Type 0) : Type 0 where
  pub type : DeltaType
  pub object : Object A

pub data Action : Type 0 where
  action_add action_compress action_delete : Action

-- `deltaActionMatrix`; `none` stands for a missing entry.
unfoldable pub delta_action_matrix : DeltaType → DeltaType → Option (Action × DeltaType)
delta_action_matrix added sync = some (action_compress, added)
delta_action_matrix added updated = some (action_compress, added)
delta_action_matrix added deleted = some (action_delete, deleted)
delta_action_matrix added added = none
delta_action_matrix sync sync = some (action_compress, sync)
delta_action_matrix sync updated = some (action_compress, sync)
delta_action_matrix sync deleted = some (action_compress, deleted)
delta_action_matrix sync added = none
delta_action_matrix updated updated = some (action_compress, updated)
delta_action_matrix updated deleted = some (action_compress, deleted)
delta_action_matrix updated added = none
delta_action_matrix updated sync = none
delta_action_matrix deleted added = some (action_compress, updated)
delta_action_matrix deleted sync = some (action_compress, sync)
delta_action_matrix deleted updated = none
delta_action_matrix deleted deleted = none

-- The action for a delta, after the last type that the object has had; `none` for a panic.
unfoldable pub choose_action : Option DeltaType → DeltaType → Option (Action × DeltaType)
choose_action none t = some (action_add, t)
choose_action (some old) t = delta_action_matrix old t

module _ {A : Type 0} where
  -- `DeletionHandlingMetaNamespaceKeyFunc`, over `cache.MetaNamespaceKeyFunc`.
  unfoldable pub deletion_handling_key : (A → Result Text) → Object A → Result Text
  deletion_handling_key meta_key (final_state_unknown key t o) = ok key
  deletion_handling_key meta_key (object t o) = meta_key o

  -- `extractDeltaObject`: the object, if it has the expected type.
  unfoldable pub check_type : ℕ → A → ℕ → Result (ℕ × A)
  unfolding ℕ_discrete
  check_type t o expected =
      ite (ℕ_discrete t expected) (ok (t, o)) (err (message "got delta object of another type"))

  unfoldable pub extract_delta_object : Delta A → ℕ → Result (ℕ × A)
  unfolding check_type
  extract_delta_object d expected = elim d.object [
    | object t o ↦ check_type t o expected
    | final_state_unknown key t o ↦ check_type t o expected
  ]

-- The test of the loop of `removeDeltasWithKey`.
unfoldable pub keeps : Text → Result Text → Bool
unfolding text_dec
keeps remove_key (err e) = false
keeps remove_key (ok key) = ite (text_dec key remove_key) false true

module _ {A : Type 0} (key_func : Object A → Result Text) where
  unfoldable pub remove_deltas_with_key : List (Delta A) → Text → List (Delta A)
  unfolding keeps
  remove_deltas_with_key [] remove_key = []
  remove_deltas_with_key (d ∷ deltas) remove_key =
      let rest = remove_deltas_with_key deltas remove_key in
      elim (keeps remove_key (key_func d.object)) [ true ↦ d ∷ rest | false ↦ rest ]

  -- The variables of the loop of `deltaCompressor`.
  pub record Compressed : Type 0 where
    pub new_deltas : List (Delta A)
    pub objects : List (Text × DeltaType)

  -- The `switch` of the loop.
  unfoldable pub apply_action : Compressed → Delta A → Text → Action × DeltaType → Compressed
  apply_action c d key (action_add, t) = record {
    new_deltas = c.new_deltas ++ d ∷ [];
    objects = insert text_dec key d.type c.objects;
  }
  apply_action c d key (action_compress, t) =
      let new_delta : Delta A = record { type = t; object = d.object } in
      record {
        new_deltas = remove_deltas_with_key c.new_deltas key ++ new_delta ∷ [];
        objects = insert text_dec key t c.objects;
      }
  apply_action c d key (action_delete, t) = record {
    new_deltas = remove_deltas_with_key c.new_deltas key;
    objects = delete text_dec key c.objects;
  }

  -- One round of the loop; `none` for a panic.
  unfoldable pub compress_one : Compressed → Delta A → Option Compressed
  compress_one c d = elim (key_func d.object) [
    | err e ↦ none
    | ok key ↦ elim (choose_action (lookup text_dec key c.objects) d.type) [
      | none ↦ none
      | some a ↦ some (apply_action c d key a)
    ]
  ]

  unfoldable pub compress_all : Compressed → List (Delta A) → Option Compressed
  compress_all c [] = some c
  compress_all c (d ∷ deltas) = elim (compress_one c d) [
    | none ↦ none
    | some c' ↦ compress_all c' deltas
  ]

  -- `none` for a panic.
  unfoldable pub delta_compressor : List (Delta A) → Option (List (Delta A))
  delta_compressor deltas = elim (compress_all (record { new_deltas = []; objects = [] }) deltas) [
    | none ↦ none
    | some c ↦ some c.new_deltas
  ]

-- `cache.Store`, which the queue keeps the known objects in.
pub record ObjectStore (A : Type 0) : Type 1 where
  pub State : Type 0
  pub add : Object A → State → State
  pub update : Object A → State → State
  pub delete_object : Object A → State → State
  pub get : Object A → State → Option (Object A)
  pub get_by_key : Text → State → Option (Object A)

module _ {A : Type 0} (store : ObjectStore A) where
  -- `updateKnownObjects`. A queue has a store: the program makes its queues by `NewEventQueue`.
  unfoldable pub update_known_objects : Delta A → store.State → store.State
  update_known_objects d s = elim d.type [
    | added ↦ store.add d.object s
    | updated ↦ store.update d.object s
    | sync ↦ elim (store.get d.object s) [
      | some _ ↦ store.update d.object s
      | none ↦ store.add d.object s
    ]
    | deleted ↦ store.delete_object d.object s
  ]

  -- The loop of `Pop`, over the state `S` of the handler: it stops at an object of another type than
  -- the expected one, and at an error of the handler. A `nil` expected type passes the object as it is.
  module _ {S : Type 0} (process : DeltaType → Object A → S → S × Result (Unit {0}))
      (expected : Option ℕ) where
    unfoldable pub expected_object : Delta A → Result (Object A)
    unfolding extract_delta_object
    expected_object d = elim expected [
      | none ↦ ok d.object
      | some t ↦ elim (extract_delta_object d t) [ err e ↦ err e | ok (u, o) ↦ ok (object u o) ]
    ]

    unfoldable pub pop_deltas : List (Delta A) → store.State → S → store.State × S
    unfolding update_known_objects expected_object
    pop_deltas [] known s = (known, s)
    pop_deltas (d ∷ deltas) known s =
        let known' = update_known_objects d known in
        elim (expected_object d) [
          | err e ↦ (known', s)
          | ok o ↦
              let (s', answer) = process d.type o s in
              elim answer [ err e ↦ (known', s') | ok _ ↦ pop_deltas deltas known' s' ]
        ]
