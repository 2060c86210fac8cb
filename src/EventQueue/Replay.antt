-- ===== src/EventQueue/Replay.antt =====
-- A consumer that replays the compressed deltas knows the same objects as one that replays them all.
use k8s_ovs.Base.{
  ◌≤◌, ◌≡◌, ◌≢◌, refl, inl, inr, true, false, Result, Option, none, some, List, [], ◌∷◌, Text,
  arith, Option-cases, Bool-cases, sym, ◌∙◌,
}
use k8s_ovs.EventQueue.{
  DeltaType, added, deleted, Object, Delta, ObjectStore, update_known_objects, delta_compressor,
}
use k8s_ovs.EventQueue.PerKey.{first, count, merge, has_key, fold_key}
use k8s_ovs.EventQueue.Merged.{delta_compressor-fold}

-- What the store documents: a map by key; an object without a key changes nothing.
pub record StoreLaws {A : Type 0} (key_func : Object A → Result Text) (store : ObjectStore A)
    : Type 0 where
  pub get_by_key-add :
      (o : Object A) (k : Text) (s : store.State)
      → store.get_by_key k (store.add o s)
        ≡ elim (has_key k (key_func o)) [ true ↦ some o | false ↦ store.get_by_key k s ]
  pub get_by_key-update :
      (o : Object A) (k : Text) (s : store.State)
      → store.get_by_key k (store.update o s)
        ≡ elim (has_key k (key_func o)) [ true ↦ some o | false ↦ store.get_by_key k s ]
  pub get_by_key-delete :
      (o : Object A) (k : Text) (s : store.State)
      → store.get_by_key k (store.delete_object o s)
        ≡ elim (has_key k (key_func o)) [ true ↦ none | false ↦ store.get_by_key k s ]

-- The object that is known after a delta.
abbrev pub effect : {A : Type 0} → Delta A → Option (Object A)
effect d = elim d.type [ deleted ↦ none | _ ↦ some d.object ]

-- What is known after the delta of an entry, if there is one.
abbrev pub value : {A : Type 0} → Option (Delta A) → Option (Object A) → Option (Object A)
value none x = x
value (some d) x = effect d

DeltaType-discrete : Discrete DeltaType
DeltaType-discrete = hlevel

merge-value :
    {A : Type 0} (entry entry' : Option (Delta A)) (d : Delta A)
    → merge entry d ≡ some entry'
    → value entry' none ≡ effect d
unfolding merge
merge-value none entry' d h = ground arith
merge-value (some old) entry' d h = ground arith

-- An entry that does not say Added never cancels out, and never comes to say it.
merge_known :
    {A : Type 0} (d e : Delta A) (entry' : Option (Delta A))
    → d.type ≢ added
    → merge (some d) e ≡ some entry'
    → (e' : Delta A) × (entry' ≡ some e') × (e'.type ≢ added) × (effect e' ≡ effect e)
unfolding merge
merge_known d e none n h = absurd (ground arith)
merge_known d e (some e') n h = (e', refl, ground arith, ground arith)

module _ {A : Type 0} (key_func : Object A → Result Text) where
  replay_key : Text → List (Delta A) → Option (Object A) → Option (Object A)
  replay_key k [] x = x
  replay_key k (d ∷ l) x = elim (has_key k (key_func d.object)) [
    | true ↦ replay_key k l (effect d)
    | false ↦ replay_key k l x
  ]

  replay_absent :
      (k : Text) (l : List (Delta A)) (x : Option (Object A))
      → count key_func k l ≡ 0
      → replay_key k l x ≡ x
  unfolding replay_key count
  replay_absent k [] x h = refl
  replay_absent k (d ∷ l) x h = ground (arith, replay_absent k l x)

  replay_single :
      (k : Text) (l : List (Delta A)) (x : Option (Object A))
      → count key_func k l ≤ 1
      → replay_key k l x ≡ value (first key_func k l) x
  unfolding replay_key first count
  replay_single k [] x h = refl
  replay_single k (d ∷ l) x h = ground (arith, replay_absent k l (effect d), replay_single k l x)

  -- From nothing, every entry is right.
  fold_from_nothing :
      (k : Text) (entry r : Option (Delta A)) (l : List (Delta A))
      → fold_key key_func k entry l ≡ some r
      → replay_key k l (value entry none) ≡ value r none
  unfolding replay_key fold_key
  fold_from_nothing k entry r [] h = ground arith
  fold_from_nothing k entry r (d ∷ l) h = elim (Option-cases (merge entry d)) [
    | inl stuck ↦ ground (arith, stuck, fold_from_nothing k entry r l)
    | inr (entry', e) ↦ ground (
      arith,
      e,
      merge-value entry entry' d e,
      fold_from_nothing k entry r l,
      fold_from_nothing k entry' r l,
    )
  ]

  fold_from_known :
      (k : Text) (d : Delta A) (r : Option (Delta A)) (l : List (Delta A)) (x : Option (Object A))
      → d.type ≢ added
      → fold_key key_func k (some d) l ≡ some r
      → replay_key k l (effect d) ≡ value r x
  unfolding replay_key fold_key
  fold_from_known k d r [] x n h = ground arith
  fold_from_known k d r (e ∷ l) x n h = elim (Option-cases (merge (some d) e)) [
    | inl stuck ↦ ground (arith, stuck, fold_from_known k d r l x n)
    | inr (entry', m) ↦
        let (e', same, n', eff) = merge_known d e entry' n m in
        ground (arith, m, same, eff, fold_from_known k d r l x n, fold_from_known k e' r l x n')
  ]

  -- The first delta of a key, if it says Added, finds nothing known.
  abbrev pub StartsFresh : Text → List (Delta A) → Option (Object A) → Type 0
  StartsFresh k l x = (d : Delta A) → first key_func k l ≡ some d → d.type ≡ added → x ≡ none

  fold_replay :
      (k : Text) (r : Option (Delta A)) (l : List (Delta A)) (x : Option (Object A))
      → StartsFresh k l x
      → fold_key key_func k none l ≡ some r
      → replay_key k l x ≡ value r x
  unfolding replay_key fold_key first merge
  fold_replay k r [] x fresh h = ground arith
  fold_replay k r (d ∷ l) x fresh h = elim (Bool-cases (has_key k (key_func d.object))) [
    | inr other ↦
        ground (arith, other, fold_replay k r l x (λ e f a. fresh e (ground (arith, other, f)) a))
    | inl mine ↦ elim (DeltaType-discrete d.type added) [
      | yes new ↦
          let nothing : x ≡ none = fresh d (ground (arith, mine)) new in
          ground (arith, mine, nothing, fold_from_nothing k (some d) r l)
      | no old ↦ ground (arith, mine, fold_from_known k d r l x old)
    ]
  ]

module _ {A : Type 0} (store : ObjectStore A) where
  unfoldable pub replay : List (Delta A) → store.State → store.State
  unfolding update_known_objects
  replay [] s = s
  replay (d ∷ l) s = replay l (update_known_objects store d s)

module _ {A : Type 0} (key_func : Object A → Result Text) (store : ObjectStore A)
    (laws : StoreLaws key_func store) where
  get_by_key-known :
      (d : Delta A) (k : Text) (s : store.State)
      → store.get_by_key k (update_known_objects store d s)
        ≡ elim (has_key k (key_func d.object)) [ true ↦ effect d | false ↦ store.get_by_key k s ]
  unfolding update_known_objects
  get_by_key-known d k s = ground (
    arith,
    laws.get_by_key-add d.object k s,
    laws.get_by_key-update d.object k s,
    laws.get_by_key-delete d.object k s,
  )

  get_by_key-replay :
      (l : List (Delta A)) (k : Text) (s : store.State)
      → store.get_by_key k (replay store l s) ≡ replay_key key_func k l (store.get_by_key k s)
  unfolding replay replay_key
  get_by_key-replay [] k s = refl
  get_by_key-replay (d ∷ l) k s =
      ground (arith, get_by_key-replay l k (update_known_objects store d s), get_by_key-known d k s)

  -- If the compressor accepts a list of deltas, and a key whose first delta says Added was not
  -- known before, then replaying the compressed deltas leaves the store of known objects with the
  -- same object under the key as replaying all of them.
  pub replay-compressed :
      (l out : List (Delta A)) (k : Text) (s : store.State)
      → delta_compressor key_func l ≡ some out
      → StartsFresh key_func k l (store.get_by_key k s)
      → store.get_by_key k (replay store out s) ≡ store.get_by_key k (replay store l s)
  replay-compressed l out k s e fresh =
      let (folded, single) = delta_compressor-fold key_func l out k e in
      get_by_key-replay out k s
      ∙ replay_single key_func k out _ single
      ∙ sym (fold_replay key_func k _ l _ fresh folded)
      ∙ sym (get_by_key-replay l k s)
