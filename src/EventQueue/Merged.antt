-- ===== src/EventQueue/Merged.antt =====
-- The whole list that the compressor makes, followed key by key.
use k8s_ovs.Base.{
  ◌≤◌, ◌≡◌, refl, inl, inr, Result, ok, err, Error, Option, none, some, List, [], ◌∷◌, Text,
  text_dec, lookup, lookup-insert, lookup-delete, ite, arith, Option-cases, Result-cases,
}
use k8s_ovs.EventQueue.{
  DeltaType, Object, Delta, Action, action_add, action_compress, action_delete,
  remove_deltas_with_key, Compressed, apply_action, choose_action, compress_one, compress_all,
  delta_compressor,
}
-- Whether the object has the key.
use k8s_ovs.EventQueue.PerKey.{
  first, count, first-remove, count-remove, first-append, count-append, count-none, only_new_adds,
  type_of, merge, fold_key,
}

module _ {A : Type 0} (key_func : Object A → Result Text) where
  pub record Tracks (c : Compressed key_func) : Type 0 where
    pub types : (k : Text) → lookup text_dec k c.objects ≡ type_of (first key_func k c.new_deltas)
    pub single : (k : Text) → count key_func k c.new_deltas ≤ 1

  -- The entry of a key after an action for the key `j`.
  action-Tracks :
      (c : Compressed key_func) (d : Delta A) (j : Text) (a : Action × DeltaType)
      → Tracks c
      → key_func d.object ≡ ok j
      → choose_action (type_of (first key_func j c.new_deltas)) d.type ≡ some a
      → Tracks (apply_action key_func c d j a)
        × ((k : Text)
            → some (first key_func k (apply_action key_func c d j a).new_deltas)
              ≡ ite
                  (text_dec j k)
                  (merge (first key_func k c.new_deltas) d)
                  (some (first key_func k c.new_deltas)))
  unfolding apply_action merge
  action-Tracks c d j (action_add, t) v key e =
      let fresh = only_new_adds (type_of (first key_func j c.new_deltas)) d.type t e in
      (
        record {
          types = λ k. ground (
            arith,
            v.types k,
            fresh,
            key,
            lookup-insert text_dec j k d.type c.objects,
            first-append key_func k c.new_deltas d,
          );
          single = λ k. ground (
            arith,
            v.single k,
            fresh,
            key,
            count-append key_func k c.new_deltas d,
            count-none key_func k c.new_deltas,
          );
        },
        λ k. ground (arith, fresh, e, key, first-append key_func k c.new_deltas d),
      )
  action-Tracks c d j (action_compress, t) v key e =
      let kept = remove_deltas_with_key key_func c.new_deltas j in
      let new_delta : Delta A = record { type = t; object = d.object } in
      (
        record {
          types = λ k. ground (
            arith,
            v.types k,
            key,
            lookup-insert text_dec j k t c.objects,
            first-append key_func k kept new_delta,
            first-remove key_func k j c.new_deltas,
          );
          single = λ k. ground (
            arith,
            v.single k,
            key,
            count-append key_func k kept new_delta,
            count-remove key_func k j c.new_deltas,
          );
        },
        λ k. ground (
          arith,
          e,
          key,
          first-append key_func k kept new_delta,
          first-remove key_func k j c.new_deltas,
        ),
      )
  action-Tracks c d j (action_delete, t) v key e = (
    record {
      types = λ k. ground (
        arith,
        v.types k,
        lookup-delete text_dec j k c.objects,
        first-remove key_func k j c.new_deltas,
      );
      single = λ k. ground (arith, v.single k, count-remove key_func k j c.new_deltas);
    },
    λ k. ground (arith, e, first-remove key_func k j c.new_deltas),
  )

  pub one-Tracks :
      (c c' : Compressed key_func) (d : Delta A) (j : Text)
      → Tracks c
      → key_func d.object ≡ ok j
      → compress_one key_func c d ≡ some c'
      → Tracks c'
        × ((k : Text)
            → some (first key_func k c'.new_deltas)
              ≡ ite
                  (text_dec j k)
                  (merge (first key_func k c.new_deltas) d)
                  (some (first key_func k c.new_deltas)))
  unfolding compress_one
  one-Tracks c c' d j v key e = go (choose_action (lookup text_dec j c.objects) d.type) refl
    where
      go :
          (a : Option (Action × DeltaType))
          → choose_action (lookup text_dec j c.objects) d.type ≡ a
          → Tracks c'
            × ((k : Text)
                → some (first key_func k c'.new_deltas)
                  ≡ ite
                      (text_dec j k)
                      (merge (first key_func k c.new_deltas) d)
                      (some (first key_func k c.new_deltas)))
      go none h = ground (arith, key, h)
      go (some a) h =
          let result : c' ≡ apply_action key_func c d j a = ground (arith, key, h) in
          rw result (action-Tracks c d j a v key (rw (← v.types j) h))

  compress_all-cons :
      (c c' : Compressed key_func) (d : Delta A) (l : List (Delta A))
      → compress_all key_func c (d ∷ l) ≡ some c'
      → (c1 : Compressed key_func) × (j : Text) × (key_func d.object ≡ ok j)
        × (compress_one key_func c d ≡ some c1)
        × (compress_all key_func c1 l ≡ some c')
  unfolding compress_all
  compress_all-cons c c' d l e = elim (Option-cases (compress_one key_func c d)) [
    | inl h ↦ absurd (stuck h)
    | inr (c1, h) ↦ let (j, key) = keyed c1 h in (c1, j, key, h, ground (arith, h))
  ]
    where
      stuck : compress_one key_func c d ≡ none → ⊥
      stuck h = ground (arith, h)

      keyed :
          (c1 : Compressed key_func)
          → compress_one key_func c d ≡ some c1
          → (j : Text) × (key_func d.object ≡ ok j)
      keyed c1 h = elim (Result-cases (key_func d.object)) [
        | inl found ↦ found
        | inr (x, failed) ↦ absurd (unkeyed failed h)
      ]
        where
          unkeyed :
              {x : Error} → key_func d.object ≡ err x → compress_one key_func c d ≡ some c1 → ⊥
          unkeyed failed = unfold compress_one in (λ h'. ground (arith, failed, h'))

  all-Tracks :
      (c c' : Compressed key_func) (l : List (Delta A))
      → Tracks c
      → compress_all key_func c l ≡ some c'
      → Tracks c'
        × ((k : Text)
            → fold_key key_func k (first key_func k c.new_deltas) l
              ≡ some (first key_func k c'.new_deltas))
  unfolding compress_all fold_key
  all-Tracks c c' [] v e = let same : c ≡ c' = cc in rw (← same) (v, λ k. refl)
  all-Tracks c c' (d ∷ l) v e =
      let (c1, j, key, one, rest) = compress_all-cons c c' d l e in
      let (v1, entry) = one-Tracks c c1 d j v key one in
      let (v', folded) = all-Tracks c1 c' l v1 rest in
      (v', λ k. ground (arith, key, entry k, folded k))

  -- A list that the compressor accepts comes out with at most one delta for each key: the one that
  -- the deltas of the key merge to by the matrix, in their order, and none if they cancel out.
  pub delta_compressor-fold :
      (l out : List (Delta A)) (k : Text)
      → delta_compressor key_func l ≡ some out
      → (fold_key key_func k none l ≡ some (first key_func k out)) × (count key_func k out ≤ 1)
  unfolding delta_compressor first count
  delta_compressor-fold l out k e = elim (Option-cases (compress_all key_func empty l)) [
    | inl h ↦ absurd (ground (arith, h))
    | inr (c, h) ↦
        let (v, folded) = all-Tracks empty c l start h in
        let same : c.new_deltas ≡ out = ground (arith, h) in rw (← same) (folded k, v.single k)
  ]
    where
      empty : Compressed key_func
      empty = record { new_deltas = []; objects = [] }

      start : Tracks empty
      start = unfold lookup in record { types = λ k. refl; single = λ k. omega arith }
