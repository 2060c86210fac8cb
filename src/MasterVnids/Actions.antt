-- ===== src/MasterVnids/Actions.antt =====
-- The three actions of `updateNetID`: global, join and isolate, and its errors.
use k8s_ovs.Base.{
  map_laws, ℕ, ◌<◌, ◌≡◌, ◌≢◌, refl, ◌⊎◌, inl, inr, Bool, true, false, Result, ok, err, err_full,
  message, none, some, Text, text_dec, lookup, insert, delete, lookup-delete, ite, if_neg, ◌==◌,
  arith, Bool-cases, Result-cases,
}
use k8s_ovs.Vnid.Bitmap.{Bitmap, BitmapLaws}
use k8s_ovs.Vnid.Allocator
use k8s_ovs.Vnid.Allocator.Laws.{allocate_next_full}
use k8s_ovs.MasterVnids.{
  MasterVnidMap, Ids, count_value, replace_net_id, isolate, join, update_net_id,
  isolate_pod_network, join_pod_network, global_pod_network,
}
use k8s_ovs.MasterVnids.Count.{count-pos, count_unique}
use k8s_ovs.MasterVnids.Invariant.{IsValid}
use k8s_ovs.MasterVnids.Update.{next-Holds, next_failed, replace-IsValid}

lookup-replaced :
    (name other : Text) (x : ℕ) (m : Ids)
    → lookup text_dec other (insert text_dec name x (delete text_dec name m))
      ≡ ite (text_dec name other) (some x) (lookup text_dec other m)
lookup-replaced name other x m = grind map_laws

module _ {b : Bitmap} (laws : BitmapLaws b) (m : MasterVnidMap b) where
  -- The namespace has the id `x` afterwards, and every other namespace has the id that it had.
  pub record Gives (name : Text) (x : ℕ) (r : MasterVnidMap b × Result ℕ) : Type 0 where
    pub answer : r.1 ≡ ok x
    pub valid : IsValid laws r.0
    pub after :
        (other : Text)
        → lookup text_dec other r.0.ids
          ≡ ite (text_dec name other) (some x) (lookup text_dec other m.ids)

  replace-Gives :
      (name : Text) (old x : ℕ) (flag : Bool)
      → IsValid laws m
      → lookup text_dec name m.ids ≡ some old
      → (x ≡ 0) ⊎ (0 < count_value x (delete text_dec name m.ids))
      → Gives name x (replace_net_id b m name x flag)
  replace-Gives name old x flag v found h =
      let (valid, answer, ids) = replace-IsValid laws m 0 name old x flag v found (inr (refl, h)) in
      record {
        answer = answer;
        valid = valid;
        after = λ other. rw ids (lookup-replaced name other x m.ids);
      }

  -- The id is the namespace's alone.
  abbrev pub Isolates : Text → MasterVnidMap b × Result ℕ → Type 0
  Isolates name r =
      ((x : ℕ) × Gives name x r
        × ((other : Text) → other ≢ name → lookup text_dec other r.0.ids ≢ some x))
      ⊎ (r ≡ (m, err err_full))

  replace-Isolates :
      (name : Text) (old x : ℕ)
      → IsValid laws m
      → lookup text_dec name m.ids ≡ some old
      → (Allocator.allocate_next b m.net_id_manager).1 ≡ ok x
      → Isolates name (
          replace_net_id b
            (record m { net_id_manager = (Allocator.allocate_next b m.net_id_manager).0 })
            name
            x
            true)
  replace-Isolates name old x v found e =
      let (held, unused, _, _) = next-Holds laws m x v e in
      let (valid, answer, ids) =
        replace-IsValid laws _ x name old x true held found (inl (refl, unused)) in
      inl (
        x,
        record {
          answer = answer;
          valid = valid;
          after = λ other. rw ids (lookup-replaced name other x m.ids);
        },
        λ other ne h. ground (
          arith,
          (rw (ids, lookup-replaced name other x m.ids) at h),
          count-pos x other m.ids,
          unused,
        ),
      )

  isolate-Isolates :
      (name : Text) (old : ℕ)
      → IsValid laws m
      → lookup text_dec name m.ids ≡ some old
      → Isolates name (isolate b m name old)
  unfolding isolate
  isolate-Isolates name old v found = elim (Bool-cases (count_value old m.ids == 1)) [
    | inl alone ↦
        rw (alone, isolate)
          (inl (
            old,
            record { answer = refl; valid = v; after = λ other. ground arith },
            λ other ne h. ne (count_unique old other name m.ids v.distinct (ground arith) h found),
          ))
    | inr shared ↦ elim (Result-cases (Allocator.allocate_next b m.net_id_manager).1) [
      | inl (x, e) ↦ rw (shared, e, isolate) (replace-Isolates name old x v found e)
      | inr (x, e) ↦
          rw
            (
              shared,
              e,
              isolate,
              next_failed laws m x v e,
              (allocate_next_full laws m.net_id_manager x v.allocator e).0,
            )
            (inr refl)
    ]
  ]

  module _ (name args : Text) (old : ℕ) (v : IsValid laws m)
      (found : lookup text_dec name m.ids ≡ some old) where
    -- `global`: the namespace has the global id.
    pub update_net_id_global : Gives name 0 (update_net_id b m name global_pod_network args)
    unfolding update_net_id text_dec
    update_net_id_global =
        rw (found, update_net_id) (replace-Gives name old 0 false v found (inl refl))

    -- `join` with another namespace that a valid map has: the namespace has that one's id
    -- afterwards, the other namespaces keep theirs, and the map stays valid.
    pub update_net_id_join :
        (x : ℕ)
        → args ≢ name
        → lookup text_dec args m.ids ≡ some x
        → Gives name x (update_net_id b m name join_pod_network args)
    unfolding update_net_id join text_dec
    update_net_id_join x other joined =
        rw (found, joined, update_net_id, join)
          (replace-Gives name old x false v found (inr shared))
      where
        shared : 0 < count_value x (delete text_dec name m.ids)
        shared =
            count-pos x args (delete text_dec name m.ids)
              (ground (arith, lookup-delete text_dec name args m.ids))

    -- `join` with a namespace that is not known: an error, and no change.
    pub update_net_id_join_unknown :
        lookup text_dec args m.ids ≡ none
        → update_net_id b m name join_pod_network args
          ≡ (m, err (message "netid not found for namespace"))
    unfolding update_net_id join text_dec
    update_net_id_join_unknown absent = rw (found, absent, update_net_id, join)

    -- `isolate`, on a valid map that has the namespace: it succeeds with an id that no other
    -- namespace has afterwards, the other namespaces keep theirs and the map stays valid; or the
    -- result is ErrFull and nothing changes.
    pub update_net_id_isolate : Isolates name (update_net_id b m name isolate_pod_network args)
    unfolding update_net_id text_dec
    update_net_id_isolate = rw (found, update_net_id) (isolate-Isolates name old v found)

    -- Any other action: an error, and no change.
    pub update_net_id_invalid :
        (action : Text)
        → action ≢ global_pod_network
        → action ≢ join_pod_network
        → action ≢ isolate_pod_network
        → update_net_id b m name action args ≡ (m, err (message "invalid pod network action"))
    unfolding update_net_id
    update_net_id_invalid action g j i =
        rw (found, update_net_id, if_neg _ g, if_neg _ j, if_neg _ i)

  -- A namespace that is not known: an error, and no change.
  pub update_net_id_unknown :
      (name action args : Text)
      → lookup text_dec name m.ids ≡ none
      → update_net_id b m name action args ≡ (m, err (message "netid not found for namespace"))
  unfolding update_net_id
  update_net_id_unknown name action args absent = rw (absent, update_net_id)
