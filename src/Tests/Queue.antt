-- ===== src/Tests/Queue.antt =====
-- The event queue, on numbers that are their own keys.
use k8s_ovs.Base.{
  ℕ, ◌≡◌, ◌≢◌, ◌≤◌, refl, ok, Option, none, some, List, [], ◌∷◌, Text, arith, lookup,
}
use k8s_ovs.EventQueue.{
  deletion_handling_key, added, updated, deleted, sync, Object, object, Delta, delta_compressor,
}
use k8s_ovs.EventQueue.PerKey.{first, count, fold_key}
use k8s_ovs.EventQueue.Merged.{delta_compressor-fold}
use k8s_ovs.EventQueue.Panic.{delta_compressor_total}
use k8s_ovs.EventQueue.Replay.{replay, replay-compressed}
use k8s_ovs.Tests.Data.{number_key, objects, objects_laws}

-- The first object is added and updated, the second added and deleted.
abbrev deltas : List (Delta ℕ)
deltas =
    record { type = added; object = object 0 1 }
    ∷ record { type = added; object = object 0 2 }
    ∷ record { type = updated; object = object 0 1 }
    ∷ record { type = deleted; object = object 0 2 }
    ∷ []

abbrev compressed : List (Delta ℕ)
compressed = record { type = added; object = object 0 1 } ∷ []

run_deltas : delta_compressor number_key deltas ≡ some compressed
unfolding delta_compressor k8s_ovs.EventQueue.compress_all k8s_ovs.EventQueue.compress_one
    deletion_handling_key k8s_ovs.EventQueue.choose_action lookup k8s_ovs.EventQueue.apply_action
    k8s_ovs.Base.insert k8s_ovs.Base.text_dec k8s_ovs.EventQueue.delta_action_matrix
    k8s_ovs.EventQueue.remove_deltas_with_key
run_deltas = refl

delta_compressor-fold_example :
    (fold_key number_key (2 ∷ []) none deltas ≡ some (first number_key (2 ∷ []) compressed))
    × (count number_key (2 ∷ []) compressed ≤ 1)
delta_compressor-fold_example =
    delta_compressor-fold number_key deltas compressed (2 ∷ []) run_deltas

deltas-fine : (k : Text) → fold_key number_key k none deltas ≢ none
deltas-fine k h =
    ground (arith, (delta_compressor-fold number_key deltas compressed k run_deltas).0, h)

delta_compressor_total_example :
    (out : List (Delta ℕ)) × (delta_compressor number_key deltas ≡ some out)
unfolding deletion_handling_key
delta_compressor_total_example =
    delta_compressor_total number_key deltas
      ((1 ∷ [], refl), ((2 ∷ [], refl), ((1 ∷ [], refl), ((2 ∷ [], refl), tt)))) deltas-fine

replay-compressed_example :
    objects.get_by_key (1 ∷ []) (replay objects compressed [])
    ≡ objects.get_by_key (1 ∷ []) (replay objects deltas [])
unfolding lookup
replay-compressed_example =
    replay-compressed number_key objects objects_laws deltas compressed (1 ∷ []) [] run_deltas
      (λ d h a. refl)
