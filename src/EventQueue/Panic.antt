-- ===== src/EventQueue/Panic.antt =====
-- When the compressor panics.
use k8s_ovs.Base.{
  ◌≡◌, ◌≢◌, refl, inl, inr, Result, ok, none, some, List, [], ◌∷◌, Text, text_dec, lookup, arith,
  Option-cases,
}
use k8s_ovs.EventQueue.{
  Object, Delta, Compressed, apply_action, choose_action, compress_one, compress_all,
  delta_compressor,
}
use k8s_ovs.EventQueue.PerKey.{first, count, merge, fold_key}
use k8s_ovs.EventQueue.Merged.{Tracks, one-Tracks}

module _ {A : Type 0} (key_func : Object A → Result Text) where
  -- Every object has a key.
  abbrev pub AllKeyed : List (Delta A) → Type 0
  AllKeyed [] = Unit
  AllKeyed (d ∷ l) = ((j : Text) × (key_func d.object ≡ ok j)) × AllKeyed l

  one_total :
      (c : Compressed key_func) (d : Delta A) (j : Text)
      → Tracks key_func c
      → key_func d.object ≡ ok j
      → merge (first key_func j c.new_deltas) d ≢ none
      → (c1 : Compressed key_func) × (compress_one key_func c d ≡ some c1)
  unfolding compress_one merge
  one_total c d j v key fine =
      elim (Option-cases (choose_action (lookup text_dec j c.objects) d.type)) [
        | inl h ↦ absurd (fine (ground (arith, h, v.types j)))
        | inr (a, h) ↦ (apply_action key_func c d j a, ground (arith, key, h))
      ]

  all_total :
      (c : Compressed key_func) (l : List (Delta A))
      → Tracks key_func c
      → AllKeyed l
      → ((k : Text) → fold_key key_func k (first key_func k c.new_deltas) l ≢ none)
      → (c' : Compressed key_func) × (compress_all key_func c l ≡ some c')
  unfolding compress_all fold_key
  all_total c [] v keyed fine = (c, refl)
  all_total c (d ∷ l) v keyed fine =
      let (j, key) = keyed.0 in
      let (c1, one) = one_total c d j v key (λ h. fine j (ground (arith, key, h))) in
      let (v1, entry) = one-Tracks key_func c c1 d j v key one in
      let (c', rest) =
        all_total c1 l v1 keyed.1 (λ k h. fine k (ground (arith, key, entry k, h))) in
      (c', ground (arith, one, rest))

  -- The compressor returns, without a panic, if every object has a key and the deltas of no key
  -- make up a sequence that the matrix has no entry for.
  pub delta_compressor_total :
      (l : List (Delta A))
      → AllKeyed l
      → ((k : Text) → fold_key key_func k none l ≢ none)
      → (out : List (Delta A)) × (delta_compressor key_func l ≡ some out)
  unfolding delta_compressor first count lookup
  delta_compressor_total l keyed fine =
      let (c, e) =
        all_total (record { new_deltas = []; objects = [] }) l
          (record { types = λ k. refl; single = λ k. omega arith }) keyed fine in
      (c.new_deltas, ground (arith, e))
