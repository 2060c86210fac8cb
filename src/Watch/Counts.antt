-- ===== src/Watch/Counts.antt =====
-- How often a name occurs in what a watcher holds, and what the operations on slices do to that number.
use k8s_ovs.Base.{
  ℕ, zero, suc, ◌+◌, ◌<◌, ◌≡◌, none, some, List, [], ◌∷◌, ◌++◌, Text, text_dec, ite, length, arith,
  refl,
}
use k8s_ovs.Watch.{last, init, put_at, all_but_last, delete_at, search_from}

-- The item at an index of the slice.
abbrev pub at : {T : Type 0} → T → ℕ → List T → T
at x i [] = x
at x zero (y ∷ s) = y
at x (suc i) (y ∷ s) = at x i s

module _ {T : Type 0} (key : T → Text) where
  -- 1 for an item of the name, 0 for another.
  abbrev pub is_named : Text → T → ℕ
  is_named name x = ite (text_dec (key x) name) 1 0

  abbrev pub count : Text → List T → ℕ
  count name [] = 0
  count name (x ∷ s) = is_named name x + count name s

  pub count-append :
      (name : Text) (s t : List T) → count name (s ++ t) ≡ count name s + count name t
  count-append name [] t = omega arith
  count-append name (x ∷ s) t = omega (arith, count-append name s t)

  count-init :
      (name : Text) (x : T) (s : List T)
      → count name (init x s) + is_named name (last x s) ≡ count name (x ∷ s)
  unfolding init last
  count-init name x [] = omega arith
  count-init name x (y ∷ s) = omega (arith, count-init name y s)

  pub count-put_at :
      (name : Text) (i : ℕ) (d v : T) (s : List T)
      → i < length s
      → count name (put_at i v s) + is_named name (at d i s) ≡ count name s + is_named name v
  unfolding put_at
  count-put_at name i d v [] h = ground arith
  count-put_at name zero d v (x ∷ s) h = omega arith
  count-put_at name (suc i) d v (x ∷ s) h = omega (arith, count-put_at name i d v s (ground arith))

  init-put_at :
      (i : ℕ) (x v y : T) (s : List T)
      → init x (put_at i v (y ∷ s)) ≡ x ∷ all_but_last (put_at i v (y ∷ s))
  unfolding init put_at all_but_last
  init-put_at zero x v y s = refl
  init-put_at (suc i) x v y s = refl

  count-move_last :
      (name : Text) (i : ℕ) (d v x : T) (s : List T)
      → v ≡ last x s
      → i < suc (length s)
      → count name (all_but_last (put_at i v (x ∷ s))) + is_named name (at d i (x ∷ s))
        ≡ count name (x ∷ s)
  unfolding last init put_at all_but_last
  count-move_last name zero d v x [] e h = omega arith
  count-move_last name (suc i) d v x [] e h = ground arith
  count-move_last name zero d v x (y ∷ s) e h = rw e (omega (arith, count-init name y s))
  count-move_last name (suc i) d v x (y ∷ s) e h =
      rw (init-put_at i x v y s) (omega (arith, count-move_last name i d v y s e (ground arith)))

  -- `deleteSubnet` takes the item at the index, and no other, from the slice.
  pub count-delete_at :
      (name : Text) (i : ℕ) (d : T) (s : List T)
      → i < length s
      → count name (delete_at s i) + is_named name (at d i s) ≡ count name s
  unfolding delete_at
  count-delete_at name i d [] h = ground arith
  count-delete_at name i d (x ∷ s) h = count-move_last name i d (last x s) x s refl h

module _ {T : Type 0} (key : T → Text) where
  -- A search that finds nothing: the name does not occur.
  pub search_from-none :
      (i : ℕ) (name : Text) (s : List T) → search_from key i name s ≡ none → count key name s ≡ 0
  unfolding search_from
  search_from-none i name [] h = refl
  search_from-none i name (x ∷ s) h = ground (arith, search_from-none (suc i) name s)

  -- A search that finds an item: its index is one of the slice, and the item there has the name.
  pub search_from-some :
      (i j : ℕ) (name : Text) (x d : T) (s : List T)
      → search_from key i name s ≡ some (j, x)
      → (k : ℕ) × (j ≡ i + k) × (k < length s) × (key x ≡ name) × (at d k s ≡ x)
  unfolding search_from
  search_from-some i j name x d [] h = ground arith
  search_from-some i j name x d (y ∷ s) h = elim (text_dec (key y) name) [
    | yes e ↦ (0, ground arith, ground arith, ground arith, ground arith)
    | no ne ↦
        let (k, place, low, named, there) = search_from-some (suc i) j name x d s (ground arith) in
        (suc k, ground arith, ground arith, named, there)
  ]
