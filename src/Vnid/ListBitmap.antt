-- ===== src/Vnid/ListBitmap.antt =====
-- A bitmap that meets the documented behaviour: the list of the held offsets, the lowest free one
-- handed out first. It shows that the assumptions can be met, and lets the model run.
use k8s_ovs.Base.{
  ℕ, zero, suc, ◌+◌, ◌-◌, ◌≤◌, ◌<◌, ◌≡◌, refl, inl, inr, Bool, true, false, ok, Option, none, some,
  List, [], ◌∷◌, ite, ℕ_discrete, arith, Bool-cases, if◌then◌else◌, length,
}
use k8s_ovs.Vnid.Bitmap.{Bitmap, BitmapLaws}

pub record Offsets : Type 0 where
  pub limit : ℕ
  pub held : List ℕ

unfoldable pub member : ℕ → List ℕ → Bool
unfolding ℕ_discrete
member i [] = false
member i (j ∷ l) = ite (ℕ_discrete j i) true (member i l)

unfoldable pub without : ℕ → List ℕ → List ℕ
unfolding ℕ_discrete
without i [] = []
without i (j ∷ l) = let rest = without i l in ite (ℕ_discrete j i) rest (j ∷ rest)

-- The first free offset among the `n` from `at` on.
unfoldable pub scan : ℕ → ℕ → List ℕ → Option ℕ
scan zero at l = none
scan (suc n) at l = elim (member at l) [ true ↦ scan n (suc at) l | false ↦ some at ]

abbrev pub hold : Option ℕ → Offsets → Offsets
hold none s = s
hold (some i) s = record s { held = i ∷ s.held }

abbrev pub list_bitmap : Bitmap
list_bitmap = record {
  State = Offsets;
  create = λ n t. record { limit = n; held = [] };
  allocate =
      λ i s. if member i s.held then (s, ok false) else (record s { held = i ∷ s.held }, ok true);
  allocate_next = λ s. (hold (scan s.limit 0 s.held) s, ok (scan s.limit 0 s.held));
  release = λ i s. (record s { held = without i s.held }, ok tt);
  has = λ i s. member i s.held;
  free = λ s. s.limit - length s.held;
}

pub member-without :
    (i j : ℕ) (l : List ℕ) → member j (without i l) ≡ ite (ℕ_discrete i j) false (member j l)
unfolding member without
member-without i j [] = ground arith
member-without i j (k ∷ l) = ground (arith, member-without i j l)

pub member-cons : (i j : ℕ) (l : List ℕ) → member j (i ∷ l) ≡ ite (ℕ_discrete i j) true (member j l)
unfolding member
member-cons i j l = refl

pub member-nil : (i : ℕ) → member i [] ≡ false
unfolding member
member-nil i = refl

pub scan-some :
    (n at : ℕ) (l : List ℕ) (i : ℕ) → scan n at l ≡ some i → (i < at + n) × (member i l ≡ false)
unfolding scan
scan-some zero at l i e = cc
scan-some (suc n) at l i e = ground (arith, scan-some n (suc at) l i)

pub scan-none :
    (n at : ℕ) (l : List ℕ) → scan n at l ≡ none → (i : ℕ) → at ≤ i → i < at + n → member i l ≡ true
unfolding scan
scan-none zero at l e i lo hi = absurd (omega arith)
scan-none (suc n) at l e i lo hi = elim (Bool-cases (member at l)) [
  | inr free ↦ ground arith
  | inl held ↦ elim (ℕ_discrete at i) [
    | yes p ↦ rw (← p) held
    | no p ↦ scan-none n (suc at) l (ground arith) i (omega arith) (omega arith)
  ]
]

pub limit-hold : (o : Option ℕ) (s : Offsets) → (hold o s).limit ≡ s.limit
limit-hold none s = refl
limit-hold (some i) s = refl

pub list_bitmap_laws : BitmapLaws list_bitmap
list_bitmap_laws = record {
  limit = λ s. s.limit;
  limit-create = λ n t. refl;
  has-create = λ n t i. member-nil i;
  allocate_result = λ i s. ground arith;
  limit-allocate = λ i s. ground arith;
  has-allocate = λ i j s. ground (arith, member-cons i j s.held);
  release_result = λ i s. refl;
  limit-release = λ i s. refl;
  has-release = λ i j s. member-without i j s.held;
  next_no_error = λ s e h. cc;
  limit-next = λ s. limit-hold (scan s.limit 0 s.held) s;
  next_free = λ s i e. ground (arith, scan-some s.limit 0 s.held i);
  has-next = λ s i j e. ground (arith, member-cons i j s.held);
  next_full = λ s w e. (
    ground arith,
    λ i h. scan-none s.limit 0 s.held (ground arith) i (omega arith) (omega arith),
  );
}
