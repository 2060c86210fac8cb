-- ===== src/NodeVnids/ListSets.antt =====
-- Sets of strings that meet the documented behaviour: lists without repetition.
use mathlib.Core.List.{Mem, mem-cons_self, mem-cons_of_mem, not-mem-nil, mem_of_ne_of_mem}
use k8s_ovs.Base.{
  ◌≡◌, refl, sym, Bool, true, false, List, [], ◌∷◌, Text, text_dec, ite, length, arith,
  if◌then◌else◌,
}
use k8s_ovs.NodeVnids.Sets.{StringSets, SetLaws}

unfoldable pub has : Text → List Text → Bool
has n [] = false
has n (m ∷ s) = let rest = has n s in ite (text_dec m n) true rest

unfoldable pub insert : Text → List Text → List Text
unfolding has
insert m s = if has m s then s else m ∷ s

unfoldable pub remove : Text → List Text → List Text
remove m [] = []
remove m (n ∷ s) = let rest = remove m s in ite (text_dec m n) rest (n ∷ rest)

abbrev pub list_sets : StringSets
list_sets = record {
  Set = List Text;
  new = [];
  insert = insert;
  delete = remove;
  has = has;
  len = length;
  list = λ s. s;
}

has-insert_lem :
    (m n : Text) (s : List Text) → has n (insert m s) ≡ ite (text_dec m n) true (has n s)
unfolding insert has
has-insert_lem m n s = ground arith

has-remove : (m n : Text) (s : List Text) → has n (remove m s) ≡ ite (text_dec m n) false (has n s)
unfolding remove has
has-remove m n [] = ground arith
has-remove m n (k ∷ s) = ground (arith, has-remove m n s)

has-Mem : (n : Text) (s : List Text) → has n s ≡ true → Mem n s
unfolding has
has-Mem n [] h = ground (arith, h)
has-Mem n (m ∷ s) h = elim (text_dec m n) [
  | yes same ↦ rw same mem-cons_self
  | no other ↦ mem-cons_of_mem m (has-Mem n s (ground (arith, h, other)))
]

Mem-has : (n : Text) (s : List Text) → Mem n s → has n s ≡ true
unfolding has
Mem-has n [] h = absurd (not-mem-nil h)
Mem-has n (m ∷ s) h = elim (text_dec m n) [
  | yes same ↦ ground (arith, same)
  | no other ↦ ground (arith, other, Mem-has n s (mem_of_ne_of_mem (λ e. other (sym e)) h))
]

pub list_sets_laws : SetLaws list_sets
unfolding has
list_sets_laws = record {
  has-new = λ n. refl;
  has-insert = has-insert_lem;
  has-delete = has-remove;
  len_zero = λ s n e. empty s n e;
  len_pos = λ s n h e. ground (arith, h, empty s n e);
  mem-list = λ n s. (has-Mem n s, Mem-has n s);
}
  where
    empty : (s : List Text) (n : Text) → length s ≡ 0 → has n s ≡ false
    empty [] n e = refl
    empty (m ∷ s) n e = ground (arith, e)
