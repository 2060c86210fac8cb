-- ===== src/MasterVnids/Count.antt =====
-- `getVNIDCount` against the changes of the map: how many namespaces have a VNID.
use k8s_ovs.Base.{
  ℕ, ◌+◌, ◌≤◌, ◌<◌, ◌≡◌, refl, Option, none, some, [], ◌∷◌, Text, text_dec, lookup, insert, delete,
  Distinct, ◌==◌, if◌then◌else◌, arith, ℕ_discrete,
}
use k8s_ovs.MasterVnids.{Ids, count_value}

-- 1 if the option is the given id.
abbrev pub hits : ℕ → Option ℕ → ℕ
hits id none = 0
hits id (some x) = if id == x then 1 else 0

pub delete_absent :
    (name : Text) (m : Ids) → lookup text_dec name m ≡ none → delete text_dec name m ≡ m
unfolding lookup delete
delete_absent name [] h = refl
delete_absent name ((j, w) ∷ m) h = ground (arith, delete_absent name m)

pub count-delete :
    (id : ℕ) (name : Text) (m : Ids)
    → Distinct text_dec m
    → count_value id (delete text_dec name m) + hits id (lookup text_dec name m) ≡ count_value id m
unfolding count_value lookup delete
count-delete id name [] d = refl
count-delete id name ((j, w) ∷ m) d = elim (text_dec j name) [
  | yes p ↦ ground (arith, delete_absent j m)
  | no p ↦ ground (arith, count-delete id name m d.1)
]

pub count-insert :
    (id x : ℕ) (name : Text) (m : Ids)
    → Distinct text_dec m
    → count_value id (insert text_dec name x m) + hits id (lookup text_dec name m)
      ≡ count_value id m + hits id (some x)
unfolding count_value lookup insert
count-insert id x name [] d = ground arith
count-insert id x name ((j, w) ∷ m) d = ground (arith, count-insert id x name m d.1)

-- A namespace that has the id is counted.
pub count-pos :
    (id : ℕ) (name : Text) (m : Ids) → lookup text_dec name m ≡ some id → 0 < count_value id m
unfolding count_value lookup
count-pos id name [] h = cc
count-pos id name ((j, w) ∷ m) h = ground (arith, count-pos id name m)

-- If only one namespace has the id, no other one does.
pub count_unique :
    (id : ℕ) (name other : Text) (m : Ids)
    → Distinct text_dec m
    → count_value id m ≤ 1
    → lookup text_dec name m ≡ some id
    → lookup text_dec other m ≡ some id
    → name ≡ other
unfolding count_value lookup
count_unique id name other [] d c h k = cc
count_unique id name other ((j, w) ∷ m) d c h k =
    ground (arith, count_unique id name other m d.1, count-pos id name m, count-pos id other m)

-- An id that is counted is the id of some namespace.
pub count-witness :
    (id : ℕ) (m : Ids)
    → Distinct text_dec m
    → 0 < count_value id m
    → (name : Text) × (lookup text_dec name m ≡ some id)
unfolding count_value lookup
count-witness id [] d h = absurd (omega arith)
count-witness id ((j, w) ∷ m) d h = elim (ℕ_discrete id w) [
  | yes p ↦ (j, ground arith)
  | no p ↦ let (name, found) = count-witness id m d.1 (ground arith) in (name, ground arith)
]

-- Taking off a namespace that was just added restores the map.
pub delete-insert_absent :
    (name : Text) (x : ℕ) (m : Ids)
    → lookup text_dec name m ≡ none
    → delete text_dec name (insert text_dec name x m) ≡ m
unfolding lookup insert delete
delete-insert_absent name x [] h = ground arith
delete-insert_absent name x ((j, w) ∷ m) h = ground (arith, delete-insert_absent name x m)
