-- ===== src/EtcdV2/Stored.antt =====
-- pkg/etcdmanager/etcdv2/registry.go: what the registry reads after it has written or deleted.
use k8s_ovs.Base.{
  ap, sym, ◌∙◌, ℕ, ◌≡◌, ◌≢◌, refl, inl, inr, Result, ok, err, Error, etcd_error, Text, arith,
  Result-cases,
}
use k8s_ovs.EtcdV2.KeyStore.{Response, SetOptions, KeysApi, Codec, read_node, write_node}

-- An answer without the index of the store, which every change moves on.
abbrev pub without_index : Error → Error
without_index (etcd_error code index) = etcd_error code 0
without_index e = e

abbrev pub value_of : Result Response → Result Text
value_of (ok resp) = ok resp.value
value_of (err e) = err (without_index e)

abbrev pub item_of : {A : Type 0} → Result (A × ℕ) → Result A
item_of (ok (a, index)) = ok a
item_of (err e) = err (without_index e)

-- Decoding is the inverse of encoding.
abbrev pub ReadsBack : {A : Type 0} → Codec A → Type 0
ReadsBack {A} c = (a : A) (value : Text) → c.marshal a ≡ ok value → c.unmarshal value ≡ ok a

-- What etcd documents of its keys: a key that has been set has its value, one that has been deleted
-- is not found, which is the error 100, and the other keys have the values that they had.
pub record IsKeyStore (k : KeysApi) : Type 0 where
  pub get_set :
      (key value : Text) (opts : SetOptions) (w : k.Store)
      → (k.set key value opts w).1 ≡ ok tt
      → (resp : Response) × ((k.get key (k.set key value opts w).0).1 ≡ ok resp)
        × (resp.value ≡ value)
  pub get_delete :
      (key : Text) (w : k.Store)
      → (k.delete key w).1 ≡ ok tt
      → (index : ℕ) × ((k.get key (k.delete key w).0).1 ≡ err (etcd_error 100 index))
  pub get_set_other :
      (key other value : Text) (opts : SetOptions) (w : k.Store)
      → key ≢ other
      → value_of (k.get other (k.set key value opts w).0).1 ≡ value_of (k.get other w).1
  pub get_delete_other :
      (key other : Text) (w : k.Store)
      → key ≢ other
      → value_of (k.get other (k.delete key w).0).1 ≡ value_of (k.get other w).1

-- What the decoded value of a node depends on.
abbrev decode : {A : Type 0} → Codec A → Result Text → Result A
decode c (err e) = err e
decode c (ok value) = elim (c.unmarshal value) [ err e ↦ err (without_index e) | ok a ↦ ok a ]

item_of-read_node :
    {A : Type 0} (c : Codec A) (answer : Result Response)
    → item_of (read_node c answer) ≡ decode c (value_of answer)
unfolding read_node
item_of-read_node c (err e) = refl
item_of-read_node c (ok resp) = elim (Result-cases (c.unmarshal resp.value)) [
  | inl (a, read) ↦ ground (arith, read)
  | inr (e, failed) ↦ ground (arith, failed)
]

-- A result holds an item, with some index.
abbrev pub Reads : {A : Type 0} → A → Result (A × ℕ) → Type 0
Reads a answer = (index : ℕ) × (answer ≡ ok (a, index))

abbrev pub NotFound : {A : Type 0} → Result (A × ℕ) → Type 0
NotFound answer = (index : ℕ) × (answer ≡ err (etcd_error 100 index))

-- What a read gives after a call that was to write an item, or to delete one, if it succeeded.
abbrev pub AfterWrite : {S A : Type 0} → A → S × Result (Unit {0}) → (S → Result (A × ℕ)) → Type 0
AfterWrite a (w, ok _) read = Reads a (read w)
AfterWrite a (w, err _) read = Unit {0}

abbrev pub AfterDelete : {S A : Type 0} → S × Result (Unit {0}) → (S → Result (A × ℕ)) → Type 0
AfterDelete (w, ok _) read = NotFound (read w)
AfterDelete (w, err _) read = Unit {0}

answer-AfterWrite :
    {S A : Type 0} (a : A) (s : S × Result (Unit {0})) (read : S → Result (A × ℕ))
    → (s.1 ≡ ok tt → Reads a (read s.0))
    → AfterWrite a s read
answer-AfterWrite a (w, ok t) read h = h refl
answer-AfterWrite a (w, err e) read h = tt

answer-AfterDelete :
    {S A : Type 0} (s : S × Result (Unit {0})) (read : S → Result (A × ℕ))
    → (s.1 ≡ ok tt → NotFound (read s.0))
    → AfterDelete s read
answer-AfterDelete (w, ok t) read h = h refl
answer-AfterDelete (w, err e) read h = tt

pub read_node_same :
    {A : Type 0} (c : Codec A) (before after : Result Response)
    → value_of after ≡ value_of before
    → item_of (read_node c after) ≡ item_of (read_node c before)
read_node_same c before after same =
    item_of-read_node c after ∙ (ap (decode c) same ∙ sym (item_of-read_node c before))

module _ {k : KeysApi} (laws : IsKeyStore k) where
  read_node-write_node :
      {A : Type 0} (c : Codec A) (key : Text) (a : A) (opts : SetOptions) (w : k.Store)
      → ReadsBack c
      → (write_node c k key a opts w).1 ≡ ok tt
      → Reads a (read_node c (k.get key (write_node c k key a opts w).0).1)
  unfolding write_node read_node
  read_node-write_node c key a opts w back written = elim (Result-cases (c.marshal a)) [
    | inr (e, failed) ↦ absurd (ground (arith, failed, written))
    | inl (value, encoded) ↦
        let set : (k.set key value opts w).1 ≡ ok tt = ground (arith, encoded, written) in
        let (resp, got, same) = laws.get_set key value opts w set in
        (resp.index, ground (arith, encoded, got, same, back a value encoded))
  ]

  read_node-delete :
      {A : Type 0} (c : Codec A) (key : Text) (w : k.Store)
      → (k.delete key w).1 ≡ ok tt
      → NotFound (read_node c (k.get key (k.delete key w).0).1)
  unfolding read_node
  read_node-delete c key w deleted =
      let (index, gone) = laws.get_delete key w deleted in (index, ground (arith, gone))

  pub write-AfterWrite :
      {A : Type 0} (c : Codec A) (key : Text) (a : A) (opts : SetOptions) (w : k.Store)
      → ReadsBack c
      → AfterWrite a (write_node c k key a opts w) (λ v. read_node c (k.get key v).1)
  write-AfterWrite c key a opts w back =
      answer-AfterWrite a (write_node c k key a opts w) (λ v. read_node c (k.get key v).1)
        (read_node-write_node c key a opts w back)

  pub delete-AfterDelete :
      {A : Type 0} (c : Codec A) (key : Text) (w : k.Store)
      → AfterDelete (k.delete key w) (λ v. read_node c (k.get key v).1)
  delete-AfterDelete c key w =
      answer-AfterDelete (k.delete key w) (λ v. read_node c (k.get key v).1)
        (read_node-delete c key w)

  pub write_node_other :
      {A : Type 0} (c : Codec A) (key other : Text) (a : A) (opts : SetOptions) (w : k.Store)
      → key ≢ other
      → value_of (k.get other (write_node c k key a opts w).0).1 ≡ value_of (k.get other w).1
  unfolding write_node
  write_node_other c key other a opts w ne = elim (Result-cases (c.marshal a)) [
    | inr (e, failed) ↦ ground (arith, failed)
    | inl (value, encoded) ↦ ground (arith, encoded, laws.get_set_other key other value opts w ne)
  ]
