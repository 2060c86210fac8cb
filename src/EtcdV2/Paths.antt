-- ===== src/EtcdV2/Paths.antt =====
-- pkg/etcdmanager/etcdv2/registry.go: which keys of the registry are the same.
use mathlib.Core.List.{append_cancel_left, append-nil}
use k8s_ovs.Base.{sym, ◌∙◌, ◌≡◌, ◌≢◌, refl, [], ◌∷◌, Text, codes, arith}
use k8s_ovs.EtcdV2.KeyStore.{onto_path, join_path}

-- Joined paths determine their last parts.
onto_path_injective : (s a b : Text) → onto_path s a ≡ onto_path s b → a ≡ b
onto_path_injective [] a b e = e
onto_path_injective (c ∷ s) [] [] e = refl
onto_path_injective (c ∷ s) [] (d ∷ b) e =
    let h = append_cancel_left (c ∷ s) [] (b'/' ∷ d ∷ b) (append-nil (c ∷ s) ∙ e) in
    absurd (ground (arith, h))
onto_path_injective (c ∷ s) (d ∷ a) [] e =
    let h = append_cancel_left (c ∷ s) (b'/' ∷ d ∷ a) [] (e ∙ sym (append-nil (c ∷ s))) in
    absurd (ground (arith, h))
onto_path_injective (c ∷ s) (d ∷ a) (f ∷ b) e =
    let h = append_cancel_left (c ∷ s) (b'/' ∷ d ∷ a) (b'/' ∷ f ∷ b) e in ground (arith, h)

onto_path_nil : (a : Text) → onto_path a [] ≡ a
onto_path_nil [] = refl
onto_path_nil (c ∷ a) = refl

kinds_apart : (a b : Text) → onto_path (codes "subnets") a ≢ onto_path (codes "netnamespaces") b
kinds_apart [] [] e = ground (arith, e)
kinds_apart [] (d ∷ b) e = ground (arith, e)
kinds_apart (c ∷ a) [] e = ground (arith, e)
kinds_apart (c ∷ a) (d ∷ b) e = ground (arith, e)

pub join_path_injective :
    (prefix network kind a b : Text)
    → join_path (prefix ∷ network ∷ kind ∷ a ∷ []) ≡ join_path (prefix ∷ network ∷ kind ∷ b ∷ [])
    → a ≡ b
unfolding join_path
join_path_injective prefix network kind a b e =
    let e1 = onto_path_injective prefix _ _ e in
    let e2 = onto_path_injective network _ _ e1 in
    let e3 = onto_path_injective kind _ _ e2 in sym (onto_path_nil a) ∙ (e3 ∙ onto_path_nil b)

pub join_path_apart :
    (prefix network a b : Text)
    → join_path (prefix ∷ network ∷ codes "subnets" ∷ a ∷ [])
      ≢ join_path (prefix ∷ network ∷ codes "netnamespaces" ∷ b ∷ [])
unfolding join_path
join_path_apart prefix network a b e =
    let e1 = onto_path_injective prefix _ _ e in
    let e2 = onto_path_injective network _ _ e1 in kinds_apart (onto_path a []) (onto_path b []) e2
