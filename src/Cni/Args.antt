-- ===== src/Cni/Args.antt =====
-- cniserver/cniserver.go, lines 140 to 193: the arguments of a request.
use k8s_ovs.Base.{
  ◌>>=◌, ◌≡◌, refl, ap, sym, ◌↔◌, Result, ok, err, Error, message, Option, none, some, [], ◌∷◌,
  ◌++◌, Text, codes, text_dec, ite, lookup, insert, lookup-insert, map, arith,
}
use k8s_ovs.Base.Strings.{split, trim_space, intercalate}
use k8s_ovs.Base.Split.{Lacks, split-append, split_lacking, Lacks-append}
use k8s_ovs.Cni.{
  Env, get, require, key_value, gather_args, gather_cni_args, cni_request_to_pod_request,
}
use k8s_ovs.Pods.{PodRequest}

-- A key or a value that the text of the arguments carries as it is.
pub record IsPlain (s : Text) : Type 0 where
  pub no_separator : Lacks b';' s
  pub no_equals : Lacks b'=' s
  pub trimmed : trim_space s ≡ s

abbrev pub AllPlain : Env → Type 0
AllPlain [] = Unit {0}
AllPlain ((k, v) ∷ args) = (IsPlain k × IsPlain v) × AllPlain args

abbrev pub print_arg : Text × Text → Text
print_arg (k, v) = k ++ (b'=' ∷ v)

-- The text of the arguments, as the kubelet writes it.
abbrev pub print_args : Env → Text
print_args args = intercalate (codes ";") (map print_arg args)

-- The last value of a key.
abbrev pub last_value : Env → Text → Option Text → Option Text
last_value [] key before = before
last_value ((k, v) ∷ args) key before = last_value args key (ite (text_dec k key) (some v) before)

key_value_printed :
    (k v : Text) → IsPlain k → IsPlain v → key_value (split (print_arg (k, v)) b'=') ≡ ok (k, v)
unfolding key_value
key_value_printed k v p q =
    rw (split-append k v b'=' p.no_equals, split_lacking v b'=' q.no_equals, p.trimmed, q.trimmed)
      refl

print_arg-Lacks : (a : Text × Text) (args : Env) → AllPlain (a ∷ args) → Lacks b';' (print_arg a)
print_arg-Lacks (k, v) args p =
    Lacks-append k (b'=' ∷ v) b';' p.0.0.no_separator (refl, p.0.1.no_separator)

rest-AllPlain : (a : Text × Text) (args : Env) → AllPlain (a ∷ args) → AllPlain args
rest-AllPlain (k, v) args p = p.1

-- The arguments one by one.
split_printed :
    (a : Text × Text) (args : Env)
    → AllPlain (a ∷ args)
    → split (print_args (a ∷ args)) b';' ≡ map print_arg (a ∷ args)
unfolding intercalate
split_printed a [] p = split_lacking (print_arg a) b';' (print_arg-Lacks a [] p)
split_printed a (b ∷ args) p =
    rw (split-append (print_arg a) (print_args (b ∷ args)) b';' (print_arg-Lacks a (b ∷ args) p))
      (ap (print_arg a ∷◌) (split_printed b args (rest-AllPlain a (b ∷ args) p)))

gather_args_printed :
    (args : Env) (m : Env)
    → AllPlain args
    → (m' : Env) × (gather_args (map print_arg args) m ≡ ok m')
      × ((key : Text) → lookup text_dec key m' ≡ last_value args key (lookup text_dec key m))
unfolding gather_args
gather_args_printed [] m p = (m, refl, λ key. refl)
gather_args_printed ((k, v) ∷ args) m ((p, q), rest) =
    let (m', parsed, found) = gather_args_printed args (insert text_dec k v m) rest in
    (
      m',
      ground (arith, key_value_printed k v p q, parsed),
      λ key. rw (← lookup-insert text_dec k key v m) (found key),
    )

-- Arguments whose keys and values have no `;`, no `=` and no spaces around them, at least one,
-- come back from the text that joins them: the map has for each key the last of its values.
pub gather_cni_args_printed :
    (a : Text × Text) (args env : Env)
    → AllPlain (a ∷ args)
    → lookup text_dec (codes "CNI_ARGS") env ≡ some (print_args (a ∷ args))
    → (m : Env) × (gather_cni_args env ≡ ok m)
      × ((key : Text) → lookup text_dec key m ≡ last_value (a ∷ args) key none)
unfolding gather_cni_args
gather_cni_args_printed a args env p e =
    let (m, parsed, found) = gather_args_printed (a ∷ args) [] p in
    (m, ground (arith, e, split_printed a args p, parsed), found)

-- What a request asks for, by the environment.
abbrev pub Asks : Env → PodRequest → Type 0
Asks env req =
    (lookup text_dec (codes "CNI_COMMAND") env ≡ some req.command)
    × (lookup text_dec (codes "CNI_CONTAINERID") env ≡ some req.container_id)
    × (lookup text_dec (codes "CNI_NETNS") env ≡ some req.netns)
    × ((m : Env) × (gather_cni_args env ≡ ok m)
        × (req.pod_namespace ≡ get (codes "K8S_POD_NAMESPACE") m)
        × (req.pod_name ≡ get (codes "K8S_POD_NAME") m))

require_ok :
    (key : Text) (e : Error) (m : Env) (v : Text)
    → (require key e m ≡ ok v) ↔ (lookup text_dec key m ≡ some v)
unfolding require
require_ok key e m v = ground arith

-- The request that the parts make up.
abbrev made : Text → Text → Text → Env → PodRequest
made cmd id netns m = record {
  command = cmd;
  pod_namespace = get (codes "K8S_POD_NAMESPACE") m;
  pod_name = get (codes "K8S_POD_NAME") m;
  container_id = id;
  netns = netns;
}

abbrev Parts : Result Text → Result Text → Result Text → Result Env → PodRequest → Type 0
Parts r1 r2 r3 g req =
    (r1 ≡ ok req.command)
    × (r2 ≡ ok req.container_id)
    × (r3 ≡ ok req.netns)
    × ((m : Env) × (g ≡ ok m)
        × (req.pod_namespace ≡ get (codes "K8S_POD_NAMESPACE") m)
        × (req.pod_name ≡ get (codes "K8S_POD_NAME") m))

made_injective : (r req : PodRequest) → ok r ≡ ok req → r ≡ req
made_injective r req e = ground (arith, e)

abbrev chained : Result Text → Result Text → Result Text → Result Env → Result PodRequest
chained r1 r2 r3 g = r1 >>= λ cmd. r2 >>= λ id. r3 >>= λ netns. g >>= λ m. ok (made cmd id netns m)

chained-Parts :
    (r1 r2 r3 : Result Text) (g : Result Env) (req : PodRequest)
    → chained r1 r2 r3 g ≡ ok req
    → Parts r1 r2 r3 g req
chained-Parts (err x) r2 r3 g req e = absurd (ground (arith, e))
chained-Parts (ok a) (err x) r3 g req e = absurd (ground (arith, e))
chained-Parts (ok a) (ok b) (err x) g req e = absurd (ground (arith, e))
chained-Parts (ok a) (ok b) (ok c) (err x) req e = absurd (ground (arith, e))
chained-Parts (ok a) (ok b) (ok c) (ok m) req e =
    let same = made_injective (made a b c m) req e in
    (
      ap (λ (r : PodRequest). ok r.command) same,
      ap (λ (r : PodRequest). ok r.container_id) same,
      ap (λ (r : PodRequest). ok r.netns) same,
      (
        m,
        refl,
        ap (λ (r : PodRequest). r.pod_namespace) (sym same),
        ap (λ (r : PodRequest). r.pod_name) (sym same),
      ),
    )

Parts-chained :
    (r1 r2 r3 : Result Text) (g : Result Env) (req : PodRequest)
    → Parts r1 r2 r3 g req
    → chained r1 r2 r3 g ≡ ok req
Parts-chained r1 r2 r3 g req (p1, p2, p3, (m, p4, p5, p6)) = ground (arith, p1, p2, p3, p4, p5, p6)

-- A request is accepted exactly if it has a command, a container and a namespace path, and
-- arguments that parse, whatever they name: the pod's namespace and name are empty if the
-- arguments lack them.
pub cni_request_to_pod_request-Asks :
    (env : Env) (req : PodRequest) → (cni_request_to_pod_request (ok env) ≡ ok req) ↔ Asks env req
unfolding cni_request_to_pod_request
cni_request_to_pod_request-Asks env req =
    let r1 = require (codes "CNI_COMMAND") (message "Unexpected or missing CNI_COMMAND") env in
    let r2 = require (codes "CNI_CONTAINERID") (message "missing CNI_CONTAINERID") env in
    let r3 = require (codes "CNI_NETNS") (message "missing CNI_NETNS") env in
    let i1 = require_ok (codes "CNI_COMMAND") _ env req.command in
    let i2 = require_ok (codes "CNI_CONTAINERID") _ env req.container_id in
    let i3 = require_ok (codes "CNI_NETNS") _ env req.netns in
    (
      λ e.
          let (p1, p2, p3, p4) = chained-Parts r1 r2 r3 (gather_cni_args env) req e in
          (i1.0 p1, i2.0 p2, i3.0 p3, p4),
      λ (p1, p2, p3, p4).
          Parts-chained r1 r2 r3 (gather_cni_args env) req (i1.1 p1, i2.1 p2, i3.1 p3, p4),
    )
