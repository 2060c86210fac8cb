-- ===== src/Cni.antt =====
-- cniserver/cniserver.go: how the requests of the CNI plugin reach the pod manager.
pub mod Args
pub mod Client
pub mod Server
pub mod Served
use k8s_ovs.Base.{
  ℕ, ◌≡◌, refl, Result, ok, err, ◌>>=◌, Error, message, Option, none, some, List, [], ◌∷◌, Text,
  codes, text_dec, lookup, insert,
}
use k8s_ovs.Base.Strings.{split, trim_space}
use k8s_ovs.Pods.{PodRequest}

-- A Go map of strings.
abbrev pub Env : Type 0
Env = List (Text × Text)

-- `m[key]`, the empty text for a missing key.
unfoldable pub get : Text → Env → Text
unfolding lookup text_dec
get key m = elim (lookup text_dec key m) [ none ↦ [] | some v ↦ v ]

-- `m[key]` with `ok`.
unfoldable pub require : Text → Error → Env → Result Text
unfolding lookup text_dec
require key e m = elim (lookup text_dec key m) [ none ↦ err e | some v ↦ ok v ]

-- The parts of an argument, if it has two.
unfoldable pub key_value : List Text → Result (Text × Text)
unfolding trim_space
key_value (k ∷ v ∷ []) = ok (trim_space k, trim_space v)
key_value [] = err (message "invalid CNI_ARG")
key_value (k ∷ []) = err (message "invalid CNI_ARG")
key_value (k ∷ v ∷ u ∷ l) = err (message "invalid CNI_ARG")

-- The loop of `gatherCNIArgs`.
unfoldable pub gather_args : List Text → Env → Result Env
unfolding key_value split insert text_dec
gather_args [] m = ok m
gather_args (arg ∷ args) m = do
  kv ← key_value (split arg b'=')
  gather_args args (insert text_dec kv.0 kv.1 m)

unfoldable pub gather_cni_args : Env → Result Env
unfolding require gather_args split
gather_cni_args env = do
  cni_args ← require (codes "CNI_ARGS") (message "missing CNI_ARGS") env
  gather_args (split cni_args b';') []

-- `cniRequestToPodRequest`, from the environment that the body decodes to. The namespace and the name
-- of the pod are taken as they come: the source tests the error of the call before.
unfoldable pub cni_request_to_pod_request : Result Env → Result PodRequest
unfolding require gather_cni_args get
cni_request_to_pod_request decoded = do
  env ← decoded
  cmd ← require (codes "CNI_COMMAND") (message "Unexpected or missing CNI_COMMAND") env
  id ← require (codes "CNI_CONTAINERID") (message "missing CNI_CONTAINERID") env
  netns ← require (codes "CNI_NETNS") (message "missing CNI_NETNS") env
  cni_args ← gather_cni_args env
  ok (record {
    command = cmd;
    pod_namespace = get (codes "K8S_POD_NAMESPACE") cni_args;
    pod_name = get (codes "K8S_POD_NAME") cni_args;
    container_id = id;
    netns = netns;
  })

gathered :
    gather_args (split (codes "IgnoreUnknown=1; K8S_POD_NAME = web-1") b';') []
    ≡ ok ((codes "IgnoreUnknown", codes "1") ∷ (codes "K8S_POD_NAME", codes "web-1") ∷ [])
unfolding gather_args
gathered = refl
