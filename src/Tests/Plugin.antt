-- ===== src/Tests/Plugin.antt =====
-- The CNI plugin over the server, at a concrete input.
use k8s_ovs.Base.{
  ℕ, zero, suc, ◌-◌, ◌≡◌, refl, sym, ap, ◌∙◌, Result, ok, err, Error, List, [], ◌∷◌, ◌++◌, Text,
  codes, map, arith,
}
use k8s_ovs.Base.Actions.{Action}
use k8s_ovs.Base.Split.{Lacks, split-append}
use k8s_ovs.Base.Strings.{split, trim_space}
use k8s_ovs.Cni.{Env}
use k8s_ovs.Cni.Args.{AllPlain, print_arg, print_args}
use k8s_ovs.Cni.Client.{cmd_add}
use k8s_ovs.Cni.Served.{Codec, AllNamed, AsksFor, IsName, served, cmd_add-served}
use k8s_ovs.Pods.{PodRequest}

-- A codec: texts that end with 0, their bytes one higher.
abbrev higher : Text → Text
higher t = map suc t

abbrev lower : Text → Text
lower [] = []
lower (c ∷ t) = (c - 1) ∷ lower t

abbrev encode : Env → Text
encode [] = []
encode ((k, v) ∷ m) = higher k ++ (0 ∷ (higher v ++ (0 ∷ encode m)))

abbrev pairs : List Text → Env
pairs [] = []
pairs (k ∷ []) = []
pairs (k ∷ v ∷ parts) = (lower k, lower v) ∷ pairs parts

higher-Lacks : (t : Text) → Lacks 0 (higher t)
higher-Lacks [] = tt
higher-Lacks (c ∷ t) = (ground arith, higher-Lacks t)

lower-higher : (t : Text) → lower (higher t) ≡ t
lower-higher [] = refl
lower-higher (c ∷ t) = ground (arith, lower-higher t)

decode-encode : (m : Env) → pairs (split (encode m) 0) ≡ m
unfolding split
decode-encode [] = refl
decode-encode ((k, v) ∷ m) =
    let rest = encode m in
    let parts : split (encode ((k, v) ∷ m)) 0 ≡ higher k ∷ higher v ∷ split rest 0 =
      split-append (higher k) (higher v ++ (0 ∷ rest)) 0 (higher-Lacks k)
      ∙ ap (higher k ∷◌) (split-append (higher v) rest 0 (higher-Lacks v)) in
    ap pairs parts ∙ ground (arith, lower-higher k, lower-higher v, decode-encode m)

abbrev codec : Codec
codec = record {
  marshal = λ r. encode r.env;
  decode = λ wire. ok (pairs (split wire 0));
  decode-marshal = λ r. ap (λ (m : Env). ok m) (decode-encode r.env);
}

abbrev pod_args : Env
pod_args = (codes "K8S_POD_NAMESPACE", codes "shop") ∷ (codes "K8S_POD_NAME", codes "web") ∷ []

abbrev vars : Env
vars =
    (codes "CNI_ARGS", print_args pod_args)
    ∷ (codes "CNI_COMMAND", codes "ADD")
    ∷ (codes "CNI_CONTAINERID", codes "c1")
    ∷ (codes "CNI_NETNS", codes "/proc/7/ns/net")
    ∷ []

abbrev request : PodRequest
request = record {
  command = codes "ADD";
  pod_namespace = codes "shop";
  pod_name = codes "web";
  container_id = codes "c1";
  netns = codes "/proc/7/ns/net";
}

made-IsName : (c : ℕ) (k : Text) → Lacks b'=' (c ∷ k) → trim_space (c ∷ k) ≡ c ∷ k → IsName (c ∷ k)
made-IsName c k no_equals trimmed = record {
  no_equals = no_equals;
  trimmed = trimmed;
  first = c;
  rest = k;
  some_byte = refl;
}

vars-AllNamed : AllNamed vars
unfolding k8s_ovs.Base.Strings.trim_space
vars-AllNamed = (
  made-IsName _ _ (ground arith) refl,
  (
    made-IsName _ _ (ground arith) refl,
    (made-IsName _ _ (ground arith) refl, (made-IsName _ _ (ground arith) refl, tt)),
  ),
)

pod_args-AllPlain : AllPlain pod_args
unfolding k8s_ovs.Base.Strings.trim_space
pod_args-AllPlain = ground arith

request-AsksFor : AsksFor vars pod_args request
unfolding k8s_ovs.Base.text_dec
request-AsksFor = record {
  command = refl;
  container = refl;
  netns = refl;
  arguments = refl;
  pod_namespace = refl;
  pod_name = refl;
}

-- A pod manager that counts its requests and answers with the name of the pod.
abbrev manager : PodRequest → Action ℕ Text
manager req n = (suc n, ok req.pod_name)

cmd_add-served_example :
    cmd_add (served codec (λ e. []) manager) (map print_arg vars) [] 0 ≡ (1, ok (codes "web"))
cmd_add-served_example =
    cmd_add-served codec (λ e. []) manager vars (codes "K8S_POD_NAMESPACE", codes "shop")
      ((codes "K8S_POD_NAME", codes "web") ∷ []) request [] 0 vars-AllNamed pod_args-AllPlain
      request-AsksFor
