-- ===== src/Cni/Served.antt =====
-- cniclient/k8s-ovs.go and cniserver/cniserver.go together: the plugin over the server of the node.
use k8s_ovs.Base.{
  ℕ, ◌≡◌, refl, inl, inr, ap, sym, ◌∙◌, Result, ok, err, Error, message, Option, none, some, List,
  [], ◌∷◌, ◌++◌, Text, codes, text_dec, lookup, insert, lookup-insert, map, arith, Result-cases,
}
use k8s_ovs.Base.Actions.{Action}
use k8s_ovs.Base.Split.{Lacks}
use k8s_ovs.Base.Strings.{trim_space}
use k8s_ovs.Cni.{Env, get, cni_request_to_pod_request}
use k8s_ovs.Cni.Args.{
  AllPlain, print_arg, print_args, last_value, gather_cni_args_printed, Asks,
  cni_request_to_pod_request-Asks,
}
use k8s_ovs.Cni.Client.{
  CniRequest, CniTransport, at_equals, env_map, checked_body, do_cni, cmd_add, new_cni_request,
}
use k8s_ovs.Cni.Server.{Response, bad_request, success, handle_cni_request}
use k8s_ovs.Pods.{PodRequest}

-- A name that an environment can carry, and the map of it keeps as it is.
pub record IsName (name : Text) : Type 0 where
  pub no_equals : Lacks b'=' name
  pub trimmed : trim_space name ≡ name
  pub first : ℕ
  pub rest : Text
  pub some_byte : name ≡ first ∷ rest

abbrev pub AllNamed : Env → Type 0
AllNamed [] = Unit {0}
AllNamed ((k, v) ∷ vars) = IsName k × AllNamed vars

at_equals-append : (k v : Text) → Lacks b'=' k → at_equals (k ++ (b'=' ∷ v)) ≡ some (k, v)
unfolding at_equals
at_equals-append [] v n = refl
at_equals-append (c ∷ k) v n = ground (arith, at_equals-append k v n.1)

env_map_next :
    (item : Text) (items : List Text) (m : Env) (c : ℕ) (k v : Text)
    → at_equals item ≡ some (c ∷ k, v)
    → trim_space (c ∷ k) ≡ c ∷ k
    → env_map (item ∷ items) m ≡ env_map items (insert text_dec (c ∷ k) v m)
unfolding env_map
env_map_next item items m c k v e trimmed = rw (env_map, e, trimmed) refl

env_map_end : (m : Env) → env_map [] m ≡ m
unfolding env_map
env_map_end m = refl

env_map_printed :
    (vars m : Env) (key : Text)
    → AllNamed vars
    → lookup text_dec key (env_map (map print_arg vars) m)
      ≡ last_value vars key (lookup text_dec key m)
env_map_printed [] m key p = ap (λ (l : Env). lookup text_dec key l) (env_map_end m)
env_map_printed ((k, v) ∷ vars) m key (p, rest) =
    let name : Text = p.first ∷ p.rest in
    let found : at_equals (print_arg (k, v)) ≡ some (name, v) =
      at_equals-append k v p.no_equals ∙ ap (λ (t : Text). some (t, v)) p.some_byte in
    let trimmed : trim_space name ≡ name =
      ap trim_space (sym p.some_byte) ∙ p.trimmed ∙ p.some_byte in
    let next : env_map (print_arg (k, v) ∷ map print_arg vars) m
        ≡ env_map (map print_arg vars) (insert text_dec k v m) =
      env_map_next (print_arg (k, v)) (map print_arg vars) m p.first p.rest v found trimmed
      ∙ ap (λ (t : Text). env_map (map print_arg vars) (insert text_dec t v m)) (sym p.some_byte) in
    ap (λ (l : Env). lookup text_dec key l) next
    ∙ env_map_printed vars (insert text_dec k v m) key rest
    ∙ ap (λ (o : Option Text). last_value vars key o) (lookup-insert text_dec k key v m)

-- A server behind its socket, and the JSON codec, which reads back what it writes.
pub record Codec : Type 0 where
  pub marshal : CniRequest → Text
  pub decode : Text → Result Env
  pub decode-marshal : (r : CniRequest) → decode (marshal r) ≡ ok r.env

abbrev pub status : Response → ℕ
status (bad_request e) = 400
status (success result) = 200

abbrev pub body_of : (Error → Text) → Response → Text
body_of error_text (bad_request e) = error_text e
body_of error_text (success result) = result

abbrev pub or_empty : Option Text → Text
or_empty none = []
or_empty (some v) = v

-- What the variables of an environment and its arguments ask for.
pub record AsksFor (vars args : Env) (req : PodRequest) : Type 0 where
  pub command : last_value vars (codes "CNI_COMMAND") none ≡ some req.command
  pub container : last_value vars (codes "CNI_CONTAINERID") none ≡ some req.container_id
  pub netns : last_value vars (codes "CNI_NETNS") none ≡ some req.netns
  pub arguments : last_value vars (codes "CNI_ARGS") none ≡ some (print_args args)
  pub pod_namespace :
      req.pod_namespace ≡ or_empty (last_value args (codes "K8S_POD_NAMESPACE") none)
  pub pod_name : req.pod_name ≡ or_empty (last_value args (codes "K8S_POD_NAME") none)

get-or_empty : (key : Text) (m : Env) → get key m ≡ or_empty (lookup text_dec key m)
unfolding get
get-or_empty key m = ground arith

AsksFor-Asks :
    (vars : Env) (a : Text × Text) (args : Env) (req : PodRequest)
    → AllNamed vars
    → AllPlain (a ∷ args)
    → AsksFor vars (a ∷ args) req
    → Asks (env_map (map print_arg vars) []) req
unfolding lookup
AsksFor-Asks vars a args req named plain asks =
    let env = env_map (map print_arg vars) [] in
    let value = λ (key : Text). env_map_printed vars [] key named in
    let (m, parsed, found) =
      gather_cni_args_printed a args env plain (value (codes "CNI_ARGS") ∙ asks.arguments) in
    let part = λ (key : Text). get-or_empty key m ∙ ap or_empty (found key) in
    (
      value (codes "CNI_COMMAND") ∙ asks.command,
      value (codes "CNI_CONTAINERID") ∙ asks.container,
      value (codes "CNI_NETNS") ∙ asks.netns,
      (
        m,
        parsed,
        asks.pod_namespace ∙ sym (part (codes "K8S_POD_NAMESPACE")),
        asks.pod_name ∙ sym (part (codes "K8S_POD_NAME")),
      ),
    )

module _ {W : Type 0} (c : Codec) (error_text : Error → Text)
    (request_func : PodRequest → Action W Text) where
  -- The transport that hands each request to the server.
  abbrev pub served : CniTransport W
  served = record {
    Reply = Response;
    CniResult = Text;
    marshal = λ r. ok (c.marshal r);
    post = λ url content body w.
        let (w', r) = handle_cni_request request_func (c.decode body) w in (w', ok r);
    read_all = λ r w. (w, ok (body_of error_text r));
    close = λ r w. w;
    status_code = status;
    unmarshal = λ body. ok body;
    print = λ result w. (w, ok tt);
  }

  -- What the plugin gets for an answer of the pod manager.
  abbrev pub told : Result Text → Result Text
  told (ok result) = ok result
  told (err e) = err (message "CNI request failed with status")

  do_cni-served :
      (url : Text) (r : CniRequest) (req : PodRequest) (w : W)
      → cni_request_to_pod_request (ok r.env) ≡ ok req
      → do_cni served url r w ≡ ((request_func req w).0, told (request_func req w).1)
  unfolding do_cni checked_body handle_cni_request
  do_cni-served url r req w accepted = elim (Result-cases (request_func req w).1) [
    | inl (result, answered) ↦ ground (arith, accepted, answered, c.decode-marshal r)
    | inr (e, failed) ↦ ground (arith, accepted, failed, c.decode-marshal r)
  ]

  -- The plugin, run by the kubelet in an environment of named variables, whose arguments are
  -- plain, over the server: the pod manager is asked for exactly what the environment says, once,
  -- and ADD gives its result, and an error if it failed.
  pub cmd_add-served :
      (vars : Env) (a : Text × Text) (args : Env) (req : PodRequest) (stdin_data : Text) (w : W)
      → AllNamed vars
      → AllPlain (a ∷ args)
      → AsksFor vars (a ∷ args) req
      → cmd_add served (map print_arg vars) stdin_data w
        ≡ ((request_func req w).0, told (request_func req w).1)
  unfolding cmd_add new_cni_request
  cmd_add-served vars a args req stdin_data w named plain asks =
      let environ = map print_arg vars in
      let asked = AsksFor-Asks vars a args req named plain asks in
      let accepted = (cni_request_to_pod_request-Asks (env_map environ []) req).1 asked in
      let sent =
        do_cni-served (codes "http://dummy/") (new_cni_request environ stdin_data) req w accepted in
      elim (Result-cases (request_func req w).1) [
        | inl (result, answered) ↦ ground (arith, sent, answered)
        | inr (e, failed) ↦ ground (arith, sent, failed)
      ]
