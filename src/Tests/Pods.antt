-- ===== src/Tests/Pods.antt =====
-- The pods and the CNI server, at concrete inputs.
use k8s_ovs.Base.{
  ℕ, ◌≡◌, ◌≢◌, ◌↔◌, ◌⊎◌, refl, ite, inl, inr, Bool, true, false, Result, ok, err, Error, message,
  Option, none, some, List, [], ◌∷◌, Text, codes, text_dec, lookup, insert, if◌then◌else◌, arith,
}
use k8s_ovs.Cni.{Env, gather_cni_args, cni_request_to_pod_request}
use k8s_ovs.Cni.Args.{AllPlain, print_args, last_value, gather_cni_args_printed}
use k8s_ovs.NodeVnids.{NodeVnidMap}
use k8s_ovs.NodeVnids.ListSets.{list_sets}
use k8s_ovs.Pods.{PodRequest, Ip4, Link, PodHost, ScriptEnd, NsState, IpamArgs, cni_add, cni_del}
use k8s_ovs.Pods.Handler.{setup, teardown}
use k8s_ovs.Pods.Leases.{IsLeasing}
use k8s_ovs.Pods.Leases.History.{AllAddsFailed, SomeReleaseFailed, process_cni_requests-free}
use k8s_ovs.Pods.Leases.Outcome.{AfterSetup, AfterTeardown, setup-AfterSetup}
use k8s_ovs.Pods.Leases.Release.{teardown-AfterTeardown}
use k8s_ovs.Pods.Requests.{process_cni_requests}

abbrev args : Env
args = (codes "IgnoreUnknown", codes "1") ∷ (codes "K8S_POD_NAME", codes "web") ∷ []

args-AllPlain : AllPlain args
unfolding k8s_ovs.Base.Strings.trim_space
args-AllPlain = ground arith

abbrev env : Env
env =
    (codes "CNI_ARGS", print_args args)
    ∷ (codes "CNI_COMMAND", codes "ADD")
    ∷ (codes "CNI_CONTAINERID", codes "c1")
    ∷ (codes "CNI_NETNS", codes "/proc/7/ns/net")
    ∷ []

env_args : lookup text_dec (codes "CNI_ARGS") env ≡ some (print_args args)
unfolding lookup text_dec
env_args = refl

gather_cni_args_printed_example :
    (m : Env) × (gather_cni_args env ≡ ok m)
    × ((key : Text) → lookup text_dec key m ≡ last_value args key none)
gather_cni_args_printed_example =
    gather_cni_args_printed (codes "IgnoreUnknown", codes "1")
      ((codes "K8S_POD_NAME", codes "web") ∷ []) env args-AllPlain env_args

-- A request for a pod without a namespace.
abbrev nameless : PodRequest
nameless = record {
  command = codes "ADD";
  pod_namespace = [];
  pod_name = codes "web";
  container_id = codes "c1";
  netns = codes "/proc/7/ns/net";
}

nameless_accepted : cni_request_to_pod_request (ok env) ≡ ok nameless
unfolding cni_request_to_pod_request k8s_ovs.Base.Strings.intercalate
nameless_accepted = refl

abbrev veth : Link
veth = record { name = codes "veth1"; index = 3; parent_index = 4; hardware_addr = codes "aa" }

abbrev address : Ip4
address = record { ip = codes "10.1.2.5"; gateway = some (codes "10.1.2.1") }

-- A host whose world is the lease of each container, and whose script fails.
abbrev failing : PodHost (Text → Bool)
failing = record {
  Pod = ℕ;
  get_pod = λ ns name w. (w, ok 0);
  extract_bandwidth = λ pod. ok (none, none);
  exec_plugin_with_result =
      λ path config a w. (λ id. ite (text_dec a.container_id id) true (w id), ok (some address));
  exec_plugin_without_result =
      λ path config a w. (λ id. ite (text_dec a.container_id id) false (w id), ok tt);
  open_netns = λ ns w. (w, ok tt);
  enter_netns = λ ns w. (w, ok tt);
  is_ns_or_err = λ ns w. NsState.path_not_exist;
  setup_veth = λ ns name mtu w. (w, ok (veth, veth));
  link_by_index = λ ns i w. (w, ok veth);
  link_by_name = λ ns name w. (w, ok veth);
  link_set_up = λ ns link w. (w, ok tt);
  addr_list = λ ns link w. (w, ok (codes "10.1.2.5" ∷ []));
  configure_iface = λ ns name ip w. (w, ok tt);
  inspect_container = λ id w. (w, ok 7);
  run_command = λ cmd a w. (w, ScriptEnd.exited (codes "+ ovs-ofctl"));
  marshal = λ ip4. ok ip4.ip;
}

abbrev leased : (Text → Bool) → Text → Bool
leased w id = w id

failing-IsLeasing : IsLeasing failing leased
failing-IsLeasing = record {
  add_ok = λ config a w r e. ground arith;
  add_answers = λ config a w e. ground (arith, e);
  add_failed = λ config a w e id f. ground (arith, f);
  add_other = λ config a w id ne. ground (arith, ne);
  del_ok = λ config a w e. ground arith;
  del_failed = λ config a w e id f. ground (arith, f);
  del_other = λ config a w id ne. ground (arith, ne);
  by_get_pod = λ ns name w id. refl;
  by_open = λ ns w id. refl;
  by_enter = λ ns w id. refl;
  by_setup_veth = λ ns name mtu w id. refl;
  by_index = λ ns i w id. refl;
  by_name = λ ns name w id. refl;
  by_set_up = λ ns link w id. refl;
  by_addr_list = λ ns link w id. refl;
  by_configure = λ ns name ip w id. refl;
  by_inspect = λ c w id. refl;
  by_command = λ cmd a w id. refl;
}

abbrev no_lease : Text → Bool
no_lease id = false

abbrev no_vnids : NodeVnidMap list_sets
no_vnids = record { ids = []; namespaces = [] }

setup-AfterSetup_example :
    AfterSetup failing leased [] false 1450 list_sets no_vnids nameless no_lease
      (setup failing [] false 1450 list_sets no_vnids nameless no_lease)
setup-AfterSetup_example =
    setup-AfterSetup failing-IsLeasing [] false 1450 list_sets no_vnids nameless no_lease

teardown-AfterTeardown_example :
    AfterTeardown failing leased [] false no_lease
      (codes "c1")
      (teardown failing [] false 1450 nameless no_lease)
teardown-AfterTeardown_example =
    teardown-AfterTeardown failing-IsLeasing [] false 1450 nameless no_lease

abbrev requests : List (NodeVnidMap list_sets × PodRequest)
requests = (no_vnids, nameless) ∷ (no_vnids, record nameless { command = cni_del }) ∷ []

requests-AllAddsFailed :
    AllAddsFailed failing [] false 1450 list_sets (codes "c1") requests no_lease
unfolding k8s_ovs.Pods.Requests.process_request
requests-AllAddsFailed = ground arith

process_cni_requests-free_example :
    (((process_cni_requests failing [] false 1450 list_sets requests no_lease).0 (codes "c1"))
      ≡ false)
    ⊎ SomeReleaseFailed failing [] false 1450 list_sets (codes "c1") leased requests no_lease
process_cni_requests-free_example =
    process_cni_requests-free failing-IsLeasing [] false 1450 list_sets (codes "c1")
      (λ ip4. (ip4.ip, refl)) requests no_lease refl requests-AllAddsFailed
