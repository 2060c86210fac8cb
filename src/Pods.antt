-- ===== src/Pods.antt =====
-- The pods of a node: ksdn/pod.go, ksdn/pod_linux.go, and the requests of cniserver/cniserver.go. This
-- file has the data, and the interface to the libraries that act on the host.
pub mod Config
pub mod Handler
pub mod Requests
pub mod Leases
use k8s_ovs.Base.{ℕ, Result, Error, Option, List, [], ◌∷◌, Text, codes}
use k8s_ovs.Base.Actions.{Action}

-- `PodRequest`, without the channel of its result.
pub record PodRequest : Type 0 where
  pub command : Text
  pub pod_namespace : Text
  pub pod_name : Text
  pub container_id : Text
  pub netns : Text

-- `PodResult`.
pub record PodResult : Type 0 where
  pub response : Text
  pub error : Option Error

-- `CNICommand`.
abbrev pub cni_add : Text
cni_add = codes "ADD"

abbrev pub cni_update : Text
cni_update = codes "UPDATE"

abbrev pub cni_del : Text
cni_del = codes "DEL"

-- `PodConfig`.
pub record PodConfig : Type 0 where
  pub vnid : ℕ
  pub ingress_bandwidth : Text
  pub egress_bandwidth : Text

-- `invoke.Args`.
pub record IpamArgs : Type 0 where
  pub command : Text
  pub container_id : Text
  pub netns : Text
  pub if_name : Text
  pub path : Text

-- The `IP4` of a `cnitypes.Result`: its address, and its gateway.
pub record Ip4 : Type 0 where
  pub ip : Text
  pub gateway : Option Text

-- A `netlink.Link`, by what the source uses of it.
pub record Link : Type 0 where
  pub name : Text
  pub index : ℕ
  pub parent_index : ℕ
  pub hardware_addr : Text

-- How a script ended: with success, with another status and its output, or without having run.
pub data ScriptEnd : Type 0 where
  succeeded : ScriptEnd
  exited : Text → ScriptEnd
  not_run : Error → ScriptEnd

-- `ns.IsNSorErr`.
pub data NsState : Type 0 where
  is_ns path_not_exist other_error : NsState

-- The clients of the API server and of docker, the IPAM plugin, network namespaces, links and the
-- script. Links are looked up in a namespace, `none` being the host's.
pub record PodHost (World : Type 0) : Type 1 where
  pub Pod : Type 0
  pub get_pod : Text → Text → Action World Pod
  -- `ExtractPodBandwidthResources`, by the values.
  pub extract_bandwidth : Pod → Result (Option ℕ × Option ℕ)
  -- `invoke.ExecPluginWithResult` and `ExecPluginWithoutResult`, by path, configuration and arguments.
  pub exec_plugin_with_result : Text → Text → IpamArgs → Action World (Option Ip4)
  pub exec_plugin_without_result : Text → Text → IpamArgs → Action World (Unit {0})
  pub open_netns : Text → Action World (Unit {0})
  pub enter_netns : Text → Action World (Unit {0})
  pub is_ns_or_err : Text → World → NsState
  pub setup_veth : Text → Text → ℕ → Action World (Link × Link)
  pub link_by_index : Option Text → ℕ → Action World Link
  pub link_by_name : Option Text → Text → Action World Link
  pub link_set_up : Text → Link → Action World (Unit {0})
  pub addr_list : Text → Link → Action World (List Text)
  pub configure_iface : Text → Text → Ip4 → Action World (Unit {0})
  -- `InspectContainer`, by the process id.
  pub inspect_container : Text → Action World ℕ
  pub run_command : Text → List Text → World → World × ScriptEnd
  -- `json.Marshal` of the result.
  pub marshal : Ip4 → Result Text

abbrev pub sdn_script : Text
sdn_script = codes "k8s-sdn-ovs"

abbrev pub pod_interface_name : Text
pod_interface_name = codes "eth0"

abbrev pub host_local : Text
host_local = codes "/opt/cni/bin/host-local"
