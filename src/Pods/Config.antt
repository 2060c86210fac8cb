-- ===== src/Pods/Config.antt =====
-- ksdn/pod_linux.go, lines 43 to 187, and `getIPAMConfig` of ksdn/pod.go: what the handlers look up, and the calls of the IPAM plugin.
use k8s_ovs.Base.{
  ℕ, Bool, Result, ok, err, Error, message, Option, none, some, List, [], ◌∷◌, ◌++◌, Text, codes,
  if◌then◌else◌, decimal,
}
use k8s_ovs.Base.Actions.{Action, pure, raise, ◌>>=◌, ◌>>◌, or_else}
use k8s_ovs.Base.Strings.{split, has_prefix, intercalate}
use k8s_ovs.IpNet.{IpNet, parse_ip, number_to, gateway_of}
use k8s_ovs.NodeVnids.{NodeVnidMap, get_vnid}
use k8s_ovs.NodeVnids.Sets.{StringSets}
use k8s_ovs.Pods.{
  PodRequest, PodConfig, IpamArgs, Ip4, ScriptEnd, succeeded, exited, not_run, PodHost, cni_add,
  cni_del, pod_interface_name, host_local,
}

-- A bandwidth as the script takes it, empty if there is none.
unfoldable pub bandwidth_text : Option ℕ → Text
unfolding decimal
bandwidth_text none = []
bandwidth_text (some value) = decimal value

unfoldable pub create_ipam_args : Text → Text → Text → IpamArgs
create_ipam_args netns_path action id = record {
  command = action;
  container_id = id;
  netns = netns_path;
  if_name = pod_interface_name;
  path = codes "/opt/cni/bin";
}

-- The lines from the last one that starts with `+` on.
unfoldable pub last_command : List Text → Option (List Text)
unfolding has_prefix
last_command [] = none
last_command (line ∷ lines) =
    let later = last_command lines in
    let here : Option (List Text) =
      if has_prefix line (codes "+") then some (line ∷ lines) else none in
    elim later [ some l ↦ some l | none ↦ here ]

-- `getScriptError`.
unfoldable pub get_script_error : Text → Text
unfolding last_command split intercalate
get_script_error output = elim (last_command (split output 10)) [
  | some lines ↦ intercalate (codes "\n") lines
  | none ↦ output
]

-- The error of a script that ended, if it is one; its message also has the output of the last command.
unfoldable pub script_error : Error → ScriptEnd → Result (Unit {0})
script_error e succeeded = ok tt
script_error e (exited output) = err e
script_error e (not_run cause) = err cause

-- The configuration of the IPAM plugin, by what varies in it: the subnet, with its address as it is
-- written, the gateway of the default route, and the network of the second route.
pub record IpamConfig : Type 0 where
  pub subnet : IpNet
  pub gateway : ℕ
  pub cluster_network : IpNet

-- `cnitypes.ParseCIDR`: the network with the address itself.
unfoldable pub cni_parse_cidr : Text → Option IpNet
unfolding parse_ip number_to split
cni_parse_cidr s = elim (split s b'/') [
  | addr ∷ length ∷ [] ↦ elim (parse_ip addr) [
    | none ↦ none
    | some ip ↦ elim (number_to 32 length) [
      | none ↦ none
      | some bits ↦ some (record { ip = ip; bits = bits })
    ]
  ]
  | _ ↦ none
]

-- `getIPAMConfig`, before its encoding as JSON.
unfoldable pub get_ipam_config : IpNet → Text → Result IpamConfig
unfolding cni_parse_cidr gateway_of
get_ipam_config cluster_network local_subnet = elim (cni_parse_cidr local_subnet) [
  | none ↦ err (message "error parsing node network")
  | some node_net ↦ ok (record {
    subnet = node_net;
    gateway = gateway_of node_net;
    cluster_network = cluster_network;
  })
]

module _ {W : Type 0} (h : PodHost W) (ipam_config : Text) (multitenant : Bool) where
  unfoldable pub get_bandwidth : h.Pod → Result (Text × Text)
  unfolding bandwidth_text
  get_bandwidth pod = elim (h.extract_bandwidth pod) [
    | err e ↦ err (message "failed to parse pod bandwidth")
    | ok (ingress, egress) ↦ ok (bandwidth_text ingress, bandwidth_text egress)
  ]

  -- `getPodConfig`; the pod that it also answers is not used.
  unfoldable pub get_pod_config : (z : StringSets) → NodeVnidMap z → PodRequest → Action W PodConfig
  unfolding get_vnid get_bandwidth
  get_pod_config z vnids req w =
      let vnid : Result ℕ = if multitenant then get_vnid z vnids req.pod_namespace else ok 0 in
      let (w', read) = h.get_pod req.pod_namespace req.pod_name w in
      elim vnid [
        | err e ↦ (w, err e)
        | ok id ↦ elim read [
          | err e ↦ (w', err (message "failed to read pod"))
          | ok pod ↦ elim (get_bandwidth pod) [
            | err e ↦ (w', err e)
            | ok (ingress, egress) ↦ (
              w',
              ok (record { vnid = id; ingress_bandwidth = ingress; egress_bandwidth = egress }),
            )
          ]
        ]
      ]

  -- The address that the plugin answered.
  unfoldable pub obtained : Option Ip4 → Action W Ip4
  obtained none = raise (message "failed to obtain IP address from CNI IPAM")
  obtained (some ip4) = pure ip4

  unfoldable pub ipam_add : Text → Text → Action W Ip4
  unfolding create_ipam_args obtained
  ipam_add [] id = raise (message "netns required for CNI_ADD")
  ipam_add (c ∷ netns_path) id = do
    result ←
        or_else
          (h.exec_plugin_with_result host_local ipam_config
            (create_ipam_args (c ∷ netns_path) cni_add id))
          (message "failed to run CNI IPAM ADD")
    obtained result

  unfoldable pub ipam_del : Text → Action W (Unit {0})
  unfolding create_ipam_args
  ipam_del id =
      or_else (h.exec_plugin_without_result host_local ipam_config (create_ipam_args [] cni_del id))
        (message "failed to run CNI IPAM DEL")

  unfoldable pub get_container_netns_path : Text → Action W Text
  unfolding decimal
  get_container_netns_path id = do
    pid ← h.inspect_container id
    pure (codes "/proc/" ++ (decimal pid ++ codes "/ns/net"))

  unfoldable pub first_address : List Text → Action W Text
  first_address [] = raise (message "failed to inspect container interface")
  first_address (ip ∷ addrs) = pure ip

  -- `getVethInfo`: the name of the host's end, the hardware address of the container's, and its IP.
  unfoldable pub get_veth_info : Text → Text → Action W (Text × (Text × Text))
  unfolding first_address
  get_veth_info netns container_ifname = do
    or_else (h.open_netns netns) (message "failed to get container netns")
    or_else (h.enter_netns netns) (message "failed to inspect container interface")
    cont_veth ←
        or_else (h.link_by_name (some netns) container_ifname)
          (message "failed to inspect container interface")
    addrs ← or_else (h.addr_list netns cont_veth) (message "failed to inspect container interface")
    pod_ip ← first_address addrs
    host_veth ←
        or_else (h.link_by_index none cont_veth.parent_index) (message "failed to get host veth")
    pure (host_veth.name, (cont_veth.hardware_addr, pod_ip))
