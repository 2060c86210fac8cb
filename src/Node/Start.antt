-- ===== src/Node/Start.antt =====
-- ksdn/node.go, lines 49 to 143, and ksdn/master.go: the start of a node and of the master.
use k8s_ovs.Base.{
  ℕ, Bool, true, false, Result, ok, err, message, Option, none, some, List, [], ◌∷◌, Text, codes,
}
use k8s_ovs.Base.Actions.{Action, pure, raise, ◌>>=◌, ◌>>◌, or_else}
use k8s_ovs.Cni.Server.{SocketHost, start}
use k8s_ovs.Etcd.{EtcdManager, ClusterNetwork}
use k8s_ovs.IpNet.{IpNet, net_to_string}
use k8s_ovs.IpTables.{IpTables, sync_ip_table_rules}
use k8s_ovs.MasterVnids.Sync as Sync
use k8s_ovs.MasterVnids.{MasterVnidMap, new_master_vnid_map}
use k8s_ovs.NetType.{is_kovs_network_plugin, is_multitenant_network_plugin, parse_network_info}
use k8s_ovs.Node.{KubePod, PodClient, get_local_pods, update_request}
use k8s_ovs.NodeVnids.{NodeVnidMap, new_node_vnid_map}
use k8s_ovs.NodeVnids as NodeVnids
use k8s_ovs.NodeVnids.Sets.{StringSets}
use k8s_ovs.Ovs as Ovs
use k8s_ovs.Ovs.{Exec}
use k8s_ovs.Pods.{PodHost}
use k8s_ovs.Pods.Requests.{process_request, handle_cni_request}
use k8s_ovs.Pods.Config.{IpamConfig, get_ipam_config}
use k8s_ovs.Setup.{get_local_subnet}
use k8s_ovs.Setup.Run.{Host, setup_sdn}
use k8s_ovs.Snalloc.{SubnetAllocator}
use k8s_ovs.Subnets.{NetworkInfo, subnet_start_master}
use k8s_ovs.Subnets.NodeWatch.{node_name_ip}
use k8s_ovs.Vnid.Bitmap.{Bitmap}

-- What a node reaches: commands, the host, iptables, sockets, pods, the API server, and the resolver.
pub record NodeParts : Type 1 where
  pub exec : Exec
  pub host : Host exec.World
  pub ipt : IpTables exec.World
  pub sockets : SocketHost exec.World
  pub pods : PodHost exec.World
  pub client : PodClient exec.World
  pub lookup_ip : Text → Result (List (Option ℕ))
  -- `ChooseHostInterface`, by the text of the address.
  pub choose_host_interface : Result Text
  -- `json.Marshal` of the plugin's configuration.
  pub marshal_config : IpamConfig → Result Text

-- A node that is ready.
pub record NodeState (z : StringSets) : Type 0 where
  pub multitenant : Bool
  pub network_info : NetworkInfo
  pub local_ip : Text
  pub local_subnet_cidr : Text
  pub ipam_config : Text
  pub vnids : NodeVnidMap z

module _ (p : NodeParts) (e : EtcdManager) (z : StringSets) where
  abbrev pub World : Type 0
  World = p.exec.World × e.Store

  abbrev on_world : {A : Type 0} → Action p.exec.World A → Action World A
  on_world m (w, s) = let (w', answer) = m w in ((w', s), answer)

  abbrev on_store : {A : Type 0} → Action e.Store A → Action World A
  on_store m (w, s) = let (s', answer) = m s in ((w, s'), answer)

  abbrev returned : {A : Type 0} → Result A → Action World A
  returned r s = (s, r)

  -- `SetupSDN`, whose panic ends the start as an error does.
  abbrev set_up : Text → Bool → NetworkInfo → Text → Action World Bool
  set_up bridge multitenant ni local_cidr (w, s) =
      elim (setup_sdn p.exec p.host bridge multitenant 1450 ni local_cidr w) [
        | none ↦ ((w, s), err (message "panic"))
        | some (w', answer) ↦ ((w', s), answer)
      ]

  -- The address of the node, by its name, or else by its interfaces.
  unfoldable pub self_ip : Text → Result Text
  unfolding node_name_ip
  self_ip hostname = elim (node_name_ip p.lookup_ip hostname) [
    | ok ip ↦ ok ip
    | err _ ↦ p.choose_host_interface
  ]

  -- `newPodManager`: the configuration of its plugin.
  unfoldable pub pod_config : IpNet → Text → Result Text
  unfolding get_ipam_config
  pod_config cluster_network local_subnet = elim (get_ipam_config cluster_network local_subnet) [
    | err x ↦ err x
    | ok config ↦ p.marshal_config config
  ]

  unfoldable pub vnid_start_node : Bool → Action World (NodeVnidMap z)
  unfolding NodeVnids.populate_vnids new_node_vnid_map
  vnid_start_node false (w, s) = ((w, s), ok (new_node_vnid_map z))
  vnid_start_node true (w, s) =
      let ((m, s'), answer) = NodeVnids.populate_vnids z e (new_node_vnid_map z) s in
      ((w, s'), elim answer [ ok _ ↦ ok m | err x ↦ err x ])

  -- The updates of the running pods; an error is logged.
  unfoldable pub update_pods : NodeState z → List KubePod → p.exec.World → p.exec.World
  unfolding process_request update_request
  update_pods node [] w = w
  update_pods node (pod ∷ pods) w =
      let request = update_request p.client pod in
      let (w', result) =
        process_request p.pods node.ipam_config node.multitenant 1450 z node.vnids request w in
      update_pods node pods w'

  unfoldable pub update_local_pods : Text → Bool → NodeState z → Action World (Unit {0})
  unfolding get_local_pods update_pods
  update_local_pods hostname false node s = (s, ok tt)
  update_local_pods hostname true node (w, s) =
      let (w', answer) = get_local_pods p.client hostname [] w in
      elim answer [
        | err x ↦ ((w', s), err x)
        | ok (run_pods, other_pods) ↦ ((update_pods node run_pods w', s), ok tt)
      ]

  -- The node, once its plugin is known: from the address on.
  unfoldable pub bring_up : Text → ℕ → ClusterNetwork → Action World (NodeState z)
  unfolding parse_network_info self_ip sync_ip_table_rules get_local_subnet vnid_start_node start
      update_local_pods Ovs.new setup_sdn is_multitenant_network_plugin
  bring_up hostname polls config = do
    ni ← returned (parse_network_info config)
    ip ← returned (self_ip hostname)
    bridge ← on_world (λ w. (w, Ovs.new p.exec (codes "br0") w))
    on_world (sync_ip_table_rules p.ipt (net_to_string ni.cluster_network))
    local_cidr ← on_store (get_local_subnet e ni polls ip)
    changed ← set_up bridge (is_multitenant_network_plugin config.plugin_name) ni local_cidr
    vnids ← vnid_start_node (is_multitenant_network_plugin config.plugin_name)
    ipam_config ← returned (pod_config ni.cluster_network local_cidr)
    l ← on_world (
        start p.sockets (codes "/var/run/k8s-ovs/cni-server.sock") (
          some (
            handle_cni_request p.pods ipam_config (is_multitenant_network_plugin config.plugin_name)
              1450 z vnids)))
    let node : NodeState z = record {
      multitenant = is_multitenant_network_plugin config.plugin_name;
      network_info = ni;
      local_ip = ip;
      local_subnet_cidr = local_cidr;
      ipam_config = ipam_config;
      vnids = vnids;
    } in
        update_local_pods hostname changed node >> pure node

  -- `StartNode`, without the loops that it starts; an error is fatal, and a result says that the pod
  -- network is ready.
  unfoldable pub start_node : Text → ℕ → Action World (NodeState z)
  unfolding is_kovs_network_plugin bring_up
  start_node hostname polls = do
    config ← or_else (on_store e.get_network_config) (message "Get network config failed")
    elim (is_kovs_network_plugin config.plugin_name) [
      | true ↦ bring_up hostname polls config
      | false ↦ raise (message "Not a k8s ovs sdn plugin")
    ]

-- A master that has started: its networks, its allocator, and its VNIDs if it is multitenant.
pub record MasterState (b : Bitmap) : Type 0 where
  pub network_info : NetworkInfo
  pub allocator : SubnetAllocator
  pub vnids : Option (MasterVnidMap b)

module _ (b : Bitmap) (e : EtcdManager) where
  unfoldable pub vnid_start_master : Bool → Action e.Store (Option (MasterVnidMap b))
  unfolding Sync.populate_vnids new_master_vnid_map
  vnid_start_master false s = (s, ok none)
  vnid_start_master true s = elim (new_master_vnid_map b) [
    | err x ↦ (s, err x)
    | ok empty ↦
        let (m, answer) = Sync.populate_vnids b e (record { vnids = empty; store = s }) in
        (m.store, elim answer [ ok _ ↦ ok (some m.vnids) | err x ↦ err x ])
  ]

  -- The master of a network of this program's plugins.
  unfoldable pub start_known_master : ClusterNetwork → Action e.Store (MasterState b)
  unfolding is_multitenant_network_plugin parse_network_info subnet_start_master vnid_start_master
  start_known_master config = do
    ni ← (λ s. (s, parse_network_info config))
    allocator ← subnet_start_master e (net_to_string ni.cluster_network) config.host_subnet_length
    vnids ← vnid_start_master (is_multitenant_network_plugin config.plugin_name)
    pure (record { network_info = ni; allocator = allocator; vnids = vnids })

  unfoldable pub started_if : Bool → ClusterNetwork → Action e.Store (Option (MasterState b))
  unfolding start_known_master
  started_if true config = start_known_master config >>= λ m. pure (some m)
  started_if false config = pure none

  -- `StartMaster`; `none` is a network of another plugin, which the master leaves alone.
  unfoldable pub start_master : Action e.Store (Option (MasterState b))
  unfolding is_kovs_network_plugin started_if
  start_master = e.get_network_config >>= λ config.
      started_if (is_kovs_network_plugin config.plugin_name) config
