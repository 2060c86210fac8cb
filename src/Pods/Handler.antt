-- ===== src/Pods/Handler.antt =====
-- ksdn/pod_linux.go, lines 189 to 335: the set-up, the update and the tear-down of a pod.
use k8s_ovs.Base.{ℕ, Bool, Error, message, none, some, List, [], ◌∷◌, Text, codes, decimal}
use k8s_ovs.Base.Actions.{Action, pure, ◌>>=◌, ◌>>◌, or_else, unless_ok}
use k8s_ovs.NodeVnids.{NodeVnidMap}
use k8s_ovs.NodeVnids.Sets.{StringSets}
use k8s_ovs.Pods.{
  PodRequest, PodConfig, Ip4, Link, NsState, is_ns, path_not_exist, other_error, PodHost,
  sdn_script, pod_interface_name,
}
use k8s_ovs.Pods.Config.{
  get_pod_config, ipam_add, ipam_del, get_veth_info, get_container_netns_path, script_error,
}

module _ {W : Type 0} (h : PodHost W) (ipam_config : Text) (multitenant : Bool) (mtu : ℕ) where
  -- A run of the script, with the error that a status other than 0 gives.
  unfoldable pub run_script : List Text → Error → Action W (Unit {0})
  unfolding script_error
  run_script args failure w =
      let (w', end) = h.run_command sdn_script args w in (w', script_error failure end)

  unfoldable pub script_args : Text → Text × (Text × Text) → PodConfig → List Text
  unfolding decimal
  script_args cmd (host_veth, (mac, ip)) config =
      cmd
      ∷ host_veth
      ∷ mac
      ∷ ip
      ∷ decimal config.vnid
      ∷ config.ingress_bandwidth
      ∷ config.egress_bandwidth
      ∷ []

  -- What `setup` does in the namespace of the container: the two ends of the link.
  unfoldable pub configure_container : PodRequest → Ip4 → Action W (Link × Link)
  configure_container req ip4 = do
    h.open_netns req.netns
    h.enter_netns req.netns
    veths ←
        or_else (h.setup_veth req.netns pod_interface_name mtu)
          (message "failed to create container veth")
    cont_veth ←
        or_else (h.link_by_index (some req.netns) veths.1.index)
          (message "failed to fetch container veth")
    or_else (h.configure_iface req.netns pod_interface_name (record ip4 { gateway = none }))
        (message "failed to configure container IPAM")
    or_else (h.link_by_name (some req.netns) (codes "lo") >>= h.link_set_up req.netns)
        (message "failed to configure container loopback")
    pure (veths.0, cont_veth)

  -- `setup` from the address on, without the release.
  unfoldable pub attach_pod : PodRequest → PodConfig → Ip4 → Action W Ip4
  unfolding configure_container script_args run_script
  attach_pod req config ip4 = do
    veths ← configure_container req ip4
    run_script (script_args (codes "setup") (veths.0.name, (veths.1.hardware_addr, ip4.ip)) config)
        (message "error running network setup script")
    pure (record ip4 { gateway = none })

  unfoldable pub setup : (z : StringSets) → NodeVnidMap z → PodRequest → Action W Ip4
  unfolding get_pod_config ipam_add ipam_del attach_pod
  setup z vnids req = do
    config ← get_pod_config h ipam_config multitenant z vnids req
    ip4 ←
        or_else (ipam_add h ipam_config multitenant req.netns req.container_id)
          (message "failed to run IPAM")
    unless_ok (ipam_del h ipam_config multitenant req.container_id) (attach_pod req config ip4)

  -- The namespace of a request, from docker if it has none.
  unfoldable pub netns_of : PodRequest → Text → Action W Text
  unfolding get_container_netns_path
  netns_of req [] = get_container_netns_path h ipam_config multitenant req.container_id
  netns_of req (c ∷ netns) = pure (c ∷ netns)

  unfoldable pub update : (z : StringSets) → NodeVnidMap z → PodRequest → Action W (Unit {0})
  unfolding netns_of get_pod_config get_veth_info run_script script_args
  update z vnids req = do
    netns ← netns_of req req.netns
    config ← get_pod_config h ipam_config multitenant z vnids req
    veth ← get_veth_info h ipam_config multitenant netns pod_interface_name
    run_script (script_args (codes "update") veth config)
        (message "error running network update script")

  -- What `teardown` does if the namespace is still there.
  unfoldable pub detach_pod : PodRequest → Action W (Unit {0})
  unfolding get_veth_info run_script
  detach_pod req = do
    veth ← get_veth_info h ipam_config multitenant req.netns pod_interface_name
    run_script (codes "teardown" ∷ veth.0 ∷ veth.1.0 ∷ veth.1.1 ∷ codes "-1" ∷ [])
        (message "error running network teardown script")

  -- `teardown`, by what is known of the namespace.
  unfoldable pub teardown_in : NsState → PodRequest → Action W (Unit {0})
  unfolding detach_pod ipam_del
  teardown_in path_not_exist req = ipam_del h ipam_config multitenant req.container_id
  teardown_in is_ns req = detach_pod req >> ipam_del h ipam_config multitenant req.container_id
  teardown_in other_error req =
      detach_pod req >> ipam_del h ipam_config multitenant req.container_id

  unfoldable pub teardown : PodRequest → Action W (Unit {0})
  unfolding teardown_in
  teardown req w = teardown_in (h.is_ns_or_err req.netns w) req w
