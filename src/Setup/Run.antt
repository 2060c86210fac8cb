-- ===== src/Setup/Run.antt =====
-- ksdn/controller.go, lines 180 to 325: `SetupSDN`.
use k8s_ovs.Base.{
  ℕ, Bool, true, false, Result, ok, message, Option, none, some, List, [], ◌∷◌, ◌++◌, Text, codes,
  decimal,
}
use k8s_ovs.Base.Actions.{Action, pure, ◌>>=◌, ◌>>◌, drop_error, or_else, deferred}
use k8s_ovs.IpCmd.Transaction.{IpOp, add_address, set_link, add_route}
use k8s_ovs.IpCmd.Transaction as IpTx
use k8s_ovs.IpNet.{IpNet, parse_cidr, ip_to_string, net_to_string, gateway_of}
use k8s_ovs.Ovs.{Exec}
use k8s_ovs.Ovs.Ports.{add_bridge, delete_port, add_port}
use k8s_ovs.Ovs.Transaction.{add_flow, transact}
use k8s_ovs.Rules.{get_plugin_version}
use k8s_ovs.Setup.{
  tun, vxlan, version_table, version_action, already_set_up, delete_local_subnet_route,
}
use k8s_ovs.Setup.Flows.{pipeline_flows}
use k8s_ovs.Subnets.{NetworkInfo}

-- What `SetupSDN` uses of the node besides commands: directories, files, kernel settings, and the time
-- that passes while it waits.
pub record Host (World : Type 0) : Type 0 where
  pub mkdir_all : Text → Action World (Unit {0})
  pub write_file : Text → Text → Action World (Unit {0})
  pub set_sysctl : Text → ℕ → Action World (Unit {0})
  pub sleep : World → World

-- The texts that the setup is about.
pub record Addresses : Type 0 where
  pub cluster_cidr : Text
  pub service_cidr : Text
  pub local_cidr : Text
  pub gateway : Text
  pub gateway_cidr : Text

unfoldable pub addresses : NetworkInfo → Text → IpNet → Addresses
unfolding ip_to_string net_to_string gateway_of decimal
addresses ni local_cidr ipnet =
    let gateway = ip_to_string (gateway_of ipnet) in
    record {
      cluster_cidr = net_to_string ni.cluster_network;
      service_cidr = net_to_string ni.service_network;
      local_cidr = local_cidr;
      gateway = gateway;
      gateway_cidr = gateway ++ b'/' ∷ decimal ipnet.bits;
    }

-- The flow that notes the plugin's version.
unfoldable pub version_flow : List Text → Text
version_flow (a ∷ b ∷ version) =
    version_table ++ (codes ", " ++ (version_action ++ (a ++ (codes "." ++ b))))
version_flow version = []

module _ (x : Exec) (h : Host x.World) (bridge : Text) (multitenant : Bool) (mtu : ℕ) where
  -- Up to the ports of the bridge.
  unfoldable pub make_bridge : Addresses → Action x.World (Unit {0})
  unfolding add_bridge delete_port add_port
  make_bridge a = do
    h.mkdir_all (codes "/run/k8s-ovs")
    h.write_file (codes "/run/k8s-ovs/config.env")
        (codes "export K8S_CLUSTER_SUBNET=" ++ a.cluster_cidr)
    add_bridge x bridge (codes "fail-mode=secure" ∷ codes "protocols=OpenFlow13" ∷ [])
    drop_error (delete_port x bridge vxlan)
    add_port x bridge vxlan 1 (
        codes "type=vxlan" ∷ codes "options:remote_ip=\"flow\"" ∷ codes "options:key=\"flow\"" ∷ [])
    drop_error (delete_port x bridge tun)
    p ← add_port x bridge tun 2 (codes "type=internal" ∷ [])
    pure tt

  -- The calls on the interface of the node's gateway.
  unfoldable pub gateway_ops : Addresses → List IpOp
  unfolding decimal
  gateway_ops a =
      add_address a.gateway_cidr []
      ∷ set_link (codes "mtu" ∷ decimal mtu ∷ [])
      ∷ set_link (codes "up" ∷ [])
      ∷ add_route a.cluster_cidr
          (codes "proto" ∷ codes "kernel" ∷ codes "scope" ∷ codes "link" ∷ [])
      ∷ add_route a.service_cidr []
      ∷ []

  -- The rest, from the interface's address on.
  unfoldable pub finish_setup : Addresses → Action x.World Bool
  unfolding gateway_ops transact IpTx.transact version_flow get_plugin_version
  finish_setup a = do
    IpTx.transact x tun (gateway_ops a)
    or_else (h.set_sysctl (codes "net/ipv4/ip_forward") 1)
        (message "Could not enable IPv4 forwarding")
    or_else (h.set_sysctl (codes "net/ipv4/conf/tun0/forwarding") 1)
        (message "Could not enable IPv4 forwarding on tun0")
    transact x bridge (add_flow (version_flow (get_plugin_version multitenant)) ∷ [])
    pure true

  -- The whole setup, with the deletion of the route that the kernel adds with the address.
  unfoldable pub full_setup : Addresses → Action x.World Bool
  unfolding make_bridge pipeline_flows transact finish_setup delete_local_subnet_route
  full_setup a = do
    make_bridge a
    transact x bridge (pipeline_flows a.cluster_cidr a.service_cidr a.local_cidr a.gateway)
    deferred (delete_local_subnet_route x h.sleep tun a.local_cidr) (finish_setup a)

  -- `SetupSDN`, whether it changed the network; `none` is the panic on a subnet that is no network,
  -- whose error the source does not look at.
  unfoldable pub setup_sdn : NetworkInfo → Text → x.World → Option (x.World × Result Bool)
  unfolding parse_cidr addresses already_set_up full_setup
  setup_sdn ni local_cidr w = elim (parse_cidr local_cidr) [
    | none ↦ none
    | some ipnet ↦
        let a = addresses ni local_cidr ipnet in
        let (w', set_up) = already_set_up x bridge multitenant a.gateway_cidr a.cluster_cidr w in
        elim set_up [ true ↦ some (w', ok false) | false ↦ some (full_setup a w') ]
  ]
