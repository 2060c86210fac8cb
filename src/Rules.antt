-- ===== src/Rules.antt =====
-- ksdn/controller.go, lines 40 to 50 and 327 to 415: the OpenFlow rules of remote subnets and services.
pub mod Laws
use k8s_ovs.Base.{
  ℕ, ◌+◌, ◌≡◌, Bool, true, false, Result, ok, err, Error, message, List, [], ◌∷◌, ◌++◌, Text, codes,
  if◌then◌else◌, ◌==◌, decimal,
}
use k8s_ovs.Base.Strings.{to_lower}
use k8s_ovs.Etcd.{HostSubnet}
use k8s_ovs.Ovs.{Exec}
use k8s_ovs.Ovs.Transaction.{FlowOp, add_flow, del_flows, transact}

-- A port of a service, by what the rules use.
pub record ServicePort : Type 0 where
  pub protocol : Text
  pub port : ℕ

-- A service, by what the node uses of it.
pub record Service : Type 0 where
  pub uid : Text
  pub namespace : Text
  pub cluster_ip : Text
  pub ports : List ServicePort

-- `getPluginVersion`, with VERSION = 1.
unfoldable pub get_plugin_version : Bool → List Text
get_plugin_version true = codes "01" ∷ codes "01" ∷ []
get_plugin_version false = codes "00" ∷ codes "01" ∷ []

unfoldable pub generate_base_service_rule : Text → Text → ℕ → Text
unfolding to_lower decimal
generate_base_service_rule ip protocol port =
    codes "table=4, "
    ++ (to_lower protocol ++ (codes ", nw_dst=" ++ (ip ++ (codes ", tp_dst=" ++ decimal port))))

unfoldable pub generate_add_service_rule : ℕ → Text → Text → ℕ → Text
unfolding generate_base_service_rule decimal
generate_add_service_rule net_id ip protocol port =
    let base_rule = generate_base_service_rule ip protocol port in
    if net_id == 0
    then base_rule ++ codes ", priority=100, actions=output:2"
    else base_rule
      ++ (codes ", priority=100, reg0=" ++ (decimal net_id ++ codes ", actions=output:2"))

unfoldable pub generate_delete_service_rule : Text → Text → ℕ → Text
unfolding generate_base_service_rule
generate_delete_service_rule ip protocol port = generate_base_service_rule ip protocol port

-- The flows of `AddHostSubnetRules` and `DeleteHostSubnetRules`.
unfoldable pub host_subnet_flows : HostSubnet → List FlowOp
host_subnet_flows subnet =
    let to_node =
      codes ", actions=move:NXM_NX_REG0[]->NXM_NX_TUN_ID[0..31],set_field:"
      ++ (subnet.host_ip ++ codes "->tun_dst,output:1") in
    add_flow (
      codes "table=1, priority=100, tun_src=" ++ (subnet.host_ip ++ codes ", actions=goto_table:5"))
    ∷ add_flow (codes "table=8, priority=100, arp, nw_dst=" ++ (subnet.subnet ++ to_node))
    ∷ add_flow (codes "table=8, priority=100, ip, nw_dst=" ++ (subnet.subnet ++ to_node))
    ∷ []

unfoldable pub host_subnet_deletes : HostSubnet → List FlowOp
host_subnet_deletes subnet =
    del_flows (codes "table=1, tun_src=" ++ subnet.host_ip)
    ∷ del_flows (codes "table=8, ip, nw_dst=" ++ subnet.subnet)
    ∷ del_flows (codes "table=8, arp, nw_dst=" ++ subnet.subnet)
    ∷ []

-- The error of an operation in another message.
abbrev pub wrapped : Error → Result (Unit {0}) → Result (Unit {0})
wrapped e (ok _) = ok tt
wrapped e (err _) = err e

module _ (x : Exec) (bridge : Text) where
  unfoldable pub add_host_subnet_rules : HostSubnet → x.World → x.World × Result (Unit {0})
  unfolding host_subnet_flows
  add_host_subnet_rules subnet w =
      let (w', answer) = transact x bridge (host_subnet_flows subnet) w in
      (w', wrapped (message "Error adding OVS flows for subnet") answer)

  unfoldable pub delete_host_subnet_rules : HostSubnet → x.World → x.World × Result (Unit {0})
  unfolding host_subnet_deletes
  delete_host_subnet_rules subnet w =
      let (w', answer) = transact x bridge (host_subnet_deletes subnet) w in
      (w', wrapped (message "Error deleting OVS flows for subnet") answer)

  -- The loop of `AddServiceRules` and `DeleteServiceRules`: a transaction of one command for each port,
  -- up to the first that fails.
  unfoldable pub each_port :
      Error → (ServicePort → FlowOp) → List ServicePort → x.World → x.World × Result (Unit {0})
  each_port failure rule [] w = (w, ok tt)
  each_port failure rule (p ∷ ports) w =
      let (w', answer) = transact x bridge (rule p ∷ []) w in
      let rest = each_port failure rule ports w' in
      elim answer [ err e ↦ (w', err failure) | ok _ ↦ rest ]

  unfoldable pub add_service_rules : Bool → Service → ℕ → x.World → x.World × Result (Unit {0})
  unfolding each_port generate_add_service_rule
  add_service_rules multitenant service net_id w =
      let rule = λ (p : ServicePort).
        add_flow (generate_add_service_rule net_id service.cluster_ip p.protocol p.port) in
      let added = each_port (message "Error adding OVS flows for service") rule service.ports w in
      if multitenant then added else (w, ok tt)

  unfoldable pub delete_service_rules : Bool → Service → x.World → x.World × Result (Unit {0})
  unfolding each_port generate_delete_service_rule
  delete_service_rules multitenant service w =
      let rule = λ (p : ServicePort).
        del_flows (generate_delete_service_rule service.cluster_ip p.protocol p.port) in
      let deleted =
        each_port (message "Error deleting OVS flows for service") rule service.ports w in
      if multitenant then deleted else (w, ok tt)
