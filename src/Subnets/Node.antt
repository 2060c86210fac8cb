-- ===== src/Subnets/Node.antt =====
-- ksdn/subnets.go, lines 203 to 239: how a node follows the subnets of the others.
use k8s_ovs.Base.{ok, err, List, [], ◌∷◌, Text, text_dec, ite, if◌then◌else◌}
use k8s_ovs.Etcd.{HostSubnet, Event, EventType, event_added, event_removed, event_other}
use k8s_ovs.Ovs.{Exec}
use k8s_ovs.Rules.{add_host_subnet_rules, delete_host_subnet_rules}
use k8s_ovs.NodeVnids.Sets.{StringSets}
use k8s_ovs.Subnets.{NetworkInfo, validate_node_ip}

module _ (z : StringSets) (x : Exec) (bridge : Text) (ni : NetworkInfo) (local_ip : Text) where
  -- One round of `nodeHandleSubnetEvent`: the addresses whose rules this batch has added, and the bridge.
  unfoldable pub handle_subnet : EventType → HostSubnet → z.Set × x.World → z.Set × x.World
  unfolding validate_node_ip add_host_subnet_rules delete_host_subnet_rules text_dec
  handle_subnet event_added sub (subnets, w) =
      let (w', answer) = add_host_subnet_rules x bridge sub w in
      let tried : z.Set × x.World = elim answer [
        | err _ ↦ (subnets, w')
        | ok _ ↦ (z.insert sub.host_ip subnets, w')
      ] in
      let valid : z.Set × x.World = elim (validate_node_ip ni sub.host_ip) [
        | err _ ↦ (subnets, w)
        | ok _ ↦ tried
      ] in
      ite (text_dec local_ip sub.host_ip) (subnets, w)
        (if z.has sub.host_ip subnets then (subnets, w) else valid)
  handle_subnet event_removed sub (subnets, w) =
      ite (text_dec local_ip sub.host_ip) (subnets, w)
        (z.delete sub.host_ip subnets, (delete_host_subnet_rules x bridge sub w).0)
  handle_subnet (event_other n) sub s = s

  unfoldable pub handle_subnets : List Event → z.Set × x.World → z.Set × x.World
  unfolding handle_subnet
  handle_subnets [] s = s
  handle_subnets (evt ∷ batch) s = handle_subnets batch (handle_subnet evt.type evt.subnet s)

  unfoldable pub node_handle_subnet_event : List Event → x.World → x.World
  unfolding handle_subnets
  node_handle_subnet_event batch w = (handle_subnets batch (z.new, w)).1
