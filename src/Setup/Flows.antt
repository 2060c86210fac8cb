-- ===== src/Setup/Flows.antt =====
-- ksdn/controller.go, lines 229 to 290: the flows of the pipeline, tables 0 to 9.
use k8s_ovs.Base.{List, [], ◌∷◌, ◌++◌, Text, codes}
use k8s_ovs.Ovs.Transaction.{FlowOp, add_flow}

module _ (cluster_cidr service_cidr local_cidr gateway : Text) where
  -- Table 0: dispatch by the port a packet comes from.
  unfoldable pub dispatch_flows : List FlowOp
  dispatch_flows =
      add_flow (
        codes "table=0, priority=200, in_port=1, arp, nw_src="
        ++ (cluster_cidr
            ++ (codes ", nw_dst="
                ++ (local_cidr
                    ++ codes ", actions=move:NXM_NX_TUN_ID[0..31]->NXM_NX_REG0[],goto_table:1"))))
      ∷ add_flow (
          codes "table=0, priority=200, in_port=1, ip, nw_src="
          ++ (cluster_cidr
              ++ (codes ", nw_dst="
                  ++ (local_cidr
                      ++ codes ", actions=move:NXM_NX_TUN_ID[0..31]->NXM_NX_REG0[],goto_table:1"))))
      ∷ add_flow (codes "table=0, priority=150, in_port=1, actions=drop")
      ∷ add_flow (
          codes "table=0, priority=200, in_port=2, arp, nw_src="
          ++ (gateway ++ (codes ", nw_dst=" ++ (cluster_cidr ++ codes ", actions=goto_table:5"))))
      ∷ add_flow (codes "table=0, priority=200, in_port=2, ip, actions=goto_table:5")
      ∷ add_flow (codes "table=0, priority=150, in_port=2, actions=drop")
      ∷ add_flow (codes "table=0, priority=100, arp, actions=goto_table:2")
      ∷ add_flow (codes "table=0, priority=100, ip, actions=goto_table:2")
      ∷ add_flow (codes "table=0, priority=0, actions=drop")
      ∷ []

  -- Tables 1 to 4: what comes from the tunnel and from containers.
  unfoldable pub container_flows : List FlowOp
  container_flows =
      add_flow (codes "table=1, priority=0, actions=drop")
      ∷ add_flow (codes "table=2, priority=0, actions=drop")
      ∷ add_flow (
          codes "table=3, priority=100, ip, nw_dst="
          ++ (service_cidr ++ codes ", actions=goto_table:4"))
      ∷ add_flow (codes "table=3, priority=0, actions=goto_table:5")
      ∷ add_flow (codes "table=4, priority=200, reg0=0, actions=output:2")
      ∷ add_flow (codes "table=4, priority=0, actions=drop")
      ∷ []

  -- Tables 5 to 9: the routing.
  unfoldable pub routing_flows : List FlowOp
  routing_flows =
      add_flow
        (codes "table=5, priority=300, arp, nw_dst=" ++ (gateway ++ codes ", actions=output:2"))
      ∷ add_flow
          (codes "table=5, priority=300, ip, nw_dst=" ++ (gateway ++ codes ", actions=output:2"))
      ∷ add_flow (
          codes "table=5, priority=200, arp, nw_dst="
          ++ (local_cidr ++ codes ", actions=goto_table:6"))
      ∷ add_flow (
          codes "table=5, priority=200, ip, nw_dst="
          ++ (local_cidr ++ codes ", actions=goto_table:7"))
      ∷ add_flow (
          codes "table=5, priority=100, arp, nw_dst="
          ++ (cluster_cidr ++ codes ", actions=goto_table:8"))
      ∷ add_flow (
          codes "table=5, priority=100, ip, nw_dst="
          ++ (cluster_cidr ++ codes ", actions=goto_table:8"))
      ∷ add_flow (codes "table=5, priority=0, ip, actions=goto_table:9")
      ∷ add_flow (codes "table=5, priority=0, arp, actions=drop")
      ∷ add_flow (codes "table=6, priority=0, actions=drop")
      ∷ add_flow (codes "table=7, priority=0, actions=drop")
      ∷ add_flow (codes "table=8, priority=0, actions=drop")
      ∷ add_flow (codes "table=9, priority=0, actions=output:2")
      ∷ []

  -- All of them, in the order of the source.
  unfoldable pub pipeline_flows : List FlowOp
  unfolding dispatch_flows container_flows routing_flows
  pipeline_flows = dispatch_flows ++ (container_flows ++ routing_flows)
