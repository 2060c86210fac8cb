-- ===== src/Tests/Switch.antt =====
-- The bridge and its rules, on commands that succeed.
use k8s_ovs.Base.{◌≡◌, refl, ok, true, false, List, [], ◌∷◌, codes, map}
use k8s_ovs.Base.Atoi.{pos}
use k8s_ovs.Ovs.Transaction.{
  FlowOp, add_flow, del_flows, transact, run_until_error, transact-run_until_error,
}
use k8s_ovs.Ovs.Ports.{add_port}
use k8s_ovs.Rules.{ServicePort, generate_add_service_rule, add_service_rules}
use k8s_ovs.Rules.Laws.{SameRun, add_service_rules-run}
use k8s_ovs.Tests.Data.{commands, web}

abbrev ops : List FlowOp
ops = del_flows (codes "table=4") ∷ add_flow (codes "table=4, tcp") ∷ []

transact-run_until_error_example :
    transact (commands []) (codes "br0") ops 0 ≡ run_until_error (commands []) (codes "br0") ops 0
transact-run_until_error_example = transact-run_until_error (commands []) (codes "br0") ops 0

port_added : (add_port (commands (codes "7")) (codes "br0") (codes "veth1") 7 [] 0).1 ≡ ok (pos 7)
unfolding add_port k8s_ovs.Ovs.exec
port_added = refl

add_service_rules-run_example :
    SameRun
      (commands [])
      (codes "br0")
      (add_service_rules (commands []) (codes "br0") true web 10 0)
      (transact
        (commands [])
        (codes "br0")
        (map
          (λ (p : ServicePort).
            add_flow (generate_add_service_rule 10 web.cluster_ip p.protocol p.port))
          web.ports)
        0)
    × (add_service_rules (commands []) (codes "br0") false web 10 0 ≡ (0, ok tt))
add_service_rules-run_example = add_service_rules-run (commands []) (codes "br0") web 10 0
