-- ===== src/Rules/Laws.antt =====
-- ksdn/controller.go: what the rules of services have to do with each other.
use k8s_ovs.Base.{
  ℕ, ◌≡◌, ◌↔◌, inl, inr, true, false, Result, ok, Error, message, List, [], ◌∷◌, ◌++◌, Text, codes,
  ◌==◌, arith, refl, map, decimal, Result-cases, Bool-cases,
}
use k8s_ovs.Ovs.{Exec, exec, ovs_ofctl}
use k8s_ovs.Ovs.Transaction.{
  FlowOp, add_flow, transact, run_until_error, command, transact-run_until_error,
}
use k8s_ovs.Rules.{
  ServicePort, Service, generate_add_service_rule, generate_delete_service_rule, each_port,
  add_service_rules,
}

-- The rule that a service's port gets starts with the match that its deletion names, so the
-- deletion covers it, whatever the VNID was.
add_service_rule-delete :
    (net_id : ℕ) (ip protocol : Text) (port : ℕ)
    → (actions : Text) × (generate_add_service_rule net_id ip protocol port
        ≡ generate_delete_service_rule ip protocol port ++ actions)
unfolding generate_add_service_rule generate_delete_service_rule
add_service_rule-delete net_id ip protocol port = elim (Bool-cases (net_id == 0)) [
  | inl e ↦ rw (generate_add_service_rule, e) (codes ", priority=100, actions=output:2", refl)
  | inr e ↦
      rw (generate_add_service_rule, e)
        (codes ", priority=100, reg0=" ++ (decimal net_id ++ codes ", actions=output:2"), refl)
]

module _ (x : Exec) (bridge : Text) where
  -- Two runs of commands that end in the same world, and succeed together.
  abbrev pub SameRun : x.World × Result (Unit {0}) → x.World × Result (Unit {0}) → Type 0
  SameRun (w, a) (w', a') = (w ≡ w') × ((a ≡ ok tt) ↔ (a' ≡ ok tt))

  each_port-run_until_error :
      (failure : Error) (rule : ServicePort → FlowOp) (ports : List ServicePort) (w : x.World)
      → SameRun
          (each_port x bridge failure rule ports w)
          (run_until_error x bridge (map rule ports) w)
  unfolding each_port run_until_error
  each_port-run_until_error failure rule [] w = (refl, (λ e. e, λ e. e))
  each_port-run_until_error failure rule (p ∷ ports) w =
      let ran = exec x ovs_ofctl (command x bridge (rule p)) w in
      let rest = each_port-run_until_error failure rule ports ran.0 in
      elim (Result-cases ran.1) [
        | inl (out, e) ↦
            ground (arith, e, rest.0, rest.1, transact-run_until_error x bridge (rule p ∷ []) w)
        | inr (f, e) ↦ ground (arith, e, transact-run_until_error x bridge (rule p ∷ []) w)
      ]

  -- On a multitenant node, adding a service's rules ends in the same world as one transaction of
  -- all its ports, and succeeds exactly if that does; on a single-tenant node it does nothing and
  -- succeeds.
  pub add_service_rules-run :
      (service : Service) (net_id : ℕ) (w : x.World)
      → SameRun (add_service_rules x bridge true service net_id w) (
          transact x bridge
            (map
              (λ (p : ServicePort).
                add_flow (generate_add_service_rule net_id service.cluster_ip p.protocol p.port))
              service.ports)
            w)
        × (add_service_rules x bridge false service net_id w ≡ (w, ok tt))
  unfolding add_service_rules
  add_service_rules-run service net_id w =
      let rule = λ (p : ServicePort).
        add_flow (generate_add_service_rule net_id service.cluster_ip p.protocol p.port) in
      (
        rw (transact-run_until_error x bridge (map rule service.ports) w) (
            each_port-run_until_error (message "Error adding OVS flows for service") rule
              service.ports w),
        refl,
      )
