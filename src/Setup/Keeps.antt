-- ===== src/Setup/Keeps.antt =====
-- ksdn/controller.go, `SetupSDN`: what a setup that fails leaves as it was.
use k8s_ovs.Base.{
  ℕ, ◌≡◌, refl, inl, inr, Bool, true, false, err, Error, message, List, [], ◌∷◌, Text, codes,
  text_dec, arith, Result-cases, Bool-cases, ltb, ◌||◌,
}
use k8s_ovs.Base.Actions.{Action, pure, ◌>>◌, or_else}
use k8s_ovs.Base.Strings.{has_prefix}
use k8s_ovs.IpCmd.Transaction as IpTx
use k8s_ovs.Ovs.{Exec, exec, ovs_vsctl}
use k8s_ovs.Ovs.Ports.{add_port, add_port_args, delete_port, nonempty}
use k8s_ovs.Ovs.Transaction.{add_flow, transact}
use k8s_ovs.Rules.{get_plugin_version}
use k8s_ovs.Setup.{tun}
use k8s_ovs.Setup.Flows.{pipeline_flows}
use k8s_ovs.Setup.Run.{
  Host, Addresses, make_bridge, gateway_ops, finish_setup, full_setup, version_flow,
}
use k8s_ovs.Base.Actions.{Keeps, KeepsOnError}
use k8s_ovs.Setup.Untouched.{writes_version, IsUntouched}
use k8s_ovs.Setup.Commands.{
  AllQuiet, exec-Keeps, ip_transact-Keeps, transact-Keeps, transact-KeepsOnError,
  delete_local_subnet_route-Keeps,
}

pipeline_flows-AllQuiet :
    (x : Exec) (cluster_cidr service_cidr local_cidr gateway : Text)
    → AllQuiet x (pipeline_flows cluster_cidr service_cidr local_cidr gateway)
unfolding pipeline_flows writes_version has_prefix
pipeline_flows-AllQuiet x cluster_cidr service_cidr local_cidr gateway = ground arith

module _ {x : Exec} {h : Host x.World} {I : x.World → Type 0} (u : IsUntouched x h I)
    (bridge : Text) (multitenant : Bool) (mtu : ℕ) where
  pub delete_port-Keeps : (port : Text) → Keeps I (delete_port x bridge port)
  unfolding delete_port writes_version has_prefix text_dec
  delete_port-Keeps port w i = exec-Keeps u ovs_vsctl _ refl w i

  add_port_args_quiet :
      (port : Text) (request : ℕ) (properties : List Text)
      → writes_version (add_port_args x bridge port request properties) ≡ false
  unfolding add_port_args writes_version has_prefix
  add_port_args_quiet port request properties =
      elim (Bool-cases (ltb 0 request || nonempty properties)) [
        | inr plain ↦ rw plain refl
        | inl given ↦ elim (Bool-cases (ltb 0 request)) [
          | inl asked ↦ rw (given, asked) refl
          | inr unasked ↦ rw (given, unasked) refl
        ]
      ]

  pub add_port-Keeps :
      (port : Text) (request : ℕ) (properties : List Text)
      → Keeps I (add_port x bridge port request properties)
  unfolding add_port writes_version has_prefix text_dec
  add_port-Keeps port request properties w i =
      let args = add_port_args x bridge port request properties in
      let w1 = (exec x ovs_vsctl args w).0 in
      let i1 = exec-Keeps u ovs_vsctl args (add_port_args_quiet port request properties) w i in
      let i2 =
        exec-Keeps u ovs_vsctl (codes "get" ∷ codes "Interface" ∷ port ∷ codes "ofport" ∷ []) refl
          w1 i1 in
      ground arith

  -- Calls of which only the last may touch something, if it succeeds.
  sequence-KeepsOnError :
      (m1 m2 m3 m4 : Action x.World (Unit {0}))
      → Keeps I m1
      → Keeps I m2
      → Keeps I m3
      → KeepsOnError I m4
      → KeepsOnError I do m1; m2; m3; m4; pure true
  sequence-KeepsOnError m1 m2 m3 m4 k1 k2 k3 k4 w e failed i =
      let w1 = (m1 w).0 in
      let i1 = k1 w i in
      let w2 = (m2 w1).0 in
      let i2 = k2 w1 i1 in
      let w3 = (m3 w2).0 in
      let i3 = k3 w2 i2 in
      elim (Result-cases (m4 w3).1) [
        | inl (r, done) ↦ ground (arith, done, failed, i1, i2, i3)
        | inr (d, stopped) ↦ ground (arith, stopped, k4 w3 d stopped i3)
      ]

  finish_setup-KeepsOnError :
      (a : Addresses) → KeepsOnError I (finish_setup x h bridge multitenant mtu a)
  unfolding finish_setup
  finish_setup-KeepsOnError a =
      sequence-KeepsOnError (IpTx.transact x tun (gateway_ops x h bridge multitenant mtu a))
        (or_else (h.set_sysctl (codes "net/ipv4/ip_forward") 1)
          (message "Could not enable IPv4 forwarding"))
        (or_else (h.set_sysctl (codes "net/ipv4/conf/tun0/forwarding") 1)
          (message "Could not enable IPv4 forwarding on tun0"))
        (transact x bridge (add_flow (version_flow (get_plugin_version multitenant)) ∷ []))
        (ip_transact-Keeps u tun (gateway_ops x h bridge multitenant mtu a)) (u.by_sysctl _ 1)
        (u.by_sysctl _ 1)
        (transact-KeepsOnError u bridge (add_flow (version_flow (get_plugin_version multitenant))))

  -- The rest of the setup, from the ports of the bridge on.
  pub full_setup-from_bridge :
      (a : Addresses) (w : x.World) (e : Error)
      → (full_setup x h bridge multitenant mtu a w).1 ≡ err e
      → I (make_bridge x h bridge multitenant mtu a w).0
      → I (full_setup x h bridge multitenant mtu a w).0
  unfolding full_setup
  full_setup-from_bridge a w e failed i1 =
      let w1 = (make_bridge x h bridge multitenant mtu a w).0 in
      let flows = pipeline_flows a.cluster_cidr a.service_cidr a.local_cidr a.gateway in
      let w2 = (transact x bridge flows w1).0 in
      let quiet = pipeline_flows-AllQuiet x a.cluster_cidr a.service_cidr a.local_cidr a.gateway in
      let i2 = transact-Keeps u bridge flows quiet w1 i1 in
      let w3 = (finish_setup x h bridge multitenant mtu a w2).0 in
      let i3 = λ (f : (finish_setup x h bridge multitenant mtu a w2).1 ≡ err e).
        finish_setup-KeepsOnError a w2 e f i2 in
      let i4 = delete_local_subnet_route-Keeps u tun a.local_cidr w3 in ground arith
