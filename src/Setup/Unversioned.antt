-- ===== src/Setup/Unversioned.antt =====
-- ksdn/controller.go: bridges on which no version is noted, and `alreadySetUp` on them.
use k8s_ovs.Base.{
  ◌≡◌, refl, inl, inr, Bool, false, ok, List, [], ◌∷◌, Text, codes, text_dec, arith, Result-cases,
  Bool-cases,
}
use k8s_ovs.Base.Strings.{contains}
use k8s_ovs.IpCmd.{new_transaction, get_addresses, get_routes}
use k8s_ovs.Ovs.{Exec, exec, ovs_vsctl}
use k8s_ovs.Ovs.Ports.{add_bridge}
use k8s_ovs.Ovs.Transaction.{dump_flows}
use k8s_ovs.Setup.{
  already_set_up, any_contains, any_version_flow, is_version_flow, version_table, tun,
}
use k8s_ovs.Setup.Commands.{get_addresses-Keeps, get_routes-Keeps}
use k8s_ovs.Setup.Run.{Host}
use k8s_ovs.Setup.Untouched.{IsUntouched}

-- That a bridge has no flow in the table of the version: so it is when the bridge has been added anew, no
-- command but the one that adds such a flow ends it, and then no dump shows one.
pub record IsUnversioned (x : Exec) (h : Host x.World) (bridge : Text) (I : x.World → Type 0)
    : Type 0 where
  pub untouched : IsUntouched x h I
  pub added :
      (rest : List Text) (w : x.World) (out : Text)
      → (x.run ovs_vsctl
          (codes "--if-exists"
            ∷ codes "del-br"
            ∷ bridge
            ∷ codes "--"
            ∷ codes "add-br"
            ∷ bridge
            ∷ rest)
          w).1
        ≡ ok out
      → I
          (x.run ovs_vsctl
            (codes "--if-exists"
              ∷ codes "del-br"
              ∷ bridge
              ∷ codes "--"
              ∷ codes "add-br"
              ∷ bridge
              ∷ rest)
            w).0
  pub dumped :
      (w : x.World) (flows : List Text)
      → I w
      → (dump_flows x bridge w).1 ≡ ok flows
      → any_contains flows version_table ≡ false

any_version_flow_none :
    (multitenant : Bool) (flows : List Text)
    → any_contains flows version_table ≡ false
    → any_version_flow multitenant flows ≡ false
unfolding any_version_flow is_version_flow any_contains
any_version_flow_none multitenant [] h = refl
any_version_flow_none multitenant (flow ∷ flows) h =
    elim (Bool-cases (contains flow version_table)) [
      | inl has ↦ absurd (ground (arith, has, h))
      | inr lacks ↦ ground (arith, lacks, h, any_version_flow_none multitenant flows)
    ]

module _ {x : Exec} {h : Host x.World} {bridge : Text} {I : x.World → Type 0}
    (u : IsUnversioned x h bridge I) where
  pub already_set_up-unversioned :
      (multitenant : Bool) (gateway_cidr cluster_cidr : Text) (w : x.World)
      → I w
      → (already_set_up x bridge multitenant gateway_cidr cluster_cidr w).1 ≡ false
  unfolding already_set_up
  already_set_up-unversioned multitenant gateway_cidr cluster_cidr w i =
      let s1 = get_addresses x (new_transaction x tun) w in
      let i1 = get_addresses-Keeps u.untouched (new_transaction x tun) w i in
      let s2 = get_routes x (new_transaction x tun) s1.1.0 in
      let i2 = get_routes-Keeps u.untouched (new_transaction x tun) s1.1.0 i1 in
      elim (Result-cases (dump_flows x bridge s2.1.0).1) [
        | inr (e, failed) ↦ ground (arith, failed)
        | inl (flows, shown) ↦
            let no_version =
              any_version_flow_none multitenant flows (u.dumped s2.1.0 flows i2 shown) in
            ground (arith, shown, no_version)
      ]

  exec_ok :
      (rest : List Text) (w : x.World) (out : Text)
      → (exec x ovs_vsctl
          (codes "--if-exists"
            ∷ codes "del-br"
            ∷ bridge
            ∷ codes "--"
            ∷ codes "add-br"
            ∷ bridge
            ∷ rest)
          w).1
        ≡ ok out
      → I
          (exec x ovs_vsctl
            (codes "--if-exists"
              ∷ codes "del-br"
              ∷ bridge
              ∷ codes "--"
              ∷ codes "add-br"
              ∷ bridge
              ∷ rest)
            w).0
  unfolding exec text_dec
  exec_ok rest w out done =
      let args =
        codes "--if-exists"
        ∷ codes "del-br"
        ∷ bridge
        ∷ codes "--"
        ∷ codes "add-br"
        ∷ bridge
        ∷ rest in
      elim (Result-cases (x.run ovs_vsctl args w).1) [
        | inl (raw, ran) ↦ u.added rest w raw ran
        | inr (e, failed) ↦ absurd (ground (arith, failed, done))
      ]

  pub add_bridge-unversioned :
      (properties : List Text) (w : x.World)
      → (add_bridge x bridge properties w).1 ≡ ok tt
      → I (add_bridge x bridge properties w).0
  unfolding add_bridge
  add_bridge-unversioned [] w done =
      let rest : List Text = [] in
      elim (Result-cases
        (exec x ovs_vsctl
          (codes "--if-exists"
            ∷ codes "del-br"
            ∷ bridge
            ∷ codes "--"
            ∷ codes "add-br"
            ∷ bridge
            ∷ rest)
          w).1) [
            | inl (out, ran) ↦ exec_ok rest w out ran
            | inr (e, failed) ↦ absurd (ground (arith, failed, done))
          ]
  add_bridge-unversioned (p ∷ properties) w done =
      let rest = codes "--" ∷ codes "set" ∷ codes "Bridge" ∷ bridge ∷ p ∷ properties in
      elim (Result-cases
        (exec x ovs_vsctl
          (codes "--if-exists"
            ∷ codes "del-br"
            ∷ bridge
            ∷ codes "--"
            ∷ codes "add-br"
            ∷ bridge
            ∷ rest)
          w).1) [
            | inl (out, ran) ↦ exec_ok rest w out ran
            | inr (e, failed) ↦ absurd (ground (arith, failed, done))
          ]
