-- ===== src/Setup/Failed.antt =====
-- ksdn/controller.go: a setup that fails, and `alreadySetUp` after it.
use mathlib.Core.Path.{subst}
use k8s_ovs.Base.{
  sym, ap, ◌∙◌, ℕ, ◌≡◌, inl, inr, Bool, false, Result, ok, err, Error, some, [], ◌∷◌, ◌++◌, Text,
  codes, arith, Bool-cases,
}
use k8s_ovs.Base.Atoi.{ℤ}
use k8s_ovs.Base.Actions.{
  Action, ◌>>=◌, ◌>>◌, drop_error, pure, >>=-ok_cases, >>=-ok, Keeps, >>=-Keeps,
}
use k8s_ovs.IpNet.{IpNet, parse_cidr}
use k8s_ovs.Ovs.{Exec}
use k8s_ovs.Ovs.Ports.{add_bridge, add_port, delete_port}
use k8s_ovs.Setup.{already_set_up, vxlan, tun}
use k8s_ovs.Setup.Keeps.{add_port-Keeps, delete_port-Keeps, full_setup-from_bridge}
use k8s_ovs.Setup.Run.{Host, Addresses, addresses, make_bridge, setup_sdn}
use k8s_ovs.Subnets.{NetworkInfo}
use k8s_ovs.Setup.Unversioned.{IsUnversioned, already_set_up-unversioned, add_bridge-unversioned}

-- Three calls that succeed, and a fourth.
three :
    {W : Type 0} (m1 m2 m3 m4 : Action W (Unit {0})) (w : W)
    → (m1 w).1 ≡ ok tt
    → (m2 (m1 w).0).1 ≡ ok tt
    → (m3 (m2 (m1 w).0).0).1 ≡ ok tt
    → (m1 >> (m2 >> (m3 >> m4))) w ≡ m4 (m3 (m2 (m1 w).0).0).0
three m1 m2 m3 m4 w e1 e2 e3 =
    >>=-ok m1 (λ _. m2 >> (m3 >> m4)) w tt e1
    ∙ >>=-ok m2 (λ _. m3 >> m4) (m1 w).0 tt e2
    ∙ >>=-ok m3 (λ _. m4) (m2 (m1 w).0).0 tt e3

-- Two deletions and two ports in turn.
abbrev ports :
    {W A B : Type 0}
    → Action W (Unit {0})
    → Action W (Unit {0})
    → Action W A
    → Action W B
    → Action W (Unit {0})
ports d1 d2 p1 p2 = d1 >> (p1 >>= λ _. d2 >> (p2 >>= λ _. pure tt))

ports-Keeps :
    {W A B : Type 0} (I : W → Type 0) (d1 d2 : Action W (Unit {0})) (p1 : Action W A)
    (p2 : Action W B)
    → Keeps I d1
    → Keeps I d2
    → Keeps I p1
    → Keeps I p2
    → Keeps I (ports d1 d2 p1 p2)
ports-Keeps {W} {A} {B} I d1 d2 p1 p2 k1 k2 l1 l2 =
    let last : B → Action W (Unit {0}) = λ _. pure tt in
    let third : A → Action W (Unit {0}) = λ _. d2 >> (p2 >>= last) in
    >>=-Keeps I d1 (λ _. p1 >>= third) k1
      (λ _.
        >>=-Keeps I p1 third l1
          (λ _. >>=-Keeps I d2 (λ _. p2 >>= last) k2 (λ _. >>=-Keeps I p2 last l2 (λ _ w i. i))))

module _ {x : Exec} {h : Host x.World} {bridge : Text} {I : x.World → Type 0}
    (u : IsUnversioned x h bridge I) where
  -- The first steps of the setup, up to the bridge.
  abbrev pub until_bridge : Addresses → Action x.World (Unit {0})
  until_bridge a =
      h.mkdir_all (codes "/run/k8s-ovs")
      >> (h.write_file (codes "/run/k8s-ovs/config.env")
            (codes "export K8S_CLUSTER_SUBNET=" ++ a.cluster_cidr)
          >> add_bridge x bridge (codes "fail-mode=secure" ∷ codes "protocols=OpenFlow13" ∷ []))

  module _ (multitenant : Bool) (mtu : ℕ) where
    -- The rest of `make_bridge`.
    abbrev vxlan_port : Action x.World ℤ
    vxlan_port = add_port x bridge vxlan 1 (
        codes "type=vxlan" ∷ codes "options:remote_ip=\"flow\"" ∷ codes "options:key=\"flow\"" ∷ [])

    abbrev tun_port : Action x.World ℤ
    tun_port = add_port x bridge tun 2 (codes "type=internal" ∷ [])

    abbrev make_ports : Action x.World (Unit {0})
    make_ports =
        ports (drop_error (delete_port x bridge vxlan)) (drop_error (delete_port x bridge tun))
          vxlan_port tun_port

    make_ports-Keeps : Keeps I make_ports
    make_ports-Keeps =
        let k = u.untouched in
        ports-Keeps I (drop_error (delete_port x bridge vxlan))
          (drop_error (delete_port x bridge tun)) vxlan_port tun_port
          (delete_port-Keeps k bridge multitenant mtu vxlan)
          (delete_port-Keeps k bridge multitenant mtu tun)
          (add_port-Keeps k bridge multitenant mtu vxlan 1 _)
          (add_port-Keeps k bridge multitenant mtu tun 2 _)

    make_bridge-unversioned :
        (a : Addresses) (w : x.World)
        → (until_bridge a w).1 ≡ ok tt
        → I (make_bridge x h bridge multitenant mtu a w).0
    unfolding make_bridge
    make_bridge-unversioned a w made =
        let m1 = h.mkdir_all (codes "/run/k8s-ovs") in
        let config = codes "export K8S_CLUSTER_SUBNET=" ++ a.cluster_cidr in
        let m2 = h.write_file (codes "/run/k8s-ovs/config.env") config in
        let modes = codes "fail-mode=secure" ∷ codes "protocols=OpenFlow13" ∷ [] in
        let m3 = add_bridge x bridge modes in
        let (t1, done1, made1) = >>=-ok_cases m1 (λ _. m2 >> m3) w tt made in
        let w1 = (m1 w).0 in
        let (t2, done2, done3) = >>=-ok_cases m2 (λ _. m3) w1 tt made1 in
        let w2 = (m2 w1).0 in
        let i3 = add_bridge-unversioned u modes w2 done3 in
        subst I
          (sym (
            ap (λ (s : x.World × Result (Unit {0})). s.0)
              (three m1 m2 m3 make_ports w done1 done2 done3)))
          (make_ports-Keeps (m3 w2).0 i3)

    -- A setup that fails after it has added the bridge is not taken for a finished one:
    -- `alreadySetUp` answers no afterwards, whatever addresses it is asked about and for either
    -- plugin. It is assumed that a bridge added anew has no flow in the version's table, that no
    -- other command, no failed one and no other step of the setup adds one, and that a dump shows
    -- only flows that are there.
    pub setup_sdn-already_set_up :
        (ni : NetworkInfo) (local_cidr : Text) (ipnet : IpNet) (w w' : x.World) (e : Error)
        (other : Bool) (gateway_cidr cluster_cidr : Text)
        → parse_cidr local_cidr ≡ some ipnet
        → let a = addresses ni local_cidr ipnet in
          (until_bridge a (already_set_up x bridge multitenant a.gateway_cidr a.cluster_cidr w).0).1
            ≡ ok tt
          → setup_sdn x h bridge multitenant mtu ni local_cidr w ≡ some (w', err e)
          → (already_set_up x bridge other gateway_cidr cluster_cidr w').1 ≡ false
    unfolding setup_sdn
    setup_sdn-already_set_up ni local_cidr ipnet w w' e other gateway_cidr cluster_cidr parsed made
          failed =
        let a = addresses ni local_cidr ipnet in
        let checked = already_set_up x bridge multitenant a.gateway_cidr a.cluster_cidr w in
        let kept : I w' = elim (Bool-cases checked.1) [
          | inl before ↦ absurd (ground (arith, parsed, before, failed))
          | inr fresh ↦
              let i1 = make_bridge-unversioned a checked.0 made in
              let rest = full_setup-from_bridge u.untouched bridge multitenant mtu a checked.0 e in
              ground (arith, parsed, fresh, failed, rest, i1)
        ] in
        already_set_up-unversioned u other gateway_cidr cluster_cidr w' kept
