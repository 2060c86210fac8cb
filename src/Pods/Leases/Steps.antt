-- ===== src/Pods/Leases/Steps.antt =====
-- ksdn/pod_linux.go: the steps of the handlers that change no lease.
use k8s_ovs.Base.{
  ℕ, ◌≡◌, refl, inl, inr, Bool, Error, message, none, some, List, [], ◌∷◌, Text, codes, arith,
  Result-cases,
}
use k8s_ovs.Base.Actions.{Action, ◌>>=◌, ◌>>◌, pure}
use k8s_ovs.NodeVnids.{NodeVnidMap}
use k8s_ovs.NodeVnids.Sets.{StringSets}
use k8s_ovs.Pods.{PodRequest, PodConfig, Ip4, Link, PodHost, pod_interface_name, sdn_script}
use k8s_ovs.Pods.Config.{get_pod_config, get_container_netns_path, get_veth_info, first_address}
use k8s_ovs.Pods.Handler.{
  run_script, script_args, configure_container, attach_pod, netns_of, update, detach_pod,
}
use k8s_ovs.Pods.Leases.{IsLeasing}

module _ {W : Type 0} {h : PodHost W} {has_lease : W → Text → Bool} (l : IsLeasing h has_lease)
    (ipam_config : Text) (multitenant : Bool) (mtu : ℕ) (id : Text) where
  -- A call that leaves the lease of the container as it is.
  abbrev pub Spares : {A : Type 0} → Action W A → Type 0
  Spares m = (w : W) → has_lease (m w).0 id ≡ has_lease w id

  pub >>=-Spares :
      {A B : Type 0} (m : Action W A) (f : A → Action W B)
      → Spares m
      → ((a : A) → Spares (f a))
      → Spares (m >>= f)
  >>=-Spares m f first next w = elim (Result-cases (m w).1) [
    | inl (a, done) ↦ ground (arith, done, first w, next a (m w).0)
    | inr (e, failed) ↦ ground (arith, failed, first w)
  ]

  pub get_pod_config-Spares :
      (z : StringSets) (vnids : NodeVnidMap z) (req : PodRequest)
      → Spares (get_pod_config h ipam_config multitenant z vnids req)
  unfolding get_pod_config
  get_pod_config-Spares z vnids req w =
      let read = l.by_get_pod req.pod_namespace req.pod_name w id in ground arith

  get_veth_info-Spares :
      (netns name : Text) → Spares (get_veth_info h ipam_config multitenant netns name)
  unfolding get_veth_info first_address
  get_veth_info-Spares netns name w =
      let w1 = (h.open_netns netns w).0 in
      let s1 = l.by_open netns w id in
      let w2 = (h.enter_netns netns w1).0 in
      let s2 = l.by_enter netns w1 id in
      let w3 = (h.link_by_name (some netns) name w2).0 in
      let s3 = l.by_name (some netns) name w2 id in
      elim (Result-cases (h.link_by_name (some netns) name w2).1) [
        | inr (e, failed) ↦ ground (arith, failed)
        | inl (veth, found) ↦
            let w4 = (h.addr_list netns veth w3).0 in
            let s4 = l.by_addr_list netns veth w3 id in
            let s5 = l.by_index none veth.parent_index w4 id in
            elim (Result-cases (h.addr_list netns veth w3).1) [
              | inr (e, failed) ↦ ground (arith, found, failed)
              | inl ([], listed) ↦ ground (arith, found, listed)
              | inl (ip ∷ addrs, listed) ↦ ground (arith, found, listed)
            ]
      ]

  run_script-Spares :
      (args : List Text) (failure : Error)
      → Spares (run_script h ipam_config multitenant mtu args failure)
  unfolding run_script
  run_script-Spares args failure w = l.by_command sdn_script args w id

  -- The configuration of the interfaces, from the two ends of the link on.
  configure_container-Spares :
      (req : PodRequest) (ip4 : Ip4)
      → Spares (configure_container h ipam_config multitenant mtu req ip4)
  unfolding configure_container
  configure_container-Spares req ip4 w =
      let ns = req.netns in
      let w1 = (h.open_netns ns w).0 in
      let s1 = l.by_open ns w id in
      let w2 = (h.enter_netns ns w1).0 in
      let s2 = l.by_enter ns w1 id in
      let w3 = (h.setup_veth ns pod_interface_name mtu w2).0 in
      let s3 = l.by_setup_veth ns pod_interface_name mtu w2 id in
      elim (Result-cases (h.setup_veth ns pod_interface_name mtu w2).1) [
        | inr (e, failed) ↦ ground (arith, failed)
        | inl (veths, made) ↦
            let w4 = (h.link_by_index (some ns) veths.1.index w3).0 in
            let s4 = l.by_index (some ns) veths.1.index w3 id in
            let plain : Ip4 = record ip4 { gateway = none } in
            let w5 = (h.configure_iface ns pod_interface_name plain w4).0 in
            let s5 = l.by_configure ns pod_interface_name plain w4 id in
            let w6 = (h.link_by_name (some ns) (codes "lo") w5).0 in
            let s6 = l.by_name (some ns) (codes "lo") w5 id in
            elim (Result-cases (h.link_by_name (some ns) (codes "lo") w5).1) [
              | inr (e, failed) ↦ ground (arith, made, failed)
              | inl (lo, found) ↦ let s7 = l.by_set_up ns lo w6 id in ground (arith, made, found)
            ]
      ]

  pub attach_pod-Spares :
      (req : PodRequest) (config : PodConfig) (ip4 : Ip4)
      → Spares (attach_pod h ipam_config multitenant mtu req config ip4)
  unfolding attach_pod
  attach_pod-Spares req config ip4 =
      let message_of = message "error running network setup script" in
      let args = λ (v : Link × Link).
        script_args h ipam_config multitenant mtu (codes "setup")
          (v.0.name, (v.1.hardware_addr, ip4.ip)) config in
      let script =
        λ (v : Link × Link). run_script h ipam_config multitenant mtu (args v) message_of in
      let answer : Action W Ip4 = pure (record ip4 { gateway = none }) in
      >>=-Spares (configure_container h ipam_config multitenant mtu req ip4)
        (λ v. script v >> answer) (configure_container-Spares req ip4)
        (λ v.
          >>=-Spares (script v) (λ _. answer) (run_script-Spares (args v) message_of) (λ _ w. refl))

  pub detach_pod-Spares : (req : PodRequest) → Spares (detach_pod h ipam_config multitenant mtu req)
  unfolding detach_pod
  detach_pod-Spares req =
      >>=-Spares (get_veth_info h ipam_config multitenant req.netns pod_interface_name)
        (λ (v : Text × (Text × Text)).
          run_script h ipam_config multitenant mtu
            (codes "teardown" ∷ v.0 ∷ v.1.0 ∷ v.1.1 ∷ codes "-1" ∷ [])
            (message "error running network teardown script"))
        (get_veth_info-Spares req.netns pod_interface_name)
        (λ v. run_script-Spares _ (message "error running network teardown script"))

  netns_of-Spares :
      (req : PodRequest) (netns : Text) → Spares (netns_of h ipam_config multitenant mtu req netns)
  unfolding netns_of get_container_netns_path
  netns_of-Spares req [] w = let s1 = l.by_inspect req.container_id w id in ground arith
  netns_of-Spares req (c ∷ netns) w = refl

  pub update-Spares :
      (z : StringSets) (vnids : NodeVnidMap z) (req : PodRequest)
      → Spares (update h ipam_config multitenant mtu z vnids req)
  unfolding update
  update-Spares z vnids req =
      let message_of = message "error running network update script" in
      let veth =
        λ (netns : Text). get_veth_info h ipam_config multitenant netns pod_interface_name in
      let script = λ (config : PodConfig) (v : Text × (Text × Text)).
        run_script h ipam_config multitenant mtu
          (script_args h ipam_config multitenant mtu (codes "update") v config) message_of in
      let read = get_pod_config h ipam_config multitenant z vnids req in
      >>=-Spares (netns_of h ipam_config multitenant mtu req req.netns)
        (λ netns. read >>= λ config. veth netns >>= script config) (netns_of-Spares req req.netns)
        (λ netns.
          >>=-Spares read (λ config. veth netns >>= script config)
            (get_pod_config-Spares z vnids req)
            (λ config.
              >>=-Spares (veth netns) (script config)
                (get_veth_info-Spares netns pod_interface_name)
                (λ v. run_script-Spares _ message_of)))
