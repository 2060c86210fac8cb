-- ===== src/Pods/Leases/Release.antt =====
-- ksdn/pod_linux.go: `teardown`, and what `setup` and `teardown` do to the other containers.
use k8s_ovs.Base.{ℕ, ◌≡◌, ◌≢◌, inl, inr, Bool, message, [], Text, arith, Result-cases}
use k8s_ovs.Base.Actions.{Action, ◌>>=◌, ◌>>◌, or_else, unless_ok}
use k8s_ovs.NodeVnids.{NodeVnidMap}
use k8s_ovs.NodeVnids.Sets.{StringSets}
use k8s_ovs.Pods.{
  PodConfig, PodRequest, Ip4, PodHost, NsState, is_ns, path_not_exist, other_error, cni_del,
}
use k8s_ovs.Pods.Config.{get_pod_config, create_ipam_args, ipam_add, ipam_del}
use k8s_ovs.Pods.Handler.{attach_pod, detach_pod, setup, teardown_in, teardown}
use k8s_ovs.Pods.Leases.{IsLeasing}
use k8s_ovs.Pods.Leases.Outcome.{AfterTeardown, ipam_add_other, ipam_del-AfterTeardown}
use k8s_ovs.Pods.Leases.Steps.{
  Spares, >>=-Spares, get_pod_config-Spares, attach_pod-Spares, detach_pod-Spares,
}

module _ {W : Type 0} {h : PodHost W} {has_lease : W → Text → Bool} (l : IsLeasing h has_lease)
    (ipam_config : Text) (multitenant : Bool) (mtu : ℕ) where
  detach_then_release :
      (id : Text) (m : Action W (Unit {0})) (w : W)
      → has_lease (m w).0 id ≡ has_lease w id
      → AfterTeardown h has_lease ipam_config multitenant w id
          ((m >> ipam_del h ipam_config multitenant id) w)
  detach_then_release id m w same =
      let after = ipam_del-AfterTeardown l ipam_config multitenant mtu id (m w).0 in
      elim (Result-cases (m w).1) [
        | inr (e, failed) ↦ ground (arith, failed, same)
        | inl (t, done) ↦ elim (Result-cases (ipam_del h ipam_config multitenant id (m w).0).1) [
          | inl (t', released) ↦ ground (arith, done, released, after)
          | inr (e, stuck) ↦ ground (arith, done, stuck, after, same)
        ]
      ]

  teardown_in-AfterTeardown :
      (s : NsState) (req : PodRequest) (w : W)
      → AfterTeardown h has_lease ipam_config multitenant w req.container_id
          (teardown_in h ipam_config multitenant mtu s req w)
  unfolding teardown_in
  teardown_in-AfterTeardown path_not_exist req w =
      ipam_del-AfterTeardown l ipam_config multitenant mtu req.container_id w
  teardown_in-AfterTeardown is_ns req w =
      detach_then_release req.container_id (detach_pod h ipam_config multitenant mtu req) w
        (detach_pod-Spares l ipam_config multitenant mtu req.container_id req w)
  teardown_in-AfterTeardown other_error req w =
      detach_then_release req.container_id (detach_pod h ipam_config multitenant mtu req) w
        (detach_pod-Spares l ipam_config multitenant mtu req.container_id req w)

  -- If `teardown` succeeds, the container has no address. If it fails, the container has one
  -- exactly if it had one before.
  pub teardown-AfterTeardown :
      (req : PodRequest) (w : W)
      → AfterTeardown h has_lease ipam_config multitenant w req.container_id
          (teardown h ipam_config multitenant mtu req w)
  unfolding teardown
  teardown-AfterTeardown req w = teardown_in-AfterTeardown (h.is_ns_or_err req.netns w) req w

  module _ (other : Text) where
    ipam_del_other :
        (id : Text)
        → id ≢ other
        → Spares l ipam_config multitenant mtu other (ipam_del h ipam_config multitenant id)
    unfolding ipam_del
    ipam_del_other id ne w = l.del_other ipam_config (create_ipam_args [] cni_del id) w other ne

    unless_ok_other :
        (m : Action W Ip4) (id : Text)
        → id ≢ other
        → Spares l ipam_config multitenant mtu other m
        → Spares l ipam_config multitenant mtu other
            (unless_ok (ipam_del h ipam_config multitenant id) m)
    unless_ok_other m id ne same w =
        let released = ipam_del_other id ne (m w).0 in
        elim (Result-cases (m w).1) [
          | inl (r, done) ↦ ground (arith, done, same w)
          | inr (e, failed) ↦ ground (arith, failed, same w, released)
        ]

    -- A set-up changes no address but that of its container.
    pub setup_other :
        (z : StringSets) (vnids : NodeVnidMap z) (req : PodRequest)
        → req.container_id ≢ other
        → Spares l ipam_config multitenant mtu other
            (setup h ipam_config multitenant mtu z vnids req)
    unfolding setup
    setup_other z vnids req ne =
        let id = req.container_id in
        let add =
          or_else (ipam_add h ipam_config multitenant req.netns id)
            (message "failed to run IPAM") in
        let attach = λ (config : PodConfig) (ip4 : Ip4).
          unless_ok (ipam_del h ipam_config multitenant id)
            (attach_pod h ipam_config multitenant mtu req config ip4) in
        >>=-Spares l ipam_config multitenant mtu other
          (get_pod_config h ipam_config multitenant z vnids req) (λ config. add >>= attach config)
          (get_pod_config-Spares l ipam_config multitenant mtu other z vnids req)
          (λ config.
            >>=-Spares l ipam_config multitenant mtu other add (attach config)
              (λ w. ipam_add_other l ipam_config multitenant mtu req.netns id w other ne)
              (λ ip4.
                unless_ok_other (attach_pod h ipam_config multitenant mtu req config ip4) id ne
                  (attach_pod-Spares l ipam_config multitenant mtu other req config ip4)))

    detach_other :
        (req : PodRequest)
        → req.container_id ≢ other
        → Spares l ipam_config multitenant mtu other (
            detach_pod h ipam_config multitenant mtu req
            >> ipam_del h ipam_config multitenant req.container_id)
    detach_other req ne =
        >>=-Spares l ipam_config multitenant mtu other
          (detach_pod h ipam_config multitenant mtu req)
          (λ _. ipam_del h ipam_config multitenant req.container_id)
          (detach_pod-Spares l ipam_config multitenant mtu other req)
          (λ _. ipam_del_other req.container_id ne)

    teardown_in_other :
        (s : NsState) (req : PodRequest)
        → req.container_id ≢ other
        → Spares l ipam_config multitenant mtu other
            (teardown_in h ipam_config multitenant mtu s req)
    unfolding teardown_in
    teardown_in_other path_not_exist req ne = ipam_del_other req.container_id ne
    teardown_in_other is_ns req ne = detach_other req ne
    teardown_in_other other_error req ne = detach_other req ne

    pub teardown_other :
        (req : PodRequest)
        → req.container_id ≢ other
        → Spares l ipam_config multitenant mtu other (teardown h ipam_config multitenant mtu req)
    unfolding teardown
    teardown_other req ne w = teardown_in_other (h.is_ns_or_err req.netns w) req ne w
