-- ===== src/Pods/Leases/Outcome.antt =====
-- ksdn/pod_linux.go, `setup` and `teardown`: the address of the container when they end.
use mathlib.Core.Path.{subst}
use k8s_ovs.Base.{
  ap, sym, ℕ, ◌≡◌, ◌≢◌, refl, ◌∙◌, inl, inr, ◌⊎◌, Bool, true, false, Result, ok, err, Error,
  message, none, some, [], ◌∷◌, Text, arith, Result-cases,
}
use k8s_ovs.Base.Actions.{Action, ◌>>=◌, or_else, unless_ok, >>=-ok, >>=-err}
use k8s_ovs.NodeVnids.{NodeVnidMap}
use k8s_ovs.NodeVnids.Sets.{StringSets}
use k8s_ovs.Pods.{PodConfig, PodRequest, Ip4, PodHost, host_local, cni_add, cni_del}
use k8s_ovs.Pods.Config.{get_pod_config, create_ipam_args, ipam_add, ipam_del}
use k8s_ovs.Pods.Handler.{attach_pod, setup}
use k8s_ovs.Pods.Leases.{IsLeasing}
use k8s_ovs.Pods.Leases.Steps.{get_pod_config-Spares, attach_pod-Spares}

module _ {W : Type 0} (h : PodHost W) (has_lease : W → Text → Bool) (ipam_config : Text)
    (multitenant : Bool) where
  -- The plugin failed to release the address of a container, and that was the last thing that
  -- happened: it was called in the world `v`, and left the world `w'`.
  abbrev pub FailsToRelease : Text → W → W → Type 0
  FailsToRelease id v w' = (e : Error) × (ipam_del h ipam_config multitenant id v ≡ (w', err e))

  abbrev pub AfterTeardown : W → Text → W × Result (Unit {0}) → Type 0
  AfterTeardown w id (w', ok _) = has_lease w' id ≡ false
  AfterTeardown w id (w', err e) = has_lease w' id ≡ has_lease w id

module _ {W : Type 0} (h : PodHost W) (has_lease : W → Text → Bool) (ipam_config : Text)
    (multitenant : Bool) (mtu : ℕ) where
  -- What a series of steps has done to the address of a container: `m2` follows `m1`, which gets the
  -- address, and a failure of it releases the address again.
  abbrev AfterSteps : W → Text → Action W Ip4 → (Ip4 → Action W Ip4) → W → W × Result Ip4 → Type 0
  AfterSteps w id m1 m2 w1 (w', ok ip4) = has_lease w' id ≡ true
  AfterSteps w id m1 m2 w1 (w', err e) =
      (has_lease w' id ≡ has_lease w id)
      ⊎ ((has_lease w' id ≡ false)
          ⊎ ((ip4 : Ip4) × ((m1 w1).1 ≡ ok ip4)
              × ((c : Error) × ((m2 ip4 (m1 w1).0).1 ≡ err c)
                  × FailsToRelease h has_lease ipam_config multitenant id (m2 ip4 (m1 w1).0).0 w')))

  -- The release in this run of `setup` failed: the configuration of the pod was read, the plugin gave
  -- an address, and the release that followed the failure of a later step left the world `w'`.
  abbrev pub FailedRelease : (z : StringSets) → NodeVnidMap z → PodRequest → W → W → Type 0
  FailedRelease z vnids req w w' =
      let read = get_pod_config h ipam_config multitenant z vnids req w in
      let added = ipam_add h ipam_config multitenant req.netns req.container_id read.0 in
      (config : PodConfig) × (read.1 ≡ ok config)
      × ((ip4 : Ip4) × (added.1 ≡ ok ip4)
          × (let attached = attach_pod h ipam_config multitenant mtu req config ip4 added.0 in
              (c : Error) × (attached.1 ≡ err c)
              × FailsToRelease h has_lease ipam_config multitenant req.container_id attached.0 w'))

  -- What a run of `setup` has done to the address of its container.
  abbrev pub AfterSetup :
      (z : StringSets) → NodeVnidMap z → PodRequest → W → W × Result Ip4 → Type 0
  AfterSetup z vnids req w (w', ok ip4) = has_lease w' req.container_id ≡ true
  AfterSetup z vnids req w (w', err e) =
      (has_lease w' req.container_id ≡ has_lease w req.container_id)
      ⊎ ((has_lease w' req.container_id ≡ false) ⊎ FailedRelease z vnids req w w')

module _ {W : Type 0} {h : PodHost W} {has_lease : W → Text → Bool} (l : IsLeasing h has_lease)
    (ipam_config : Text) (multitenant : Bool) (mtu : ℕ) where
  ipam_add_ok :
      (netns id : Text) (w : W) (ip4 : Ip4)
      → (ipam_add h ipam_config multitenant netns id w).1 ≡ ok ip4
      → has_lease (ipam_add h ipam_config multitenant netns id w).0 id ≡ true
  unfolding ipam_add
  ipam_add_ok [] id w ip4 e = ground (arith, e)
  ipam_add_ok (c ∷ netns) id w ip4 e =
      let args = create_ipam_args (c ∷ netns) cni_add id in
      elim (Result-cases (h.exec_plugin_with_result host_local ipam_config args w).1) [
        | inl (none, ran) ↦ absurd (l.add_answers ipam_config args w ran)
        | inl (some r, ran) ↦ ground (arith, ran, l.add_ok ipam_config args w (some r) ran)
        | inr (d, failed) ↦ ground (arith, failed, e)
      ]

  ipam_add_failed :
      (netns id : Text) (w : W) (e : Error) (other : Text)
      → (ipam_add h ipam_config multitenant netns id w).1 ≡ err e
      → has_lease (ipam_add h ipam_config multitenant netns id w).0 other ≡ has_lease w other
  unfolding ipam_add
  ipam_add_failed [] id w e other failed = refl
  ipam_add_failed (c ∷ netns) id w e other refused =
      let args = create_ipam_args (c ∷ netns) cni_add id in
      elim (Result-cases (h.exec_plugin_with_result host_local ipam_config args w).1) [
        | inl (none, ran) ↦ absurd (l.add_answers ipam_config args w ran)
        | inl (some r, ran) ↦ ground (arith, ran, refused)
        | inr (d, failed) ↦ ground (arith, failed, l.add_failed ipam_config args w d other failed)
      ]

  pub ipam_add_other :
      (netns id : Text) (w : W) (other : Text)
      → id ≢ other
      → has_lease (ipam_add h ipam_config multitenant netns id w).0 other ≡ has_lease w other
  unfolding ipam_add
  ipam_add_other [] id w other ne = refl
  ipam_add_other (c ∷ netns) id w other ne =
      let args = create_ipam_args (c ∷ netns) cni_add id in
      elim (Result-cases (h.exec_plugin_with_result host_local ipam_config args w).1) [
        | inl (none, ran) ↦ absurd (l.add_answers ipam_config args w ran)
        | inl (some r, ran) ↦ ground (arith, ran, l.add_other ipam_config args w other ne)
        | inr (d, failed) ↦ ground (arith, failed, l.add_failed ipam_config args w d other failed)
      ]

  pub ipam_del-AfterTeardown :
      (id : Text) (w : W)
      → AfterTeardown h has_lease ipam_config multitenant w id
          (ipam_del h ipam_config multitenant id w)
  unfolding ipam_del
  ipam_del-AfterTeardown id w =
      let args = create_ipam_args [] cni_del id in
      elim (Result-cases (h.exec_plugin_without_result host_local ipam_config args w).1) [
        | inl (t, ran) ↦ ground (arith, ran, l.del_ok ipam_config args w ran)
        | inr (e, failed) ↦ ground (arith, failed, l.del_failed ipam_config args w e id failed)
      ]

  -- The steps of `setup` after the lookups, by what they do to the address.
  unless_ok-AfterSteps :
      (id : Text) (m1 : Action W Ip4) (m2 : Ip4 → Action W Ip4) (ip4 : Ip4) (w1 w0 : W)
      → (m1 w1).1 ≡ ok ip4
      → ((v : W) → has_lease (m2 ip4 v).0 id ≡ has_lease v id)
      → has_lease (m1 w1).0 id ≡ true
      → AfterSteps h has_lease ipam_config multitenant mtu w0 id m1 m2 w1
          (unless_ok (ipam_del h ipam_config multitenant id) (m2 ip4) (m1 w1).0)
  unless_ok-AfterSteps id m1 m2 ip4 w1 w0 got same leased =
      let release = ipam_del h ipam_config multitenant id in
      let m = m2 ip4 in
      let w = (m1 w1).0 in
      let after = ipam_del-AfterTeardown id (m w).0 in
      elim (Result-cases (m w).1) [
        | inl (r, done) ↦ ground (arith, done, same w, leased)
        | inr (e, failed) ↦ elim (Result-cases (release (m w).0).1) [
          | inl (t, released) ↦ ground (arith, failed, released, after)
          | inr (d, stuck) ↦
              let last : release (m w).0 ≡ ((release (m w).0).0, err d) =
                ap (λ r. ((release (m w).0).0, r)) stuck in
              rw (unless_ok, failed) (inr (inr (ip4, got, (e, failed, (d, last)))))
        ]
      ]

  steps-AfterSteps :
      (id : Text) (m1 : Action W Ip4) (m2 : Ip4 → Action W Ip4) (failure : Error)
      → ((w : W) (ip4 : Ip4) → (m1 w).1 ≡ ok ip4 → has_lease (m1 w).0 id ≡ true)
      → ((w : W) (e : Error) → (m1 w).1 ≡ err e → has_lease (m1 w).0 id ≡ has_lease w id)
      → ((ip4 : Ip4) (w : W) → has_lease (m2 ip4 w).0 id ≡ has_lease w id)
      → (w w0 : W) → has_lease w id ≡ has_lease w0 id
      → AfterSteps h has_lease ipam_config multitenant mtu w0 id m1 m2 w (
          (or_else m1 failure >>= λ ip4. unless_ok (ipam_del h ipam_config multitenant id) (m2 ip4))
            w)
  steps-AfterSteps id m1 m2 failure added refused same w w0 before =
      let after = AfterSteps h has_lease ipam_config multitenant mtu w0 id m1 m2 w in
      let rest = λ (ip4 : Ip4). unless_ok (ipam_del h ipam_config multitenant id) (m2 ip4) in
      elim (Result-cases (m1 w).1) [
        | inr (e, failed) ↦
            subst after (sym (>>=-err (or_else m1 failure) rest w failure (ground (arith, failed))))
              (inl (refused w e failed ∙ before))
        | inl (ip4, got) ↦
            subst after (sym (>>=-ok (or_else m1 failure) rest w ip4 (ground (arith, got))))
              (unless_ok-AfterSteps id m1 m2 ip4 w w0 got (same ip4) (added w ip4 got))
      ]

  AfterSteps-AfterSetup :
      (z : StringSets) (vnids : NodeVnidMap z) (req : PodRequest) (w : W) (config : PodConfig)
      → let read = get_pod_config h ipam_config multitenant z vnids req w in
        read.1 ≡ ok config
        → (s : W × Result Ip4)
        → AfterSteps h has_lease ipam_config multitenant mtu w req.container_id
            (ipam_add h ipam_config multitenant req.netns req.container_id)
            (λ ip4. attach_pod h ipam_config multitenant mtu req config ip4)
            read.0
            s
        → AfterSetup h has_lease ipam_config multitenant mtu z vnids req w s
  AfterSteps-AfterSetup z vnids req w config is (w', ok ip4) a = a
  AfterSteps-AfterSetup z vnids req w config is (w', err e) (inl same) = inl same
  AfterSteps-AfterSetup z vnids req w config is (w', err e) (inr (inl freed)) = inr (inl freed)
  AfterSteps-AfterSetup z vnids req w config is (w', err e) (inr (inr stuck)) =
      inr (inr (config, is, stuck))

  -- If `setup` succeeds, the container has an address. If it fails, the container has one exactly
  -- if it had one before, or it has none, or this run got an address from the plugin, failed in a
  -- later step, and ended with the plugin's failure to release the address.
  pub setup-AfterSetup :
      (z : StringSets) (vnids : NodeVnidMap z) (req : PodRequest) (w : W)
      → AfterSetup h has_lease ipam_config multitenant mtu z vnids req w
          (setup h ipam_config multitenant mtu z vnids req w)
  unfolding setup
  setup-AfterSetup z vnids req w =
      let id = req.container_id in
      let m1 = get_pod_config h ipam_config multitenant z vnids req in
      let s1 = get_pod_config-Spares l ipam_config multitenant mtu id z vnids req w in
      let rest = λ (config : PodConfig).
        or_else (ipam_add h ipam_config multitenant req.netns id) (message "failed to run IPAM")
        >>= λ ip4.
            unless_ok (ipam_del h ipam_config multitenant id)
              (attach_pod h ipam_config multitenant mtu req config ip4) in
      let after = AfterSetup h has_lease ipam_config multitenant mtu z vnids req w in
      elim (Result-cases (m1 w).1) [
        | inr (e, failed) ↦ subst after (sym (>>=-err m1 rest w e failed)) (inl s1)
        | inl (config, read) ↦ subst after (sym (>>=-ok m1 rest w config read)) (
            AfterSteps-AfterSetup z vnids req w config read (rest config (m1 w).0) (
              steps-AfterSteps id (ipam_add h ipam_config multitenant req.netns id)
                (λ ip4. attach_pod h ipam_config multitenant mtu req config ip4)
                (message "failed to run IPAM") (ipam_add_ok req.netns id)
                (λ v e. ipam_add_failed req.netns id v e id)
                (λ ip4. attach_pod-Spares l ipam_config multitenant mtu id req config ip4) (m1 w).0
                w s1))
      ]
