-- ===== src/Pods/Leases/History.antt =====
-- ksdn/pod.go, `processCNIRequests`: the addresses after a series of requests.
use mathlib.Core.Path.{subst}
use k8s_ovs.Base.{
  ap, sym, ℕ, ◌≡◌, ◌≢◌, ◌∙◌, inl, inr, ◌⊎◌, Bool, false, Result, ok, err, none, List, [], ◌∷◌, Text,
  text_dec, arith,
}
use k8s_ovs.NodeVnids.{NodeVnidMap}
use k8s_ovs.NodeVnids.Sets.{StringSets}
use k8s_ovs.Pods.{PodRequest, PodResult, Ip4, PodHost, cni_add, cni_update, cni_del}
use k8s_ovs.Pods.Handler.{setup, teardown}
use k8s_ovs.Pods.Requests.{
  process_request_add, process_request_update, process_request_del, process_request_other,
  add_result, process_request, process_cni_requests,
}
use k8s_ovs.Pods.Leases.{IsLeasing}
use k8s_ovs.Pods.Leases.Outcome.{FailedRelease, AfterSetup, AfterTeardown, setup-AfterSetup}
use k8s_ovs.Pods.Leases.Release.{teardown-AfterTeardown, setup_other, teardown_other}
use k8s_ovs.Pods.Leases.Steps.{update-Spares}

module _ {W : Type 0} (h : PodHost W) (ipam_config : Text) (multitenant : Bool) (mtu : ℕ)
    (z : StringSets) (id : Text) where
  -- Every ADD for the container was answered with an error.
  abbrev pub AllAddsFailed : List (NodeVnidMap z × PodRequest) → W → Type 0
  AllAddsFailed [] w = Unit {0}
  AllAddsFailed ((vnids, req) ∷ requests) w =
      (req.container_id ≡ id
        → req.command ≡ cni_add
        → (process_request h ipam_config multitenant mtu z vnids req w).1.error ≢ none)
      × AllAddsFailed requests (process_request h ipam_config multitenant mtu z vnids req w).0

  -- In one of the requests, an ADD for the container, `setup` failed and so did its release.
  abbrev pub SomeReleaseFailed : (W → Text → Bool) → List (NodeVnidMap z × PodRequest) → W → Type 0
  SomeReleaseFailed has_lease [] w = ⊥
  SomeReleaseFailed has_lease ((vnids, req) ∷ requests) w =
      ((req.container_id ≡ id)
        × (req.command ≡ cni_add)
        × FailedRelease h has_lease ipam_config multitenant mtu z vnids req w
            (setup h ipam_config multitenant mtu z vnids req w).0)
      ⊎ SomeReleaseFailed has_lease requests
          (process_request h ipam_config multitenant mtu z vnids req w).0

module _ {W : Type 0} {h : PodHost W} {has_lease : W → Text → Bool} (l : IsLeasing h has_lease)
    (ipam_config : Text) (multitenant : Bool) (mtu : ℕ) (z : StringSets) (id : Text)
    (encodes : (ip4 : Ip4) → (t : Text) × (h.marshal ip4 ≡ ok t)) where
  AfterSetup-free :
      (vnids : NodeVnidMap z) (req : PodRequest) (w : W) (s : W × Result Ip4)
      → AfterSetup h has_lease ipam_config multitenant mtu z vnids req w s
      → has_lease w req.container_id ≡ false
      → (add_result h ipam_config multitenant mtu z s.1).error ≢ none
      → (has_lease s.0 req.container_id ≡ false)
        ⊎ FailedRelease h has_lease ipam_config multitenant mtu z vnids req w s.0
  unfolding add_result
  AfterSetup-free vnids req w (w', ok ip4) after free failed =
      absurd (ground (arith, failed, (encodes ip4).1))
  AfterSetup-free vnids req w (w', err e) (inl same) free failed = inl (same ∙ free)
  AfterSetup-free vnids req w (w', err e) (inr (inl freed)) free failed = inl freed
  AfterSetup-free vnids req w (w', err e) (inr (inr stuck)) free failed = inr stuck

  setup-free :
      (vnids : NodeVnidMap z) (req : PodRequest) (w : W)
      → has_lease w id ≡ false
      → (req.container_id ≡ id
          → (add_result h ipam_config multitenant mtu z
              (setup h ipam_config multitenant mtu z vnids req w).1).error
            ≢ none)
      → (has_lease (setup h ipam_config multitenant mtu z vnids req w).0 id ≡ false)
        ⊎ ((req.container_id ≡ id)
            × FailedRelease h has_lease ipam_config multitenant mtu z vnids req w
                (setup h ipam_config multitenant mtu z vnids req w).0)
  setup-free vnids req w free failed = elim (text_dec req.container_id id) [
    | no ne ↦ inl (setup_other l ipam_config multitenant mtu id z vnids req ne w ∙ free)
    | yes same ↦
        let s = setup h ipam_config multitenant mtu z vnids req w in
        let free' : has_lease w req.container_id ≡ false =
          ap (λ (i : Text). has_lease w i) same ∙ free in
        let after = setup-AfterSetup l ipam_config multitenant mtu z vnids req w in
        elim (AfterSetup-free vnids req w s after free' (failed same)) [
          | inl freed ↦ inl (ap (λ (i : Text). has_lease s.0 i) (sym same) ∙ freed)
          | inr stuck ↦ inr (same, stuck)
        ]
  ]

  AfterTeardown-free :
      (w : W) (s : W × Result (Unit {0}))
      → AfterTeardown h has_lease ipam_config multitenant w id s
      → has_lease w id ≡ false
      → has_lease s.0 id ≡ false
  AfterTeardown-free w (w', ok t) after free = after
  AfterTeardown-free w (w', err e) after free = after ∙ free

  teardown-free :
      (req : PodRequest) (w : W)
      → has_lease w id ≡ false
      → has_lease (teardown h ipam_config multitenant mtu req w).0 id ≡ false
  teardown-free req w free = elim (text_dec req.container_id id) [
    | no ne ↦ teardown_other l ipam_config multitenant mtu id req ne w ∙ free
    | yes same ↦
        let s = teardown h ipam_config multitenant mtu req w in
        let after = λ (i : Text). AfterTeardown h has_lease ipam_config multitenant w i s in
        AfterTeardown-free w s
          (subst after same (teardown-AfterTeardown l ipam_config multitenant mtu req w)) free
  ]

  process_request-free :
      (vnids : NodeVnidMap z) (req : PodRequest) (w : W)
      → has_lease w id ≡ false
      → (req.container_id ≡ id
          → req.command ≡ cni_add
          → (process_request h ipam_config multitenant mtu z vnids req w).1.error ≢ none)
      → (has_lease (process_request h ipam_config multitenant mtu z vnids req w).0 id ≡ false)
        ⊎ ((req.container_id ≡ id)
            × (req.command ≡ cni_add)
            × FailedRelease h has_lease ipam_config multitenant mtu z vnids req w
                (setup h ipam_config multitenant mtu z vnids req w).0)
  process_request-free vnids req w free failed =
      let spared = update-Spares l ipam_config multitenant mtu id z vnids req w in
      let stays = λ (s : W × PodResult). has_lease s.0 id ≡ false in
      elim (text_dec req.command cni_add) [
        | yes p ↦
            let e = process_request_add h ipam_config multitenant mtu z vnids req w p in
            let failed' = λ (same : req.container_id ≡ id).
              subst (λ (s : W × PodResult). s.1.error ≢ none) e (failed same p) in
            elim (setup-free vnids req w free failed') [
              | inl still ↦ inl (subst stays (sym e) still)
              | inr (same, stuck) ↦ inr (same, p, stuck)
            ]
        | no not_add ↦ elim (text_dec req.command cni_update) [
          | yes q ↦ inl (
              subst stays
                (sym (process_request_update h ipam_config multitenant mtu z vnids req w not_add q))
                (spared ∙ free))
          | no not_update ↦ elim (text_dec req.command cni_del) [
            | yes r ↦ inl (
                subst stays
                  (sym (
                    process_request_del h ipam_config multitenant mtu z vnids req w not_add
                      not_update r))
                  (teardown-free req w free))
            | no not_del ↦ inl (
                subst stays
                  (sym (
                    process_request_other h ipam_config multitenant mtu z vnids req w not_add
                      not_update not_del))
                  free)
          ]
        ]
      ]

  -- After any series of requests in which every ADD for a container was answered with an error, a
  -- container that had no address before has none, unless in one of these ADDs the plugin gave an
  -- address and then failed to release it. The encoding of an address as JSON never fails here.
  pub process_cni_requests-free :
      (requests : List (NodeVnidMap z × PodRequest)) (w : W)
      → has_lease w id ≡ false
      → AllAddsFailed h ipam_config multitenant mtu z id requests w
      → (has_lease (process_cni_requests h ipam_config multitenant mtu z requests w).0 id ≡ false)
        ⊎ SomeReleaseFailed h ipam_config multitenant mtu z id has_lease requests w
  unfolding process_cni_requests
  process_cni_requests-free [] w free failed = inl free
  process_cni_requests-free ((vnids, req) ∷ requests) w free failed =
      elim (process_request-free vnids req w free failed.0) [
        | inr stuck ↦ inr (inl stuck)
        | inl still ↦ elim (process_cni_requests-free requests _ still failed.1) [
          | inl freed ↦ inl freed
          | inr stuck ↦ inr (inr stuck)
        ]
      ]
