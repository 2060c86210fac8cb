-- ===== src/Pods/Requests.antt =====
-- ksdn/pod.go, lines 115 to 172: the requests of the CNI server, one after the other.
use k8s_ovs.Base.{
  ℕ, Bool, Result, ok, err, Error, message, Option, none, some, List, [], ◌∷◌, ◌++◌, Text, codes,
  text_dec, ite, if_pos, if_neg, ◌≡◌, ◌≢◌, ◌∙◌,
}
use k8s_ovs.Base.Actions.{Action}
use k8s_ovs.NodeVnids.{NodeVnidMap}
use k8s_ovs.NodeVnids.Sets.{StringSets}
use k8s_ovs.Pods.{PodRequest, PodResult, Ip4, PodHost, cni_add, cni_update, cni_del}
use k8s_ovs.Pods.Handler.{setup, update, teardown}

unfoldable pub get_pod_key : PodRequest → Text
get_pod_key request = request.pod_namespace ++ (codes "/" ++ request.pod_name)

abbrev pub error_of : {A : Type 0} → Result A → Option Error
error_of (ok _) = none
error_of (err e) = some e

module _ {W : Type 0} (h : PodHost W) (ipam_config : Text) (multitenant : Bool) (mtu : ℕ)
    (z : StringSets) where
  -- The answer to an ADD: an error of the encoding replaces that of the set-up, which then has none.
  unfoldable pub add_result : Result Ip4 → PodResult
  add_result (err e) = record { response = []; error = some e }
  add_result (ok ip4) = elim (h.marshal ip4) [
    | ok response ↦ record { response = response; error = none }
    | err e ↦ record { response = []; error = some e }
  ]

  -- One round of `processCNIRequests`, with the VNIDs as it finds them.
  unfoldable pub process_request : NodeVnidMap z → PodRequest → W → W × PodResult
  unfolding text_dec add_result setup update teardown
  process_request vnids request w =
      let (w_add, added) = setup h ipam_config multitenant mtu z vnids request w in
      let (w_update, updated) = update h ipam_config multitenant mtu z vnids request w in
      let (w_del, deleted) = teardown h ipam_config multitenant mtu request w in
      ite (text_dec request.command cni_add) (w_add, add_result added)
        (ite (text_dec request.command cni_update)
          (w_update, record { response = []; error = error_of updated })
          (ite (text_dec request.command cni_del)
            (w_del, record { response = []; error = error_of deleted })
            (w, record { response = []; error = some (message "unhandled CNI request") })))

  module _ (vnids : NodeVnidMap z) (req : PodRequest) (w : W) where
    pub process_request_add :
        req.command ≡ cni_add
        → process_request vnids req w ≡ (
          (setup h ipam_config multitenant mtu z vnids req w).0,
          add_result (setup h ipam_config multitenant mtu z vnids req w).1,
        )
    unfolding process_request
    process_request_add p = if_pos (text_dec req.command cni_add) p _ _

    pub process_request_update :
        req.command ≢ cni_add
        → req.command ≡ cni_update
        → process_request vnids req w ≡ (
          (update h ipam_config multitenant mtu z vnids req w).0,
          record {
            response = [];
            error = error_of (update h ipam_config multitenant mtu z vnids req w).1;
          },
        )
    unfolding process_request
    process_request_update n p =
        if_neg (text_dec req.command cni_add) n _ _ ∙ if_pos (text_dec req.command cni_update) p _ _

    pub process_request_del :
        req.command ≢ cni_add
        → req.command ≢ cni_update
        → req.command ≡ cni_del
        → process_request vnids req w ≡ (
          (teardown h ipam_config multitenant mtu req w).0,
          record {
            response = [];
            error = error_of (teardown h ipam_config multitenant mtu req w).1;
          },
        )
    unfolding process_request
    process_request_del n m p =
        if_neg (text_dec req.command cni_add) n _ _
        ∙ if_neg (text_dec req.command cni_update) m _ _
        ∙ if_pos (text_dec req.command cni_del) p _ _

    pub process_request_other :
        req.command ≢ cni_add
        → req.command ≢ cni_update
        → req.command ≢ cni_del
        → process_request vnids req w
          ≡ (w, record { response = []; error = some (message "unhandled CNI request") })
    unfolding process_request
    process_request_other n m d =
        if_neg (text_dec req.command cni_add) n _ _
        ∙ if_neg (text_dec req.command cni_update) m _ _
        ∙ if_neg (text_dec req.command cni_del) d _ _

  -- `handleCNIRequest`: a request, and its result.
  unfoldable pub handle_cni_request : NodeVnidMap z → PodRequest → Action W Text
  unfolding process_request
  handle_cni_request vnids request w =
      let (w', result) = process_request vnids request w in
      (w', elim result.error [ some e ↦ err e | none ↦ ok result.response ])

  -- `processCNIRequests`: the results, in the order of the requests.
  unfoldable pub process_cni_requests : List (NodeVnidMap z × PodRequest) → W → W × List PodResult
  unfolding process_request
  process_cni_requests [] w = (w, [])
  process_cni_requests ((vnids, request) ∷ requests) w =
      let (w', result) = process_request vnids request w in
      let (w'', results) = process_cni_requests requests w' in (w'', result ∷ results)
