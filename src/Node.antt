-- ===== src/Node.antt =====
-- ksdn/node.go: the pods of a node, and the sign that its network is ready.
pub mod Start
pub mod Laws
use k8s_ovs.Base.{
  Bool, true, false, Result, ok, err, Error, message, Option, List, [], ◌∷◌, Text, codes, text_dec,
  ite,
}
use k8s_ovs.Base.Actions.{Action}
use k8s_ovs.Pods.{PodRequest, cni_update}

-- A pod of the API server, by what the node uses of it: the ids of its containers are as the kubelet
-- reports them.
pub record KubePod : Type 0 where
  pub namespace : Text
  pub name : Text
  pub phase : Text
  pub container_ids : List Text

-- The client of the API server, and `kcontainer.ParseContainerID`, by the id without its scheme.
pub record PodClient (World : Type 0) : Type 0 where
  pub list_pods : Text → Text → Action World (List KubePod)
  pub parse_container_id : Text → Text

-- The filter of `GetLocalPods`: the running pods, and the others.
unfoldable pub filter_running : List KubePod → List KubePod × List KubePod
unfolding text_dec
filter_running [] = ([], [])
filter_running (pod ∷ pods) =
    let (run_pods, other_pods) = filter_running pods in
    ite (text_dec pod.phase (codes "Running")) (pod ∷ run_pods, other_pods)
      (run_pods, pod ∷ other_pods)

module _ {W : Type 0} (c : PodClient W) where
  -- `getPodContainerID`, ksdn/common.go.
  unfoldable pub get_pod_container_id : KubePod → Text
  get_pod_container_id pod = elim pod.container_ids [ [] ↦ [] | id ∷ ids ↦ c.parse_container_id id ]

  -- The request of `UpdatePod`.
  unfoldable pub update_request : KubePod → PodRequest
  unfolding get_pod_container_id
  update_request pod = record {
    command = cni_update;
    pod_namespace = pod.namespace;
    pod_name = pod.name;
    container_id = get_pod_container_id pod;
    netns = [];
  }

  unfoldable pub get_local_pods : Text → Text → Action W (List KubePod × List KubePod)
  unfolding filter_running
  get_local_pods host_name namespace w =
      let (w', answer) = c.list_pods namespace host_name w in
      (w', elim answer [ err e ↦ err e | ok items ↦ ok (filter_running items) ])
