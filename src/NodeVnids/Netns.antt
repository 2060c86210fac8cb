-- ===== src/NodeVnids/Netns.antt =====
-- ksdn/vnids_node.go, lines 154 to 220: how a node follows the net namespaces.
use k8s_ovs.Base.{
  ◌∙◌, ap, Bool-cases, ℕ, ◌≡◌, inl, inr, ite, Bool, ok, err, Option, none, some, List, [], ◌∷◌,
  Text, text_dec, lookup, if◌then◌else◌, ◌==◌, ==_iff, arith, refl, Option-cases,
}
use k8s_ovs.Etcd.{NetNamespace, Event, EventType, event_added, event_removed, event_other}
use k8s_ovs.Ovs.{Exec}
use k8s_ovs.Rules.{Service, add_service_rules, delete_service_rules}
use k8s_ovs.Vnid.{global_vnid}
use k8s_ovs.NodeVnids.{NodeVnidMap, get_vnid, set_vnid, unset_vnid}
use k8s_ovs.NodeVnids.Sets.{StringSets, SetLaws}
use k8s_ovs.NodeVnids.Invariant.{IsConsistent, set_vnid-IsConsistent}
use k8s_ovs.NodeVnids.Updates.{unset_vnid-IsConsistent}

-- The pods and services that the node reaches through the kubelet's and the API server's clients.
pub record Cluster (World : Type 0) : Type 1 where
  pub Pod : Type 0
  -- `GetLocalPods`: the running pods and the others of a namespace; an error is logged.
  pub get_local_pods : Text → World → World × (List Pod × List Pod)
  -- The list of services; an error is logged, and the list then empty.
  pub list_services : Text → World → World × List Service
  -- `UpdatePod`, and the deletion of a pod; errors are logged.
  pub update_pod : Pod → World → World
  pub delete_pod : Text → Pod → World → World
  -- `kapi.IsServiceIPSet`.
  pub is_service_ip_set : Service → Bool

-- A loop whose body only changes the world.
unfoldable pub for_each : {A W : Type 0} → (A → W → W) → List A → W → W
for_each body [] w = w
for_each body (a ∷ l) w = for_each body l (body a w)

module _ (x : Exec) (bridge : Text) (multitenant : Bool) (c : Cluster x.World) where
  unfoldable pub update_service_rules : ℕ → Service → x.World → x.World
  unfolding add_service_rules delete_service_rules
  update_service_rules net_id svc w =
      let deleted = (delete_service_rules x bridge multitenant svc w).0 in
      let added = (add_service_rules x bridge multitenant svc net_id deleted).0 in
      if c.is_service_ip_set svc then added else w

  unfoldable pub update_pod_network : Text → ℕ → ℕ → x.World → x.World
  unfolding for_each update_service_rules
  update_pod_network namespace old_net_id net_id w =
      let (w1, (run_pods, other_pods)) = c.get_local_pods namespace w in
      let (w2, services) = c.list_services namespace w1 in
      let w3 = for_each c.update_pod run_pods w2 in
      let w4 = for_each (c.delete_pod namespace) other_pods w3 in
      for_each (update_service_rules net_id) services w4

  module _ (z : StringSets) where
    -- One round of `nodeHandleNetnsEvent`; a failed `GetVNID` leaves the old id 0.
    unfoldable pub handle_netns :
        EventType → NetNamespace → NodeVnidMap z × x.World → NodeVnidMap z × x.World
    unfolding update_pod_network
    handle_netns event_added netns (m, w) = elim (get_vnid z m netns.net_name) [
      | err e ↦ (
        set_vnid z m netns.net_name netns.net_id,
        update_pod_network netns.net_name 0 netns.net_id w,
      )
      | ok old ↦
          let changed : NodeVnidMap z × x.World = (
            set_vnid z m netns.net_name netns.net_id,
            update_pod_network netns.net_name old netns.net_id w,
          ) in
          if old == netns.net_id then (m, w) else changed
    ]
    handle_netns event_removed netns (m, w) =
        let w' = update_pod_network netns.net_name netns.net_id global_vnid w in
        ((unset_vnid z m netns.net_name).0, w')
    handle_netns (event_other n) netns s = s

    unfoldable pub node_handle_netns_event :
        List Event → NodeVnidMap z × x.World → NodeVnidMap z × x.World
    unfolding handle_netns
    node_handle_netns_event [] s = s
    node_handle_netns_event (evt ∷ batch) s =
        node_handle_netns_event batch (handle_netns evt.type evt.net_ns s)

-- What an event says of the VNIDs.
abbrev pub tell : EventType → NetNamespace → (Text → Option ℕ) → Text → Option ℕ
tell event_added netns before name =
    ite (text_dec netns.net_name name) (some netns.net_id) (before name)
tell event_removed netns before name = ite (text_dec netns.net_name name) none (before name)
tell (event_other n) netns before name = before name

-- What a batch says of them.
abbrev pub told : List Event → (Text → Option ℕ) → Text → Option ℕ
told [] before name = before name
told (evt ∷ batch) before name = told batch (tell evt.type evt.net_ns before) name

told-cong :
    (batch : List Event) (f g : Text → Option ℕ) (name : Text)
    → ((n : Text) → f n ≡ g n)
    → told batch f name ≡ told batch g name
told-cong batch f g name e = ap (λ (h : Text → Option ℕ). told batch h name) (λ i n. e n i)

module _ (x : Exec) (bridge : Text) (multitenant : Bool) (c : Cluster x.World) {z : StringSets}
    (laws : SetLaws z) where
  -- The id that the map has for each namespace.
  abbrev pub ids_of : NodeVnidMap z × x.World → Text → Option ℕ
  ids_of (m, w) name = lookup text_dec name m.ids

  handle_netns-tell :
      (t : EventType) (netns : NetNamespace) (m : NodeVnidMap z) (w : x.World)
      → IsConsistent z m
      → let (m', w') = handle_netns x bridge multitenant c z t netns (m, w) in
        IsConsistent z m'
        × ((name : Text) → lookup text_dec name m'.ids ≡ tell t netns (ids_of (m, w)) name)
  unfolding handle_netns get_vnid
  handle_netns-tell event_added netns m w v =
      elim (Option-cases (lookup text_dec netns.net_name m.ids)) [
        | inl e ↦
            rw (handle_netns, get_vnid, e)
              (set_vnid-IsConsistent laws m netns.net_name netns.net_id v)
        | inr (old, e) ↦ elim (Bool-cases (old == netns.net_id)) [
          | inl same ↦
              rw (handle_netns, get_vnid, e, same)
                (v, λ name. ground (arith, e, ==_iff old netns.net_id, same))
          | inr other ↦
              rw (handle_netns, get_vnid, e, other)
                (set_vnid-IsConsistent laws m netns.net_name netns.net_id v)
        ]
      ]
  handle_netns-tell event_removed netns m w v =
      let r = unset_vnid-IsConsistent laws m netns.net_name v in (r.0, r.2)
  handle_netns-tell (event_other n) netns m w v = (v, λ name. refl)

  -- A batch of events leaves a node's two maps in agreement if they agreed before, and each
  -- namespace with the VNID that the last event about it told, or the one from before if there is
  -- none.
  pub node_handle_netns_event-told :
      (batch : List Event) (m : NodeVnidMap z) (w : x.World)
      → IsConsistent z m
      → let s = node_handle_netns_event x bridge multitenant c z batch (m, w) in
        IsConsistent z s.0 × ((name : Text) → ids_of s name ≡ told batch (ids_of (m, w)) name)
  unfolding node_handle_netns_event
  node_handle_netns_event-told [] m w v = (v, λ name. refl)
  node_handle_netns_event-told (evt ∷ batch) m w v =
      let s = handle_netns x bridge multitenant c z evt.type evt.net_ns (m, w) in
      let step = handle_netns-tell evt.type evt.net_ns m w v in
      let rest = node_handle_netns_event-told batch s.0 s.1 step.0 in
      (
        rest.0,
        λ name.
            rest.1 name
            ∙ told-cong batch (ids_of s) (tell evt.type evt.net_ns (ids_of (m, w))) name step.1,
      )
