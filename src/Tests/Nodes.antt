-- ===== src/Tests/Nodes.antt =====
-- A node's maps, its services and its net namespaces.
use mathlib.Core.List.{Mem, not-mem-nil, mem_of_ne_of_mem}
use k8s_ovs.Base.{
  ap, inl, inr, Option-cases, ℕ, ◌≡◌, ◌≢◌, ◌↔◌, ◌⊎◌, ◌<◌, ◌++◌, refl, Bool, true, false, Result, ok,
  err, Option, none, some, List, [], ◌∷◌, Text, codes, text_dec, lookup, length, arith,
}
use k8s_ovs.Etcd.{Event, NetNamespace, event_added, event_removed, no_subnet}
use k8s_ovs.EventQueue.{added}
use k8s_ovs.NodeVnids.{
  NodeVnidMap, new_node_vnid_map, get_vnid, set_vnid, get_namespaces, wait_and_get_vnid,
}
use k8s_ovs.NodeVnids.ListSets.{list_sets, list_sets_laws}
use k8s_ovs.NodeVnids.Invariant.{IsConsistent, set_vnid-IsConsistent}
use k8s_ovs.NodeVnids.Updates.{new_node_vnid_map-IsConsistent, wait_and_get_vnid-found}
use k8s_ovs.NodeVnids.Services.{Outcome, watch_service, watch_service-Outcome}
use k8s_ovs.NodeVnids.Netns.{node_handle_netns_event, ids_of, told, node_handle_netns_event-told}
use k8s_ovs.Tests.Data.{commands, cluster, web}

abbrev none_yet : NodeVnidMap list_sets
none_yet = new_node_vnid_map list_sets

abbrev one : NodeVnidMap list_sets
one = set_vnid list_sets none_yet (codes "a") 10

one-IsConsistent : IsConsistent list_sets one
one-IsConsistent =
    (set_vnid-IsConsistent list_sets_laws none_yet (codes "a") 10
      (new_node_vnid_map-IsConsistent list_sets)).0

one_found : get_vnid list_sets one (codes "a") ≡ ok 10
unfolding get_vnid lookup set_vnid k8s_ovs.NodeVnids.add_namespace_to_set k8s_ovs.Base.insert
    new_node_vnid_map text_dec
one_found = refl

none_found : lookup text_dec (codes "a") none_yet.ids ≡ none
unfolding lookup new_node_vnid_map
none_found = refl

none_missing :
    (n : NodeVnidMap list_sets) → Mem n (none_yet ∷ []) → lookup text_dec (codes "a") n.ids ≡ none
none_missing n i = elim (Option-cases (lookup text_dec (codes "a") n.ids)) [
  | inl absent ↦ absent
  | inr (id, there) ↦
      let other : n ≢ none_yet = λ e. ground (
        arith,
        none_found,
        there,
        ap (λ (k : NodeVnidMap list_sets). lookup text_dec (codes "a") k.ids) e,
      ) in
      absurd (not-mem-nil (mem_of_ne_of_mem other i))
]

-- The namespace is there at the second try.
wait_and_get_vnid-found_example :
    wait_and_get_vnid list_sets (none_yet ∷ one ∷ []) (codes "a") ≡ ok 10
wait_and_get_vnid-found_example =
    wait_and_get_vnid-found one [] (codes "a") 10 (none_yet ∷ []) (omega arith) none_missing
      one_found

abbrev about : ℕ → NetNamespace
about id = record { net_name = codes "a"; net_id = id; action = []; namespace = [] }

-- The namespace gets a VNID, loses it, and gets another.
abbrev events : List Event
events =
    record { type = event_added; subnet = no_subnet; network = []; net_ns = about 10 }
    ∷ record { type = event_removed; subnet = no_subnet; network = []; net_ns = about 10 }
    ∷ record { type = event_added; subnet = no_subnet; network = []; net_ns = about 11 }
    ∷ []

node_handle_netns_event-told_example :
    IsConsistent list_sets
      (node_handle_netns_event
        (commands [])
        (codes "br0")
        true
        cluster
        list_sets
        events
        (none_yet, 0)).0
    × ((name : Text)
        → ids_of
            (commands [])
            (codes "br0")
            true
            cluster
            list_sets_laws
            (node_handle_netns_event
              (commands [])
              (codes "br0")
              true
              cluster
              list_sets
              events
              (none_yet, 0))
            name
          ≡ told events
              (ids_of (commands []) (codes "br0") true cluster list_sets_laws (none_yet, 0))
              name)
node_handle_netns_event-told_example =
    node_handle_netns_event-told (commands []) (codes "br0") true cluster list_sets_laws events
      none_yet 0 (new_node_vnid_map-IsConsistent list_sets)

watch_service-Outcome_example :
    Outcome list_sets
      (commands [])
      (codes "br0")
      true
      (λ s. true)
      web
      []
      (watch_service list_sets
        (commands [])
        (codes "br0")
        true
        (λ s. true)
        (one ∷ [])
        added
        web
        []
        0).0.0
      (watch_service list_sets
        (commands [])
        (codes "br0")
        true
        (λ s. true)
        (one ∷ [])
        added
        web
        []
        0).1
watch_service-Outcome_example =
    watch_service-Outcome list_sets (commands []) (codes "br0") true (λ s. true) (one ∷ []) added
      web [] 0 ((λ e. ground (arith, e)), refl)
