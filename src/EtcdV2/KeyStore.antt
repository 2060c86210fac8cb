-- ===== src/EtcdV2/KeyStore.antt =====
-- pkg/etcdmanager/etcdv2/registry.go: the registry over etcd's keys. The etcd client and the JSON codec
-- are parameters. Expirations are dropped: the manager does not read them. The elements of a path are
-- taken to be clean, so that `path.Join` only joins those that are not empty.
use k8s_ovs.Base.{
  text_dec, ite, ℕ, Bool, true, false, Result, ok, err, etcd_error, List, [], ◌∷◌, ◌++◌, Text,
  codes, if◌then◌else◌, ◌==◌,
}
use k8s_ovs.Etcd.{
  ClusterNetwork, HostSubnet, NetNamespace, Event, event_added, event_removed, no_subnet,
  no_net_namespace,
}
use k8s_ovs.Watch.{subnet_event, net_ns_event}
use k8s_ovs.EtcdV2.{Registry}

-- `etcd.Response`, by what the registry reads: the action, the key and the value of the node, the values
-- of its children, the index of the store and the one of the node's last change.
pub record Response : Type 0 where
  pub action : Text
  pub key : Text
  pub value : Text
  pub nodes : List Text
  pub index : ℕ
  pub modified_index : ℕ

-- The condition of `etcd.SetOptions`.
pub data SetOptions : Type 0 where
  prev_no_exist : SetOptions
  prev_index : ℕ → SetOptions

-- `etcd.KeysAPI`. Every `Get` asks for a quorum, and that of a directory for its children; the options
-- are left out.
pub record KeysApi : Type 1 where
  pub Store : Type 0
  pub get : Text → Store → Store × Result Response
  pub set : Text → Text → SetOptions → Store → Store × Result (Unit {0})
  pub delete : Text → Store → Store × Result (Unit {0})
  pub next : Text → ℕ → Store → Store × Result Response

-- `json.Marshal` and `json.Unmarshal` of a type.
pub record Codec (A : Type 0) : Type 0 where
  pub marshal : A → Result Text
  pub unmarshal : Text → Result A

abbrev pub onto_path : Text → Text → Text
onto_path [] rest = rest
onto_path (c ∷ s) [] = c ∷ s
onto_path (c ∷ s) (d ∷ rest) = (c ∷ s) ++ b'/' ∷ d ∷ rest

-- `path.Join`.
unfoldable pub join_path : List Text → Text
join_path [] = []
join_path (s ∷ rest) = onto_path s (join_path rest)

module _ {A : Type 0} (c : Codec A) where
  -- The loop over the child nodes: a node that cannot be read is left out.
  unfoldable pub read_nodes : List Text → List A
  read_nodes [] = []
  read_nodes (value ∷ nodes) =
      let rest = read_nodes nodes in elim (c.unmarshal value) [ err _ ↦ rest | ok a ↦ a ∷ rest ]

  -- `getSubnets` and `getNetNamespaces`: a missing directory is an empty one.
  unfoldable pub read_directory : Result Response → Result (List A × ℕ)
  unfolding read_nodes
  read_directory (ok resp) = ok (read_nodes resp.nodes, resp.index)
  read_directory (err (etcd_error code index)) =
      if code == 100 then ok ([], index) else err (etcd_error code index)
  read_directory (err x) = err x

  -- `getSubnet` and `getNetNamespace`.
  unfoldable pub read_node : Result Response → Result (A × ℕ)
  read_node (err x) = err x
  read_node (ok resp) = elim (c.unmarshal resp.value) [ err x ↦ err x | ok a ↦ ok (a, resp.index) ]

  -- `createSubnet`, `createNetNamespace`, `updateSubnet` and `updateNetNamespace`.
  unfoldable pub write_node :
      (k : KeysApi) → Text → A → SetOptions → k.Store → k.Store × Result (Unit {0})
  write_node k key a opts w = elim (c.marshal a) [
    | err x ↦ (w, err x)
    | ok value ↦ k.set key value opts w
  ]

-- `parseSubnetWatchResponse` and `parseNetNamespaceWatchResponse`: a deletion names the key of the node.
unfoldable pub is_deletion : Text → Bool
unfolding text_dec
is_deletion action =
    ite (text_dec action (codes "delete")) true (ite (text_dec action (codes "expire")) true false)

unfoldable pub parse_subnet_watch_response : Codec HostSubnet → Response → Result Event
unfolding is_deletion
parse_subnet_watch_response c resp =
    let read : Result Event = elim (c.unmarshal resp.value) [
      | err x ↦ err x
      | ok subnet ↦ ok (subnet_event event_added subnet)
    ] in
    if is_deletion resp.action
    then ok (subnet_event event_removed (record no_subnet { host = resp.key }))
    else read

unfoldable pub parse_net_namespace_watch_response : Codec NetNamespace → Response → Result Event
unfolding is_deletion
parse_net_namespace_watch_response c resp =
    let read : Result Event = elim (c.unmarshal resp.value) [
      | err x ↦ err x
      | ok netns ↦ ok (net_ns_event event_added netns)
    ] in
    if is_deletion resp.action
    then ok (net_ns_event event_removed (record no_net_namespace { net_name = resp.key }))
    else read

-- `watchSubnets` and `watchNetNamespaces`: the event, with the index of the change.
unfoldable pub watch_next :
    {S : Type 0}
    → (Response → Result Event)
    → (ℕ → S → S × Result Response)
    → ℕ
    → S
    → S × Result (Event × ℕ)
watch_next parse next since w =
    let (w', answer) = next since w in
    (
      w',
      elim answer [
        | err x ↦ err x
        | ok resp ↦ elim (parse resp) [ err x ↦ err x | ok evt ↦ ok (evt, resp.modified_index) ]
      ],
    )

unfoldable pub read_value : Result Response → Result Text
read_value (err x) = err x
read_value (ok resp) = ok resp.value

-- `etcdSubnetRegistry`, for a prefix and a network.
abbrev pub etcd_subnet_registry :
    (k : KeysApi)
    → Codec ClusterNetwork
    → Codec HostSubnet
    → Codec NetNamespace
    → Text
    → Text
    → Registry
etcd_subnet_registry k config subnet netns prefix network =
    let subnets : Text = join_path (prefix ∷ network ∷ codes "subnets" ∷ []) in
    let netnamespaces : Text = join_path (prefix ∷ network ∷ codes "netnamespaces" ∷ []) in
    let subnet_key : Text → Text =
      λ (host : Text). join_path (prefix ∷ network ∷ codes "subnets" ∷ host ∷ []) in
    let netns_key : Text → Text =
      λ (name : Text). join_path (prefix ∷ network ∷ codes "netnamespaces" ∷ name ∷ []) in
    record {
      Store = k.Store;
      get_network_config = λ w.
          let (w', answer) = k.get (join_path (prefix ∷ network ∷ codes "config" ∷ [])) w in
          (w', read_value answer);
      parse_cluster_net_config = config.unmarshal;
      get_subnets = λ w. let (w', answer) = k.get subnets w in (w', read_directory subnet answer);
      get_net_namespaces =
          λ w. let (w', answer) = k.get netnamespaces w in (w', read_directory netns answer);
      get_subnet =
          λ host w. let (w', answer) = k.get (subnet_key host) w in (w', read_node subnet answer);
      get_net_namespace =
          λ name w. let (w', answer) = k.get (netns_key name) w in (w', read_node netns answer);
      create_subnet = λ host s w. write_node subnet k (subnet_key host) s prev_no_exist w;
      create_net_namespace = λ name n w. write_node netns k (netns_key name) n prev_no_exist w;
      update_subnet = λ host s w. write_node subnet k (subnet_key host) s (prev_index 0) w;
      update_net_namespace = λ name n w. write_node netns k (netns_key name) n (prev_index 0) w;
      delete_subnet = λ host w. k.delete (subnet_key host) w;
      delete_net_namespace = λ name w. k.delete (netns_key name) w;
      watch_subnets = watch_next (parse_subnet_watch_response subnet) (k.next subnets);
      watch_net_namespaces =
          watch_next (parse_net_namespace_watch_response netns) (k.next netnamespaces);
    }
