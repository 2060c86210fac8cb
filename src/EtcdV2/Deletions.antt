-- ===== src/EtcdV2/Deletions.antt =====
-- pkg/etcdmanager/etcdv2/registry.go and pkg/etcdmanager/watch.go: what the watchers make of the
-- deletion of a key.
use k8s_ovs.Base.{
  ℕ, suc, ◌≡◌, ◌≢◌, refl, true, ok, none, List, [], ◌∷◌, Text, text_dec, arith, if_neg, ◌∙◌,
}
use k8s_ovs.Etcd.{
  HostSubnet, NetNamespace, Event, event_removed, no_subnet, no_net_namespace, EventType,
}
use k8s_ovs.EtcdV2.KeyStore.{
  Codec, Response, is_deletion, parse_net_namespace_watch_response, parse_subnet_watch_response,
}
use k8s_ovs.Watch.{
  search_from, find, remove, update, update_one, net_ns_event, subnet_event, net_ns_update,
  subnet_update,
}

-- Names of items, none of which starts like a key of etcd.
abbrev pub AllUnrooted : {T : Type 0} → (T → Text) → List T → Type 0
AllUnrooted key [] = Unit {0}
AllUnrooted key (x ∷ held) = ((path : Text) → key x ≢ b'/' ∷ path) × AllUnrooted key held

module _ {T : Type 0} (key : T → Text) (event : EventType → T → Event) (item : Event → T) where
  search_from_unrooted :
      (i : ℕ) (path : Text) (held : List T)
      → AllUnrooted key held
      → search_from key i (b'/' ∷ path) held ≡ none
  unfolding search_from
  search_from_unrooted i path [] u = refl
  search_from_unrooted i path (x ∷ held) (differs, u) =
      if_neg (text_dec (key x) (b'/' ∷ path)) (differs path) _ _
      ∙ search_from_unrooted (suc i) path held u

  update_unrooted :
      (e : Event) (path : Text) (held : List T)
      → e.type ≡ event_removed
      → key (item e) ≡ b'/' ∷ path
      → AllUnrooted key held
      → update key event item held (e ∷ []) ≡ (held, event event_removed (item e) ∷ [])
  unfolding update update_one remove find
  update_unrooted e path held removed is u =
      ground (arith, removed, is, search_from_unrooted 0 path held u)

-- The event of a response is named by its key, leaves what the watcher holds, and is passed on.
abbrev pub NamesKept : Codec NetNamespace → Response → List NetNamespace → Type 0
NamesKept c resp held =
    (e : Event) × (parse_net_namespace_watch_response c resp ≡ ok e)
    × (e.net_ns.net_name ≡ resp.key)
    × (net_ns_update held (e ∷ []) ≡ (held, e ∷ []))

abbrev pub SubnetsKept : Codec HostSubnet → Response → List HostSubnet → Type 0
SubnetsKept c resp held =
    (e : Event) × (parse_subnet_watch_response c resp ≡ ok e)
    × (e.subnet.host ≡ resp.key)
    × (subnet_update held (e ∷ []) ≡ (held, e ∷ []))

-- The deletion of a key in etcd, whose keys start with a slash, reaches the watchers as an event
-- that removes an item named by the whole key. If they hold items whose names start otherwise,
-- they hold the same ones afterwards, and pass the event on.
pub deletion_unmatched :
    (ns : Codec NetNamespace) (sub : Codec HostSubnet) (resp : Response) (path : Text)
    (names : List NetNamespace) (subnets : List HostSubnet)
    → is_deletion resp.action ≡ true
    → resp.key ≡ b'/' ∷ path
    → AllUnrooted (λ n. n.net_name) names
    → AllUnrooted (λ s. s.host) subnets
    → NamesKept ns resp names × SubnetsKept sub resp subnets
unfolding parse_net_namespace_watch_response parse_subnet_watch_response net_ns_update subnet_update
deletion_unmatched ns sub resp path names subnets deleted rooted u v =
    let gone = net_ns_event event_removed (record no_net_namespace { net_name = resp.key }) in
    let lost = subnet_event event_removed (record no_subnet { host = resp.key }) in
    (
      (
        gone,
        ground (arith, deleted),
        refl,
        update_unrooted (λ (n : NetNamespace). n.net_name) net_ns_event (λ (e : Event). e.net_ns)
            gone path names refl rooted u,
      ),
      (
        lost,
        ground (arith, deleted),
        refl,
        update_unrooted (λ (s : HostSubnet). s.host) subnet_event (λ (e : Event). e.subnet) lost
            path subnets refl rooted v,
      ),
    )
