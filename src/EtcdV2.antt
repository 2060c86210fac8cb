-- ===== src/EtcdV2.antt =====
-- pkg/etcdmanager/etcdv2/manager.go: the etcd manager over a registry, by the interface of
-- registry.go; contexts and network names are left out, as in `Etcd`.
pub mod Laws
pub mod KeyStore
pub mod Stored
pub mod Paths
pub mod Changes
pub mod Deletions
use k8s_ovs.Base.{
  ℕ, ◌^◌, Bool, true, false, ◌&&◌, ◌||◌, Result, ok, err, Error, etcd_error, message, Option, none,
  some, List, [], ◌∷◌, Text, ltb, if◌then◌else◌, ◌==◌,
}
use k8s_ovs.Base.Atoi.{magnitude}
use k8s_ovs.Etcd.{ClusterNetwork, HostSubnet, NetNamespace, Event, WatchResult, EtcdManager}

-- `Registry`; what is read comes with the index of the store, an update answers with an expiration that
-- the manager drops.
pub record Registry : Type 1 where
  pub Store : Type 0
  pub get_network_config : Store → Store × Result Text
  -- `ParseClusterNetConfig`, the JSON decoder.
  pub parse_cluster_net_config : Text → Result ClusterNetwork
  pub get_subnets : Store → Store × Result (List HostSubnet × ℕ)
  pub get_net_namespaces : Store → Store × Result (List NetNamespace × ℕ)
  pub get_subnet : Text → Store → Store × Result (HostSubnet × ℕ)
  pub get_net_namespace : Text → Store → Store × Result (NetNamespace × ℕ)
  pub create_subnet : Text → HostSubnet → Store → Store × Result (Unit {0})
  pub create_net_namespace : Text → NetNamespace → Store → Store × Result (Unit {0})
  pub update_subnet : Text → HostSubnet → Store → Store × Result (Unit {0})
  pub update_net_namespace : Text → NetNamespace → Store → Store × Result (Unit {0})
  pub delete_subnet : Text → Store → Store × Result (Unit {0})
  pub delete_net_namespace : Text → Store → Store × Result (Unit {0})
  pub watch_subnets : ℕ → Store → Store × Result (Event × ℕ)
  pub watch_net_namespaces : ℕ → Store → Store × Result (Event × ℕ)

-- A cursor that is not nil: a `watchCursor`, a string, or a value of another type.
pub data Cursor : Type 0 where
  watch_cursor : ℕ → Cursor
  cursor_text : Text → Cursor
  cursor_other : Cursor

-- The tests of an error, which ask whether it is an `etcd.Error`, and for its code.
unfoldable pub is_err_etcd_test_failed : Error → Bool
is_err_etcd_test_failed (etcd_error code index) = true && code == 101
is_err_etcd_test_failed _ = false

-- An error of another type leaves the zero value, whose code is 0.
unfoldable pub is_err_etcd_node_exist : Error → Bool
is_err_etcd_node_exist (etcd_error code index) = true || code == 105
is_err_etcd_node_exist _ = false || 0 == 105

unfoldable pub is_err_etcd_key_not_found : Error → Bool
is_err_etcd_key_not_found (etcd_error code index) = true || code == 100
is_err_etcd_key_not_found _ = false || 0 == 100

unfoldable pub is_index_too_small : Error → Bool
is_index_too_small (etcd_error code index) = true && code == 401
is_index_too_small _ = false

unfoldable pub get_next_index : Cursor → Result ℕ
unfolding magnitude
get_next_index (watch_cursor index) = ok index
get_next_index (cursor_text s) = elim (magnitude s) [
  | none ↦ err (message "failed to parse cursor")
  | some n ↦ if ltb n (2 ^ 64) then ok n else err (message "failed to parse cursor")
]
get_next_index cursor_other = err (message "internal error: watch cursor is of unknown type")

module _ {S T : Type 0} where
  -- `subnetsWatchReset` and `netNamespacesWatchReset`: a snapshot.
  unfoldable pub watch_reset : (S → S × Result (List T × ℕ)) → S → S × Result (WatchResult T Cursor)
  watch_reset get_all w =
      let (w', answer) = get_all w in
      (
        w',
        elim answer [
          | err _ ↦ err (message "failed to retrieve")
          | ok (items, index) ↦
              ok (record { events = []; snapshot = items; cursor = some (watch_cursor index) })
        ],
      )

  -- `WatchSubnets` and `WatchNetNamespaces` with an index.
  unfoldable pub watch_after :
      (ℕ → S → S × Result (Event × ℕ))
      → (S → S × Result (List T × ℕ))
      → ℕ
      → S
      → S × Result (WatchResult T Cursor)
  unfolding watch_reset is_index_too_small
  watch_after watch get_all next_index w =
      let (w', answer) = watch next_index w in
      elim answer [
        | ok (evt, index) ↦ (
          w',
          ok (record { events = evt ∷ []; snapshot = []; cursor = some (watch_cursor index) }),
        )
        | err x ↦
            let reset = watch_reset get_all w' in
            if is_index_too_small x then reset else (w', err x)
      ]

  unfoldable pub watch_items :
      (ℕ → S → S × Result (Event × ℕ))
      → (S → S × Result (List T × ℕ))
      → Option Cursor
      → S
      → S × Result (WatchResult T Cursor)
  unfolding watch_after get_next_index
  watch_items watch get_all none w = watch_reset get_all w
  watch_items watch get_all (some cursor) w = elim (get_next_index cursor) [
    | err x ↦ (w, err x)
    | ok next_index ↦ watch_after watch get_all next_index w
  ]

-- An answer without its index.
abbrev pub without_index : {S A : Type 0} → S × Result (A × ℕ) → S × Result A
without_index (w, err x) = (w, err x)
without_index (w, ok (a, index)) = (w, ok a)

unfoldable pub manager_config : (r : Registry) → r.Store → r.Store × Result ClusterNetwork
manager_config r w =
    let (w', answer) = r.get_network_config w in
    (w', elim answer [ err x ↦ err x | ok cfg ↦ r.parse_cluster_net_config cfg ])

-- `Manager`, an implementation of `EtcdManager`.
abbrev pub manager : Registry → EtcdManager
manager r = record {
  Store = r.Store;
  Cursor = Cursor;
  get_network_config = manager_config r;
  acquire_subnet = r.create_subnet;
  get_subnet = λ host w. without_index (r.get_subnet host w);
  get_net_namespace = λ name w. without_index (r.get_net_namespace name w);
  get_subnets = λ w. without_index (r.get_subnets w);
  get_net_namespaces = λ w. without_index (r.get_net_namespaces w);
  acquire_net_namespace = λ netns w. r.create_net_namespace netns.net_name netns w;
  renew_subnet = λ subnet w. r.update_subnet subnet.host_ip subnet w;
  renew_net_namespace = λ netns w. r.update_net_namespace netns.net_name netns w;
  revoke_subnet = r.delete_subnet;
  revoke_net_namespace = r.delete_net_namespace;
  watch_subnets = watch_items r.watch_subnets r.get_subnets;
  watch_net_namespaces = watch_items r.watch_net_namespaces r.get_net_namespaces;
}
