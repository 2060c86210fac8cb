-- ===== src/Subnets.antt =====
-- ksdn/subnets.go: the host subnets, on the master and on a node.
pub mod Node
pub mod NodeWatch
pub mod NodeLaws
pub mod Leases
use k8s_ovs.Base.{
  ℕ, ◌≡◌, Bool, true, false, not, ◌&&◌, ◌||◌, Result, ok, err, Error, message, Option, none, some,
  List, [], ◌∷◌, ◌++◌, Text, codes, text_dec, ite, lookup, insert, delete, if◌then◌else◌, ◌==◌, map,
}
use k8s_ovs.Etcd.{
  HostSubnet, EtcdManager, Event, EventType, event_added, event_removed, event_other,
}
use k8s_ovs.IpNet.{IpNet, parse_ip, parse_cidr, net_contains, net_to_string}
use k8s_ovs.Snalloc.{SubnetAllocator, new_subnet_allocator, get_network, release_network}

-- `NetworkInfo`, by what the validation of addresses uses.
pub record NetworkInfo : Type 0 where
  pub cluster_network : IpNet
  pub service_network : IpNet

-- `validateNodeIP`, ksdn/common.go.
unfoldable pub validate_node_ip : NetworkInfo → Text → Result (Unit {0})
unfolding text_dec parse_ip net_contains
validate_node_ip ni node_ip =
    let valid : Result (Unit {0}) = elim (parse_ip node_ip) [
      | none ↦ err (message "Failed to parse node IP")
      | some ipaddr ↦
          if net_contains ni.cluster_network ipaddr
          then err (message "Node IP conflicts with cluster network")
          else if net_contains ni.service_network ipaddr
          then err (message "Node IP conflicts with service network")
          else ok tt
    ] in
    ite (text_dec node_ip []) (err (message "Invalid node IP"))
      (ite (text_dec node_ip (codes "127.0.0.1")) (err (message "Invalid node IP")) valid)

-- What the master's calls change: the allocator and the contents of etcd.
pub record SubnetMaster (e : EtcdManager) : Type 0 where
  pub allocator : SubnetAllocator
  pub store : e.Store

module _ (e : EtcdManager) where
  -- `SubnetStartMaster`, up to the start of the watches; the allocator is new.
  unfoldable pub subnet_start_master : Text → ℕ → e.Store → e.Store × Result SubnetAllocator
  unfolding new_subnet_allocator
  subnet_start_master cluster_network host_subnet_length store =
      let (store', answer) = e.get_subnets store in
      elim answer [
        | err x ↦ (store', err x)
        | ok subnets ↦ (
          store',
          new_subnet_allocator cluster_network host_subnet_length
              (map (λ (s : HostSubnet). s.subnet) subnets),
        )
      ]

module _ (e : EtcdManager) (ni : NetworkInfo) where
  -- The branch of `addNode` for an address that has a subnet.
  unfoldable pub renew_node :
      SubnetMaster e → HostSubnet → Text → Bool → SubnetMaster e × Result (Unit {0})
  unfolding text_dec
  renew_node s sub node_name assign =
      let (store, answer) =
        e.renew_subnet (record sub { host = node_name; assign = assign }) s.store in
      let renewed : SubnetMaster e × Result (Unit {0}) = (
        record s { store = store },
        elim answer [ err _ ↦ err (message "Error updating subnet for node") | ok _ ↦ ok tt ],
      ) in
      let same = if sub.assign then assign else not assign in
      ite (text_dec sub.host node_name) (if same then (s, ok tt) else renewed) renewed

  -- The branch for an address without one.
  unfoldable pub create_subnet :
      SubnetMaster e → Text → Text → Bool → SubnetMaster e × Result (Unit {0})
  unfolding get_network release_network net_to_string
  create_subnet s node_name node_ip assign =
      let (a, answer) = get_network s.allocator in
      elim answer [
        | err _ ↦ (record s { allocator = a }, err (message "Error allocating network for node"))
        | ok sn ↦
            let (store, answer') =
              e.acquire_subnet node_ip
                (record {
                  host = node_name;
                  host_ip = node_ip;
                  subnet = net_to_string sn;
                  assign = assign;
                })
                s.store in
            elim answer' [
              | ok _ ↦ (record { allocator = a; store = store }, ok tt)
              | err _ ↦ (
                record { allocator = (release_network a sn).0; store = store },
                err (message "Error creating subnet for node"),
              )
            ]
      ]

  unfoldable pub add_node : SubnetMaster e → Text → Text → Bool → SubnetMaster e × Result (Unit {0})
  unfolding validate_node_ip renew_node create_subnet
  add_node s node_name node_ip assign =
      let (store, found) = e.get_subnet node_ip s.store in
      let s' : SubnetMaster e = record s { store = store } in
      let answered : SubnetMaster e × Result (Unit {0}) = elim found [
        | ok sub ↦ renew_node s' sub node_name assign
        | err _ ↦ create_subnet s' node_name node_ip assign
      ] in
      elim (validate_node_ip ni node_ip) [ err x ↦ (s, err x) | ok _ ↦ answered ]

  unfoldable pub delete_node : SubnetMaster e → Text → SubnetMaster e × Result (Unit {0})
  delete_node s node_name =
      let (store, answer) = e.revoke_subnet node_name s.store in
      (
        record s { store = store },
        elim answer [ err _ ↦ err (message "Error delete subnet for node") | ok _ ↦ ok tt ],
      )

  -- One round of `masterHandleSubnetEvent`; errors are logged.
  unfoldable pub handle_subnet : SubnetMaster e → EventType → HostSubnet → SubnetMaster e
  unfolding add_node release_network parse_cidr
  handle_subnet s event_added sub =
      let (store, revoked) = e.revoke_subnet sub.host_ip s.store in
      let s' : SubnetMaster e = record s { store = store } in
      let assigned : SubnetMaster e = elim revoked [
        | err _ ↦ s'
        | ok _ ↦ (add_node s' sub.host sub.host_ip false).0
      ] in
      if sub.assign then assigned else s
  handle_subnet s event_removed sub =
      let released : SubnetMaster e = elim (parse_cidr sub.subnet) [
        | none ↦ s
        | some ipnet ↦ record s { allocator = (release_network s.allocator ipnet).0 }
      ] in
      if sub.assign then s else released
  handle_subnet s (event_other n) sub = s

  unfoldable pub master_handle_subnet_event : SubnetMaster e → List Event → SubnetMaster e
  unfolding handle_subnet
  master_handle_subnet_event s [] = s
  master_handle_subnet_event s (evt ∷ batch) =
      master_handle_subnet_event (handle_subnet s evt.type evt.subnet) batch
