-- ===== src/Etcd.antt =====
-- pkg/etcdmanager/config.go: the objects kept in etcd, the watch events and results, and the interface
-- through which the master and the nodes reach etcd. Contexts and network names are left out of the
-- calls: the program passes the same ones everywhere.
use k8s_ovs.Base.{ℕ, Bool, false, Result, List, [], Option, Text}

pub record ClusterNetwork : Type 0 where
  pub name : Text
  pub network : Text
  pub host_subnet_length : ℕ
  pub service_network : Text
  pub plugin_name : Text

pub record HostSubnet : Type 0 where
  pub host : Text
  pub host_ip : Text
  pub subnet : Text
  pub assign : Bool

pub record NetNamespace : Type 0 where
  pub net_name : Text
  pub net_id : ℕ
  pub action : Text
  pub namespace : Text

-- `HostSubnet{}` and `NetNamespace{}`.
abbrev pub no_subnet : HostSubnet
no_subnet = record { host = []; host_ip = []; subnet = []; assign = false }

abbrev pub no_net_namespace : NetNamespace
no_net_namespace = record { net_name = []; net_id = 0; action = []; namespace = [] }

-- `EventType`: an int, of which the code handles two.
pub data EventType : Type 0 where
  event_added event_removed : EventType
  event_other : ℕ → EventType

pub record Event : Type 0 where
  pub type : EventType
  pub subnet : HostSubnet
  pub network : Text
  pub net_ns : NetNamespace

-- A result of a watch; the three result types of the source differ in the type of the snapshot.
pub record WatchResult (A C : Type 0) : Type 0 where
  pub events : List Event
  pub snapshot : List A
  pub cursor : Option C

-- `EtcdManager`. `Store` is whatever the answers depend on: the contents of etcd, its history and the
-- state of the connection. `Cursor` is a cursor of a watch.
pub record EtcdManager : Type 1 where
  pub Store : Type 0
  pub Cursor : Type 0
  pub get_network_config : Store → Store × Result ClusterNetwork
  pub acquire_subnet : Text → HostSubnet → Store → Store × Result (Unit {0})
  pub get_subnet : Text → Store → Store × Result HostSubnet
  pub get_net_namespace : Text → Store → Store × Result NetNamespace
  pub get_subnets : Store → Store × Result (List HostSubnet)
  pub get_net_namespaces : Store → Store × Result (List NetNamespace)
  pub acquire_net_namespace : NetNamespace → Store → Store × Result (Unit {0})
  pub renew_subnet : HostSubnet → Store → Store × Result (Unit {0})
  pub renew_net_namespace : NetNamespace → Store → Store × Result (Unit {0})
  pub revoke_subnet : Text → Store → Store × Result (Unit {0})
  pub revoke_net_namespace : Text → Store → Store × Result (Unit {0})
  pub watch_subnets : Option Cursor → Store → Store × Result (WatchResult HostSubnet Cursor)
  pub watch_net_namespaces :
      Option Cursor → Store → Store × Result (WatchResult NetNamespace Cursor)
