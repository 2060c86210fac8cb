-- ===== src/Tests/Starts.antt =====
-- The start of a master, at a concrete etcd.
use mathlib.Core.Path.{subst}
use k8s_ovs.Base.{
  ℕ, ◌≡◌, refl, Bool, true, false, Result, ok, err, Error, message, Option, none, some, List, [],
  ◌∷◌, Text, codes, text_dec, Distinct, arith, inl, inr, suc,
}
use k8s_ovs.Etcd.{EtcdManager, NetNamespace, ClusterNetwork}
use k8s_ovs.MasterVnids.{MasterVnidMap, populate_all}
use k8s_ovs.MasterVnids.Invariant as Vnids
use k8s_ovs.MasterVnids.Populate.{empty_map, Assignable, pairs}
use k8s_ovs.MasterVnids.Sync.{master_run}
use k8s_ovs.Node.Laws.{HoldsAssignable, HoldsVnids, start_master-AllApart, start_master-HoldsVnids}
use k8s_ovs.Node.Start.{MasterState, start_master}
use k8s_ovs.NetType.{is_multitenant_network_plugin}
use k8s_ovs.IpNet.{IpNet, net_to_string}
use k8s_ovs.Snalloc.{gen_subnet}
use k8s_ovs.Snalloc.Held.{AllApart}
use k8s_ovs.Snalloc.History.{get, after_calls}
use k8s_ovs.Snalloc.InUse.{AreSubnets}
use k8s_ovs.Snalloc.Search.{IsValid}
use k8s_ovs.Tests.Data.{etcd}
use k8s_ovs.Vnid.ListBitmap.{list_bitmap, list_bitmap_laws}

-- An etcd with a network and one net namespace.
abbrev configured : EtcdManager
configured = record (etcd (ok tt)) {
  get_network_config = λ w. (
    w,
    ok (record {
      name = codes "n";
      network = codes "10.1.0.0/16";
      host_subnet_length = 8;
      service_network = codes "172.30.0.0/16";
      plugin_name = codes "k8s-ovs-multitenant";
    }),
  );
  get_subnets = λ w. (
    w,
    ok (
        record {
          host = codes "n1";
          host_ip = codes "192.168.0.2";
          subnet = codes "10.1.4.0/24";
          assign = true;
        }
        ∷ []),
  );
  get_net_namespaces =
      λ w. (w, ok (record { net_name = codes "a"; net_id = 11; action = []; namespace = [] } ∷ []));
}

abbrev netns : List NetNamespace
netns = record { net_name = codes "a"; net_id = 11; action = []; namespace = [] } ∷ []

abbrev vnids : MasterVnidMap list_bitmap
vnids = (populate_all list_bitmap (empty_map list_bitmap) netns).0

abbrev master : MasterState list_bitmap
master = record {
  network_info = record {
    cluster_network = record { ip = 167837696; bits = 16 };
    service_network = record { ip = 2887647232; bits = 16 };
  };
  allocator = record {
    network = record { ip = 167837696; bits = 16 };
    host_bits = 8;
    left_shift = 0;
    left_mask = 4294967295;
    right_shift = 0;
    right_mask = 0;
    next = 0;
    alloc_map = (codes "10.1.4.0/24", true) ∷ [];
  };
  vnids = some vnids;
}

started : (start_master list_bitmap configured 0).1 ≡ ok (some master)
unfolding start_master k8s_ovs.MasterVnids.populate_all k8s_ovs.MasterVnids.populate_one
    k8s_ovs.Vnid.Allocator.allocate k8s_ovs.Vnid.ListBitmap.member k8s_ovs.Base.insert
started = refl

configured-HoldsAssignable : HoldsAssignable list_bitmap_laws configured
unfolding k8s_ovs.Base.lookup
configured-HoldsAssignable s l e =
    subst (λ (k : List NetNamespace). Distinct text_dec (pairs k) × Assignable k) same
      ((refl, tt), (inr (omega arith, omega arith), tt))
  where
    same : netns ≡ l
    same = ground (arith, e)

abbrev config : ClusterNetwork
config = record {
  name = codes "n";
  network = codes "10.1.0.0/16";
  host_subnet_length = 8;
  service_network = codes "172.30.0.0/16";
  plugin_name = codes "k8s-ovs-multitenant";
}

config_multitenant : is_multitenant_network_plugin config.plugin_name ≡ true
unfolding is_multitenant_network_plugin
config_multitenant = refl

start_master-HoldsVnids_example :
    (v : MasterVnidMap list_bitmap) × (some vnids ≡ some v)
    × HoldsVnids list_bitmap_laws configured 0 v
    × Vnids.IsValid list_bitmap_laws
        (master_run list_bitmap configured (record { vnids = v; store = 0 }) []).vnids
start_master-HoldsVnids_example =
    start_master-HoldsVnids list_bitmap_laws configured 0 master config 0 []
      configured-HoldsAssignable refl config_multitenant started tt

-- The subnet of the node.
abbrev node_subnet : IpNet
node_subnet = record { ip = 167838720; bits = 24 }

node_subnet-AreSubnets : AreSubnets master.allocator (node_subnet ∷ [])
unfolding gen_subnet k8s_ovs.Snalloc.num_subnets
node_subnet-AreSubnets = ((4, omega arith, refl), tt)

node_subnet_text : net_to_string node_subnet ≡ codes "10.1.4.0/24"
unfolding net_to_string
node_subnet_text = refl

start_master-AllApart_example :
    IsValid master.allocator
    × AllApart (after_calls (get ∷ get ∷ []) master.allocator (node_subnet ∷ [])).1
start_master-AllApart_example =
    start_master-AllApart list_bitmap_laws configured 0 master
      (record {
        host = codes "n1";
        host_ip = codes "192.168.0.2";
        subnet = codes "10.1.4.0/24";
        assign = true;
      }
        ∷ [])
      (node_subnet ∷ []) (get ∷ get ∷ []) started refl node_subnet-AreSubnets
      (inl node_subnet_text, tt) (tt, tt)
