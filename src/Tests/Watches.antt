-- ===== src/Tests/Watches.antt =====
-- The watchers, and the master's subnets.
use mathlib.Core.Path.{subst}
use mathlib.Core.List.{Mem, not-mem-nil, mem_of_ne_of_mem}
use k8s_ovs.Base.{
  ℕ, ◌≡◌, ◌⊎◌, ◌-◌, refl, true, false, Result, ok, Option, some, List, [], ◌∷◌, Text, codes,
  text_dec, lookup, arith,
}
use k8s_ovs.Etcd.{Event, HostSubnet, NetNamespace, event_added, event_removed}
use k8s_ovs.EventQueue.{added}
use k8s_ovs.IpNet.{parse_cidr, net_to_string}
use k8s_ovs.Snalloc.{is_allocated}
use k8s_ovs.Snalloc.Search.{IsValid}
use k8s_ovs.Watch.{net_ns_reset, net_ns_update, net_ns_event, subnet_event}
use k8s_ovs.Watch.Counts.{count}
use k8s_ovs.Watch.Diff.{times_added, times_removed, net_ns_reset-times}
use k8s_ovs.Watch.Held.{settled, net_ns_update-count}
use k8s_ovs.Subnets.{NetworkInfo, SubnetMaster, master_handle_subnet_event}
use k8s_ovs.Subnets.NodeWatch.{Node, get_node_ip, watch_node, is_valid_node_ip}
use k8s_ovs.Subnets.Leases.{Keeps, Frees, master_handle_subnet_event-keeps}
use k8s_ovs.Subnets.NodeLaws.{watch_node-Keeps, watch_node-recorded}
use k8s_ovs.Tests.Data.{etcd}
use k8s_ovs.Tests.Allocators.{subnets, subnets-IsValid}

abbrev net_name_of : NetNamespace → Text
net_name_of n = n.net_name

abbrev net_ns_of : Event → NetNamespace
net_ns_of e = e.net_ns

abbrev host_of : HostSubnet → Text
host_of s = s.host

abbrev subnet_of : Event → HostSubnet
subnet_of e = e.subnet

abbrev ns : Text → ℕ → NetNamespace
ns name id = record { net_name = name; net_id = id; action = []; namespace = [] }

abbrev leased : Text → HostSubnet
leased host = record { host = host; host_ip = host; subnet = codes "10.1.1.0/24"; assign = false }

net_ns_reset-times_example :
    ((net_ns_reset (ns (codes "a") 10 ∷ []) (ns (codes "b") 11 ∷ [])).0 ≡ ns (codes "b") 11 ∷ [])
    × (times_added net_name_of net_ns_of
          (codes "b")
          (net_ns_reset (ns (codes "a") 10 ∷ []) (ns (codes "b") 11 ∷ [])).1
        ≡ count net_name_of (codes "b") (ns (codes "b") 11 ∷ [])
          - count net_name_of (codes "b") (ns (codes "a") 10 ∷ []))
    × (times_removed net_name_of net_ns_of
          (codes "b")
          (net_ns_reset (ns (codes "a") 10 ∷ []) (ns (codes "b") 11 ∷ [])).1
        ≡ count net_name_of (codes "b") (ns (codes "a") 10 ∷ [])
          - count net_name_of (codes "b") (ns (codes "b") 11 ∷ []))
net_ns_reset-times_example =
    net_ns_reset-times (codes "b") (ns (codes "a") 10 ∷ []) (ns (codes "b") 11 ∷ [])

net_ns_update-count_example :
    count net_name_of
      (codes "a")
      (net_ns_update [] (net_ns_event event_added (ns (codes "a") 10) ∷ [])).0
    ≡ settled net_name_of net_ns_of
        (codes "a")
        (net_ns_event event_added (ns (codes "a") 10) ∷ [])
        (count net_name_of (codes "a") [])
net_ns_update-count_example =
    net_ns_update-count (net_ns_event event_added (ns (codes "a") 10) ∷ []) [] (λ name. omega arith)
      (codes "a")

abbrev info : NetworkInfo
info = record {
  cluster_network = subnets.network;
  service_network = record { ip = 2887647232; bits = 16 };
}

abbrev subnet_master : SubnetMaster (etcd (ok tt))
subnet_master = record { allocator = subnets; store = 0 }

-- Another host's subnet goes.
abbrev gone : Event
gone = subnet_event event_removed (leased (codes "192.168.0.2"))

in_use : is_allocated subnets.alloc_map (codes "10.1.0.0/24") ≡ true
unfolding is_allocated lookup text_dec
in_use = refl

gone_net : parse_cidr (codes "10.1.1.0/24") ≡ some (record { ip = 167837952; bits = 24 })
unfolding parse_cidr
gone_net = refl

gone_printed : net_to_string (record { ip = 167837952; bits = 24 }) ≡ codes "10.1.1.0/24"
unfolding net_to_string
gone_printed = refl

gone-Frees : ¬ Frees gone (codes "10.1.0.0/24")
gone-Frees (typed, given, (n, parsed, printed)) =
    let same : n ≡ record { ip = 167837952; bits = 24 } = ground (arith, gone_net, parsed) in
    ground (arith, gone_printed, (rw same at printed))

gone_alone : (evt : Event) → Mem evt (gone ∷ []) → ¬ Frees evt (codes "10.1.0.0/24")
gone_alone evt i frees = not-mem-nil (
    mem_of_ne_of_mem
      (λ e. gone-Frees (subst (λ (k : Event). Frees k (codes "10.1.0.0/24")) e frees)) i)

master_handle_subnet_event-keeps_example :
    IsValid (master_handle_subnet_event (etcd (ok tt)) info subnet_master (gone ∷ [])).allocator
    × (is_allocated
          (master_handle_subnet_event
            (etcd (ok tt))
            info
            subnet_master
            (gone ∷ [])).allocator.alloc_map
          (codes "10.1.0.0/24")
        ≡ true)
master_handle_subnet_event-keeps_example =
    master_handle_subnet_event-keeps info (gone ∷ []) subnet_master (codes "10.1.0.0/24")
      subnets-IsValid gone_alone in_use

abbrev node : Node
node = record { name = codes "n1"; uid = codes "u1"; addresses = codes "192.168.0.1" ∷ [] }

abbrev unresolved : Text → Result (List (Option ℕ))
unresolved name = ok []

watch_node-Keeps_example :
    Keeps subnets
      (watch_node (etcd (ok tt)) info unresolved added node [] subnet_master).0.1.allocator
watch_node-Keeps_example =
    watch_node-Keeps info unresolved added node [] subnet_master subnets-IsValid

node_ip : get_node_ip unresolved node ≡ ok (codes "192.168.0.1")
unfolding get_node_ip
node_ip = refl

node_handled : (watch_node (etcd (ok tt)) info unresolved added node [] subnet_master).1 ≡ ok tt
unfolding watch_node lookup
node_handled = refl

watch_node-recorded_example :
    (a : Text) × (lookup text_dec
        (codes "u1")
        (watch_node (etcd (ok tt)) info unresolved added node [] subnet_master).0.0
      ≡ some a)
    × ((a ≡ codes "192.168.0.1") ⊎ (is_valid_node_ip node.addresses a ≡ true))
watch_node-recorded_example =
    watch_node-recorded info unresolved added node (codes "192.168.0.1") [] subnet_master
      (λ e. ground (arith, e)) node_ip node_handled
