-- ===== src/Lib.antt =====
-- A model of k8s-ovs, an overlay network for Kubernetes on Open vSwitch, and what it guarantees.
--
-- A master assigns a VNID to each namespace and a subnet to each node, and keeps both in etcd. The
-- nodes watch etcd and the API server and turn what they see into OpenFlow rules.
--
-- Base: Go's strings as byte lists, decimal numbers, maps as association lists, errors and results.
--   `Base.Actions`: actions on a world that answer with a result, how they compose, and `defer`.
-- Vnid: pkg/vnid. `Vnid.Range` is netid/netid.go over 32-bit words with their wrap-around, and
--   `Vnid.Allocator` is netid/allocator.go. The bitmap of the Kubernetes service registry is the
--   parameter `Vnid.Bitmap`, with laws for what it documents; `Vnid.ListBitmap` meets them.
-- MasterVnids: ksdn/vnids_master.go, `masterVNIDMap`: the ids of the namespaces and the allocator.
--   `MasterVnids.Sync` adds etcd: `assignVNID`, `updateVNID`, `revokeVNID` and the handlers of the two
--   watches. The lock orders their calls, so a history is a list of handled inputs.
-- Etcd: pkg/etcdmanager/config.go: the objects in etcd, the events, and the interface to etcd, of which
--   no law is assumed.
-- EtcdV2: pkg/etcdmanager/etcdv2/manager.go, an implementation of that interface over a registry.
--   `EtcdV2.KeyStore` is the registry, registry.go; the etcd client and the JSON codec are parameters,
--   with laws in `EtcdV2.Stored`.
-- Watch: pkg/etcdmanager/watch.go. The source writes the watcher twice, for subnets and for net
--   namespaces; the model writes it once over the type of item, with the two as instances. A loop is run
--   for a number of rounds, each one answer of etcd; it has no bound in the source.
-- EventQueue: ksdn/eventqueue.go: the compression of the deltas of an object and the loop of `Pop`.
--   `none` stands for a panic. The store of known objects is a parameter with laws.
-- IpNet, Snalloc: IPv4 networks, and pkg/snalloc/subnet_allocator.go. The search of `GetNetwork` runs
--   once for each number of a subnet, which is its own bound. `Snalloc.Bits`, `Rotation`, `Layout` and
--   `Placed` turn its shifts and masks, on 32 bits, into arithmetic.
-- Subnets: ksdn/subnets.go: `addNode` and `masterHandleSubnetEvent`; `Subnets.NodeWatch` is `watchNodes`,
--   with the resolver as a parameter, and `Subnets.Node` is `nodeHandleSubnetEvent`.
-- Ovs: pkg/ovs/ovs.go, over an interface that runs commands in a world.
-- Rules: the rules of remote subnets and services in ksdn/controller.go.
-- NodeVnids: ksdn/vnids_node.go: a node's two maps; `NodeVnids.Netns` and `NodeVnids.Services` are the
--   handlers of its watches. Sets of strings are a parameter with laws, which `NodeVnids.ListSets`
--   meets. `WaitAndGetVNID` tries five times, as its backoff does; the maps that the tries find are an
--   argument.
-- IpCmd: pkg/ipcmd/ipcmd.go: a transaction of ip commands, whose first error sticks, over the same
--   interface to commands as Ovs. `addressRegexp` is written out as the scan it describes.
-- Setup: ksdn/controller.go up to line 325: what `alreadySetUp` looks for, the flows, and in `Setup.Run`
--   the whole of `SetupSDN`. Directories, files, kernel settings and the passing of time are parameters
--   (`Host`). `deleteLocalSubnetRoute` tries six times, as its backoff does.
--   `Setup.Untouched` and `Setup.Unversioned` are laws of what the commands leave alone and of what a
--   bridge added anew lacks.
-- Pods: ksdn/pod.go and ksdn/pod_linux.go. Docker, the network namespaces, the links and the IPAM plugin
--   are the interface `PodHost`; `Pods.Leases` states what the plugin documents of its leases, and a
--   concrete host meets it. The manager's queue is a list of requests that are handled in turn, as its
--   one goroutine does.
-- Cni: cniserver/cniserver.go: from the environment of a request to the request for the pod manager.
--   `Cni.Client` is the plugin, cniclient/k8s-ovs.go, over an interface to JSON and HTTP, and
--   `Cni.Served` puts the two together.
-- IpTables: ksdn/node_iptables.go, over an interface to iptables. `syncLoop` is run for a number of
--   ticks.
-- NetType: pkg/nettype. Node: ksdn/node.go and ksdn/master.go: the order of the steps of start-up and
--   where an error stops it.
-- Tests: the results at concrete inputs.
--
-- Locks, goroutines, channels, sleeping and logging are not modelled; an error is a value, with the
-- constant part of its message. Addresses are IPv4. Not modelled: leader election,
-- the loop that serves the CNI socket, and main.go with its flags, all of them calls into
-- libraries; and the goroutines that the start-up spawns, whose bodies the other modules model.
pub mod Base
pub mod Ovs
pub mod Rules
pub mod Vnid
pub mod Etcd
pub mod EtcdV2
pub mod EventQueue
pub mod MasterVnids
pub mod NodeVnids
pub mod Watch
pub mod Cni
pub mod IpCmd
pub mod IpNet
pub mod IpTables
pub mod NetType
pub mod Node
pub mod Pods
pub mod Setup
pub mod Snalloc
pub mod Subnets
pub mod Tests
