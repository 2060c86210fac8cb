-- ===== src/Node/Laws.antt =====
-- ksdn/node.go and ksdn/master.go: the split of the pods, and what a start leaves behind.
use mathlib.Core.Path.{subst}
use k8s_ovs.Base.{
  sym, lookup, Bool-cases, ℕ, ◌≡◌, ap, ◌∙◌, inl, inr, Bool, true, ok, Option, some, List, Text,
  text_dec, arith, Result-cases, Distinct, map,
}
use k8s_ovs.Base.Actions.{Action, ◌>>=◌, pure, >>=-ok_cases}
use k8s_ovs.Etcd.{EtcdManager, ClusterNetwork, NetNamespace, HostSubnet}
use k8s_ovs.IpNet.{IpNet, net_to_string}
use k8s_ovs.MasterVnids.{populate_all, MasterVnidMap}
use k8s_ovs.MasterVnids.Invariant as Vnids
use k8s_ovs.MasterVnids.Populate.{
  Assignable, pairs, populate_all-IsValid, new_master_vnid_map-ok, empty_map,
}
use k8s_ovs.MasterVnids.Sync.{Input, master_run, populate_vnids}
use k8s_ovs.MasterVnids.Sync.Run.{AllProper, run-IsValid}
use k8s_ovs.NetType.{is_kovs_network_plugin, is_multitenant_network_plugin, parse_network_info}
use k8s_ovs.Node.Start.{
  MasterState, vnid_start_master, start_known_master, started_if, start_master,
}
use k8s_ovs.Snalloc.{SubnetAllocator, new_subnet_allocator}
use k8s_ovs.Snalloc.Held.{AllApart}
use k8s_ovs.Snalloc.History.{Call, after_calls, after_calls-AllApart}
use k8s_ovs.Snalloc.InUse.{AreSubnets, AllListed}
use k8s_ovs.Snalloc.Search.{IsValid}
use k8s_ovs.Snalloc.Laws.{new_subnet_allocator-IsValid}
use k8s_ovs.Subnets.{NetworkInfo, subnet_start_master}
use k8s_ovs.Vnid.Bitmap.{Bitmap, BitmapLaws}

ok_injective : {A : Type 0} {a c : A} → ok a ≡ ok c → a ≡ c
ok_injective e = ground (arith, e)

some_injective : {A : Type 0} {a c : A} → some a ≡ some c → a ≡ c
some_injective e = ground (arith, e)

module _ {b : Bitmap} (laws : BitmapLaws b) (e : EtcdManager) where
  -- etcd answers with net namespaces of distinct names, with ids that can be handed out.
  abbrev pub HoldsAssignable : Type 0
  HoldsAssignable =
      (s : e.Store) (l : List NetNamespace)
      → (e.get_net_namespaces s).1 ≡ ok l
      → Distinct text_dec (pairs l) × Assignable l

  -- A map of VNIDs that agrees with the net namespaces that etcd answered with in a world, and is
  -- valid.
  abbrev pub HoldsVnids : e.Store → MasterVnidMap b → Type 0
  HoldsVnids s v =
      Vnids.IsValid laws v
      × ((l : List NetNamespace) × ((e.get_net_namespaces s).1 ≡ ok l)
          × ((name : Text) → lookup text_dec name v.ids ≡ lookup text_dec name (pairs l)))

  vnid_start_master-HoldsVnids :
      (s : e.Store) (o : Option (MasterVnidMap b))
      → HoldsAssignable
      → (vnid_start_master b e true s).1 ≡ ok o
      → (v : MasterVnidMap b) × (o ≡ some v) × HoldsVnids s v
  unfolding vnid_start_master populate_vnids
  vnid_start_master-HoldsVnids s o h done = elim (Result-cases (e.get_net_namespaces s).1) [
    | inr (x, failed) ↦ absurd (ground (arith, failed, done, new_master_vnid_map-ok b))
    | inl (l, listed) ↦
        let (names, ids) = h s l listed in
        let start = new_master_vnid_map-ok b in
        let (populated, valid, told) = populate_all-IsValid laws (empty_map b) l start names ids in
        let v = (populate_all b (empty_map b) l).0 in
        let same : o ≡ some v = ground (arith, start, listed, populated, done) in
        (v, same, (valid, (l, listed, told)))
  ]

  subnet_start_master_lem :
      (network : Text) (bits : ℕ) (s : e.Store) (a : SubnetAllocator)
      → (subnet_start_master e network bits s).1 ≡ ok a
      → (l : List HostSubnet) × ((e.get_subnets s).1 ≡ ok l)
        × (new_subnet_allocator network bits (map (λ (t : HostSubnet). t.subnet) l) ≡ ok a)
  unfolding subnet_start_master
  subnet_start_master_lem network bits s a done = elim (Result-cases (e.get_subnets s).1) [
    | inr (x, failed) ↦ absurd (ground (arith, failed, done))
    | inl (l, listed) ↦ (l, listed, ground (arith, listed, done))
  ]

  -- What a start has done: which network it has read, and where its parts come from.
  record IsStarted (s : e.Store) (m : MasterState b) (config : ClusterNetwork) : Type 0 where
    kovs : is_kovs_network_plugin config.plugin_name ≡ true
    allocated :
        (subnet_start_master e
          (net_to_string m.network_info.cluster_network)
          config.host_subnet_length
          s).1
        ≡ ok m.allocator
    numbered :
        (vnid_start_master b e
          (is_multitenant_network_plugin config.plugin_name)
          (subnet_start_master e
            (net_to_string m.network_info.cluster_network)
            config.host_subnet_length
            s).0).1
        ≡ ok m.vnids

  start_known_master-IsStarted :
      (config : ClusterNetwork) (s : e.Store) (m : MasterState b)
      → is_kovs_network_plugin config.plugin_name ≡ true
      → (start_known_master b e config s).1 ≡ ok m
      → IsStarted s m config
  unfolding start_known_master
  start_known_master-IsStarted config s m kovs done =
      let multitenant = is_multitenant_network_plugin config.plugin_name in
      let parse : Action e.Store NetworkInfo = λ t. (t, parse_network_info config) in
      let allocators = λ (ni : NetworkInfo).
        subnet_start_master e (net_to_string ni.cluster_network) config.host_subnet_length in
      let f3 = λ (ni : NetworkInfo) (a : SubnetAllocator) (v : Option (MasterVnidMap b)).
        pure {W = e.Store} {A = MasterState b}
          (record { network_info = ni; allocator = a; vnids = v }) in
      let f2 =
        λ (ni : NetworkInfo) (a : SubnetAllocator). vnid_start_master b e multitenant >>= f3 ni a in
      let (ni, parsed, e1) = >>=-ok_cases parse (λ ni. allocators ni >>= f2 ni) s m done in
      let (a, allocated, e2) = >>=-ok_cases (allocators ni) (f2 ni) s m e1 in
      let s' = (allocators ni s).0 in
      let (v, populated, e3) = >>=-ok_cases (vnid_start_master b e multitenant) (f3 ni a) s' m e2 in
      let built : record { network_info = ni; allocator = a; vnids = v } ≡ m = ok_injective e3 in
      subst (λ (n : MasterState b). IsStarted s n config) built
        (record { kovs = kovs; allocated = allocated; numbered = populated })

  started_if-IsStarted :
      (config : ClusterNetwork) (s : e.Store) (m : MasterState b)
      → (started_if b e (is_kovs_network_plugin config.plugin_name) config s).1 ≡ ok (some m)
      → IsStarted s m config
  unfolding started_if
  started_if-IsStarted config s m done =
      elim (Bool-cases (is_kovs_network_plugin config.plugin_name)) [
        | inr unknown ↦ absurd (ground (arith, unknown, done))
        | inl known ↦
            let answer =
              λ (n : MasterState b). pure {W = e.Store} {A = Option (MasterState b)} (some n) in
            let done' : ((start_known_master b e config >>= answer) s).1 ≡ ok (some m) =
              ground (arith, known, done) in
            let (n, started, e1) =
              >>=-ok_cases (start_known_master b e config) answer s (some m) done' in
            let same : n ≡ m = some_injective (ok_injective e1) in
            start_known_master-IsStarted config s m known (started ∙ ap ok same)
      ]

  start_master-IsStarted :
      (s : e.Store) (m : MasterState b)
      → (start_master b e s).1 ≡ ok (some m)
      → (config : ClusterNetwork) × ((e.get_network_config s).1 ≡ ok config)
        × IsStarted (e.get_network_config s).0 m config
  unfolding start_master
  start_master-IsStarted s m done =
      let choose = λ (config : ClusterNetwork).
        started_if b e (is_kovs_network_plugin config.plugin_name) config in
      let (config, read, e1) = >>=-ok_cases e.get_network_config choose s (some m) done in
      (config, read, started_if-IsStarted config (e.get_network_config s).0 m e1)

  subnet_start_master-store :
      (network : Text) (bits : ℕ) (s : e.Store)
      → (subnet_start_master e network bits s).0 ≡ (e.get_subnets s).0
  unfolding subnet_start_master
  subnet_start_master-store network bits s = elim (Result-cases (e.get_subnets s).1) [
    | inr (x, failed) ↦ ground (arith, failed)
    | inl (l, listed) ↦ ground (arith, listed)
  ]

  -- A master that starts has a valid allocator, which knows the subnets that etcd answered with:
  -- take some of these that are subnets of its own numbers, so of its own network and size, and
  -- share no address; after any calls of `GetNetwork` and `ReleaseNetwork`, no two of them and of
  -- those handed out since, less the released ones, share an address.
  pub start_master-AllApart :
      (s : e.Store) (m : MasterState b) (l : List HostSubnet) (held : List IpNet)
      (calls : List Call)
      → (start_master b e s).1 ≡ ok (some m)
      → (e.get_subnets (e.get_network_config s).0).1 ≡ ok l
      → AreSubnets m.allocator held
      → AllListed (map (λ (t : HostSubnet). t.subnet) l) held
      → AllApart held
      → IsValid m.allocator × AllApart (after_calls calls m.allocator held).1
  start_master-AllApart s m l held calls started listed subnets all_listed apart =
      let (config, read, done) = start_master-IsStarted s m started in
      let s1 = (e.get_network_config s).0 in
      let network = net_to_string m.network_info.cluster_network in
      let bits = config.host_subnet_length in
      let (l', listed', built) =
        subnet_start_master_lem network bits s1 m.allocator done.allocated in
      let same : l' ≡ l = ok_injective (sym listed' ∙ listed) in
      let in_use = map (λ (t : HostSubnet). t.subnet) l' in
      (
        new_subnet_allocator-IsValid network bits in_use m.allocator built,
        after_calls-AllApart network bits in_use m.allocator held calls built subnets
            (subst (λ k. AllListed (map (λ (t : HostSubnet). t.subnet) k) held) (sym same)
              all_listed)
            apart,
      )

  -- A master that starts with the multitenant plugin has a map of VNIDs. If etcd only ever answers
  -- with net namespaces of distinct names whose ids are the global one or lie between MinVNID and
  -- MaxVNID, then each namespace has in the map exactly the id that etcd answered with, and after
  -- every history without a join of a namespace with itself, the map is valid.
  pub start_master-HoldsVnids :
      (s : e.Store) (m : MasterState b) (config : ClusterNetwork) (store : e.Store) (l : List Input)
      → HoldsAssignable
      → (e.get_network_config s).1 ≡ ok config
      → is_multitenant_network_plugin config.plugin_name ≡ true
      → (start_master b e s).1 ≡ ok (some m)
      → AllProper l
      → (v : MasterVnidMap b) × (m.vnids ≡ some v)
        × HoldsVnids (e.get_subnets (e.get_network_config s).0).0 v
        × Vnids.IsValid laws (master_run b e (record { vnids = v; store = store }) l).vnids
  start_master-HoldsVnids s m config store l h read multitenant started proper =
      let (config', read', done) = start_master-IsStarted s m started in
      let same : config' ≡ config = ok_injective (sym read' ∙ read) in
      let s1 = (e.get_network_config s).0 in
      let s2 = (e.get_subnets s1).0 in
      let network = net_to_string m.network_info.cluster_network in
      let plugin : is_multitenant_network_plugin config'.plugin_name ≡ true =
        ap (λ (c : ClusterNetwork). is_multitenant_network_plugin c.plugin_name) same
        ∙ multitenant in
      let numbered : (vnid_start_master b e true s2).1 ≡ ok m.vnids =
        sym (
          ap (λ (t : e.Store). (vnid_start_master b e true t).1)
            (subnet_start_master-store network config'.host_subnet_length s1))
        ∙ sym (
            ap
              (λ (k : Bool).
                (vnid_start_master b e k
                  (subnet_start_master e network config'.host_subnet_length s1).0).1)
              plugin)
        ∙ done.numbered in
      let (v, has, holds) = vnid_start_master-HoldsVnids s2 m.vnids h numbered in
      (v, has, holds, run-IsValid laws e (record { vnids = v; store = store }) l proper holds.0)
