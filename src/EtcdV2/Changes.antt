-- ===== src/EtcdV2/Changes.antt =====
-- pkg/etcdmanager/etcdv2/registry.go: the calls that change something, and what is read after them.
use k8s_ovs.Base.{ap, sym, ◌≡◌, ◌≢◌, Result, [], ◌∷◌, Text, codes}
use k8s_ovs.Etcd.{ClusterNetwork, HostSubnet, NetNamespace}
use k8s_ovs.EtcdV2.{Registry}
use k8s_ovs.EtcdV2.KeyStore.{
  KeysApi, Codec, join_path, prev_no_exist, prev_index, etcd_subnet_registry,
}
use k8s_ovs.EtcdV2.Paths.{join_path_injective, join_path_apart}
use k8s_ovs.EtcdV2.Stored.{
  value_of, item_of, IsKeyStore, ReadsBack, AfterWrite, AfterDelete, write-AfterWrite,
  delete-AfterDelete, write_node_other, read_node_same,
}

-- The calls of the registry that change something, and what the registry keeps.
pub data Change : Type 0 where
  subnet_created subnet_updated : Text → HostSubnet → Change
  subnet_deleted : Text → Change
  netns_created netns_updated : Text → NetNamespace → Change
  netns_deleted : Text → Change

pub data Item : Type 0 where
  subnet_of netns_of : Text → Item

abbrev pub target : Change → Item
target (subnet_created host s) = subnet_of host
target (subnet_updated host s) = subnet_of host
target (subnet_deleted host) = subnet_of host
target (netns_created name n) = netns_of name
target (netns_updated name n) = netns_of name
target (netns_deleted name) = netns_of name

abbrev pub change : (r : Registry) → Change → r.Store → r.Store × Result (Unit {0})
change r (subnet_created host s) = r.create_subnet host s
change r (subnet_updated host s) = r.update_subnet host s
change r (subnet_deleted host) = r.delete_subnet host
change r (netns_created name n) = r.create_net_namespace name n
change r (netns_updated name n) = r.update_net_namespace name n
change r (netns_deleted name) = r.delete_net_namespace name

-- What the registry reads where it has changed something, if the call succeeded.
abbrev pub AfterChange : (r : Registry) → Change → r.Store × Result (Unit {0}) → Type 0
AfterChange r (subnet_created host s) after = AfterWrite s after (λ v. (r.get_subnet host v).1)
AfterChange r (subnet_updated host s) after = AfterWrite s after (λ v. (r.get_subnet host v).1)
AfterChange r (subnet_deleted host) after = AfterDelete after (λ v. (r.get_subnet host v).1)
AfterChange r (netns_created name n) after =
    AfterWrite n after (λ v. (r.get_net_namespace name v).1)
AfterChange r (netns_updated name n) after =
    AfterWrite n after (λ v. (r.get_net_namespace name v).1)
AfterChange r (netns_deleted name) after = AfterDelete after (λ v. (r.get_net_namespace name v).1)

abbrev key_of : Text → Text → Item → Text
key_of prefix network (subnet_of host) = join_path (prefix ∷ network ∷ codes "subnets" ∷ host ∷ [])
key_of prefix network (netns_of name) =
    join_path (prefix ∷ network ∷ codes "netnamespaces" ∷ name ∷ [])

key_of_apart :
    (prefix network : Text) (i j : Item) → i ≢ j → key_of prefix network i ≢ key_of prefix network j
key_of_apart prefix network (subnet_of a) (subnet_of b) ne e =
    ne (ap subnet_of (join_path_injective prefix network (codes "subnets") a b e))
key_of_apart prefix network (subnet_of a) (netns_of b) ne e = join_path_apart prefix network a b e
key_of_apart prefix network (netns_of a) (subnet_of b) ne e =
    join_path_apart prefix network b a (sym e)
key_of_apart prefix network (netns_of a) (netns_of b) ne e =
    ne (ap netns_of (join_path_injective prefix network (codes "netnamespaces") a b e))

module _ {k : KeysApi} (laws : IsKeyStore k) where
  module _ (config : Codec ClusterNetwork) (subnet : Codec HostSubnet) (netns : Codec NetNamespace)
      (prefix network : Text) where
    abbrev pub stored : Registry
    stored = etcd_subnet_registry k config subnet netns prefix network

    stored-AfterChange :
        (c : Change) (w : k.Store)
        → ReadsBack subnet
        → ReadsBack netns
        → AfterChange stored c (change stored c w)
    stored-AfterChange (subnet_created host s) w back back' =
        write-AfterWrite laws subnet (key_of prefix network (subnet_of host)) s prev_no_exist w back
    stored-AfterChange (subnet_updated host s) w back back' =
        write-AfterWrite laws subnet (key_of prefix network (subnet_of host)) s (prev_index 0) w
          back
    stored-AfterChange (subnet_deleted host) w back back' =
        delete-AfterDelete laws subnet (key_of prefix network (subnet_of host)) w
    stored-AfterChange (netns_created name n) w back back' =
        write-AfterWrite laws netns (key_of prefix network (netns_of name)) n prev_no_exist w back'
    stored-AfterChange (netns_updated name n) w back back' =
        write-AfterWrite laws netns (key_of prefix network (netns_of name)) n (prev_index 0) w back'
    stored-AfterChange (netns_deleted name) w back back' =
        delete-AfterDelete laws netns (key_of prefix network (netns_of name)) w

    -- A change leaves the values of all other keys.
    change_other :
        (c : Change) (i : Item) (w : k.Store)
        → target c ≢ i
        → let key = key_of prefix network i in
          value_of (k.get key (change stored c w).0).1 ≡ value_of (k.get key w).1
    change_other c i w ne =
        let apart = key_of_apart prefix network (target c) i ne in
        let to = key_of prefix network i in at c to w apart
      where
        at :
            (c : Change) (to : Text) (w : k.Store)
            → key_of prefix network (target c) ≢ to
            → value_of (k.get to (change stored c w).0).1 ≡ value_of (k.get to w).1
        at (subnet_created host s) to w ne = write_node_other laws subnet _ to s prev_no_exist w ne
        at (subnet_updated host s) to w ne = write_node_other laws subnet _ to s (prev_index 0) w ne
        at (subnet_deleted host) to w ne = laws.get_delete_other _ to w ne
        at (netns_created name n) to w ne = write_node_other laws netns _ to n prev_no_exist w ne
        at (netns_updated name n) to w ne = write_node_other laws netns _ to n (prev_index 0) w ne
        at (netns_deleted name) to w ne = laws.get_delete_other _ to w ne

    -- If the JSON codecs read back what they write, and etcd keeps its keys as it documents, then
    -- after a create or an update of a subnet or of a net namespace that succeeds, the registry
    -- reads under the same name exactly what was written, and after a delete that succeeds it
    -- answers that the key was not found. Whether the call succeeds or not, the subnet of every
    -- other host and every other net namespace reads as before, up to the index of the answer.
    -- Names are taken to be clean elements of a path.
    pub registry-AfterChange :
        (c : Change) (host name : Text) (w : k.Store)
        → ReadsBack subnet
        → ReadsBack netns
        → target c ≢ subnet_of host
        → target c ≢ netns_of name
        → let after = change stored c w in
          AfterChange stored c after
          × (item_of (stored.get_subnet host after.0).1 ≡ item_of (stored.get_subnet host w).1)
          × (item_of (stored.get_net_namespace name after.0).1
              ≡ item_of (stored.get_net_namespace name w).1)
    registry-AfterChange c host name w back back' other other' = (
      stored-AfterChange c w back back',
      read_node_same subnet _ _ (change_other c (subnet_of host) w other),
      read_node_same netns _ _ (change_other c (netns_of name) w other'),
    )
