-- ===== src/Tests/Backend.antt =====
-- The etcd manager, over registries that answer one thing.
use k8s_ovs.Base.{
  zero, suc, Bool, false, etcd_error, Option, lookup, insert, delete, lookup-insert, lookup-delete,
  ap, ◌∙◌, if_pos, if_neg, text_dec, arith, codes, Text, ◌∷◌, ℕ, ◌≡◌, ◌≢◌, refl, true, Result, ok,
  err, canceled, message, none, some, List, [],
}
use k8s_ovs.Etcd.{HostSubnet, NetNamespace}
use k8s_ovs.Watch.{Watching}
use k8s_ovs.EtcdV2.{Registry, watch_cursor, manager}
use k8s_ovs.EtcdV2.KeyStore.{KeysApi, Codec, Response, is_deletion}
use k8s_ovs.EtcdV2.Deletions.{NamesKept, SubnetsKept, deletion_unmatched}
use k8s_ovs.EtcdV2.Stored.{ReadsBack, IsKeyStore, value_of, item_of}
use k8s_ovs.EtcdV2.Changes.{
  Change, subnet_created, netns_updated, change, AfterChange, stored, registry-AfterChange,
}
use k8s_ovs.EtcdV2.Laws.{net_ns_round, net_ns_round_unending}

abbrev registry : Result (List NetNamespace × ℕ) → Registry
registry answer = record {
  Store = ℕ;
  get_network_config = λ w. (w, ok []);
  parse_cluster_net_config = λ s. err (message "none");
  get_subnets = λ w. (w, ok ([], 1));
  get_net_namespaces = λ w. (w, answer);
  get_subnet = λ host w. (w, err (message "none"));
  get_net_namespace = λ name w. (w, err (message "none"));
  create_subnet = λ host s w. (w, ok tt);
  create_net_namespace = λ name n w. (w, ok tt);
  update_subnet = λ host s w. (w, ok tt);
  update_net_namespace = λ name n w. (w, ok tt);
  delete_subnet = λ host w. (w, ok tt);
  delete_net_namespace = λ name w. (w, ok tt);
  watch_subnets = λ i w. (w, err (message "none"));
  watch_net_namespaces = λ i w. (w, err (message "none"));
}

abbrev before : (r : Registry) → r.Store → Watching (manager r) NetNamespace
before r w = record { cursor = none; held = []; store = w }

abbrev after : Watching (manager (registry (ok ([], 5)))) NetNamespace
after = record { cursor = some (watch_cursor 5); held = []; store = 0 }

first_round :
    net_ns_round (registry (ok ([], 5))) (before (registry (ok ([], 5))) 0) ≡ some (after, [])
unfolding k8s_ovs.Watch.watch_round k8s_ovs.EtcdV2.watch_items k8s_ovs.Watch.net_ns_reset
first_round = refl

-- The watch is canceled before it has a cursor.
net_ns_round_unending_example :
    net_ns_round (registry (err canceled)) (before (registry (err canceled)) 0) ≢ none
net_ns_round_unending_example =
    net_ns_round_unending (registry (err canceled)) (before (registry (err canceled)) 0) refl

-- A codec of the net namespaces without a request.
abbrev plain_marshal : Text → Text → Text → ℕ → Result Text
plain_marshal name [] [] id = ok (id ∷ name)
plain_marshal name [] (c ∷ s) id = err (message "a request")
plain_marshal name (c ∷ s) args id = err (message "a request")

abbrev plain_unmarshal : Text → Result NetNamespace
plain_unmarshal [] = err (message "empty")
plain_unmarshal (id ∷ name) =
    ok (record { net_name = name; net_id = id; action = []; namespace = [] })

abbrev plain : Codec NetNamespace
plain = record {
  marshal = λ n. plain_marshal n.net_name n.action n.namespace n.net_id;
  unmarshal = plain_unmarshal;
}

plain-ReadsBack : ReadsBack plain
plain-ReadsBack n value h = back n.net_name n.action n.namespace n.net_id value h
  where
    back :
        (name action args : Text) (id : ℕ) (value : Text)
        → plain_marshal name action args id ≡ ok value
        → plain_unmarshal value
          ≡ ok (record { net_name = name; net_id = id; action = action; namespace = args })
    back name [] [] id value h = ground (arith, h)
    back name [] (c ∷ s) id value h = ground (arith, h)
    back name (c ∷ s) args id value h = ground (arith, h)

abbrev nothing : {A : Type 0} → Codec A
nothing = record { marshal = λ a. err (message "none"); unmarshal = λ s. err (message "none") }

abbrev listing : Response
listing = record {
  action = codes "get";
  key = codes "/netnamespaces";
  value = [];
  nodes = (10 ∷ codes "a") ∷ [];
  index = 7;
  modified_index = 3;
}

-- The deletion of a net namespace that the watcher holds.
abbrev deletion : Response
deletion = record listing {
  action = codes "delete";
  key = codes "/k8s.ovs.com/net/netnamespaces/a";
}

abbrev held_names : List NetNamespace
held_names = record { net_name = codes "a"; net_id = 10; action = []; namespace = [] } ∷ []

is_deleted : is_deletion deletion.action ≡ true
unfolding is_deletion
is_deleted = refl

deletion_unmatched_example : NamesKept plain deletion held_names × SubnetsKept nothing deletion []
deletion_unmatched_example =
    deletion_unmatched plain nothing deletion (codes "k8s.ovs.com/net/netnamespaces/a") held_names
      [] is_deleted refl (λ path e. ground (arith, e), tt) tt

-- A codec of the subnets that are only a host.
abbrev host_marshal : Text → Text → Text → Bool → Result Text
host_marshal host [] [] true = ok (1 ∷ host)
host_marshal host [] [] false = ok (0 ∷ host)
host_marshal host [] (c ∷ s) assign = err (message "a subnet")
host_marshal host (c ∷ s) subnet assign = err (message "an address")

abbrev host_unmarshal : Text → Result HostSubnet
host_unmarshal [] = err (message "empty")
host_unmarshal (zero ∷ host) =
    ok (record { host = host; host_ip = []; subnet = []; assign = false })
host_unmarshal (suc n ∷ host) =
    ok (record { host = host; host_ip = []; subnet = []; assign = true })

abbrev hosts : Codec HostSubnet
hosts = record {
  marshal = λ s. host_marshal s.host s.host_ip s.subnet s.assign;
  unmarshal = host_unmarshal;
}

hosts-ReadsBack : ReadsBack hosts
hosts-ReadsBack s value h = back s.host s.host_ip s.subnet s.assign value h
  where
    back :
        (host ip subnet : Text) (assign : Bool) (value : Text)
        → host_marshal host ip subnet assign ≡ ok value
        → host_unmarshal value
          ≡ ok (record { host = host; host_ip = ip; subnet = subnet; assign = assign })
    back host [] [] true value h = ground (arith, h)
    back host [] [] false value h = ground (arith, h)
    back host [] (c ∷ s) assign value h = absurd (ground (arith, h))
    back host (c ∷ s) subnet assign value h = absurd (ground (arith, h))

-- An etcd of keys and values.
abbrev valued : Text → Response
valued value = record listing { value = value; nodes = [] }

abbrev found : Option Text → Result Response
found none = err (etcd_error 100 7)
found (some value) = ok (valued value)

abbrev keys : KeysApi
keys = record {
  Store = List (Text × Text);
  get = λ key w. (w, found (lookup text_dec key w));
  set = λ key value opts w. (insert text_dec key value w, ok tt);
  delete = λ key w. (delete text_dec key w, ok tt);
  next = λ key i w. (w, ok listing);
}

keys-IsKeyStore : IsKeyStore keys
keys-IsKeyStore = record {
  get_set = λ key value opts w e. (
    valued value,
    ap found (lookup-insert text_dec key key value w ∙ if_pos (text_dec key key) refl _ _),
    refl,
  );
  get_delete = λ key w e.
      (7, ap found (lookup-delete text_dec key key w ∙ if_pos (text_dec key key) refl _ _));
  get_set_other = λ key other value opts w ne.
      ap (λ o. value_of (found o))
        (lookup-insert text_dec key other value w ∙ if_neg (text_dec key other) ne _ _);
  get_delete_other = λ key other w ne.
      ap (λ o. value_of (found o))
        (lookup-delete text_dec key other w ∙ if_neg (text_dec key other) ne _ _);
}

abbrev plain_registry : Registry
plain_registry = stored keys-IsKeyStore nothing hosts plain (codes "/k8s.ovs.com") (codes "net")

abbrev host_a : HostSubnet
host_a = record { host = codes "a"; host_ip = []; subnet = []; assign = true }

abbrev netns_a : NetNamespace
netns_a = record { net_name = codes "a"; net_id = 10; action = []; namespace = [] }

-- etcd with the subnet of a host, an update of one net namespace, and what becomes of another and of
-- the host of its name.
abbrev with_host : List (Text × Text)
with_host = (change plain_registry (subnet_created (codes "a") host_a) []).0

abbrev updated : Change
updated = netns_updated (codes "a") netns_a

registry-AfterChange_example :
    let after = change plain_registry updated with_host in
    AfterChange plain_registry updated after
    × (item_of (plain_registry.get_subnet (codes "a") after.0).1
        ≡ item_of (plain_registry.get_subnet (codes "a") with_host).1)
    × (item_of (plain_registry.get_net_namespace (codes "b") after.0).1
        ≡ item_of (plain_registry.get_net_namespace (codes "b") with_host).1)
registry-AfterChange_example =
    registry-AfterChange keys-IsKeyStore nothing hosts plain (codes "/k8s.ovs.com") (codes "net")
      updated (codes "a") (codes "b") with_host hosts-ReadsBack plain-ReadsBack
      (λ e. ground (arith, e)) (λ e. ground (arith, e))
