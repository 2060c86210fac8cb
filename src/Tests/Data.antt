-- ===== src/Tests/Data.antt =====
-- Concrete stand-ins for etcd, the commands, the cluster and the store of objects.
use k8s_ovs.Base.{
  ℕ, suc, ◌≡◌, true, false, Result, ok, err, message, Option, none, some, List, [], ◌∷◌, Text,
  codes, text_dec, lookup, insert, delete, lookup-insert, lookup-delete, arith,
}
use k8s_ovs.Etcd.{EtcdManager}
use k8s_ovs.EventQueue.{Object, object, final_state_unknown, ObjectStore, deletion_handling_key}
use k8s_ovs.EventQueue.PerKey.{has_key}
use k8s_ovs.EventQueue.Replay.{StoreLaws}
use k8s_ovs.Ovs.{Exec}
use k8s_ovs.NodeVnids.Netns.{Cluster}
use k8s_ovs.Rules.{Service}

-- An etcd that answers every write alike and has nothing stored.
abbrev pub etcd : Result (Unit {0}) → EtcdManager
etcd answer = record {
  Store = ℕ;
  Cursor = ℕ;
  get_network_config = λ w. (w, err (message "none"));
  acquire_subnet = λ ip s w. (suc w, answer);
  get_subnet = λ ip w. (w, err (message "none"));
  get_net_namespace = λ n w. (w, err (message "none"));
  get_subnets = λ w. (w, ok []);
  get_net_namespaces = λ w. (w, ok []);
  acquire_net_namespace = λ n w. (suc w, answer);
  renew_subnet = λ s w. (suc w, answer);
  renew_net_namespace = λ n w. (suc w, answer);
  revoke_subnet = λ ip w. (suc w, answer);
  revoke_net_namespace = λ n w. (suc w, answer);
  watch_subnets = λ c w. (w, err (message "none"));
  watch_net_namespaces = λ c w. (w, err (message "none"));
}

-- Commands that succeed with one output, and are counted.
abbrev pub commands : Text → Exec
commands output = record {
  World = ℕ;
  look_path = λ cmd w. ok cmd;
  run = λ cmd args w. (suc w, ok output);
}

abbrev pub web : Service
web = record {
  uid = codes "u1";
  namespace = codes "a";
  cluster_ip = codes "172.30.0.1";
  ports = record { protocol = codes "TCP"; port = 80 } ∷ [];
}

-- A namespace with one running pod and one service.
abbrev pub cluster : Cluster ℕ
cluster = record {
  Pod = ℕ;
  get_local_pods = λ n w. (w, (1 ∷ [], 2 ∷ []));
  list_services = λ n w. (w, web ∷ []);
  update_pod = λ p w. suc w;
  delete_pod = λ n p w. suc w;
  is_service_ip_set = λ s. true;
}

-- Objects that are their own keys.
abbrev pub number_key : Object ℕ → Result Text
number_key = deletion_handling_key (λ (n : ℕ). ok (n ∷ []))

abbrev pub store_object : Result Text → Object ℕ → List (Text × Object ℕ) → List (Text × Object ℕ)
store_object (ok k) o s = insert text_dec k o s
store_object (err e) o s = s

abbrev pub drop_object : Result Text → List (Text × Object ℕ) → List (Text × Object ℕ)
drop_object (ok k) s = delete text_dec k s
drop_object (err e) s = s

abbrev pub find_object : Result Text → List (Text × Object ℕ) → Option (Object ℕ)
find_object (ok k) s = lookup text_dec k s
find_object (err e) s = none

abbrev pub objects : ObjectStore ℕ
objects = record {
  State = List (Text × Object ℕ);
  add = λ o s. store_object (number_key o) o s;
  update = λ o s. store_object (number_key o) o s;
  delete_object = λ o s. drop_object (number_key o) s;
  get = λ o s. find_object (number_key o) s;
  get_by_key = λ k s. lookup text_dec k s;
}

pub objects_laws : StoreLaws number_key objects
unfolding deletion_handling_key
objects_laws = record {
  get_by_key-add = stored;
  get_by_key-update = stored;
  get_by_key-delete = dropped;
}
  where
    stored :
        (o : Object ℕ) (k : Text) (s : List (Text × Object ℕ))
        → lookup text_dec k (store_object (number_key o) o s)
          ≡ elim (has_key k (number_key o)) [ true ↦ some o | false ↦ lookup text_dec k s ]
    stored (object t n) k s = ground (arith, lookup-insert text_dec (n ∷ []) k (object t n) s)
    stored (final_state_unknown j t n) k s =
        ground (arith, lookup-insert text_dec j k (final_state_unknown j t n) s)

    dropped :
        (o : Object ℕ) (k : Text) (s : List (Text × Object ℕ))
        → lookup text_dec k (drop_object (number_key o) s)
          ≡ elim (has_key k (number_key o)) [ true ↦ none | false ↦ lookup text_dec k s ]
    dropped (object t n) k s = ground (arith, lookup-delete text_dec (n ∷ []) k s)
    dropped (final_state_unknown j t n) k s = ground (arith, lookup-delete text_dec j k s)
