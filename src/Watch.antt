-- ===== src/Watch.antt =====
-- pkg/etcdmanager/watch.go: the watchers of subnets and of net namespaces, and their loops. The source
-- writes the watcher twice; here it is written once, over the type of what is watched.
pub mod Counts
pub mod Diff
pub mod Held
use k8s_ovs.Base.{
  ℕ, zero, suc, ◌≡◌, Bool, true, false, Result, ok, err, Error, canceled, deadline_exceeded, Option,
  none, some, List, [], ◌∷◌, ◌++◌, map, Text, text_dec, ite,
}
use k8s_ovs.Etcd.{
  HostSubnet, NetNamespace, no_subnet, no_net_namespace, Event, EventType, event_added,
  event_removed, event_other, EtcdManager, WatchResult,
}

-- Slices.
module _ {T : Type 0} where
  -- `s[len(s)-1]` of the slice `x ∷ s`.
  unfoldable pub last : T → List T → T
  last x [] = x
  last x (y ∷ s) = last y s

  -- `s[:len(s)-1]`.
  unfoldable pub init : T → List T → List T
  init x [] = []
  init x (y ∷ s) = x ∷ init y s

  -- `s[i] = v`.
  unfoldable pub put_at : ℕ → T → List T → List T
  put_at i v [] = []
  put_at zero v (x ∷ s) = v ∷ s
  put_at (suc i) v (x ∷ s) = x ∷ put_at i v s

  unfoldable pub all_but_last : List T → List T
  unfolding init
  all_but_last [] = []
  all_but_last (x ∷ s) = init x s

  -- `deleteSubnet` and `deleteNetNS`; they are called with an index of the slice.
  unfoldable pub delete_at : List T → ℕ → List T
  unfolding last put_at all_but_last
  delete_at [] i = []
  delete_at (x ∷ s) i = all_but_last (put_at i (last x s) (x ∷ s))

-- The name that identifies an item.
module _ {T : Type 0} (key : T → Text) where
  -- The loops that look for an item: the first of the name, with its index.
  unfoldable pub search_from : ℕ → Text → List T → Option (ℕ × T)
  search_from i name [] = none
  search_from i name (x ∷ s) =
      let rest = search_from (suc i) name s in ite (text_dec (key x) name) (some (i, x)) rest

  unfoldable pub find : Text → List T → Option (ℕ × T)
  unfolding search_from
  find name s = search_from 0 name s

-- What tells the two watchers apart: that name, and the item's place in an event.
module _ {T : Type 0} (key : T → Text) (event : EventType → T → Event) (item : Event → T) where
  -- The first loop of `reset`: what is left of the old items, and the events of the new ones.
  unfoldable pub diff : List T → List T → List T × List Event
  unfolding find delete_at
  diff old [] = (old, [])
  diff old (ns ∷ new) = elim (find key (key ns) old) [
    | some (i, os) ↦ diff (delete_at old i) new
    | none ↦ let (left, batch) = diff old new in (left, event event_added ns ∷ batch)
  ]

  unfoldable pub reset : List T → List T → List T × List Event
  unfolding diff
  reset held snapshot =
      let (left, batch) = diff held snapshot in (snapshot, batch ++ map (event event_removed) left)

  unfoldable pub add : List T → T → List T × Event
  unfolding find put_at
  add held x = elim (find key (key x) held) [
    | some (i, _) ↦ (put_at i x held, event event_added x)
    | none ↦ (held ++ x ∷ [], event event_added x)
  ]

  unfoldable pub remove : List T → T → List T × Event
  unfolding find delete_at
  remove held x = elim (find key (key x) held) [
    | some (i, s) ↦ (delete_at held i, event event_removed s)
    | none ↦ (held, event event_removed x)
  ]

  unfoldable pub update_one : EventType → T → List T → List T × List Event
  unfolding add remove
  update_one event_added x held = let (held', e) = add held x in (held', e ∷ [])
  update_one event_removed x held = let (held', e) = remove held x in (held', e ∷ [])
  update_one (event_other n) x held = (held, [])

  unfoldable pub update : List T → List Event → List T × List Event
  unfolding update_one
  update held [] = (held, [])
  update held (e ∷ events) =
      let (held1, batch1) = update_one e.type (item e) held in
      let (held2, batch2) = update held1 events in (held2, batch1 ++ batch2)

-- The events of the two watchers.
abbrev pub subnet_event : EventType → HostSubnet → Event
subnet_event t s = record { type = t; subnet = s; network = []; net_ns = no_net_namespace }

abbrev pub net_ns_event : EventType → NetNamespace → Event
net_ns_event t n = record { type = t; subnet = no_subnet; network = []; net_ns = n }

unfoldable pub subnet_reset : List HostSubnet → List HostSubnet → List HostSubnet × List Event
unfolding reset
subnet_reset held snapshot =
    reset (λ (s : HostSubnet). s.host) subnet_event (λ (e : Event). e.subnet) held snapshot

unfoldable pub subnet_update : List HostSubnet → List Event → List HostSubnet × List Event
unfolding update
subnet_update held events =
    update (λ (s : HostSubnet). s.host) subnet_event (λ (e : Event). e.subnet) held events

unfoldable pub net_ns_reset : List NetNamespace → List NetNamespace → List NetNamespace × List Event
unfolding reset
net_ns_reset held snapshot =
    reset (λ (n : NetNamespace). n.net_name) net_ns_event (λ (e : Event). e.net_ns) held snapshot

unfoldable pub net_ns_update : List NetNamespace → List Event → List NetNamespace × List Event
unfolding update
net_ns_update held events =
    update (λ (n : NetNamespace). n.net_name) net_ns_event (λ (e : Event). e.net_ns) held events

-- The loops `WatchSubnets` and `WatchNetNamespaces`: what they keep from one round to the next.
pub record Watching (e : EtcdManager) (T : Type 0) : Type 0 where
  pub cursor : Option e.Cursor
  pub held : List T
  pub store : e.Store

module _ (e : EtcdManager) {T : Type 0} where
  -- What a round leaves: the loop has returned, or it goes on, with the batch it has sent, empty for none.
  unfoldable pub watch_round :
      (List T → List Event → List T × List Event)
      → (List T → List T → List T × List Event)
      → (Option e.Cursor → e.Store → e.Store × Result (WatchResult T e.Cursor))
      → Watching e T
      → Option (Watching e T × List Event)
  watch_round update reset watch s =
      let (store, answer) = watch s.cursor s.store in
      elim answer [
        | err canceled ↦ none
        | err deadline_exceeded ↦ none
        | err _ ↦ some (record s { store = store }, [])
        | ok res ↦
            let updated : List T × List Event = update s.held res.events in
            let (held, batch) : List T × List Event = elim res.events [
              | [] ↦ reset s.held res.snapshot
              | _ ∷ _ ↦ updated
            ] in
            some (record { cursor = res.cursor; held = held; store = store }, batch)
      ]

  -- The batches of at most `rounds` rounds, without the empty ones, which are not sent.
  unfoldable pub watch_rounds :
      (Watching e T → Option (Watching e T × List Event)) → ℕ → Watching e T → List (List Event)
  watch_rounds round zero s = []
  watch_rounds round (suc rounds) s = elim (round s) [
    | none ↦ []
    | some (s', []) ↦ watch_rounds round rounds s'
    | some (s', e ∷ batch) ↦ (e ∷ batch) ∷ watch_rounds round rounds s'
  ]

module _ (e : EtcdManager) where
  unfoldable pub watch_subnets : ℕ → e.Store → List (List Event)
  unfolding watch_round watch_rounds subnet_update subnet_reset
  watch_subnets rounds store =
      watch_rounds e (watch_round e subnet_update subnet_reset e.watch_subnets) rounds
        (record { cursor = none; held = []; store = store })

  unfoldable pub watch_net_namespaces : ℕ → e.Store → List (List Event)
  unfolding watch_round watch_rounds net_ns_update net_ns_reset
  watch_net_namespaces rounds store =
      watch_rounds e (watch_round e net_ns_update net_ns_reset e.watch_net_namespaces) rounds
        (record { cursor = none; held = []; store = store })
