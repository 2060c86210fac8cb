-- ===== src/MasterVnids/Sync.antt =====
-- ksdn/vnids_master.go, lines 202 to 319: the calls that change the map and etcd together, and the
-- handlers of the watches. A state is the map and the store behind the etcd manager.
pub mod Valid
pub mod Run
use k8s_ovs.Base.{
  ℕ, ◌≡◌, Bool, true, false, Result, ok, err, Option, none, some, List, [], ◌∷◌, Text, text_dec,
  ite, if◌then◌else◌,
}
use k8s_ovs.Vnid.Bitmap.{Bitmap}
use k8s_ovs.Etcd.{
  NetNamespace, EtcdManager, Event, EventType, event_added, event_removed, event_other,
}
use k8s_ovs.EventQueue.{DeltaType, added, updated, deleted, sync}
use k8s_ovs.MasterVnids.{
  MasterVnidMap, allocate_net_id, release_net_id, update_net_id, populate_all,
}

pub record Master (b : Bitmap) (e : EtcdManager) : Type 0 where
  pub vnids : MasterVnidMap b
  pub store : e.Store

module _ (b : Bitmap) (e : EtcdManager) where
  -- `assignVNID`, a namespace that had no id: persist it, or give it up again.
  unfoldable pub persist_new : Master b e → Text → ℕ → Master b e × Result (Unit {0})
  persist_new s name netid =
      let (store, answer) =
        e.acquire_net_namespace
          (record { net_name = name; net_id = netid; action = []; namespace = [] }) s.store in
      elim answer [
        | ok _ ↦ (record s { store = store }, ok tt)
        | err x ↦ (record s { vnids = (release_net_id b s.vnids name).0; store = store }, err x)
      ]

  unfoldable pub assign_vnid : Master b e → Text → Master b e × Result (Unit {0})
  assign_vnid s name =
      let (m, answer) = allocate_net_id b s.vnids name in
      let s' : Master b e = record s { vnids = m } in
      elim answer [
        | err x ↦ (s', err x)
        | ok (netid, exists) ↦ if exists then (s', ok tt) else persist_new s' name netid
      ]

  unfoldable pub update_vnid : Master b e → NetNamespace → Master b e × Result (Unit {0})
  update_vnid s netns =
      let (m, answer) = update_net_id b s.vnids netns.net_name netns.action netns.namespace in
      elim answer [
        | err x ↦ (record s { vnids = m }, err x)
        | ok netid ↦
            let (store, answer') =
              e.renew_net_namespace (record netns { net_id = netid; action = []; namespace = [] })
                s.store in
            (record { vnids = m; store = store }, answer')
      ]

  unfoldable pub revoke_vnid : Master b e → Text → Master b e × Result (Unit {0})
  revoke_vnid s name =
      let (store, answer) = e.revoke_net_namespace name s.store in
      elim answer [
        | err x ↦ (record s { store = store }, err x)
        | ok _ ↦
            let (m, answer') = release_net_id b s.vnids name in
            (record { vnids = m; store = store }, answer')
      ]

  -- `VnidStartMaster`, up to the start of the watches.
  unfoldable pub populate_vnids : Master b e → Master b e × Result (Unit {0})
  populate_vnids s =
      let (store, answer) = e.get_net_namespaces s.store in
      elim answer [
        | err x ↦ (record s { store = store }, err x)
        | ok netns_list ↦
            let (m, answer') = populate_all b s.vnids netns_list in
            (record { vnids = m; store = store }, answer')
      ]

  -- The handler of `watchNamespaces`, for a delta of the namespace `name`.
  unfoldable pub handle_namespace : Master b e → DeltaType → Text → Master b e × Result (Unit {0})
  handle_namespace s sync name = assign_vnid s name
  handle_namespace s added name = assign_vnid s name
  handle_namespace s updated name = assign_vnid s name
  handle_namespace s deleted name = revoke_vnid s name

  -- One round of `masterHandleNetnsEvent`; errors are logged.
  unfoldable pub handle_netns : Master b e → EventType → NetNamespace → Master b e
  handle_netns s event_added netns = ite (text_dec netns.action []) s (update_vnid s netns).0
  handle_netns s event_removed netns = s
  handle_netns s (event_other n) netns = s

  unfoldable pub master_handle_netns_event : Master b e → List Event → Master b e
  unfolding handle_netns
  master_handle_netns_event s [] = s
  master_handle_netns_event s (evt ∷ batch) =
      master_handle_netns_event (handle_netns s evt.type evt.net_ns) batch

-- The two watches run side by side, and the lock of the map orders their calls: a history is a list
-- of handled deltas and events.
pub data Input : Type 0 where
  namespace_delta : DeltaType → Text → Input
  netns_event : Event → Input

module _ (b : Bitmap) (e : EtcdManager) where
  unfoldable pub master_step : Master b e → Input → Master b e
  master_step s (namespace_delta t name) = (handle_namespace b e s t name).0
  master_step s (netns_event evt) = handle_netns b e s evt.type evt.net_ns

  unfoldable pub master_run : Master b e → List Input → Master b e
  unfolding master_step
  master_run s [] = s
  master_run s (i ∷ l) = master_run (master_step s i) l
