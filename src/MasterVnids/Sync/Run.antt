-- ===== src/MasterVnids/Sync/Run.antt =====
-- Histories of the master: the agreement of map and allocator, and what it means for the tenants.
use k8s_ovs.Base.{
  ◌↔◌, ℕ, ◌≡◌, ◌≢◌, inl, inr, true, err, Error, none, some, List, [], ◌∷◌, Text, text_dec, lookup,
  arith,
}
use k8s_ovs.Vnid.Bitmap.{Bitmap, BitmapLaws}
use k8s_ovs.Vnid.Allocator.{has}
use k8s_ovs.Etcd.{NetNamespace, EtcdManager, EventType, event_added, event_removed, event_other}
use k8s_ovs.EventQueue.{DeltaType, added, updated, deleted, sync}
use k8s_ovs.MasterVnids.{allocate_net_id}
use k8s_ovs.MasterVnids.Count.{delete-insert_absent, count-witness, count-pos}
use k8s_ovs.MasterVnids.Invariant.{IsValid, ids-release}
use k8s_ovs.MasterVnids.Update.{allocate_net_id_new}
use k8s_ovs.MasterVnids.Sync.{
  Master, Input, namespace_delta, netns_event, assign_vnid, persist_new, handle_namespace,
  handle_netns, master_step, master_run,
}
use k8s_ovs.MasterVnids.Sync.Valid.{
  JoinsItself, assign-IsValid, update_vnid-IsValid, revoke-IsValid,
}

-- The input is no join of a namespace with itself.
abbrev pub Proper : Input → Type 0
Proper (namespace_delta t name) = Unit
Proper (netns_event evt) = ¬ JoinsItself evt.net_ns

abbrev pub AllProper : List Input → Type 0
AllProper [] = Unit
AllProper (i ∷ l) = Proper i × AllProper l

module _ {b : Bitmap} (laws : BitmapLaws b) (e : EtcdManager) where
  handle_namespace-IsValid :
      (s : Master b e) (t : DeltaType) (name : Text)
      → IsValid laws s.vnids
      → IsValid laws (handle_namespace b e s t name).0.vnids
  unfolding handle_namespace
  handle_namespace-IsValid s added name v = assign-IsValid laws e s name v
  handle_namespace-IsValid s updated name v = assign-IsValid laws e s name v
  handle_namespace-IsValid s sync name v = assign-IsValid laws e s name v
  handle_namespace-IsValid s deleted name v = revoke-IsValid laws e s name v

  handle_netns-IsValid :
      (s : Master b e) (t : EventType) (n : NetNamespace)
      → ¬ JoinsItself n
      → IsValid laws s.vnids
      → IsValid laws (handle_netns b e s t n).vnids
  unfolding handle_netns
  handle_netns-IsValid s event_added n proper v =
      let kept = update_vnid-IsValid laws e s n proper v in ground (arith, kept)
  handle_netns-IsValid s event_removed n proper v = v
  handle_netns-IsValid s (event_other k) n proper v = v

  step-IsValid :
      (s : Master b e) (i : Input)
      → Proper i
      → IsValid laws s.vnids
      → IsValid laws (master_step b e s i).vnids
  unfolding master_step
  step-IsValid s (namespace_delta t name) p v = handle_namespace-IsValid s t name v
  step-IsValid s (netns_event evt) p v = handle_netns-IsValid s evt.type evt.net_ns p v

  -- After any history of namespace deltas and netnamespace events that has no join of a namespace
  -- with itself, from a valid state and whatever etcd answered, the master's map and the netid
  -- allocator agree: an id other than the global one is held in the allocator exactly if some
  -- namespace has it.
  pub run-IsValid :
      (s : Master b e) (l : List Input)
      → AllProper l
      → IsValid laws s.vnids
      → IsValid laws (master_run b e s l).vnids
  unfolding master_run
  run-IsValid s [] p v = v
  run-IsValid s (i ∷ l) p v = run-IsValid (master_step b e s i) l p.1 (step-IsValid s i p.0 v)

  -- After any history without a join of a namespace with itself, from a valid state and whatever
  -- etcd answered, a netid other than the global one is held in the allocator exactly if some
  -- namespace has it.
  run_held :
      (s : Master b e) (l : List Input) (id : ℕ)
      → AllProper l
      → IsValid laws s.vnids
      → id ≢ 0
      → (has b id (master_run b e s l).vnids.net_id_manager ≡ true)
        ↔ ((name : Text) × (lookup text_dec name (master_run b e s l).vnids.ids ≡ some id))
  run_held s l id p v pos =
      let w = run-IsValid s l p v in
      let m = (master_run b e s l).vnids in
      (
        λ h. count-witness id m.ids w.distinct (ground (arith, w.agree id pos, h)),
        λ (name, h). ground (arith, w.agree id pos, count-pos id name m.ids),
      )

  -- If `assignVNID` fails for a namespace that has no id, from a valid state, the map of ids is
  -- the one from before.
  pub assign_vnid_refused :
      (s : Master b e) (name : Text) (x : Error)
      → IsValid laws s.vnids
      → (assign_vnid b e s name).1 ≡ err x
      → lookup text_dec name s.vnids.ids ≡ none
      → (assign_vnid b e s name).0.vnids.ids ≡ s.vnids.ids
  unfolding assign_vnid persist_new
  assign_vnid_refused s name x v h absent =
      elim (allocate_net_id_new laws s.vnids name v absent).1 [
        | inl (id, answer, ids, _) ↦ ground (
          arith,
          answer,
          ids,
          ids-release laws (allocate_net_id b s.vnids name).0 name,
          delete-insert_absent name id s.vnids.ids absent,
        )
        | inr (failed, _) ↦ ground (arith, failed)
      ]
