-- ===== src/MasterVnids/Sync/Valid.antt =====
-- Whatever etcd answers, the calls and the handlers of the master keep the map and the allocator in
-- agreement, as long as no namespace is joined with itself.
use k8s_ovs.Base.{
  ℕ, ◌≡◌, ◌≢◌, refl, inl, inr, err, message, none, some, Text, text_dec, lookup, arith,
  Option-cases,
}
use k8s_ovs.Vnid.Bitmap.{Bitmap, BitmapLaws}
use k8s_ovs.Etcd.{NetNamespace, EtcdManager}
use k8s_ovs.MasterVnids.{
  MasterVnidMap, allocate_net_id, release_net_id, update_net_id, isolate_pod_network,
  join_pod_network, global_pod_network,
}
use k8s_ovs.MasterVnids.Count.{delete_absent}
use k8s_ovs.MasterVnids.Invariant.{IsValid, release-Holds}
use k8s_ovs.MasterVnids.Update.{allocate_net_id_known, allocate_net_id_new}
use k8s_ovs.MasterVnids.Actions.{
  update_net_id_global, update_net_id_join, update_net_id_join_unknown, update_net_id_isolate,
  update_net_id_invalid, update_net_id_unknown,
}
use k8s_ovs.MasterVnids.Sync.{Master, persist_new, assign_vnid, update_vnid, revoke_vnid}

-- The request joins the namespace with itself.
abbrev pub JoinsItself : NetNamespace → Type 0
JoinsItself netns = (netns.action ≡ join_pod_network) × (netns.namespace ≡ netns.net_name)

module _ {b : Bitmap} (laws : BitmapLaws b) (m : MasterVnidMap b) where
  release_unknown :
      (name : Text)
      → lookup text_dec name m.ids ≡ none
      → release_net_id b m name ≡ (m, err (message "netid not found for namespace"))
  unfolding release_net_id
  release_unknown name absent = rw (absent, release_net_id, delete_absent name m.ids absent)

  pub release-IsValid : (name : Text) → IsValid laws m → IsValid laws (release_net_id b m name).0
  release-IsValid name v = elim (Option-cases (lookup text_dec name m.ids)) [
    | inl absent ↦ rw (release_unknown name absent) v
    | inr (id, found) ↦ (release-Holds laws 0 m name id v found (inl refl)).1
  ]

  pub allocate-IsValid : (name : Text) → IsValid laws m → IsValid laws (allocate_net_id b m name).0
  allocate-IsValid name v = elim (Option-cases (lookup text_dec name m.ids)) [
    | inl absent ↦ (allocate_net_id_new laws m name v absent).0
    | inr (id, found) ↦ rw (allocate_net_id_known laws m name id found) v
  ]

  -- Every action keeps the agreement, but for a join of a namespace with itself.
  pub update-IsValid :
      (name action args : Text)
      → ¬ ((action ≡ join_pod_network) × (args ≡ name))
      → IsValid laws m
      → IsValid laws (update_net_id b m name action args).0
  update-IsValid name action args proper v = elim (Option-cases (lookup text_dec name m.ids)) [
    | inl absent ↦ rw (update_net_id_unknown laws m name action args absent) v
    | inr (old, found) ↦ elim (text_dec action global_pod_network) [
      | yes g ↦ rw g (update_net_id_global laws m name args old v found).valid
      | no g ↦ elim (text_dec action isolate_pod_network) [
        | yes i ↦ rw i (isolated old found)
        | no i ↦ elim (text_dec action join_pod_network) [
          | yes j ↦ rw j (joined old found (λ e. proper (j, e)))
          | no j ↦ rw (update_net_id_invalid laws m name args old v found action g j i) v
        ]
      ]
    ]
  ]
    where
      isolated :
          (old : ℕ)
          → lookup text_dec name m.ids ≡ some old
          → IsValid laws (update_net_id b m name isolate_pod_network args).0
      isolated old found = elim (update_net_id_isolate laws m name args old v found) [
        | inl (x, gives, _) ↦ gives.valid
        | inr e ↦ rw e v
      ]

      joined :
          (old : ℕ)
          → lookup text_dec name m.ids ≡ some old
          → args ≢ name
          → IsValid laws (update_net_id b m name join_pod_network args).0
      joined old found ne = elim (Option-cases (lookup text_dec args m.ids)) [
        | inl absent ↦ rw (update_net_id_join_unknown laws m name args old v found absent) v
        | inr (x, there) ↦ (update_net_id_join laws m name args old v found x ne there).valid
      ]

module _ {b : Bitmap} (laws : BitmapLaws b) (e : EtcdManager) (s : Master b e) where
  pub assign-IsValid :
      (name : Text) → IsValid laws s.vnids → IsValid laws (assign_vnid b e s name).0.vnids
  unfolding assign_vnid persist_new
  assign-IsValid name v =
      let kept = allocate-IsValid laws s.vnids name v in
      let undone = release-IsValid laws (allocate_net_id b s.vnids name).0 name kept in
      ground (arith, kept, undone)

  pub update_vnid-IsValid :
      (netns : NetNamespace)
      → ¬ JoinsItself netns
      → IsValid laws s.vnids
      → IsValid laws (update_vnid b e s netns).0.vnids
  unfolding update_vnid
  update_vnid-IsValid netns proper v =
      let kept = update-IsValid laws s.vnids netns.net_name netns.action netns.namespace proper v in
      ground (arith, kept)

  pub revoke-IsValid :
      (name : Text) → IsValid laws s.vnids → IsValid laws (revoke_vnid b e s name).0.vnids
  unfolding revoke_vnid
  revoke-IsValid name v = ground (arith, release-IsValid laws s.vnids name v)
