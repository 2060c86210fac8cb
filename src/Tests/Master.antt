-- ===== src/Tests/Master.antt =====
-- The master's map of VNIDs, on the bitmap that is a list.
use k8s_ovs.Base.{
  ℕ, ◌≡◌, ◌≢◌, ◌⊎◌, ◌↔◌, inl, inr, Bool, true, false, refl, Result, ok, err, canceled, message,
  Option, none, some, List, [], ◌∷◌, Text, codes, text_dec, lookup, arith,
}
use k8s_ovs.Vnid.ListBitmap.{list_bitmap, list_bitmap_laws}
use k8s_ovs.Vnid.Allocator.{has}
use k8s_ovs.Etcd.{NetNamespace, event_added, no_subnet}
use k8s_ovs.EventQueue.{added, deleted}
use k8s_ovs.MasterVnids.{
  count_value, MasterVnidMap, allocate_net_id, update_net_id, populate_all, set_vnid,
  isolate_pod_network, join_pod_network,
}
use k8s_ovs.MasterVnids.Invariant.{IsValid}
use k8s_ovs.MasterVnids.Update.{Allocates, allocate_net_id_new}
use k8s_ovs.MasterVnids.Actions.{Gives, Isolates, update_net_id_isolate, update_net_id_join}
use k8s_ovs.MasterVnids.Defects.{update_net_id_join_self}
use k8s_ovs.MasterVnids.Populate.{
  empty_map, empty_map-IsValid, populate_all-IsValid, new_master_vnid_map-ok, pairs,
}
use k8s_ovs.MasterVnids.Sync.{Master, Input, namespace_delta, netns_event, master_run, assign_vnid}
use k8s_ovs.MasterVnids.Sync.Run.{AllProper, run-IsValid, assign_vnid_refused}
use k8s_ovs.Tests.Data.{etcd}

abbrev request : Text → Text → Text → NetNamespace
request name action args = record { net_name = name; net_id = 0; action = action; namespace = args }

-- Two namespaces come, the second joins the first, and the first goes.
abbrev history : List Input
history =
    namespace_delta added (codes "a")
    ∷ namespace_delta added (codes "b")
    ∷ netns_event (record {
      type = event_added;
      subnet = no_subnet;
      network = [];
      net_ns = request (codes "b") join_pod_network (codes "a");
    })
    ∷ namespace_delta deleted (codes "a")
    ∷ []

abbrev start : Master list_bitmap (etcd (ok tt))
start = record { vnids = empty_map list_bitmap; store = 0 }

history-AllProper : AllProper history
history-AllProper = (tt, (tt, ((λ (act, same). ground (arith, same)), (tt, tt))))

run-IsValid_example :
    IsValid list_bitmap_laws (master_run list_bitmap (etcd (ok tt)) start history).vnids
run-IsValid_example =
    run-IsValid list_bitmap_laws (etcd (ok tt)) start history history-AllProper
      (empty_map-IsValid list_bitmap_laws)

-- The map in which `a` has 10 and `b` has 11.
abbrev stored : List NetNamespace
stored =
    record { net_name = codes "a"; net_id = 10; action = []; namespace = [] }
    ∷ record { net_name = codes "b"; net_id = 11; action = []; namespace = [] }
    ∷ []

two_facts :
    ((populate_all list_bitmap (empty_map list_bitmap) stored).1 ≡ ok tt)
    × IsValid list_bitmap_laws (populate_all list_bitmap (empty_map list_bitmap) stored).0
    × ((name : Text)
        → lookup text_dec name (populate_all list_bitmap (empty_map list_bitmap) stored).0.ids
          ≡ lookup text_dec name (pairs stored))
unfolding lookup
two_facts =
    populate_all-IsValid list_bitmap_laws (empty_map list_bitmap) stored
      (new_master_vnid_map-ok list_bitmap) (ground arith, (refl, tt))
      (inr (omega arith, omega arith), (inr (omega arith, omega arith), tt))

abbrev two : MasterVnidMap list_bitmap
two = (populate_all list_bitmap (empty_map list_bitmap) stored).0

two-IsValid : IsValid list_bitmap_laws two
two-IsValid = two_facts.1

two_a : lookup text_dec (codes "a") two.ids ≡ some 10
unfolding populate_all lookup k8s_ovs.MasterVnids.populate_one k8s_ovs.Vnid.Allocator.allocate
    k8s_ovs.Vnid.Allocator.new k8s_ovs.Vnid.ListBitmap.member k8s_ovs.Base.insert text_dec
two_a = refl

two_b : lookup text_dec (codes "b") two.ids ≡ some 11
unfolding populate_all lookup k8s_ovs.MasterVnids.populate_one k8s_ovs.Vnid.Allocator.allocate
    k8s_ovs.Vnid.Allocator.new k8s_ovs.Vnid.ListBitmap.member k8s_ovs.Base.insert text_dec
two_b = refl

two_c : lookup text_dec (codes "c") two.ids ≡ none
unfolding populate_all lookup k8s_ovs.MasterVnids.populate_one k8s_ovs.Vnid.Allocator.allocate
    k8s_ovs.Vnid.Allocator.new k8s_ovs.Vnid.ListBitmap.member k8s_ovs.Base.insert text_dec
two_c = refl

allocate_net_id_new_example :
    IsValid list_bitmap_laws (allocate_net_id list_bitmap two (codes "c")).0
    × Allocates list_bitmap_laws two (codes "c") (allocate_net_id list_bitmap two (codes "c"))
allocate_net_id_new_example = allocate_net_id_new list_bitmap_laws two (codes "c") two-IsValid two_c

update_net_id_isolate_example :
    Isolates list_bitmap_laws two
      (codes "a")
      (update_net_id list_bitmap two (codes "a") isolate_pod_network [])
update_net_id_isolate_example =
    update_net_id_isolate list_bitmap_laws two (codes "a") [] 10 two-IsValid two_a

update_net_id_join_example :
    Gives list_bitmap_laws two
      (codes "b")
      10
      (update_net_id list_bitmap two (codes "b") join_pod_network (codes "a"))
update_net_id_join_example =
    update_net_id_join list_bitmap_laws two (codes "b") (codes "a") 11 two-IsValid two_b 10
      (λ e. ground (arith, e)) two_a

two_alone : count_value 10 two.ids ≡ 1
unfolding populate_all count_value k8s_ovs.MasterVnids.populate_one k8s_ovs.Vnid.Allocator.allocate
    k8s_ovs.Vnid.Allocator.new k8s_ovs.Vnid.ListBitmap.member k8s_ovs.Base.insert text_dec
two_alone = refl

update_net_id_join_self_example :
    ((update_net_id list_bitmap two (codes "a") join_pod_network (codes "a")).1 ≡ ok 10)
    × (lookup text_dec
          (codes "a")
          (update_net_id list_bitmap two (codes "a") join_pod_network (codes "a")).0.ids
        ≡ some 10)
    × (has list_bitmap 10
          (update_net_id list_bitmap two (codes "a") join_pod_network (codes "a")).0.net_id_manager
        ≡ false)
update_net_id_join_self_example =
    update_net_id_join_self list_bitmap_laws two (codes "a") 10 two-IsValid two_a (omega arith)
      two_alone

-- An etcd that refuses.
abbrev refused : Master list_bitmap (etcd (err canceled))
refused = record { vnids = two; store = 0 }

refused_answer :
    (assign_vnid list_bitmap (etcd (err canceled)) refused (codes "c")).1 ≡ err canceled
unfolding assign_vnid allocate_net_id lookup populate_all k8s_ovs.MasterVnids.populate_one
    k8s_ovs.Vnid.Allocator.allocate k8s_ovs.Vnid.Allocator.new k8s_ovs.Vnid.ListBitmap.member
    k8s_ovs.Base.insert text_dec k8s_ovs.MasterVnids.member k8s_ovs.Vnid.Allocator.allocate_next
    k8s_ovs.Vnid.ListBitmap.scan k8s_ovs.MasterVnids.Sync.persist_new
refused_answer = refl

assign_vnid_refused_example :
    (assign_vnid list_bitmap (etcd (err canceled)) refused (codes "c")).0.vnids.ids ≡ two.ids
assign_vnid_refused_example =
    assign_vnid_refused list_bitmap_laws (etcd (err canceled)) refused (codes "c") canceled
      two-IsValid refused_answer two_c

populate_all-IsValid_example :
    ((populate_all list_bitmap (empty_map list_bitmap) stored).1 ≡ ok tt)
    × IsValid list_bitmap_laws (populate_all list_bitmap (empty_map list_bitmap) stored).0
    × ((name : Text)
        → lookup text_dec name (populate_all list_bitmap (empty_map list_bitmap) stored).0.ids
          ≡ lookup text_dec name (pairs stored))
unfolding lookup
populate_all-IsValid_example =
    populate_all-IsValid list_bitmap_laws (empty_map list_bitmap) stored
      (new_master_vnid_map-ok list_bitmap) (ground arith, (refl, tt))
      (inr (omega arith, omega arith), (inr (omega arith, omega arith), tt))
