-- ===== src/MasterVnids/Defects.antt =====
-- `updateNetID` at the two requests for which it does not do what the others do: joining a namespace
-- with itself, and isolating the only namespace that has the global id.
use k8s_ovs.Base.{
  map_laws, ℕ, ◌≡◌, ◌≢◌, refl, true, false, ok, some, Text, text_dec, lookup, delete, ◌==◌, arith,
}
use k8s_ovs.Vnid.Bitmap.{Bitmap, BitmapLaws}
use k8s_ovs.Vnid.Allocator.{has}
use k8s_ovs.Vnid.Allocator.Laws.{release_frees}
use k8s_ovs.MasterVnids.{
  MasterVnidMap, count_value, release_unused, release_net_id, replace_net_id, isolate, join,
  update_net_id, isolate_pod_network, join_pod_network,
}
use k8s_ovs.MasterVnids.Count.{count-delete}
use k8s_ovs.MasterVnids.Invariant.{IsValid}

module _ {b : Bitmap} (laws : BitmapLaws b) (m : MasterVnidMap b) (name : Text) where
  replace_alone :
      (x : ℕ)
      → IsValid laws m
      → lookup text_dec name m.ids ≡ some x
      → x ≢ 0
      → count_value x m.ids ≡ 1
      → let r = replace_net_id b m name x false in
        (r.1 ≡ ok x)
        × (lookup text_dec name r.0.ids ≡ some x)
        × (has b x r.0.net_id_manager ≡ false)
  unfolding replace_net_id release_net_id release_unused
  replace_alone x v found pos alone =
      let (answer, freed) = release_frees laws m.net_id_manager x in
      let nonzero : (x == 0) ≡ false = ground arith in
      let gone : (count_value x (delete text_dec name m.ids) == 0) ≡ true =
        ground (arith, count-delete x name m.ids v.distinct) in
      rw (found, replace_net_id, release_net_id, release_unused, nonzero, gone, answer)
        (refl, grind map_laws, ground (arith, freed x))

  -- On a valid map, a namespace that alone has an id other than the global one and joins itself
  -- keeps the id, but the allocator no longer holds it.
  pub update_net_id_join_self :
      (x : ℕ)
      → IsValid laws m
      → lookup text_dec name m.ids ≡ some x
      → x ≢ 0
      → count_value x m.ids ≡ 1
      → let r = update_net_id b m name join_pod_network name in
        (r.1 ≡ ok x)
        × (lookup text_dec name r.0.ids ≡ some x)
        × (has b x r.0.net_id_manager ≡ false)
  unfolding update_net_id join text_dec
  update_net_id_join_self x v found pos alone =
      rw (found, update_net_id, found, join) (replace_alone x v found pos alone)

  -- If only one namespace has the global id, `isolate` leaves it there, and reports success.
  pub update_net_id_isolate_global :
      (args : Text)
      → lookup text_dec name m.ids ≡ some 0
      → count_value 0 m.ids ≡ 1
      → update_net_id b m name isolate_pod_network args ≡ (m, ok 0)
  unfolding update_net_id isolate text_dec
  update_net_id_isolate_global args found alone = rw (found, alone, update_net_id, isolate)
