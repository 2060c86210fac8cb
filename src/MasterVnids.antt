-- ===== src/MasterVnids.antt =====
-- ksdn/vnids_master.go, lines 21 to 200: the master's map of namespaces to VNIDs and its allocator. The
-- child Sync has the calls that also write to etcd, and the watches.
pub mod Count
pub mod Invariant
pub mod Update
pub mod Actions
pub mod Defects
pub mod Sync
pub mod Populate
use k8s_ovs.Base.{
  ℕ, zero, suc, ◌+◌, ◌≡◌, Bool, true, false, Result, ok, err, ◌>>=◌, err_allocated, message, Option,
  none, some, List, [], ◌∷◌, Text, codes, text_dec, lookup, insert, delete, ite, ◌==◌,
  if◌then◌else◌, ltb, not,
}
use k8s_ovs.Vnid.{global_vnid, min_vnid, max_vnid}
use k8s_ovs.Vnid.Range.{NetIdRange, new_net_id_range}
use k8s_ovs.Vnid.Bitmap.{Bitmap}
use k8s_ovs.Vnid.Allocator.{Allocator}
use k8s_ovs.Vnid.Allocator
use k8s_ovs.Etcd.{NetNamespace}

abbrev pub Ids : Type 0
Ids = List (Text × ℕ)

-- `masterVNIDMap`, over the state of the allocator's bitmap.
pub record MasterVnidMap (b : Bitmap) : Type 0 where
  pub ids : Ids
  pub net_id_manager : Allocator b
  pub admin_namespaces : List Text

-- `utils.SdnNamespace`.
abbrev pub sdn_namespace : Text
sdn_namespace = codes "kube-system"

-- The acceptable actions of a netnamespace (pkg/vnid/vnid.go).
abbrev pub global_pod_network : Text
global_pod_network = codes "global"

abbrev pub join_pod_network : Text
join_pod_network = codes "join"

abbrev pub isolate_pod_network : Text
isolate_pod_network = codes "isolate"

-- `sets.String.Has`.
unfoldable pub member : Text → List Text → Bool
unfolding text_dec
member t [] = false
member t (u ∷ l) = ite (text_dec u t) true (member t l)

-- The loop of `getVNIDCount`.
unfoldable pub count_value : ℕ → Ids → ℕ
count_value id [] = 0
count_value id ((_, netid) ∷ m) = let n = count_value id m in if id == netid then n + 1 else n

module _ (b : Bitmap) where
  -- `newMasterVNIDMap`; the panic on a bad range is the error.
  unfoldable pub new_master_vnid_map : Result (MasterVnidMap b)
  unfolding new_net_id_range Allocator.new
  new_master_vnid_map = do
    range ← new_net_id_range min_vnid max_vnid
    ok (record {
      ids = [];
      net_id_manager = Allocator.new b range;
      admin_namespaces = sdn_namespace ∷ [];
    })

  abbrev pub get_vnid : MasterVnidMap b → Text → Option ℕ
  get_vnid m name = lookup text_dec name m.ids

  abbrev pub set_vnid : MasterVnidMap b → Text → ℕ → MasterVnidMap b
  set_vnid m name id = record m { ids = insert text_dec name id m.ids }

  abbrev pub unset_vnid : MasterVnidMap b → Text → MasterVnidMap b × Option ℕ
  unset_vnid m name = (record m { ids = delete text_dec name m.ids }, lookup text_dec name m.ids)

  abbrev pub get_vnid_count : MasterVnidMap b → ℕ → ℕ
  get_vnid_count m id = count_value id m.ids

  abbrev pub is_admin_namespace : MasterVnidMap b → Text → Bool
  is_admin_namespace m name = member name m.admin_namespaces

  -- What `populateVNIDs` does with the answer of `Allocate`.
  unfoldable pub tolerated : Result (Unit {0}) → Result (Unit {0})
  tolerated (ok _) = ok tt
  tolerated (err err_allocated) = ok tt
  tolerated (err e) = err (message "unable to allocate netid")

  -- One round of the loop of `populateVNIDs`.
  unfoldable pub populate_one : MasterVnidMap b → NetNamespace → MasterVnidMap b × Result (Unit {0})
  unfolding tolerated
  populate_one m netns =
      let m' = set_vnid m netns.net_name netns.net_id in
      let (a, answer) = Allocator.allocate b netns.net_id m'.net_id_manager in
      if netns.net_id == global_vnid
      then (m', ok tt)
      else (record m' { net_id_manager = a }, tolerated answer)

  unfoldable pub populate_all :
      MasterVnidMap b → List NetNamespace → MasterVnidMap b × Result (Unit {0})
  populate_all m [] = (m, ok tt)
  populate_all m (netns ∷ rest) =
      let (m', answer) = populate_one m netns in
      elim answer [ err e ↦ (m', err e) | ok _ ↦ populate_all m' rest ]

  -- The netid, and whether the namespace had one.
  unfoldable pub allocate_net_id : MasterVnidMap b → Text → MasterVnidMap b × Result (ℕ × Bool)
  allocate_net_id m name = elim (get_vnid m name) [
    | some netid ↦ (m, ok (netid, true))
    | none ↦
        if is_admin_namespace m name
        then (set_vnid m name global_vnid, ok (global_vnid, false))
        else let (a, answer) = Allocator.allocate_next b m.net_id_manager in
          let m' : MasterVnidMap b = record m { net_id_manager = a } in
          elim answer [
            | err e ↦ (m', err e)
            | ok netid ↦ (set_vnid m' name netid, ok (netid, false))
          ]
  ]

  -- The end of `releaseNetID`: the id goes back to the allocator if no namespace has it any more.
  unfoldable pub release_unused : MasterVnidMap b → ℕ → MasterVnidMap b × Result (Unit {0})
  release_unused m netid =
      let (a, answer) = Allocator.release b netid m.net_id_manager in
      if netid == global_vnid
      then (m, ok tt)
      else if get_vnid_count m netid == 0
      then (record m { net_id_manager = a }, answer)
      else (m, ok tt)

  unfoldable pub release_net_id : MasterVnidMap b → Text → MasterVnidMap b × Result (Unit {0})
  release_net_id m name =
      let (m', old) = unset_vnid m name in
      elim old [
        | none ↦ (m', err (message "netid not found for namespace"))
        | some netid ↦ release_unused m' netid
      ]

  -- The last two steps of `updateNetID`: release the old id, then set the new one. `allocated` tells
  -- that the new id was allocated by this call.
  unfoldable pub replace_net_id : MasterVnidMap b → Text → ℕ → Bool → MasterVnidMap b × Result ℕ
  replace_net_id m name netid allocated =
      let (m', answer) = release_net_id m name in
      elim answer [
        | ok _ ↦ (set_vnid m' name netid, ok netid)
        | err e ↦
            let (a, _) = Allocator.release b netid m'.net_id_manager in
            (if allocated then record m' { net_id_manager = a } else m', err e)
      ]

  -- The branch `isolate` of `updateNetID`, for a namespace whose id is `old`.
  unfoldable pub isolate : MasterVnidMap b → Text → ℕ → MasterVnidMap b × Result ℕ
  isolate m name old =
      let (a, answer) = Allocator.allocate_next b m.net_id_manager in
      let m' : MasterVnidMap b = record m { net_id_manager = a } in
      let fresh : MasterVnidMap b × Result ℕ = elim answer [
        | err e ↦ (m', err e)
        | ok netid ↦ replace_net_id m' name netid true
      ] in
      if get_vnid_count m old == 1 then (m, ok old) else fresh

  -- The branch `join` of `updateNetID`.
  unfoldable pub join : MasterVnidMap b → Text → Text → MasterVnidMap b × Result ℕ
  join m name join_name = elim (get_vnid m join_name) [
    | none ↦ (m, err (message "netid not found for namespace"))
    | some netid ↦ replace_net_id m name netid false
  ]

  unfoldable pub update_net_id : MasterVnidMap b → Text → Text → Text → MasterVnidMap b × Result ℕ
  update_net_id m name action args = elim (get_vnid m name) [
    | none ↦ (m, err (message "netid not found for namespace"))
    | some old ↦
        ite (text_dec action global_pod_network) (replace_net_id m name global_vnid false) (
          ite (text_dec action join_pod_network) (join m name args) (
            ite (text_dec action isolate_pod_network) (isolate m name old)
              (m, err (message "invalid pod network action"))))
  ]
