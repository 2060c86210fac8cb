-- ===== src/EtcdV2/Laws.antt =====
-- pkg/etcdmanager/etcdv2/manager.go: the cursors of the watches, cancellation, and the tests of errors.
use k8s_ovs.Base.{
  ℕ, ◌≡◌, ◌≢◌, inl, inr, Result, ok, err, Error, canceled, deadline_exceeded, Option, none, some,
  List, arith, Result-cases, Bool-cases,
}
use k8s_ovs.Etcd.{NetNamespace, Event, WatchResult}
use k8s_ovs.Watch.{Watching, watch_round, net_ns_update, net_ns_reset}
use k8s_ovs.EtcdV2.{
  Registry, Cursor, watch_cursor, cursor_text, cursor_other, is_err_etcd_node_exist,
  is_err_etcd_key_not_found, is_index_too_small, get_next_index, watch_reset, watch_after,
  watch_items, manager,
}

-- The two tests of an error for its code answer alike for every error.
pub is_err_etcd_same : (x : Error) → is_err_etcd_node_exist x ≡ is_err_etcd_key_not_found x
unfolding is_err_etcd_node_exist is_err_etcd_key_not_found
is_err_etcd_same x = ground arith

-- A cursor that a watch has given, or none.
abbrev pub IsGiven : Option Cursor → Type 0
IsGiven none = Unit
IsGiven (some (watch_cursor index)) = Unit
IsGiven (some (cursor_text s)) = ⊥
IsGiven (some cursor_other) = ⊥

module _ {S T : Type 0} (watch : ℕ → S → S × Result (Event × ℕ))
    (get_all : S → S × Result (List T × ℕ)) where
  watch_reset-given :
      (w : S) (res : WatchResult T Cursor)
      → (watch_reset get_all w).1 ≡ ok res
      → (index : ℕ) × (res.cursor ≡ some (watch_cursor index))
  unfolding watch_reset
  watch_reset-given w res h = elim (Result-cases (get_all w).1) [
    | inl ((items, index), e) ↦ (index, ground (arith, e, h))
    | inr (x, e) ↦ ground (arith, e, h)
  ]

  watch_after-given :
      (i : ℕ) (w : S) (res : WatchResult T Cursor)
      → (watch_after watch get_all i w).1 ≡ ok res
      → (index : ℕ) × (res.cursor ≡ some (watch_cursor index))
  unfolding watch_after
  watch_after-given i w res h = elim (Result-cases (watch i w).1) [
    | inl ((evt, index), e) ↦ (index, ground (arith, e, h))
    | inr (x, e) ↦ elim (Bool-cases (is_index_too_small x)) [
      | inl small ↦ watch_reset-given (watch i w).0 res (ground (arith, e, small, h))
      | inr other ↦ ground (arith, e, other, h)
    ]
  ]

  -- A watch that is canceled while it has no cursor answers with another error than the two that end
  -- the watch loops.
  watch_none-wrapped :
      (w : S)
      → ((watch_items watch get_all none w).1 ≢ err canceled)
        × ((watch_items watch get_all none w).1 ≢ err deadline_exceeded)
  unfolding watch_items watch_reset
  watch_none-wrapped w = elim (Result-cases (get_all w).1) [
    | inl ((items, index), e) ↦ (λ h. ground (arith, e, h), λ h. ground (arith, e, h))
    | inr (x, e) ↦ (λ h. ground (arith, e, h), λ h. ground (arith, e, h))
  ]

  watch_items-given :
      (c : Option Cursor) (w : S) (res : WatchResult T Cursor)
      → IsGiven c
      → (watch_items watch get_all c w).1 ≡ ok res
      → (index : ℕ) × (res.cursor ≡ some (watch_cursor index))
  unfolding watch_items get_next_index
  watch_items-given none w res given h = watch_reset-given w res h
  watch_items-given (some (watch_cursor i)) w res given h = watch_after-given i w res h
  watch_items-given (some (cursor_text s)) w res given h = absurd given
  watch_items-given (some cursor_other) w res given h = absurd given

module _ (r : Registry) where
  -- A round of the watch of net namespaces over the manager.
  abbrev pub net_ns_round :
      Watching (manager r) NetNamespace → Option (Watching (manager r) NetNamespace × List Event)
  net_ns_round s =
      watch_round (manager r) net_ns_update net_ns_reset (manager r).watch_net_namespaces s

  -- A round of the watch of net namespaces over the etcd manager that starts with a cursor of its
  -- own, or with none yet, and goes on, ends with such a cursor or none.
  pub net_ns_round-IsGiven :
      (s s' : Watching (manager r) NetNamespace) (batch : List Event)
      → IsGiven s.cursor
      → net_ns_round s ≡ some (s', batch)
      → IsGiven s'.cursor
  unfolding watch_round
  net_ns_round-IsGiven s s' batch given h =
      elim (Result-cases ((manager r).watch_net_namespaces s.cursor s.store).1) [
        | inl (res, e) ↦
            let same : s'.cursor ≡ res.cursor = ground (arith, e, h) in
            let (index, known) =
              watch_items-given r.watch_net_namespaces r.get_net_namespaces s.cursor s.store res
                given e in
            rw (same, known) tt
        | inr (x, e) ↦ let same : s'.cursor ≡ s.cursor = ground (arith, e, h) in rw same given
      ]

  -- A round of the watch of net namespaces over the etcd manager that starts without a cursor
  -- never ends the watch, whatever the registry answers, a cancellation included.
  pub net_ns_round_unending :
      (s : Watching (manager r) NetNamespace) → s.cursor ≡ none → net_ns_round s ≢ none
  unfolding watch_round
  net_ns_round_unending s start h =
      let (uncanceled, unexpired) =
        watch_none-wrapped r.watch_net_namespaces r.get_net_namespaces s.store in
      elim (Result-cases ((manager r).watch_net_namespaces s.cursor s.store).1) [
        | inl (res, e) ↦ ground (arith, e, h)
        | inr (x, e) ↦ ground (arith, e, h, (rw start at e), uncanceled, unexpired)
      ]
