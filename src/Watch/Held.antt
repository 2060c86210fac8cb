-- ===== src/Watch/Held.antt =====
-- What a watcher holds after the events of a watch.
use k8s_ovs.Base.{
  ℕ, ◌≤◌, ◌≡◌, List, [], ◌∷◌, Text, text_dec, ite, arith, refl, ◌∙◌, ap, inl, inr, Option-cases,
}
use k8s_ovs.Etcd.{
  HostSubnet, NetNamespace, Event, EventType, event_added, event_removed, event_other,
}
use k8s_ovs.Watch.{
  find, add, remove, update_one, update, subnet_update, subnet_event, net_ns_update, net_ns_event,
}
use k8s_ovs.Watch.Counts.{
  count, count-append, count-delete_at, count-put_at, search_from-none, search_from-some,
}

-- No name is held twice.
abbrev pub IsUnique : {T : Type 0} → (T → Text) → List T → Type 0
IsUnique key held = (name : Text) → count key name held ≤ 1

module _ {T : Type 0} (key : T → Text) (item : Event → T) where
  -- How often a name is held after an event about an item, told from how often it was before.
  abbrev pub settle : Text → EventType → T → ℕ → ℕ
  settle name event_added x n = ite (text_dec (key x) name) 1 n
  settle name event_removed x n = ite (text_dec (key x) name) 0 n
  settle name (event_other k) x n = n

  abbrev pub settled : Text → List Event → ℕ → ℕ
  settled name [] n = n
  settled name (e ∷ events) n = settled name events (settle name e.type (item e) n)

  settle_le : (name : Text) (t : EventType) (x : T) (n : ℕ) → n ≤ 1 → settle name t x n ≤ 1
  settle_le name event_added x n h = ground arith
  settle_le name event_removed x n h = ground arith
  settle_le name (event_other k) x n h = h

module _ {T : Type 0} (key : T → Text) (event : EventType → T → Event) (item : Event → T) where
  add-count :
      (name : Text) (x : T) (held : List T)
      → IsUnique key held
      → count key name (add key event item held x).0
        ≡ settle key item name event_added x (count key name held)
  unfolding add find
  add-count name x held u = elim (Option-cases (find key (key x) held)) [
    | inl e ↦
        rw (add, e)
          (ground
            (arith, count-append key name held (x ∷ []), search_from-none key 0 (key x) held e))
    | inr ((i, y), e) ↦
        let (k, place, low, named, there) = search_from-some key 0 i (key x) y x held e in
        rw (add, e)
          (ground (
            arith,
            place,
            named,
            there,
            count-put_at key name k x x held low,
            count-delete_at key name k x held low,
            u name,
          ))
  ]

  remove-count :
      (name : Text) (x : T) (held : List T)
      → IsUnique key held
      → count key name (remove key event item held x).0
        ≡ settle key item name event_removed x (count key name held)
  unfolding remove find
  remove-count name x held u = elim (Option-cases (find key (key x) held)) [
    | inl e ↦ rw (remove, e) (ground (arith, search_from-none key 0 (key x) held e))
    | inr ((i, y), e) ↦
        let (k, place, low, named, there) = search_from-some key 0 i (key x) y x held e in
        rw (remove, e)
          (ground (arith, place, named, there, count-delete_at key name k x held low, u name))
  ]

  update_one-count :
      (name : Text) (t : EventType) (x : T) (held : List T)
      → IsUnique key held
      → count key name (update_one key event item t x held).0
        ≡ settle key item name t x (count key name held)
  unfolding update_one
  update_one-count name event_added x held u = add-count name x held u
  update_one-count name event_removed x held u = remove-count name x held u
  update_one-count name (event_other n) x held u = refl

  update-count :
      (events : List Event) (held : List T)
      → IsUnique key held
      → (name : Text)
      → count key name (update key event item held events).0
        ≡ settled key item name events (count key name held)
  unfolding update
  update-count [] held u name = refl
  update-count (e ∷ events) held u name =
      let held1 = (update_one key event item e.type (item e) held).0 in
      let one = λ (n : Text). update_one-count n e.type (item e) held u in
      let u1 : IsUnique key held1 =
        λ n. rw (one n) (settle_le key item n e.type (item e) (count key n held) (u n)) in
      update-count events held1 u1 name ∙ ap (settled key item name events) (one name)

-- The subnet watcher, if it holds no host twice, holds after the events of a watch exactly the
-- hosts whose last event added them, and those without an event that it held before; none twice.
subnet_update-count :
    (events : List Event) (held : List HostSubnet)
    → IsUnique (λ (s : HostSubnet). s.host) held
    → (host : Text)
    → count (λ (s : HostSubnet). s.host) host (subnet_update held events).0
      ≡ settled
          (λ (s : HostSubnet). s.host)
          (λ (e : Event). e.subnet)
          host
          events
          (count (λ (s : HostSubnet). s.host) host held)
unfolding subnet_update
subnet_update-count events held u host =
    update-count (λ (s : HostSubnet). s.host) subnet_event (λ (e : Event). e.subnet) events held u
      host

-- The watcher of net namespaces, if it holds no namespace twice, holds after the events of a watch
-- exactly the namespaces whose last event added them, and those without an event that it held
-- before; none twice.
pub net_ns_update-count :
    (events : List Event) (held : List NetNamespace)
    → IsUnique (λ (n : NetNamespace). n.net_name) held
    → (name : Text)
    → count (λ (n : NetNamespace). n.net_name) name (net_ns_update held events).0
      ≡ settled
          (λ (n : NetNamespace). n.net_name)
          (λ (e : Event). e.net_ns)
          name
          events
          (count (λ (n : NetNamespace). n.net_name) name held)
unfolding net_ns_update
net_ns_update-count events held u name =
    update-count (λ (n : NetNamespace). n.net_name) net_ns_event (λ (e : Event). e.net_ns) events
      held u name
