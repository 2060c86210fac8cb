-- ===== src/Watch/Diff.antt =====
-- What a watcher sends when it is given a snapshot.
use k8s_ovs.Base.{
  ℕ, ◌+◌, ◌-◌, ◌≡◌, List, [], ◌∷◌, ◌++◌, map, Text, arith, refl, inl, inr, Option-cases,
}
use k8s_ovs.Etcd.{
  HostSubnet, NetNamespace, Event, EventType, event_added, event_removed, event_other,
}
use k8s_ovs.Watch.{
  delete_at, find, diff, reset, subnet_reset, subnet_event, net_ns_reset, net_ns_event,
}
use k8s_ovs.Watch.Counts.{is_named, count, count-delete_at, search_from-none, search_from-some}

module _ {T : Type 0} (key : T → Text) (item : Event → T) where
  abbrev pub is_added : Text → EventType → T → ℕ
  is_added name event_added x = is_named key name x
  is_added name event_removed x = 0
  is_added name (event_other n) x = 0

  abbrev pub is_removed : Text → EventType → T → ℕ
  is_removed name event_added x = 0
  is_removed name event_removed x = is_named key name x
  is_removed name (event_other n) x = 0

  -- The number of events of a batch that report an item of the name as added, or as removed.
  abbrev pub times_added : Text → List Event → ℕ
  times_added name [] = 0
  times_added name (e ∷ batch) = is_added name e.type (item e) + times_added name batch

  abbrev pub times_removed : Text → List Event → ℕ
  times_removed name [] = 0
  times_removed name (e ∷ batch) = is_removed name e.type (item e) + times_removed name batch

  times_added-append :
      (name : Text) (s t : List Event)
      → times_added name (s ++ t) ≡ times_added name s + times_added name t
  times_added-append name [] t = omega arith
  times_added-append name (e ∷ s) t = omega (arith, times_added-append name s t)

  times_removed-append :
      (name : Text) (s t : List Event)
      → times_removed name (s ++ t) ≡ times_removed name s + times_removed name t
  times_removed-append name [] t = omega arith
  times_removed-append name (e ∷ s) t = omega (arith, times_removed-append name s t)

  -- The events are about the items they are made of.
  pub record IsEvent (event : EventType → T → Event) : Type 0 where
    pub typed : (t : EventType) (x : T) → (event t x).type ≡ t
    pub holds : (t : EventType) (x : T) → item (event t x) ≡ x

module _ {T : Type 0} (key : T → Text) (event : EventType → T → Event) (item : Event → T)
    (made : IsEvent key item event) where
  times-removals :
      (name : Text) (s : List T)
      → (times_added key item name (map (event event_removed) s) ≡ 0)
        × (times_removed key item name (map (event event_removed) s) ≡ count key name s)
  times-removals name [] = (refl, refl)
  times-removals name (x ∷ s) =
      rw (made.holds event_removed x, made.typed event_removed x)
        (omega (arith, (times-removals name s).0), omega (arith, (times-removals name s).1))

  diff-times :
      (name : Text) (old new : List T)
      → let (left, batch) = diff key event item old new in
        (count key name left ≡ count key name old - count key name new)
        × (times_added key item name batch ≡ count key name new - count key name old)
        × (times_removed key item name batch ≡ 0)
  unfolding diff find
  diff-times name old [] = (omega arith, omega arith, refl)
  diff-times name old (ns ∷ new) = elim (Option-cases (find key (key ns) old)) [
    | inl e ↦
        let none_held : count key (key ns) old ≡ 0 = search_from-none key 0 (key ns) old e in
        let (left, added, removed) = diff-times name old new in
        rw (diff, e, made.holds event_added ns, made.typed event_added ns)
          (
            ground (arith, none_held, left),
            ground (arith, none_held, added),
            ground (arith, removed),
          )
    | inr ((i, os), e) ↦
        let (k, place, low, named, there) = search_from-some key 0 i (key ns) os ns old e in
        let one = count-delete_at key name k ns old low in
        let (left, added, removed) = diff-times name (delete_at old i) new in
        rw (diff, e)
          (
            ground (arith, one, place, named, there, left),
            ground (arith, one, place, named, there, added),
            removed,
          )
  ]

  reset-times :
      (name : Text) (held snapshot : List T)
      → let (held', batch) = reset key event item held snapshot in
        (held' ≡ snapshot)
        × (times_added key item name batch ≡ count key name snapshot - count key name held)
        × (times_removed key item name batch ≡ count key name held - count key name snapshot)
  unfolding reset
  reset-times name held snapshot =
      let (left, batch) = diff key event item held snapshot in
      let (few, added, removed) = diff-times name held snapshot in
      let (none_added, all_removed) = times-removals name left in
      (
        refl,
        omega (
          arith,
          times_added-append key item name batch (map (event event_removed) left),
          added,
          none_added,
        ),
        omega (
          arith,
          times_removed-append key item name batch (map (event event_removed) left),
          removed,
          all_removed,
          few,
        ),
      )

-- Given a snapshot, the subnet watcher holds it from then on, and reports a host as added as often
-- as the snapshot has it more often than the watcher had it, and as removed as often as the
-- reverse.
subnet_reset-times :
    (host : Text) (held snapshot : List HostSubnet)
    → let key = λ (s : HostSubnet). s.host in
      let (held', batch) = subnet_reset held snapshot in
      (held' ≡ snapshot)
      × (times_added key (λ (e : Event). e.subnet) host batch
          ≡ count key host snapshot - count key host held)
      × (times_removed key (λ (e : Event). e.subnet) host batch
          ≡ count key host held - count key host snapshot)
unfolding subnet_reset
subnet_reset-times host held snapshot =
    reset-times (λ (s : HostSubnet). s.host) subnet_event (λ (e : Event). e.subnet)
      (record { typed = λ t x. refl; holds = λ t x. refl }) host held snapshot

-- Given a snapshot, the watcher of net namespaces holds it from then on, and reports a namespace
-- as added as often as the snapshot has it more often than the watcher had it, and as removed as
-- often as the reverse.
pub net_ns_reset-times :
    (name : Text) (held snapshot : List NetNamespace)
    → let key = λ (n : NetNamespace). n.net_name in
      let (held', batch) = net_ns_reset held snapshot in
      (held' ≡ snapshot)
      × (times_added key (λ (e : Event). e.net_ns) name batch
          ≡ count key name snapshot - count key name held)
      × (times_removed key (λ (e : Event). e.net_ns) name batch
          ≡ count key name held - count key name snapshot)
unfolding net_ns_reset
net_ns_reset-times name held snapshot =
    reset-times (λ (n : NetNamespace). n.net_name) net_ns_event (λ (e : Event). e.net_ns)
      (record { typed = λ t x. refl; holds = λ t x. refl }) name held snapshot
