-- ===== src/NodeVnids/Services.antt =====
-- ksdn/vnids_node.go, lines 227 to 280: how a node follows the services.
use k8s_ovs.Base.{
  ◌↔◌, ◌≡◌, ap, ◌≢◌, ◌⊎◌, inl, inr, ite, Bool, true, false, Result, ok, err, message, none, some,
  List, [], ◌∷◌, Text, text_dec, lookup, insert, delete, lookup-insert, if◌then◌else◌, ◌==◌, ==_iff,
  length, arith, refl, Option-cases, Result-cases, Bool-cases,
}
use k8s_ovs.EventQueue.{DeltaType, added, updated, deleted, sync}
use k8s_ovs.Ovs.{Exec}
use k8s_ovs.Rules.{Service, ServicePort, add_service_rules, delete_service_rules}
use k8s_ovs.NodeVnids.{NodeVnidMap, wait_and_get_vnid}
use k8s_ovs.NodeVnids.Sets.{StringSets}

-- The loop of `isServiceChanged`, over lists of one length.
unfoldable pub is_port_changed : List ServicePort → List ServicePort → Bool
unfolding text_dec
is_port_changed (p ∷ old) (q ∷ new) =
    let rest = is_port_changed old new in
    ite (text_dec p.protocol q.protocol) (if p.port == q.port then rest else true) true
is_port_changed [] new = false
is_port_changed (p ∷ old) [] = false

unfoldable pub is_service_changed : Service → Service → Bool
unfolding is_port_changed
is_service_changed old new =
    if length old.ports == length new.ports then is_port_changed old.ports new.ports else true

is_port_changed-ports :
    (old new : List ServicePort)
    → length old ≡ length new
    → (is_port_changed old new ≡ false) ↔ (old ≡ new)
unfolding is_port_changed
is_port_changed-ports [] [] e = ground arith
is_port_changed-ports [] (q ∷ new) e = ground arith
is_port_changed-ports (p ∷ old) [] e = ground arith
is_port_changed-ports (p ∷ old) (q ∷ new) e =
    ground (arith, is_port_changed-ports old new, ==_iff p.port q.port)

-- A service is called unchanged exactly if its ports have the same protocols and numbers in the
-- same order.
is_service_changed-ports :
    (old new : Service) → (is_service_changed old new ≡ false) ↔ (old.ports ≡ new.ports)
unfolding is_service_changed
is_service_changed-ports old new = ground (
  arith,
  is_port_changed-ports old.ports new.ports,
  ==_iff (length old.ports) (length new.ports),
  λ (e : old.ports ≡ new.ports). ap (length {A = ServicePort}) e,
)

module _ (z : StringSets) (x : Exec) (bridge : Text) (multitenant : Bool)
    (is_service_ip_set : Service → Bool) where
  -- The map that `watchServices` keeps, by UID.
  abbrev pub Known : Type 0
  Known = List (Text × Service)

  -- The branch of a service that is there: what is new or changed replaces the rules.
  unfoldable pub replace_rules :
      List (NodeVnidMap z) → Service → Known → x.World → (Known × x.World) × Result (Unit {0})
  unfolding wait_and_get_vnid add_service_rules
  replace_rules seen serv services w = elim (wait_and_get_vnid z seen serv.namespace) [
    | err e ↦ ((services, w), err (message "skipped adding service rules"))
    | ok netid ↦
        let (w', answer) = add_service_rules x bridge multitenant serv netid w in
        elim answer [
          | err e ↦ ((services, w'), err e)
          | ok _ ↦ ((insert text_dec serv.uid serv services, w'), ok tt)
        ]
  ]

  unfoldable pub update_service :
      List (NodeVnidMap z) → Service → Known → x.World → (Known × x.World) × Result (Unit {0})
  unfolding replace_rules is_service_changed delete_service_rules
  update_service seen serv services w = elim (lookup text_dec serv.uid services) [
    | none ↦ replace_rules seen serv services w
    | some oldsvc ↦
        let w' = (delete_service_rules x bridge multitenant oldsvc w).0 in
        let replaced = replace_rules seen serv services w' in
        if is_service_changed oldsvc serv then replaced else ((services, w), ok tt)
  ]

  unfoldable pub remove_service : Service → Known → x.World → (Known × x.World) × Result (Unit {0})
  unfolding delete_service_rules
  remove_service serv services w =
      let (w', answer) = delete_service_rules x bridge multitenant serv w in
      ((delete text_dec serv.uid services, w'), answer)

  -- The function that `watchServices` hands to the event queue; `seen` are the maps that the wait for
  -- the VNID finds.
  unfoldable pub watch_service :
      List (NodeVnidMap z)
      → DeltaType
      → Service
      → Known
      → x.World
      → (Known × x.World) × Result (Unit {0})
  unfolding update_service remove_service
  watch_service seen deleted serv services w =
      let removed = remove_service serv services w in
      if is_service_ip_set serv then removed else ((services, w), ok tt)
  watch_service seen added serv services w =
      let replaced = update_service seen serv services w in
      if is_service_ip_set serv then replaced else ((services, w), ok tt)
  watch_service seen updated serv services w =
      let replaced = update_service seen serv services w in
      if is_service_ip_set serv then replaced else ((services, w), ok tt)
  watch_service seen sync serv services w =
      let replaced = update_service seen serv services w in
      if is_service_ip_set serv then replaced else ((services, w), ok tt)

  -- The delta leaves a service that the cluster can reach.
  abbrev pub Stays : DeltaType → Service → Type 0
  Stays t serv = (t ≢ deleted) × (is_service_ip_set serv ≡ true)

  watch_service-Stays :
      (seen : List (NodeVnidMap z)) (t : DeltaType) (serv : Service) (services : Known)
      (w : x.World)
      → Stays t serv
      → watch_service seen t serv services w ≡ update_service seen serv services w
  unfolding watch_service
  watch_service-Stays seen added serv services w (keeps, set) = rw set refl
  watch_service-Stays seen updated serv services w (keeps, set) = rw set refl
  watch_service-Stays seen sync serv services w (keeps, set) = rw set refl
  watch_service-Stays seen deleted serv services w (keeps, set) = ground (arith, keeps refl)

  -- The map has the service under the UID now, and the others as before.
  abbrev pub Records : Text → Service → Known → Known → Type 0
  Records uid s services after =
      (u : Text)
      → lookup text_dec u after ≡ ite (text_dec uid u) (some s) (lookup text_dec u services)

  replace_rules-known :
      (seen : List (NodeVnidMap z)) (serv : Service) (services : Known) (w : x.World)
      → let ((after, w'), answer) = replace_rules seen serv services w in
        ((answer ≡ ok tt) × Records serv.uid serv services after)
        ⊎ ((answer ≢ ok tt) × (after ≡ services))
  unfolding replace_rules
  replace_rules-known seen serv services w =
      elim (Result-cases (wait_and_get_vnid z seen serv.namespace)) [
        | inr (e, failed) ↦ rw (replace_rules, failed) (inr (λ h. ground (arith, h), refl))
        | inl (netid, found) ↦
            elim (Result-cases (add_service_rules x bridge multitenant serv netid w).1) [
              | inr (e, failed) ↦
                  rw (replace_rules, found, failed) (inr (λ h. ground (arith, h), refl))
              | inl (u, worked) ↦
                  rw (replace_rules, found, worked)
                    (inl (refl, λ u. lookup-insert text_dec serv.uid u serv services))
            ]
      ]

  -- What the handling of a delta that leaves the service ends with: the map has a service of the same
  -- ports under the UID, or an error and the old map.
  abbrev pub Outcome : Service → Known → Known → Result (Unit {0}) → Type 0
  Outcome serv services after answer =
      ((answer ≡ ok tt)
        × ((s : Service) × (s.ports ≡ serv.ports) × Records serv.uid s services after))
      ⊎ ((answer ≢ ok tt) × (after ≡ services))

  replace_rules-Outcome :
      (seen : List (NodeVnidMap z)) (serv : Service) (services : Known) (w : x.World)
      → let ((after, w'), answer) = replace_rules seen serv services w in
        Outcome serv services after answer
  replace_rules-Outcome seen serv services w = elim (replace_rules-known seen serv services w) [
    | inl (worked, known) ↦ inl (worked, (serv, refl, known))
    | inr failed ↦ inr failed
  ]

  update_service-Outcome :
      (seen : List (NodeVnidMap z)) (serv : Service) (services : Known) (w : x.World)
      → let ((after, w'), answer) = update_service seen serv services w in
        Outcome serv services after answer
  unfolding update_service
  update_service-Outcome seen serv services w =
      elim (Option-cases (lookup text_dec serv.uid services)) [
        | inl e ↦ rw (update_service, e) (replace_rules-Outcome seen serv services w)
        | inr (old, e) ↦ elim (Bool-cases (is_service_changed old serv)) [
          | inl changed ↦
              let w' = (delete_service_rules x bridge multitenant old w).0 in
              rw (update_service, e, changed) (replace_rules-Outcome seen serv services w')
          | inr same ↦
              rw (update_service, e, same)
                (inl
                  (refl, (old, (is_service_changed-ports old serv).0 same, λ u. ground (arith, e))))
        ]
      ]

  -- A delta other than Deleted of a service with an IP either succeeds, and then the node's map
  -- has a service with the same ports under its UID and is unchanged elsewhere, or fails and
  -- leaves the map unchanged.
  pub watch_service-Outcome :
      (seen : List (NodeVnidMap z)) (t : DeltaType) (serv : Service) (services : Known)
      (w : x.World)
      → Stays t serv
      → let ((after, w'), answer) = watch_service seen t serv services w in
        Outcome serv services after answer
  watch_service-Outcome seen t serv services w stays =
      rw (watch_service-Stays seen t serv services w stays)
        (update_service-Outcome seen serv services w)
