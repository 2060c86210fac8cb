-- ===== src/Subnets/NodeWatch.antt =====
-- ksdn/subnets.go, lines 101 to 155, and pkg/utils/common.go, lines 75 to 100: the master's watch of the
-- nodes. `lookup_ip` is the resolver, with `none` for an address that is not IPv4.
use k8s_ovs.Base.{
  ℕ, ◌/◌, Bool, true, false, Result, ok, err, message, Option, none, some, List, [], ◌∷◌, Text,
  text_dec, ite, lookup, insert, delete, if◌then◌else◌, ◌==◌,
}
use k8s_ovs.Etcd.{EtcdManager}
use k8s_ovs.EventQueue.{DeltaType, added, updated, deleted, sync}
use k8s_ovs.IpNet.{parse_ip, ip_to_string}
use k8s_ovs.Subnets.{NetworkInfo, SubnetMaster, add_node, delete_node}

-- A node, by what the watch uses of it.
pub record Node : Type 0 where
  pub name : Text
  pub uid : Text
  pub addresses : List Text

unfoldable pub is_valid_node_ip : List Text → Text → Bool
unfolding text_dec
is_valid_node_ip [] node_ip = false
is_valid_node_ip (addr ∷ addresses) node_ip =
    let rest = is_valid_node_ip addresses node_ip in ite (text_dec addr node_ip) true rest

-- The loop of `GetNodeIP`: the first address that is IPv4 and no loopback.
unfoldable pub first_ip : List (Option ℕ) → Option ℕ
first_ip [] = none
first_ip (none ∷ addrs) = first_ip addrs
first_ip (some ip ∷ addrs) =
    let rest = first_ip addrs in if ip / 16777216 == 127 then rest else some ip

module _ (lookup_ip : Text → Result (List (Option ℕ))) where
  unfoldable pub node_name_ip : Text → Result Text
  unfolding parse_ip first_ip ip_to_string
  node_name_ip node_name =
      let shown : Option ℕ → Result Text = λ (found : Option ℕ). elim found [
        | none ↦ err (message "Failed to obtain IP address from node name")
        | some ip ↦ ok (ip_to_string ip)
      ] in
      elim (parse_ip node_name) [
        | some ip ↦ shown (first_ip (some ip ∷ []))
        | none ↦ elim (lookup_ip node_name) [
          | err _ ↦ err (message "Failed to lookup IP address for node")
          | ok addrs ↦ shown (first_ip addrs)
        ]
      ]

  unfoldable pub get_node_ip : Node → Result Text
  unfolding node_name_ip text_dec
  get_node_ip node =
      let by_name = node_name_ip node.name in
      elim node.addresses [ [] ↦ by_name | addr ∷ _ ↦ ite (text_dec addr []) by_name (ok addr) ]

module _ (e : EtcdManager) (ni : NetworkInfo) where
  -- The map that `watchNodes` keeps, from UIDs to addresses.
  abbrev pub Addresses : Type 0
  Addresses = List (Text × Text)

  -- A node that is there: it gets a subnet unless it has one for an address that it still has.
  unfoldable pub settle_node :
      Node → Text → Addresses → SubnetMaster e → (Addresses × SubnetMaster e) × Result (Unit {0})
  unfolding is_valid_node_ip add_node
  settle_node node node_ip m s =
      let (s', answer) = add_node e ni s node.name node_ip false in
      let settled : (Addresses × SubnetMaster e) × Result (Unit {0}) = elim answer [
        | err _ ↦ ((m, s'), err (message "error creating subnet for node"))
        | ok _ ↦ ((insert text_dec node.uid node_ip m, s'), ok tt)
      ] in
      elim (lookup text_dec node.uid m) [
        | none ↦ settled
        | some old_node_ip ↦
            ite (text_dec node_ip old_node_ip) ((m, s), ok tt)
              (if is_valid_node_ip node.addresses old_node_ip then ((m, s), ok tt) else settled)
      ]

  unfoldable pub drop_node :
      Node → Text → Addresses → SubnetMaster e → (Addresses × SubnetMaster e) × Result (Unit {0})
  unfolding delete_node
  drop_node node node_ip m s =
      let (s', answer) = delete_node e ni s node_ip in
      (
        (delete text_dec node.uid m, s'),
        elim answer [ err _ ↦ err (message "Error deleting node") | ok _ ↦ ok tt ],
      )

  unfoldable pub handle_node :
      DeltaType
      → Node
      → Text
      → Addresses
      → SubnetMaster e
      → (Addresses × SubnetMaster e) × Result (Unit {0})
  unfolding settle_node drop_node
  handle_node added node node_ip m s = settle_node node node_ip m s
  handle_node updated node node_ip m s = settle_node node node_ip m s
  handle_node sync node node_ip m s = settle_node node node_ip m s
  handle_node deleted node node_ip m s = drop_node node node_ip m s

  -- The function that `watchNodes` hands to the event queue.
  unfoldable pub watch_node :
      (Text → Result (List (Option ℕ)))
      → DeltaType
      → Node
      → Addresses
      → SubnetMaster e
      → (Addresses × SubnetMaster e) × Result (Unit {0})
  unfolding get_node_ip handle_node
  watch_node lookup_ip t node m s = elim (get_node_ip lookup_ip node) [
    | err _ ↦ ((m, s), err (message "failed to get node IP, skipping event"))
    | ok node_ip ↦ handle_node t node node_ip m s
  ]
