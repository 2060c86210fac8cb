-- ===== src/Setup.antt =====
-- ksdn/controller.go, lines 52 to 178: the checks around the setup of a node's bridge.
pub mod Flows
pub mod Run
pub mod Version
pub mod Untouched
pub mod Commands
pub mod Keeps
pub mod Unversioned
pub mod Failed
use k8s_ovs.Base.{
  ℕ, zero, suc, ◌≡◌, refl, Bool, true, false, ◌&&◌, Result, ok, err, Error, message, Option, none,
  some, List, [], ◌∷◌, ◌++◌, Text, codes, text_dec, ite, if◌then◌else◌, map,
}
use k8s_ovs.Base.Strings.{contains, split, from_index, drop, trim_space}
use k8s_ovs.Etcd.{HostSubnet, EtcdManager}
use k8s_ovs.EtcdV2.{is_err_etcd_key_not_found}
use k8s_ovs.IpCmd.{IpTransaction, new_transaction, get_addresses, get_routes}
use k8s_ovs.IpCmd.Transaction.{IpOp, delete_route, apply_op}
use k8s_ovs.Ovs.{Exec}
use k8s_ovs.Ovs.Transaction.{dump_flows}
use k8s_ovs.Rules.{get_plugin_version}
use k8s_ovs.Subnets.{NetworkInfo, validate_node_ip}

abbrev pub tun : Text
tun = codes "tun0"

abbrev pub vxlan : Text
vxlan = codes "vxlan0"

abbrev pub version_table : Text
version_table = codes "table=253"

abbrev pub version_action : Text
version_action = codes "actions=note:"

-- Whether one of the texts contains another.
unfoldable pub any_contains : List Text → Text → Bool
unfolding contains
any_contains [] sub = false
any_contains (t ∷ l) sub = let rest = any_contains l sub in if contains t sub then true else rest

-- The comparison of a note with the version that is expected.
unfoldable pub matches_version : List Text → List Text → Bool
unfolding text_dec
matches_version (a ∷ b ∷ existing) (c ∷ d ∷ expected) =
    ite (text_dec a c) (ite (text_dec b d) true false) false
matches_version existing expected = false

-- Whether a flow is the one that notes this plugin's version.
unfoldable pub is_version_flow : Bool → Text → Bool
unfolding contains from_index split matches_version get_plugin_version
is_version_flow multitenant flow =
    let noted : Bool = elim (from_index flow version_action) [
      | none ↦ false
      | some tail ↦ matches_version (split (drop 13 tail) b'.') (get_plugin_version multitenant)
    ] in
    if contains flow version_table then noted else false

unfoldable pub any_version_flow : Bool → List Text → Bool
unfolding is_version_flow
any_version_flow multitenant [] = false
any_version_flow multitenant (flow ∷ flows) =
    let rest = any_version_flow multitenant flows in
    if is_version_flow multitenant flow then true else rest

module _ (x : Exec) where
  unfoldable pub already_set_up : Text → Bool → Text → Text → x.World → x.World × Bool
  unfolding new_transaction get_addresses get_routes any_contains dump_flows any_version_flow
  already_set_up bridge multitenant gateway_cidr cluster_cidr w =
      let (tx1, (w1, addrs)) = get_addresses x (new_transaction x tun) w in
      let (tx2, (w2, routes)) = get_routes x (new_transaction x tun) w1 in
      let (w3, flows) = dump_flows x bridge w2 in
      elim addrs [
        | err e ↦ (w1, false)
        | ok addrs ↦ elim (any_contains addrs gateway_cidr) [
          | false ↦ (w1, false)
          | true ↦ elim routes [
            | err e ↦ (w2, false)
            | ok routes ↦ elim (any_contains routes (cluster_cidr ++ codes " ")) [
              | false ↦ (w2, false)
              | true ↦ elim flows [
                | err e ↦ (w3, false)
                | ok flows ↦ (w3, any_version_flow multitenant flows)
              ]
            ]
          ]
        ]
      ]

  -- One try of `deleteLocalSubnetRoute`; `some` ends the tries.
  unfoldable pub try_delete_route : Text → Text → x.World → x.World × Option (Result (Unit {0}))
  unfolding new_transaction get_routes any_contains apply_op
  try_delete_route device cidr w =
      let (tx, (w1, routes)) = get_routes x (new_transaction x device) w in
      let (tx', w2) = apply_op x (delete_route cidr []) tx w1 in
      elim routes [
        | err e ↦ (w1, some (err (message "could not get routes")))
        | ok routes ↦ elim (any_contains routes cidr) [
          | false ↦ (w1, none)
          | true ↦ (
            w2,
            some
                (elim tx'.error [ none ↦ ok tt | some e ↦ err (message "could not delete route") ]),
          )
        ]
      ]

  -- The tries, with the time that passes between them; the error is logged.
  unfoldable pub try_times : (x.World → x.World) → ℕ → Text → Text → x.World → x.World
  unfolding try_delete_route
  try_times sleep zero device cidr w = w
  try_times sleep (suc steps) device cidr w =
      let (w', ended) = try_delete_route device cidr w in
      let rest = try_times sleep steps device cidr (sleep w') in
      let rest' : x.World = elim steps [ zero ↦ w' | suc _ ↦ rest ] in
      elim ended [ some r ↦ w' | none ↦ rest' ]

  unfoldable pub delete_local_subnet_route : (x.World → x.World) → Text → Text → x.World → x.World
  unfolding try_times
  delete_local_subnet_route sleep device cidr w = try_times sleep 6 device cidr w

module _ (e : EtcdManager) where
  -- One poll of `getLocalSubnet`.
  unfoldable pub poll_subnet : Text → e.Store → e.Store × Result (Option HostSubnet)
  unfolding trim_space text_dec is_err_etcd_key_not_found
  poll_subnet local_ip store =
      let (store', answer) = e.get_subnet local_ip store in
      (
        store',
        elim answer [
          | ok subnet ↦ ok (ite (text_dec (trim_space subnet.subnet) []) none (some subnet))
          | err x ↦ if is_err_etcd_key_not_found x then ok none else err x
        ],
      )

  -- `getLocalSubnet`, with a number of polls; the clock of `Poll` is not modelled.
  unfoldable pub get_local_subnet : NetworkInfo → ℕ → Text → e.Store → e.Store × Result Text
  unfolding poll_subnet validate_node_ip
  get_local_subnet ni zero local_ip store =
      (store, err (message "Failed to get subnet for this host"))
  get_local_subnet ni (suc polls) local_ip store =
      let (store', answer) = poll_subnet local_ip store in
      let rest = get_local_subnet ni polls local_ip store' in
      elim answer [
        | err x ↦ (store', err (message "Failed to get subnet for this host"))
        | ok none ↦ rest
        | ok (some subnet) ↦ (
          store',
          elim (validate_node_ip ni subnet.host_ip) [
            | err x ↦ err (message "Failed to validate own HostSubnet")
            | ok _ ↦ ok subnet.subnet
          ],
        )
      ]
