-- ===== src/Setup/Commands.antt =====
-- ksdn/controller.go, `SetupSDN`: its commands, one by one.
use k8s_ovs.Base.{
  ℕ, zero, suc, ◌≡◌, refl, inl, inr, ite, Bool, false, some, List, [], ◌∷◌, Text, codes, text_dec,
  arith, Result-cases, Option-cases,
}
use k8s_ovs.Base.Strings.{has_prefix}
use k8s_ovs.IpCmd as IpCmd
use k8s_ovs.IpCmd.{IpTransaction, new_transaction}
use k8s_ovs.IpCmd.Transaction as IpTx
use k8s_ovs.IpCmd.Transaction.{IpOp}
use k8s_ovs.Ovs.{Exec, exec, ovs_ofctl}
use k8s_ovs.Ovs.Transaction.{
  FlowOp, command, transact, run_until_error, transact-run_until_error, dump_flows,
}
use k8s_ovs.Setup.{already_set_up, delete_local_subnet_route, try_times, try_delete_route, tun}
use k8s_ovs.Setup.Run.{Host}
use k8s_ovs.Base.Actions.{Keeps, KeepsOnError}
use k8s_ovs.Setup.Untouched.{writes_version, IsUntouched}

command_quiet :
    (link : Text) (op : IpOp) (args : List Text)
    → IpTx.command link op ≡ some args
    → writes_version args ≡ false
unfolding writes_version has_prefix
command_quiet link (IpTx.add_link l) args e = ground (arith)
command_quiet link (IpTx.set_link l) args e = ground (arith)
command_quiet link IpTx.delete_link args e = ground (arith)
command_quiet link IpTx.ignore args e = ground (arith)
command_quiet link (IpTx.add_address c l) args e = ground (arith)
command_quiet link (IpTx.delete_address c l) args e = ground (arith)
command_quiet link (IpTx.add_route c l) args e = ground (arith)
command_quiet link (IpTx.delete_route c l) args e = ground (arith)
command_quiet link (IpTx.add_slave c) args e = ground (arith)
command_quiet link (IpTx.delete_slave c) args e = ground (arith)

-- Flows other than the version's.
abbrev pub AllQuiet : Exec → List FlowOp → Type 0
AllQuiet x [] = Unit {0}
AllQuiet x (op ∷ ops) =
    ((bridge : Text)
      → writes_version (codes "-O" ∷ codes "OpenFlow13" ∷ command x bridge op) ≡ false)
    × AllQuiet x ops

module _ {x : Exec} {h : Host x.World} {I : x.World → Type 0} (u : IsUntouched x h I) where
  -- A command of the wrapper for Open vSwitch.
  pub exec-Keeps :
      (cmd : Text) (args : List Text)
      → writes_version (ite (text_dec cmd ovs_ofctl) (codes "-O" ∷ codes "OpenFlow13" ∷ args) args)
        ≡ false
      → Keeps I (exec x cmd args)
  unfolding exec
  exec-Keeps cmd args quiet w i = u.by_command cmd _ w quiet i

  -- A command of the wrapper for ip.
  ip_exec-Keeps :
      (args : List Text) (tx : IpTransaction) (w : x.World)
      → writes_version args ≡ false
      → I w
      → I (IpCmd.exec x args tx w).1.0
  unfolding IpCmd.exec
  ip_exec-Keeps args tx w quiet i = elim (Option-cases tx.error) [
    | inr (e, stopped) ↦ ground (arith, stopped)
    | inl running ↦ elim (Result-cases (x.look_path (codes "ip") w)) [
      | inr (e, missing) ↦ ground (arith, running, missing)
      | inl (path, found) ↦ elim (Result-cases (x.run path args w).1) [
        | inl (out, ran) ↦ ground (arith, running, found, ran, u.by_command path args w quiet i)
        | inr (e, failed) ↦ ground (arith, running, found, failed, u.by_command path args w quiet i)
      ]
    ]
  ]

  apply_op-Keeps :
      (op : IpOp) (tx : IpTransaction) (w : x.World) → I w → I (IpTx.apply_op x op tx w).1
  unfolding IpTx.apply_op
  apply_op-Keeps op tx w i = elim (Option-cases (IpTx.command tx.link op)) [
    | inl ignored ↦ ground (arith, ignored)
    | inr (args, issued) ↦
        ground (arith, issued, ip_exec-Keeps args tx w (command_quiet tx.link op args issued) i)
  ]

  apply_ops-Keeps :
      (ops : List IpOp) (tx : IpTransaction) (w : x.World) → I w → I (IpTx.apply_ops x ops tx w).1
  unfolding IpTx.apply_ops
  apply_ops-Keeps [] tx w i = i
  apply_ops-Keeps (op ∷ ops) tx w i =
      let s = IpTx.apply_op x op tx w in apply_ops-Keeps ops s.0 s.1 (apply_op-Keeps op tx w i)

  -- A transaction of the wrapper for ip.
  pub ip_transact-Keeps : (link : Text) (ops : List IpOp) → Keeps I (IpTx.transact x link ops)
  unfolding IpTx.transact
  ip_transact-Keeps link ops w i = apply_ops-Keeps ops _ w i

  run_until_error-Keeps :
      (bridge : Text) (ops : List FlowOp) → AllQuiet x ops → Keeps I (run_until_error x bridge ops)
  unfolding run_until_error text_dec
  run_until_error-Keeps bridge [] q w i = i
  run_until_error-Keeps bridge (op ∷ ops) (q, rest) w i =
      let here = exec-Keeps ovs_ofctl (command x bridge op) (q bridge) w i in
      let after =
        run_until_error-Keeps bridge ops rest (exec x ovs_ofctl (command x bridge op) w).0 here in
      elim (Result-cases (exec x ovs_ofctl (command x bridge op) w).1) [
        | inl (out, ran) ↦ ground (arith, ran)
        | inr (e, failed) ↦ ground (arith, failed)
      ]

  pub transact-Keeps :
      (bridge : Text) (ops : List FlowOp) → AllQuiet x ops → Keeps I (transact x bridge ops)
  transact-Keeps bridge ops q w i =
      rw (transact-run_until_error x bridge ops w) (run_until_error-Keeps bridge ops q w i)

  run_one-KeepsOnError :
      (bridge : Text) (op : FlowOp) → KeepsOnError I (run_until_error x bridge (op ∷ []))
  unfolding run_until_error exec text_dec
  run_one-KeepsOnError bridge op w e failed i =
      let args = codes "-O" ∷ codes "OpenFlow13" ∷ command x bridge op in
      elim (Result-cases (x.run ovs_ofctl args w).1) [
        | inl (out, ran) ↦ ground (arith, ran, failed)
        | inr (d, stopped) ↦ ground (arith, stopped, u.by_failure ovs_ofctl args w d stopped i)
      ]

  -- A transaction of one flow, whatever it is.
  pub transact-KeepsOnError :
      (bridge : Text) (op : FlowOp) → KeepsOnError I (transact x bridge (op ∷ []))
  transact-KeepsOnError bridge op w e =
      rw (transact-run_until_error x bridge (op ∷ []) w) (run_one-KeepsOnError bridge op w e)

  -- The reads of the interface.
  pub get_addresses-Keeps :
      (tx : IpTransaction) (w : x.World) → I w → I (IpCmd.get_addresses x tx w).1.0
  unfolding IpCmd.get_addresses writes_version has_prefix
  get_addresses-Keeps tx w i = ip_exec-Keeps _ tx w refl i

  pub get_routes-Keeps : (tx : IpTransaction) (w : x.World) → I w → I (IpCmd.get_routes x tx w).1.0
  unfolding IpCmd.get_routes writes_version has_prefix
  get_routes-Keeps tx w i = ip_exec-Keeps _ tx w refl i

  dump_flows-Keeps : (bridge : Text) → Keeps I (dump_flows x bridge)
  unfolding dump_flows writes_version has_prefix text_dec
  dump_flows-Keeps bridge w i = exec-Keeps ovs_ofctl _ refl w i

  pub already_set_up-Keeps :
      (bridge : Text) (multitenant : Bool) (gateway_cidr cluster_cidr : Text) (w : x.World)
      → I w
      → I (already_set_up x bridge multitenant gateway_cidr cluster_cidr w).0
  unfolding already_set_up
  already_set_up-Keeps bridge multitenant gateway_cidr cluster_cidr w i =
      let i1 = get_addresses-Keeps (new_transaction x tun) w i in
      let s1 = IpCmd.get_addresses x (new_transaction x tun) w in
      let i2 = get_routes-Keeps (new_transaction x tun) s1.1.0 i1 in
      let s2 = IpCmd.get_routes x (new_transaction x tun) s1.1.0 in
      let i3 = dump_flows-Keeps bridge s2.1.0 i2 in ground arith

  try_delete_route-Keeps :
      (device cidr : Text) (w : x.World) → I w → I (try_delete_route x device cidr w).0
  unfolding try_delete_route
  try_delete_route-Keeps device cidr w i =
      let s1 = IpCmd.get_routes x (new_transaction x device) w in
      let i1 = get_routes-Keeps (new_transaction x device) w i in
      let i2 = apply_op-Keeps (IpTx.delete_route cidr []) s1.0 s1.1.0 i1 in ground arith

  try_times-Keeps :
      (steps : ℕ) (device cidr : Text) (w : x.World)
      → I w
      → I (try_times x h.sleep steps device cidr w)
  unfolding try_times
  try_times-Keeps zero device cidr w i = i
  try_times-Keeps (suc zero) device cidr w i =
      let i1 = try_delete_route-Keeps device cidr w i in ground arith
  try_times-Keeps (suc (suc steps)) device cidr w i =
      let w1 = (try_delete_route x device cidr w).0 in
      let i1 = try_delete_route-Keeps device cidr w i in
      let i2 = try_times-Keeps (suc steps) device cidr (h.sleep w1) (u.by_sleep w1 i1) in
      ground arith

  pub delete_local_subnet_route-Keeps :
      (device cidr : Text) (w : x.World)
      → I w
      → I (delete_local_subnet_route x h.sleep device cidr w)
  unfolding delete_local_subnet_route
  delete_local_subnet_route-Keeps device cidr w i = try_times-Keeps 6 device cidr w i
