-- ===== src/IpCmd/Transaction.antt =====
-- pkg/ipcmd/ipcmd.go, lines 52 to 134: the calls of a transaction that answer nothing.
use k8s_ovs.Base.{
  ◌≡◌, refl, inl, inr, Result, ok, err, Error, message, Option, none, some, List, [], ◌∷◌, Text,
  codes, arith, Result-cases, Option-cases,
}
use k8s_ovs.Ovs.{Exec}
use k8s_ovs.IpCmd.{IpTransaction, exec, new_transaction, ignore_error, end_transaction}

-- The calls, with `IgnoreError` among them.
pub data IpOp : Type 0 where
  add_link set_link : List Text → IpOp
  delete_link ignore : IpOp
  add_address delete_address add_route delete_route : Text → List Text → IpOp
  add_slave delete_slave : Text → IpOp

-- The arguments of a call's command; `IgnoreError` has none.
abbrev pub command : Text → IpOp → Option (List Text)
command link (add_link args) = some (codes "link" ∷ codes "add" ∷ link ∷ args)
command link delete_link = some (codes "link" ∷ codes "del" ∷ link ∷ [])
command link (set_link args) = some (codes "link" ∷ codes "set" ∷ link ∷ args)
command link (add_address cidr args) =
    some (codes "addr" ∷ codes "add" ∷ cidr ∷ codes "dev" ∷ link ∷ args)
command link (delete_address cidr args) =
    some (codes "addr" ∷ codes "del" ∷ cidr ∷ codes "dev" ∷ link ∷ args)
command link (add_route cidr args) =
    some (codes "route" ∷ codes "add" ∷ cidr ∷ codes "dev" ∷ link ∷ args)
command link (delete_route cidr args) =
    some (codes "route" ∷ codes "del" ∷ cidr ∷ codes "dev" ∷ link ∷ args)
command link (add_slave slave) =
    some (codes "link" ∷ codes "set" ∷ slave ∷ codes "master" ∷ link ∷ [])
command link (delete_slave slave) =
    some (codes "link" ∷ codes "set" ∷ slave ∷ codes "nomaster" ∷ [])
command link ignore = none

-- The commands of the calls, in parts that end where `IgnoreError` is called.
unfoldable pub parts : Text → List IpOp → List (List Text) × List (List (List Text))
parts link [] = ([], [])
parts link (op ∷ ops) =
    let (first, rest) = parts link ops in
    elim (command link op) [ none ↦ ([], first ∷ rest) | some args ↦ (args ∷ first, rest) ]

module _ (x : Exec) where
  unfoldable pub apply_op : IpOp → IpTransaction → x.World → IpTransaction × x.World
  unfolding exec ignore_error
  apply_op op tx w = elim (command tx.link op) [
    | none ↦ (ignore_error x tx, w)
    | some args ↦ let (tx', (w', output)) = exec x args tx w in (tx', w')
  ]

  -- Several calls on one transaction.
  unfoldable pub apply_ops : List IpOp → IpTransaction → x.World → IpTransaction × x.World
  unfolding apply_op
  apply_ops [] tx w = (tx, w)
  apply_ops (op ∷ ops) tx w = let (tx', w') = apply_op op tx w in apply_ops ops tx' w'

  -- A whole transaction.
  unfoldable pub transact : Text → List IpOp → x.World → x.World × Result (Unit {0})
  unfolding new_transaction apply_ops end_transaction
  transact link ops w =
      let (tx, w') = apply_ops ops (new_transaction x link) w in (w', (end_transaction x tx).1)

  -- One command by itself.
  unfoldable pub run_command : List Text → x.World → x.World × Result Text
  run_command args w = elim (x.look_path (codes "ip") w) [
    | err _ ↦ (w, err (message "ip is not installed"))
    | ok path ↦ x.run path args w
  ]

  -- Commands in their order, up to the first that fails.
  unfoldable pub run_until_error : List (List Text) → x.World → x.World × Result (Unit {0})
  unfolding run_command
  run_until_error [] w = (w, ok tt)
  run_until_error (args ∷ rest) w =
      let (w', output) = run_command args w in
      let after = run_until_error rest w' in elim output [ err e ↦ (w', err e) | ok out ↦ after ]

  -- Each part up to its first command that fails; the result is that of the last one.
  unfoldable pub run_parts :
      List (List (List Text)) → x.World × Result (Unit {0}) → x.World × Result (Unit {0})
  unfolding run_until_error
  run_parts [] answer = answer
  run_parts (part ∷ rest) (w, _) = run_parts rest (run_until_error part w)

  -- What is left of a script, from a transaction with or without an error.
  abbrev remaining : Option Error → List (List Text) → x.World → x.World × Result (Unit {0})
  remaining none first w = run_until_error first w
  remaining (some e) first w = (w, err e)

  apply_ops-remaining :
      (ops : List IpOp) (link : Text) (o : Option Error) (w : x.World)
      → let (tx, w') = apply_ops ops (record { link = link; error = o }) w in
        (w', (end_transaction x tx).1)
        ≡ run_parts (parts link ops).1 (remaining o (parts link ops).0 w)
  unfolding apply_ops apply_op exec ignore_error run_until_error run_command end_transaction parts
      run_parts
  apply_ops-remaining [] link none w = refl
  apply_ops-remaining [] link (some e) w = refl
  apply_ops-remaining (op ∷ ops) link o w = elim (Option-cases (command link op)) [
    | inl ignored ↦ ground (arith, ignored, apply_ops-remaining ops link none w)
    | inr (args, issued) ↦ elim (Option-cases o) [
      | inr (e, stopped) ↦ ground (arith, issued, stopped, apply_ops-remaining ops link (some e) w)
      | inl running ↦ elim (Result-cases (x.look_path (codes "ip") w)) [
        | inr (e, missing) ↦
            let rest = apply_ops-remaining ops link (some (message "ip is not installed")) w in
            ground (arith, issued, running, missing, rest)
        | inl (path, found) ↦
            let w' = (x.run path args w).0 in
            elim (Result-cases (x.run path args w).1) [
              | inl (out, ran) ↦
                  ground (arith, issued, running, found, ran, apply_ops-remaining ops link none w')
              | inr (e, failed) ↦
                  ground (
                    arith,
                    issued,
                    running,
                    found,
                    failed,
                    apply_ops-remaining ops link (some e) w',
                  )
            ]
      ]
    ]
  ]

  -- The calls of a transaction of the ip wrapper fall into parts that end at `IgnoreError`. Each
  -- part runs its commands in order up to the first that fails and ignores its others, and the end
  -- reports the failure of the last part, or success if it had none.
  pub transact-run_parts :
      (link : Text) (ops : List IpOp) (w : x.World)
      → transact link ops w ≡ run_parts (parts link ops).1 (run_until_error (parts link ops).0 w)
  unfolding transact
  transact-run_parts link ops w = apply_ops-remaining ops link none w
