-- ===== src/Ovs/Transaction.antt =====
-- pkg/ovs/ovs.go, lines 118 to 181: transactions and the dump of the flows.
use k8s_ovs.Base.{
  ◌≡◌, refl, inl, inr, Result, ok, err, Error, Option, none, some, List, [], ◌∷◌, Text, codes,
  arith, Result-cases, if◌then◌else◌,
}
use k8s_ovs.Base.Strings.{split, contains}
use k8s_ovs.Ovs.{Exec, exec, ovs_ofctl}

-- `Transaction`: the bridge, and the first error.
pub record Transaction : Type 0 where
  pub bridge : Text
  pub error : Option Error

-- `AddFlow` and `DeleteFlows`, by the formatted flow.
pub data FlowOp : Type 0 where
  add_flow del_flows : Text → FlowOp

module _ (x : Exec) where
  -- `NewTransaction`.
  unfoldable pub new_transaction : Text → Transaction
  new_transaction bridge = record { bridge = bridge; error = none }

  -- `Transaction.exec`; the callers drop its output.
  unfoldable pub tx_exec : Text → List Text → Transaction → x.World → Transaction × x.World
  tx_exec cmd args tx w = elim tx.error [
    | some e ↦ (tx, w)
    | none ↦
        let (w', answer) = exec x cmd args w in
        elim answer [ err e ↦ (record tx { error = some e }, w') | ok out ↦ (tx, w') ]
  ]

  abbrev pub command : Text → FlowOp → List Text
  command bridge (add_flow flow) = codes "add-flow" ∷ bridge ∷ flow ∷ []
  command bridge (del_flows flow) = codes "del-flows" ∷ bridge ∷ flow ∷ []

  unfoldable pub apply_flow : FlowOp → Transaction → x.World → Transaction × x.World
  unfolding tx_exec
  apply_flow op tx w = tx_exec ovs_ofctl (command tx.bridge op) tx w

  -- `EndTransaction`: the transaction without its error, and the error.
  unfoldable pub end_transaction : Transaction → Transaction × Result (Unit {0})
  end_transaction tx = (record tx { error = none }, elim tx.error [ none ↦ ok tt | some e ↦ err e ])

  -- Several calls on one transaction.
  unfoldable pub apply_flows : List FlowOp → Transaction → x.World → Transaction × x.World
  apply_flows [] tx w = (tx, w)
  apply_flows (op ∷ ops) tx w = let (tx', w') = apply_flow op tx w in apply_flows ops tx' w'

  -- A whole transaction.
  unfoldable pub transact : Text → List FlowOp → x.World → x.World × Result (Unit {0})
  unfolding new_transaction end_transaction
  transact bridge ops w =
      let (tx, w') = apply_flows ops (new_transaction bridge) w in (w', (end_transaction tx).1)

  -- The lines of a dump that are flows.
  unfoldable pub flow_lines : List Text → List Text
  unfolding contains
  flow_lines [] = []
  flow_lines (line ∷ lines) =
      let rest = flow_lines lines in if contains line (codes "cookie=") then line ∷ rest else rest

  unfoldable pub dump_flows : Text → x.World → x.World × Result (List Text)
  unfolding split flow_lines
  dump_flows bridge w =
      let (w', answer) = exec x ovs_ofctl (codes "dump-flows" ∷ bridge ∷ []) w in
      (w', elim answer [ err e ↦ err e | ok out ↦ ok (flow_lines (split out 10)) ])

  -- What a transaction is for: the commands in their order, up to the first that fails.
  unfoldable pub run_until_error : Text → List FlowOp → x.World → x.World × Result (Unit {0})
  run_until_error bridge [] w = (w, ok tt)
  run_until_error bridge (op ∷ ops) w =
      let (w', answer) = exec x ovs_ofctl (command bridge op) w in
      let rest = run_until_error bridge ops w' in
      elim answer [ err e ↦ (w', err e) | ok out ↦ rest ]

  apply_flows_failed :
      (ops : List FlowOp) (bridge : Text) (w : x.World) (e : Error)
      → let tx : Transaction = record { bridge = bridge; error = some e } in
        apply_flows ops tx w ≡ (tx, w)
  unfolding apply_flows apply_flow
  apply_flows_failed [] bridge w e = refl
  apply_flows_failed (op ∷ ops) bridge w e = apply_flows_failed ops bridge w e

  apply_flows_running :
      (bridge : Text) (ops : List FlowOp) (w : x.World)
      → let (tx, w') = apply_flows ops (record { bridge = bridge; error = none }) w in
        (w', (end_transaction tx).1) ≡ run_until_error bridge ops w
  unfolding apply_flows apply_flow run_until_error end_transaction
  apply_flows_running bridge [] w = refl
  apply_flows_running bridge (op ∷ ops) w =
      let w' = (exec x ovs_ofctl (command bridge op) w).0 in
      elim (Result-cases (exec x ovs_ofctl (command bridge op) w).1) [
        | inl (out, ran) ↦ ground (arith, ran, apply_flows_running bridge ops w')
        | inr (e, failed) ↦ ground (arith, failed, apply_flows_failed ops bridge w' e)
      ]

  -- A transaction runs its commands in order up to the first that fails, ignores the others, and
  -- its end reports that failure, or success if there was none.
  pub transact-run_until_error :
      (bridge : Text) (ops : List FlowOp) (w : x.World)
      → transact bridge ops w ≡ run_until_error bridge ops w
  unfolding transact
  transact-run_until_error bridge ops w = apply_flows_running bridge ops w
