-- ===== src/Tests/Setup.antt =====
-- The ip wrapper, the setup of the bridge, and the rules of iptables, at concrete inputs.
use k8s_ovs.Base.{
  ℕ, ◌≡◌, refl, sym, ◌∙◌, ◌++◌, ite, Bool, true, false, Result, ok, err, Error, message, some, List,
  [], ◌∷◌, Text, codes, text_dec, if◌then◌else◌, arith,
}
use k8s_ovs.Base.Strings.{from_index, contains}
use k8s_ovs.IpCmd.Transaction as IpTx
use k8s_ovs.IpCmd.Transaction.{IpOp, parts, run_parts, run_until_error, transact-run_parts}
use k8s_ovs.IpTables.{IpTables, get_static_node_ip_tables_rules, sync_ip_table_rules, sync_loop}
use k8s_ovs.IpTables.Laws.{IsEnsuring, AllPresent, sync_ip_table_rules-AllPresent}
use k8s_ovs.Ovs.{Exec}
use k8s_ovs.Setup.{already_set_up, is_version_flow, version_action}
use k8s_ovs.IpNet.{parse_cidr}
use k8s_ovs.Ovs.Transaction.{dump_flows}
use k8s_ovs.Setup.Failed.{until_bridge, setup_sdn-already_set_up}
use k8s_ovs.Setup.Unversioned.{IsUnversioned}
use k8s_ovs.Setup.Run.{Host, Addresses, addresses, setup_sdn}
use k8s_ovs.Setup.Untouched.{writes_version}
use k8s_ovs.Setup.Version.{note, NoteEnd, is_version_flow-version_flow}
use k8s_ovs.Subnets.{NetworkInfo}
use k8s_ovs.Tests.Data.{commands}

abbrev ip_ops : List IpOp
ip_ops = IpTx.delete_link ∷ IpTx.ignore ∷ IpTx.set_link (codes "up" ∷ []) ∷ []

transact-run_parts_example :
    IpTx.transact (commands []) (codes "tun0") ip_ops 0
    ≡ run_parts
        (commands [])
        (parts (codes "tun0") ip_ops).1
        (run_until_error (commands []) (parts (codes "tun0") ip_ops).0 0)
transact-run_parts_example = transact-run_parts (commands []) (codes "tun0") ip_ops 0

abbrev front : Text
front = codes "cookie=0x0, table=253, "

front_table : contains front (codes "table=253") ≡ true
unfolding contains
front_table = refl

front_first : from_index (front ++ version_action) version_action ≡ some version_action
unfolding from_index
front_first = refl

is_version_flow-version_flow_example :
    is_version_flow false (front ++ (note true ++ codes ".00.00")) ≡ false
is_version_flow-version_flow_example =
    is_version_flow-version_flow true false front (codes ".00.00") front_table front_first
      (NoteEnd.more (codes "00.00"))

-- A switch that adds bridges but no ports; its world is whether the version is noted.
abbrev adds_bridge : List Text → Bool
adds_bridge (a ∷ b ∷ args) = ite (text_dec b (codes "del-br")) true false
adds_bridge args = false

abbrev broken_run : Text → List Text → Bool → Bool × Result Text
broken_run cmd args w =
    if adds_bridge args
    then (false, ok [])
    else ite (text_dec cmd (codes "ovs-vsctl")) (w, err (message "exit status 1"))
        (if writes_version args then true else w, ok [])

abbrev broken : Exec
broken = record { World = Bool; look_path = λ cmd w. ok cmd; run = broken_run }

abbrev quiet_host : Host Bool
quiet_host = record {
  mkdir_all = λ path w. (w, ok tt);
  write_file = λ path text w. (w, ok tt);
  set_sysctl = λ name n w. (w, ok tt);
  sleep = λ w. w;
}

abbrev Unwritten : Bool → Type 0
Unwritten w = w ≡ false

broken_quiet :
    (cmd : Text) (args : List Text) (w : Bool)
    → writes_version args ≡ false
    → Unwritten w
    → Unwritten (broken_run cmd args w).0
broken_quiet cmd args w q i = ground (arith, q, i)

broken_failure :
    (cmd : Text) (args : List Text) (w : Bool) (e : Error)
    → (broken_run cmd args w).1 ≡ err e
    → Unwritten w
    → Unwritten (broken_run cmd args w).0
broken_failure cmd args w e f i = ground (arith, f, i)

broken_dump : (w : Bool) → (dump_flows broken (codes "br0") w).1 ≡ ok []
unfolding dump_flows k8s_ovs.Ovs.exec writes_version text_dec
broken_dump w = refl

ok_injective : {A : Type 0} {a b : A} → ok a ≡ ok b → a ≡ b
ok_injective e = ground (arith, e)

broken-IsUnversioned : IsUnversioned broken quiet_host (codes "br0") Unwritten
unfolding k8s_ovs.Setup.any_contains text_dec
broken-IsUnversioned = record {
  untouched = record {
    by_command = broken_quiet;
    by_failure = broken_failure;
    by_mkdir = λ path w i. i;
    by_write = λ path text w i. i;
    by_sysctl = λ name n w i. i;
    by_sleep = λ w i. i;
  };
  added = λ rest w out e. refl;
  dumped = λ w flows i e. rw⁻¹ (ok_injective (sym (broken_dump w) ∙ e)) refl;
}

abbrev networks : NetworkInfo
networks = record {
  cluster_network = record { ip = 167837696; bits = 16 };
  service_network = record { ip = 2887647232; bits = 16 };
}

broken_setup :
    setup_sdn broken quiet_host (codes "br0") true 1450 networks (codes "10.1.2.0/24") true
    ≡ some (false, err (message "exit status 1"))
unfolding setup_sdn writes_version k8s_ovs.Ovs.exec
broken_setup = refl

local_parsed : parse_cidr (codes "10.1.2.0/24") ≡ some (record { ip = 167838208; bits = 24 })
unfolding parse_cidr
local_parsed = refl

broken_bridge : (a : Addresses) (w : Bool) → (until_bridge broken-IsUnversioned a w).1 ≡ ok tt
unfolding k8s_ovs.Ovs.Ports.add_bridge k8s_ovs.Ovs.exec
broken_bridge a w = refl

setup_sdn-already_set_up_example :
    (already_set_up broken (codes "br0") true (codes "10.1.2.1/24") (codes "10.1.0.0/16") false).1
    ≡ false
setup_sdn-already_set_up_example =
    setup_sdn-already_set_up broken-IsUnversioned true 1450 networks (codes "10.1.2.0/24")
      (record { ip = 167838208; bits = 24 }) true false (message "exit status 1") true
      (codes "10.1.2.1/24") (codes "10.1.0.0/16") local_parsed
      (broken_bridge
        (addresses networks (codes "10.1.2.0/24") (record { ip = 167838208; bits = 24 })) _)
      broken_setup

-- An iptables that never fails, and that has every rule once one has been asked for.
abbrev tables : IpTables Bool
tables = record { ensure_rule = λ rule w. (true, ok w) }

tables-IsEnsuring : IsEnsuring tables (λ w rule. w)
tables-IsEnsuring = record {
  ensured = λ rule w existed e. refl;
  kept = λ rule other w e. refl;
  unchanged = λ rule w e. ground (arith, e);
}

abbrev tables_cidr : Text
tables_cidr = codes "10.1.0.0/16"

tables_synced : (sync_ip_table_rules tables tables_cidr false).1 ≡ ok tt
unfolding sync_ip_table_rules
tables_synced = refl

sync_ip_table_rules-AllPresent_example :
    let w' = (sync_ip_table_rules tables tables_cidr false).0 in
    let rules = get_static_node_ip_tables_rules tables_cidr in
    AllPresent (λ w rule. w) rules w'
    × ((sync_ip_table_rules tables tables_cidr w').0 ≡ w')
    × ((others : Bool → Bool) (ticks : ℕ)
        → ((v : Bool)
            → AllPresent (λ w rule. w) rules v
            → AllPresent (λ w rule. w) rules (others v))
        → AllPresent (λ w rule. w) rules (sync_loop tables others ticks tables_cidr w'))
sync_ip_table_rules-AllPresent_example =
    sync_ip_table_rules-AllPresent tables-IsEnsuring tables_cidr false tables_synced
