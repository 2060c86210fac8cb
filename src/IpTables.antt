-- ===== src/IpTables.antt =====
-- ksdn/node_iptables.go: the iptables rules of a node.
pub mod Laws
use k8s_ovs.Base.{
  ℕ, zero, suc, ◌≡◌, refl, Bool, Result, ok, err, Error, message, List, [], ◌∷◌, Text, codes,
}
use k8s_ovs.Base.Actions.{Action, ◌>>=◌, ◌>>◌, pure, or_else}
use k8s_ovs.Setup.{tun}

pub record FirewallRule : Type 0 where
  pub table : Text
  pub chain : Text
  pub args : List Text

-- `iptables.Interface`, as the source uses it: `EnsureRule` with `Prepend`, which answers whether the
-- rule was there.
pub record IpTables (World : Type 0) : Type 0 where
  pub ensure_rule : FirewallRule → Action World Bool

-- `getStaticNodeIPTablesRules`, with VXLAN_PORT = 4789.
unfoldable pub get_static_node_ip_tables_rules : Text → List FirewallRule
get_static_node_ip_tables_rules cluster_network_cidr =
    record {
      table = codes "nat";
      chain = codes "POSTROUTING";
      args = codes "-s" ∷ cluster_network_cidr ∷ codes "-j" ∷ codes "MASQUERADE" ∷ [];
    }
    ∷ record {
      table = codes "filter";
      chain = codes "INPUT";
      args =
          codes "-p"
          ∷ codes "udp"
          ∷ codes "-m"
          ∷ codes "multiport"
          ∷ codes "--dports"
          ∷ codes "4789"
          ∷ codes "-m"
          ∷ codes "comment"
          ∷ codes "--comment"
          ∷ codes "001 vxlan incoming"
          ∷ codes "-j"
          ∷ codes "ACCEPT"
          ∷ [];
    }
    ∷ record {
      table = codes "filter";
      chain = codes "INPUT";
      args =
          codes "-i"
          ∷ tun
          ∷ codes "-m"
          ∷ codes "comment"
          ∷ codes "--comment"
          ∷ codes "traffic from SDN"
          ∷ codes "-j"
          ∷ codes "ACCEPT"
          ∷ [];
    }
    ∷ record {
      table = codes "filter";
      chain = codes "INPUT";
      args =
          codes "-i"
          ∷ codes "docker0"
          ∷ codes "-m"
          ∷ codes "comment"
          ∷ codes "--comment"
          ∷ codes "traffic from docker"
          ∷ codes "-j"
          ∷ codes "ACCEPT"
          ∷ [];
    }
    ∷ record {
      table = codes "filter";
      chain = codes "FORWARD";
      args = codes "-d" ∷ cluster_network_cidr ∷ codes "-j" ∷ codes "ACCEPT" ∷ [];
    }
    ∷ record {
      table = codes "filter";
      chain = codes "FORWARD";
      args = codes "-s" ∷ cluster_network_cidr ∷ codes "-j" ∷ codes "ACCEPT" ∷ [];
    }
    ∷ []

module _ {W : Type 0} (ipt : IpTables W) where
  -- The loop of `syncIPTableRules`.
  unfoldable pub ensure_rules : List FirewallRule → Action W (Unit {0})
  ensure_rules [] = pure tt
  ensure_rules (rule ∷ rules) = do
    existed ← or_else (ipt.ensure_rule rule) (message "Failed to ensure rule exists")
    ensure_rules rules

  unfoldable pub sync_ip_table_rules : Text → Action W (Unit {0})
  unfolding ensure_rules get_static_node_ip_tables_rules
  sync_ip_table_rules cluster_network_cidr =
      ensure_rules (get_static_node_ip_tables_rules cluster_network_cidr)

  -- `syncLoop`, for a number of ticks; others act between them, and an error is logged.
  unfoldable pub sync_loop : (W → W) → ℕ → Text → W → W
  unfolding sync_ip_table_rules
  sync_loop others zero cluster_network_cidr w = w
  sync_loop others (suc ticks) cluster_network_cidr w =
      sync_loop others ticks cluster_network_cidr
        (sync_ip_table_rules cluster_network_cidr (others w)).0
