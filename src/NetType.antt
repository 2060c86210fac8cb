-- ===== src/NetType.antt =====
-- pkg/nettype: the names of the network plugins; and parseNetworkInfo of ksdn/common.go.
use k8s_ovs.Base.{
  Bool, true, false, Result, ok, err, message, none, some, Text, codes, text_dec, ite,
}
use k8s_ovs.Base.Strings.{to_lower}
use k8s_ovs.Etcd.{ClusterNetwork}
use k8s_ovs.IpNet.{parse_cidr}
use k8s_ovs.Subnets.{NetworkInfo}

abbrev pub single_tenant_plugin_name : Text
single_tenant_plugin_name = codes "k8s-ovs-subnet"

abbrev pub multi_tenant_plugin_name : Text
multi_tenant_plugin_name = codes "k8s-ovs-multitenant"

unfoldable pub is_kovs_network_plugin : Text → Bool
unfolding to_lower text_dec
is_kovs_network_plugin plugin_name =
    ite (text_dec (to_lower plugin_name) single_tenant_plugin_name) true
      (ite (text_dec (to_lower plugin_name) multi_tenant_plugin_name) true false)

-- `IsKovsCloudMultitenantNetworkPlugin`.
unfoldable pub is_multitenant_network_plugin : Text → Bool
unfolding to_lower text_dec
is_multitenant_network_plugin plugin_name =
    ite (text_dec (to_lower plugin_name) multi_tenant_plugin_name) true false

-- `parseNetworkInfo`; the network's name is left out.
unfoldable pub parse_network_info : ClusterNetwork → Result NetworkInfo
unfolding parse_cidr
parse_network_info n = elim (parse_cidr n.network) [
  | none ↦ err (message "Failed to parse ClusterNetwork CIDR")
  | some cn ↦ elim (parse_cidr n.service_network) [
    | none ↦ err (message "Failed to parse ServiceNetwork CIDR")
    | some sn ↦ ok (record { cluster_network = cn; service_network = sn })
  ]
]
