-- ===== src/Pods/Leases.antt =====
-- ksdn/pod_linux.go and ksdn/pod.go: the addresses that containers hold.
pub mod Steps
pub mod Outcome
pub mod Release
pub mod History
use k8s_ovs.Base.{
  ℕ, ◌≡◌, ◌≢◌, Bool, true, false, Result, ok, err, Error, Option, none, some, List, Text,
}
use k8s_ovs.Pods.{IpamArgs, Ip4, Link, PodHost, host_local}

-- The addresses that the plugin host-local has leased to containers: its commands ADD and DEL are about
-- the one container that they name, one that fails changes no lease, and nothing else changes one.
pub record IsLeasing {W : Type 0} (h : PodHost W) (has_lease : W → Text → Bool) : Type 0 where
  pub add_ok :
      (config : Text) (args : IpamArgs) (w : W) (r : Option Ip4)
      → (h.exec_plugin_with_result host_local config args w).1 ≡ ok r
      → has_lease (h.exec_plugin_with_result host_local config args w).0 args.container_id ≡ true
  pub add_answers :
      (config : Text) (args : IpamArgs) (w : W)
      → (h.exec_plugin_with_result host_local config args w).1 ≢ ok none
  pub add_failed :
      (config : Text) (args : IpamArgs) (w : W) (e : Error) (id : Text)
      → (h.exec_plugin_with_result host_local config args w).1 ≡ err e
      → has_lease (h.exec_plugin_with_result host_local config args w).0 id ≡ has_lease w id
  pub add_other :
      (config : Text) (args : IpamArgs) (w : W) (id : Text)
      → args.container_id ≢ id
      → has_lease (h.exec_plugin_with_result host_local config args w).0 id ≡ has_lease w id
  pub del_ok :
      (config : Text) (args : IpamArgs) (w : W)
      → (h.exec_plugin_without_result host_local config args w).1 ≡ ok tt
      → has_lease (h.exec_plugin_without_result host_local config args w).0 args.container_id
        ≡ false
  pub del_failed :
      (config : Text) (args : IpamArgs) (w : W) (e : Error) (id : Text)
      → (h.exec_plugin_without_result host_local config args w).1 ≡ err e
      → has_lease (h.exec_plugin_without_result host_local config args w).0 id ≡ has_lease w id
  pub del_other :
      (config : Text) (args : IpamArgs) (w : W) (id : Text)
      → args.container_id ≢ id
      → has_lease (h.exec_plugin_without_result host_local config args w).0 id ≡ has_lease w id
  pub by_get_pod :
      (ns name : Text) (w : W) (id : Text) → has_lease (h.get_pod ns name w).0 id ≡ has_lease w id
  pub by_open :
      (ns : Text) (w : W) (id : Text) → has_lease (h.open_netns ns w).0 id ≡ has_lease w id
  pub by_enter :
      (ns : Text) (w : W) (id : Text) → has_lease (h.enter_netns ns w).0 id ≡ has_lease w id
  pub by_setup_veth :
      (ns name : Text) (mtu : ℕ) (w : W) (id : Text)
      → has_lease (h.setup_veth ns name mtu w).0 id ≡ has_lease w id
  pub by_index :
      (ns : Option Text) (i : ℕ) (w : W) (id : Text)
      → has_lease (h.link_by_index ns i w).0 id ≡ has_lease w id
  pub by_name :
      (ns : Option Text) (name : Text) (w : W) (id : Text)
      → has_lease (h.link_by_name ns name w).0 id ≡ has_lease w id
  pub by_set_up :
      (ns : Text) (link : Link) (w : W) (id : Text)
      → has_lease (h.link_set_up ns link w).0 id ≡ has_lease w id
  pub by_addr_list :
      (ns : Text) (link : Link) (w : W) (id : Text)
      → has_lease (h.addr_list ns link w).0 id ≡ has_lease w id
  pub by_configure :
      (ns name : Text) (ip4 : Ip4) (w : W) (id : Text)
      → has_lease (h.configure_iface ns name ip4 w).0 id ≡ has_lease w id
  pub by_inspect :
      (container : Text) (w : W) (id : Text)
      → has_lease (h.inspect_container container w).0 id ≡ has_lease w id
  pub by_command :
      (cmd : Text) (args : List Text) (w : W) (id : Text)
      → has_lease (h.run_command cmd args w).0 id ≡ has_lease w id
