-- ===== src/Subnets/NodeLaws.antt =====
-- ksdn/subnets.go: what the watches of nodes and subnets keep.
use k8s_ovs.Base.{
  ℕ, ◌≡◌, ◌≢◌, ◌⊎◌, inl, inr, true, false, Result, ok, Option, some, List, Text, text_dec, lookup,
  lookup-insert, arith, refl, Option-cases, Result-cases, Bool-cases,
}
use k8s_ovs.Etcd.{EtcdManager}
use k8s_ovs.EventQueue.{DeltaType, added, updated, deleted, sync}
use k8s_ovs.Snalloc.Search.{IsValid}
use k8s_ovs.Subnets.{NetworkInfo, SubnetMaster, add_node, delete_node}
use k8s_ovs.Subnets.Leases.{Keeps, add_node-Keeps}
use k8s_ovs.Subnets.NodeWatch.{
  Node, get_node_ip, settle_node, drop_node, handle_node, watch_node, is_valid_node_ip,
}

module _ {e : EtcdManager} (ni : NetworkInfo) (lookup_ip : Text → Result (List (Option ℕ))) where
  -- The allocator is as before, or as adding the node leaves it.
  settle_node-allocator :
      (node : Node) (ip : Text) (m : List (Text × Text)) (s : SubnetMaster e)
      → let after = (settle_node e ni node ip m s).0.1.allocator in
        (after ≡ s.allocator) ⊎ (after ≡ (add_node e ni s node.name ip false).0.allocator)
  unfolding settle_node
  settle_node-allocator node ip m s = elim (Option-cases (lookup text_dec node.uid m)) [
    | inl e' ↦ ground (arith, e', Result-cases (add_node e ni s node.name ip false).1)
    | inr (old, e') ↦ ground (arith, e', Result-cases (add_node e ni s node.name ip false).1)
  ]

  settle_node-Keeps :
      (node : Node) (ip : Text) (m : List (Text × Text)) (s : SubnetMaster e)
      → IsValid s.allocator
      → Keeps s.allocator (settle_node e ni node ip m s).0.1.allocator
  settle_node-Keeps node ip m s v = elim (settle_node-allocator node ip m s) [
    | inl same ↦ rw same (v, λ j used. used)
    | inr same ↦ rw same (add_node-Keeps ni s node.name ip false v)
  ]

  handle_node-Keeps :
      (t : DeltaType) (node : Node) (ip : Text) (m : List (Text × Text)) (s : SubnetMaster e)
      → IsValid s.allocator
      → Keeps s.allocator (handle_node e ni t node ip m s).0.1.allocator
  unfolding handle_node drop_node delete_node
  handle_node-Keeps added node ip m s v = settle_node-Keeps node ip m s v
  handle_node-Keeps updated node ip m s v = settle_node-Keeps node ip m s v
  handle_node-Keeps sync node ip m s v = settle_node-Keeps node ip m s v
  handle_node-Keeps deleted node ip m s v = (v, λ j used. used)

  -- No delta of a node frees a subnet in a valid allocator, which stays valid, also when etcd
  -- refuses the node's new subnet and the allocator takes it back.
  pub watch_node-Keeps :
      (t : DeltaType) (node : Node) (m : List (Text × Text)) (s : SubnetMaster e)
      → IsValid s.allocator
      → Keeps s.allocator (watch_node e ni lookup_ip t node m s).0.1.allocator
  unfolding watch_node
  watch_node-Keeps t node m s v = elim (Result-cases (get_node_ip lookup_ip node)) [
    | inr (f, unknown) ↦ rw (watch_node, unknown) (v, λ j used. used)
    | inl (ip, known) ↦ rw (watch_node, known) (handle_node-Keeps t node ip m s v)
  ]

  settle_node-recorded :
      (node : Node) (ip : Text) (m : List (Text × Text)) (s : SubnetMaster e)
      → (settle_node e ni node ip m s).1 ≡ ok tt
      → (a : Text) × (lookup text_dec node.uid (settle_node e ni node ip m s).0.0 ≡ some a)
        × ((a ≡ ip) ⊎ (is_valid_node_ip node.addresses a ≡ true))
  unfolding settle_node
  settle_node-recorded node ip m s h = elim (Option-cases (lookup text_dec node.uid m)) [
    | inl e' ↦ (
      ip,
      ground (
        arith,
        e',
        h,
        lookup-insert text_dec node.uid node.uid ip m,
        Result-cases (add_node e ni s node.name ip false).1,
      ),
      inl refl,
    )
    | inr (old, e') ↦ elim (text_dec ip old) [
      | yes same ↦ (ip, ground (arith, e', same), inl refl)
      | no other ↦ elim (Bool-cases (is_valid_node_ip node.addresses old)) [
        | inl still ↦ (old, ground (arith, e', other, still), inr still)
        | inr gone ↦ (
          ip,
          ground (
            arith,
            e',
            h,
            other,
            gone,
            lookup-insert text_dec node.uid node.uid ip m,
            Result-cases (add_node e ni s node.name ip false).1,
          ),
          inl refl,
        )
      ]
    ]
  ]

  handle_node-recorded :
      (t : DeltaType) (node : Node) (ip : Text) (m : List (Text × Text)) (s : SubnetMaster e)
      → t ≢ deleted
      → (handle_node e ni t node ip m s).1 ≡ ok tt
      → (a : Text) × (lookup text_dec node.uid (handle_node e ni t node ip m s).0.0 ≡ some a)
        × ((a ≡ ip) ⊎ (is_valid_node_ip node.addresses a ≡ true))
  unfolding handle_node
  handle_node-recorded added node ip m s stays h = settle_node-recorded node ip m s h
  handle_node-recorded updated node ip m s stays h = settle_node-recorded node ip m s h
  handle_node-recorded sync node ip m s stays h = settle_node-recorded node ip m s h
  handle_node-recorded deleted node ip m s stays h = absurd (stays refl)

  -- A delta other than Deleted of a node whose address is found, when it is handled without an
  -- error, ends with an address recorded for the node's UID: the one that was found, or one that
  -- its status still lists.
  pub watch_node-recorded :
      (t : DeltaType) (node : Node) (ip : Text) (m : List (Text × Text)) (s : SubnetMaster e)
      → t ≢ deleted
      → get_node_ip lookup_ip node ≡ ok ip
      → (watch_node e ni lookup_ip t node m s).1 ≡ ok tt
      → (a : Text) × (lookup text_dec node.uid (watch_node e ni lookup_ip t node m s).0.0 ≡ some a)
        × ((a ≡ ip) ⊎ (is_valid_node_ip node.addresses a ≡ true))
  unfolding watch_node
  watch_node-recorded t node ip m s stays known h =
      rw (watch_node, known)
        (handle_node-recorded t node ip m s stays (rw (watch_node, known) at h))
