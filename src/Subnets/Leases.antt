-- ===== src/Subnets/Leases.antt =====
-- What the master's handling of subnets does to the allocator: it stays valid, and adding a node never
-- frees a subnet that was in use.
use mathlib.Core.List.{Mem, mem-cons_self, mem-cons_of_mem}
use k8s_ovs.Base.{
  ◌≡◌, inl, inr, Bool, true, false, ok, none, some, List, [], ◌∷◌, Text, arith, refl, Option-cases,
  Result-cases, Bool-cases,
}
use k8s_ovs.Etcd.{
  HostSubnet, EtcdManager, Event, EventType, event_added, event_removed, event_other,
}
use k8s_ovs.IpNet.{IpNet, parse_cidr, net_to_string}
use k8s_ovs.Snalloc.{SubnetAllocator, gen_subnet, is_allocated, get_network, release_network}
use k8s_ovs.Snalloc.Laws.{get_network_cases, release_network_cases}
use k8s_ovs.Snalloc.Search.{IsValid}
use k8s_ovs.Subnets.{
  NetworkInfo, SubnetMaster, validate_node_ip, renew_node, create_subnet, add_node, handle_subnet,
  master_handle_subnet_event,
}

-- What is in use stays in use.
abbrev pub Keeps : SubnetAllocator → SubnetAllocator → Type 0
Keeps before after =
    IsValid after
    × ((j : Text) → is_allocated before.alloc_map j ≡ true → is_allocated after.alloc_map j ≡ true)

get_network-Keeps : (a : SubnetAllocator) → IsValid a → Keeps a (get_network a).0
get_network-Keeps a v = elim (get_network_cases a v) [
  | inl (n, low, answer, free, sets, valid) ↦ (valid, λ j used. ground (arith, sets j))
  | inr (answer, same, all, valid) ↦ (valid, λ j used. rw same used)
]

-- Giving back what has just been handed out.
release-Keeps :
    (a : SubnetAllocator) (sn : IpNet)
    → IsValid a
    → (get_network a).1 ≡ ok sn
    → Keeps a (release_network (get_network a).0 sn).0
release-Keeps a sn v got = elim (get_network_cases a v) [
  | inr (answer, same, all, valid) ↦ ground (arith, answer, got)
  | inl (n, low, answer, free, sets, valid) ↦
      let same : gen_subnet a n ≡ sn = ground (arith, answer, got) in
      let (kept, cases) = release_network_cases (get_network a).0 sn valid in
      (
        kept,
        elim cases [
          | inr (refused, failed, unchanged) ↦ λ j used. rw unchanged (ground (arith, sets j, used))
          | inl (inside, held, worked, clears) ↦
              λ j used. ground (arith, clears j, sets j, used, (rw same at free))
        ],
      )
]

-- The event removes the subnet of the key, which the allocator had handed out.
abbrev pub Frees : Event → Text → Type 0
Frees evt key =
    (evt.type ≡ event_removed)
    × (evt.subnet.assign ≡ false)
    × ((n : IpNet) × (parse_cidr evt.subnet.subnet ≡ some n) × (net_to_string n ≡ key))

-- The allocator is valid, and what is in use stays so unless the event frees it.
abbrev pub FreesOnly : Event → SubnetAllocator → SubnetAllocator → Type 0
FreesOnly evt before after =
    IsValid after
    × ((j : Text)
        → ¬ Frees evt j
        → is_allocated before.alloc_map j ≡ true
        → is_allocated after.alloc_map j ≡ true)

module _ {e : EtcdManager} (ni : NetworkInfo) where
  create_subnet-Keeps :
      (s : SubnetMaster e) (name ip : Text) (assign : Bool)
      → IsValid s.allocator
      → Keeps s.allocator (create_subnet e ni s name ip assign).0.allocator
  unfolding create_subnet
  create_subnet-Keeps s name ip assign v = elim (Result-cases (get_network s.allocator).1) [
    | inr (f, failed) ↦ rw (create_subnet, failed) (get_network-Keeps s.allocator v)
    | inl (sn, got) ↦
        let sub : HostSubnet = record {
          host = name;
          host_ip = ip;
          subnet = net_to_string sn;
          assign = assign;
        } in
        elim (Result-cases (e.acquire_subnet ip sub s.store).1) [
          | inl (u, acquired) ↦ rw (create_subnet, got, acquired) (get_network-Keeps s.allocator v)
          | inr (f, refused) ↦ rw (create_subnet, got, refused) (release-Keeps s.allocator sn v got)
        ]
  ]

  renew_node-allocator :
      (s : SubnetMaster e) (sub : HostSubnet) (name : Text) (assign : Bool)
      → (renew_node e ni s sub name assign).0.allocator ≡ s.allocator
  unfolding renew_node
  renew_node-allocator s sub name assign = ground arith

  -- Adding a node keeps the allocator valid and every subnet that is in use in use, also when the
  -- new subnet is given back because etcd refuses it.
  pub add_node-Keeps :
      (s : SubnetMaster e) (name ip : Text) (assign : Bool)
      → IsValid s.allocator
      → Keeps s.allocator (add_node e ni s name ip assign).0.allocator
  unfolding add_node
  add_node-Keeps s name ip assign v = elim (Result-cases (validate_node_ip ni ip)) [
    | inr (f, invalid) ↦ rw (add_node, invalid) (v, λ j used. used)
    | inl (u, valid) ↦ elim (Result-cases (e.get_subnet ip s.store).1) [
      | inr (f, missing) ↦
          rw (add_node, valid, missing)
            (create_subnet-Keeps (record s { store = (e.get_subnet ip s.store).0 }) name ip assign
              v)
      | inl (sub, found) ↦
          rw
            (
              add_node,
              valid,
              found,
              renew_node-allocator (record s { store = (e.get_subnet ip s.store).0 }) sub name
                  assign,
            )
            (v, λ j used. used)
    ]
  ]

  removed_assigned :
      (s : SubnetMaster e) (sub : HostSubnet)
      → sub.assign ≡ true
      → handle_subnet e ni s event_removed sub ≡ s
  unfolding handle_subnet
  removed_assigned s sub assigned = ground (arith, assigned)

  removed_malformed :
      (s : SubnetMaster e) (sub : HostSubnet)
      → parse_cidr sub.subnet ≡ none
      → handle_subnet e ni s event_removed sub ≡ s
  unfolding handle_subnet
  removed_malformed s sub malformed = ground (arith, malformed)

  removed_given :
      (s : SubnetMaster e) (sub : HostSubnet) (n : IpNet)
      → sub.assign ≡ false
      → parse_cidr sub.subnet ≡ some n
      → (handle_subnet e ni s event_removed sub).allocator ≡ (release_network s.allocator n).0
  unfolding handle_subnet
  removed_given s sub n given parsed = ground (arith, given, parsed)

  removed-FreesOnly :
      (s : SubnetMaster e) (evt : Event)
      → evt.type ≡ event_removed
      → IsValid s.allocator
      → FreesOnly evt s.allocator (handle_subnet e ni s event_removed evt.subnet).allocator
  removed-FreesOnly s evt removed v = elim (Bool-cases evt.subnet.assign) [
    | inl assigned ↦ rw (removed_assigned s evt.subnet assigned) (v, λ j free used. used)
    | inr given ↦ elim (Option-cases (parse_cidr evt.subnet.subnet)) [
      | inl bad ↦ rw (removed_malformed s evt.subnet bad) (v, λ j free used. used)
      | inr (n, parsed) ↦
          let (kept, cases) = release_network_cases s.allocator n v in
          rw (removed_given s evt.subnet n given parsed) (
            kept,
            elim cases [
              | inr (refused, failed, unchanged) ↦ λ j free used. rw unchanged used
              | inl (inside, held, worked, clears) ↦ λ j free used. ground (
                arith,
                clears j,
                used,
                λ (p : net_to_string n ≡ j). free (removed, given, (n, parsed, p)),
              )
            ],
          )
    ]
  ]

  added-Keeps :
      (s : SubnetMaster e) (sub : HostSubnet)
      → IsValid s.allocator
      → Keeps s.allocator (handle_subnet e ni s event_added sub).allocator
  unfolding handle_subnet
  added-Keeps s sub v = elim (Bool-cases sub.assign) [
    | inr given ↦ rw (handle_subnet, given) (v, λ j used. used)
    | inl assigned ↦ elim (Result-cases (e.revoke_subnet sub.host_ip s.store).1) [
      | inr (f, failed) ↦ rw (handle_subnet, assigned, failed) (v, λ j used. used)
      | inl (u, revoked) ↦
          rw (handle_subnet, assigned, revoked)
            (add_node-Keeps (record s { store = (e.revoke_subnet sub.host_ip s.store).0 }) sub.host
              sub.host_ip false v)
    ]
  ]

  handle_subnet-FreesOnly :
      (s : SubnetMaster e) (evt : Event) (t : EventType)
      → evt.type ≡ t
      → IsValid s.allocator
      → FreesOnly evt s.allocator (handle_subnet e ni s t evt.subnet).allocator
  unfolding handle_subnet
  handle_subnet-FreesOnly s evt event_added typed v =
      let (kept, stay) = added-Keeps s evt.subnet v in (kept, λ j free used. stay j used)
  handle_subnet-FreesOnly s evt event_removed typed v = removed-FreesOnly s evt typed v
  handle_subnet-FreesOnly s evt (event_other n) typed v = (v, λ j free used. used)

  -- Handling a batch of subnet events on a master with a valid allocator leaves the allocator
  -- valid, and a subnet that is in use in use, if no event of the batch removes it.
  pub master_handle_subnet_event-keeps :
      (batch : List Event) (s : SubnetMaster e) (j : Text)
      → IsValid s.allocator
      → ((evt : Event) → Mem evt batch → ¬ Frees evt j)
      → is_allocated s.allocator.alloc_map j ≡ true
      → IsValid (master_handle_subnet_event e ni s batch).allocator
        × (is_allocated (master_handle_subnet_event e ni s batch).allocator.alloc_map j ≡ true)
  unfolding master_handle_subnet_event
  master_handle_subnet_event-keeps [] s j v free used = (v, used)
  master_handle_subnet_event-keeps (evt ∷ batch) s j v free used =
      let (kept, stay) = handle_subnet-FreesOnly s evt evt.type refl v in
      master_handle_subnet_event-keeps batch (handle_subnet e ni s evt.type evt.subnet) j kept
        (λ f i. free f (mem-cons_of_mem evt i)) (stay j (free evt mem-cons_self) used)
