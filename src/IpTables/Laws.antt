-- ===== src/IpTables/Laws.antt =====
-- ksdn/node_iptables.go: the rules after a synchronisation.
use k8s_ovs.Base.{
  ℕ, zero, suc, ◌≡◌, refl, inl, inr, Bool, true, ok, List, [], ◌∷◌, Text, arith, Result-cases,
}
use k8s_ovs.Base.Actions.{◌>>=◌}
use k8s_ovs.IpTables.{
  FirewallRule, IpTables, get_static_node_ip_tables_rules, ensure_rules, sync_ip_table_rules,
  sync_loop,
}

-- What `EnsureRule` documents: on success the rule is there, nothing happens if it was there before, and
-- it never takes a rule away.
pub record IsEnsuring {W : Type 0} (ipt : IpTables W) (has_rule : W → FirewallRule → Bool)
    : Type 0 where
  pub ensured :
      (rule : FirewallRule) (w : W) (existed : Bool)
      → (ipt.ensure_rule rule w).1 ≡ ok existed
      → has_rule (ipt.ensure_rule rule w).0 rule ≡ true
  pub kept :
      (rule other : FirewallRule) (w : W)
      → has_rule w other ≡ true
      → has_rule (ipt.ensure_rule rule w).0 other ≡ true
  pub unchanged :
      (rule : FirewallRule) (w : W) → has_rule w rule ≡ true → (ipt.ensure_rule rule w).0 ≡ w

-- Every one of the rules is there.
abbrev pub AllPresent : {W : Type 0} → (W → FirewallRule → Bool) → List FirewallRule → W → Type 0
AllPresent has_rule [] w = Unit {0}
AllPresent has_rule (rule ∷ rules) w = (has_rule w rule ≡ true) × AllPresent has_rule rules w

module _ {W : Type 0} {ipt : IpTables W} {has_rule : W → FirewallRule → Bool}
    (l : IsEnsuring ipt has_rule) where
  ensure_rules_kept :
      (rules : List FirewallRule) (other : FirewallRule) (w : W)
      → has_rule w other ≡ true
      → has_rule (ensure_rules ipt rules w).0 other ≡ true
  unfolding ensure_rules
  ensure_rules_kept [] other w h = h
  ensure_rules_kept (rule ∷ rules) other w h =
      let w1 = (ipt.ensure_rule rule w).0 in
      let h1 = l.kept rule other w h in
      let h2 = ensure_rules_kept rules other w1 h1 in
      elim (Result-cases (ipt.ensure_rule rule w).1) [
        | inl (existed, done) ↦ ground (arith, done, h2)
        | inr (e, failed) ↦ ground (arith, failed, h1)
      ]

  ensure_rules-AllPresent_kept :
      (rules present : List FirewallRule) (w : W)
      → AllPresent has_rule present w
      → AllPresent has_rule present (ensure_rules ipt rules w).0
  ensure_rules-AllPresent_kept rules [] w p = tt
  ensure_rules-AllPresent_kept rules (rule ∷ present) w (p, rest) =
      (ensure_rules_kept rules rule w p, ensure_rules-AllPresent_kept rules present w rest)

  ensure_rules-AllPresent :
      (rules : List FirewallRule) (w : W)
      → (ensure_rules ipt rules w).1 ≡ ok tt
      → AllPresent has_rule rules (ensure_rules ipt rules w).0
  unfolding ensure_rules
  ensure_rules-AllPresent [] w e = tt
  ensure_rules-AllPresent (rule ∷ rules) w e =
      let w1 = (ipt.ensure_rule rule w).0 in
      elim (Result-cases (ipt.ensure_rule rule w).1) [
        | inl (existed, done) ↦
            let h1 = l.ensured rule w existed done in
            let h2 = ensure_rules_kept rules rule w1 h1 in
            let tail : (ensure_rules ipt rules w1).1 ≡ ok tt = ground (arith, done, e) in
            let rest = ensure_rules-AllPresent rules w1 tail in rw (◌>>=◌, done) (h2, rest)
        | inr (x, failed) ↦ absurd (ground (arith, failed, e))
      ]

  ensure_rules_same :
      (rules : List FirewallRule) (w : W)
      → AllPresent has_rule rules w
      → (ensure_rules ipt rules w).0 ≡ w
  unfolding ensure_rules
  ensure_rules_same [] w p = refl
  ensure_rules_same (rule ∷ rules) w (p, rest) =
      let same = l.unchanged rule w p in
      let tail = ensure_rules_same rules w rest in
      elim (Result-cases (ipt.ensure_rule rule w).1) [
        | inl (existed, done) ↦ ground (arith, done, same, tail)
        | inr (e, failed) ↦ ground (arith, failed, same)
      ]

  sync_loop-AllPresent :
      (others : W → W) (cidr : Text)
      → ((v : W)
          → AllPresent has_rule (get_static_node_ip_tables_rules cidr) v
          → AllPresent has_rule (get_static_node_ip_tables_rules cidr) (others v))
      → (ticks : ℕ) (w : W) → AllPresent has_rule (get_static_node_ip_tables_rules cidr) w
      → AllPresent has_rule
          (get_static_node_ip_tables_rules cidr)
          (sync_loop ipt others ticks cidr w)
  unfolding sync_loop
  sync_loop-AllPresent others cidr keep zero w p = p
  sync_loop-AllPresent others cidr keep (suc ticks) w p =
      let rules = get_static_node_ip_tables_rules cidr in
      sync_loop-AllPresent others cidr keep ticks _
        (ensure_rules-AllPresent_kept rules rules (others w) (keep w p))

  -- A synchronisation that succeeds leaves every rule of the node in place; a further one, however
  -- it ends, then changes nothing; and the rules stay through any number of ticks of the loop, if
  -- what others do between them keeps the rules.
  pub sync_ip_table_rules-AllPresent :
      (cidr : Text) (w : W)
      → (sync_ip_table_rules ipt cidr w).1 ≡ ok tt
      → let w' = (sync_ip_table_rules ipt cidr w).0 in
        let rules = get_static_node_ip_tables_rules cidr in
        AllPresent has_rule rules w'
        × ((sync_ip_table_rules ipt cidr w').0 ≡ w')
        × ((others : W → W) (ticks : ℕ)
            → ((v : W) → AllPresent has_rule rules v → AllPresent has_rule rules (others v))
            → AllPresent has_rule rules (sync_loop ipt others ticks cidr w'))
  unfolding sync_ip_table_rules
  sync_ip_table_rules-AllPresent cidr w e =
      let rules = get_static_node_ip_tables_rules cidr in
      let p = ensure_rules-AllPresent rules w e in
      (
        p,
        ensure_rules_same rules _ p,
        λ others ticks keep. sync_loop-AllPresent others cidr keep ticks _ p,
      )
