-- ===== src/Firewall/Verdicts.antt =====
-- The order of the rules of src/core/nodes/firewall.ts.
use net_sim.Prelude.{
  ◌≡◌, refl, ap, ◌∙◌, Bool, true, false, not, ◌||◌, none, some, List, [], ◌∷◌, ◌++◌, find, All,
  if◌then◌else◌,
}
use net_sim.Packet.{IpPacket}
use net_sim.Firewall.{
  FirewallRule, Firewall, FlowDirection, matches, verdict, is_allow, is_expected, is_established,
  pass, check,
}

find-first :
    (test : FirewallRule → Bool) (before after : List FirewallRule) (r : FirewallRule)
    → All (λ x. test x ≡ false) before
    → test r ≡ true
    → find test (before ++ r ∷ after) ≡ some r
find-first test [] after r none_before hit = rw hit refl
find-first test (x ∷ before) after r miss hit =
    rw (miss.0) (find-first test before after r miss.1 hit)

decide :
    {A : Type 0} (a b e : Bool) (x y z : A)
    → (if◌then◌else◌ {A = Bool × A} a (true, x) (if b then (true, y) else (e, z))).0 ≡ (a || b || e)
decide true b e x y z = refl
decide false true e x y z = refl
decide false false e x y z = refl

-- whether a packet passes
pub check-passes :
    (f : Firewall) (pkt : IpPacket) (dir : FlowDirection)
    → (check f pkt dir).0 ≡ (
        (not f.config.enabled || is_expected f pkt dir)
        || is_allow (verdict f.config pkt dir)
        || is_established f pkt)
unfolding check
check-passes f pkt dir =
    decide (not f.config.enabled || is_expected f pkt dir) (is_allow (verdict f.config pkt dir))
      (is_established f pkt) (f, []) (pass f pkt) (f, [])

-- The first rule that matches decides, whatever rules come after it: a packet that no rule of
-- `before` matches and that `r` matches passes an enabled firewall exactly if `r` allows it, or it
-- was expected, or it answers a flow that is remembered.
pub check_first :
    (f : Firewall) (pkt : IpPacket) (dir : FlowDirection) (before after : List FirewallRule)
    (r : FirewallRule)
    → f.config.enabled ≡ true
    → f.config.rules ≡ before ++ r ∷ after
    → All (λ x. matches x pkt dir ≡ false) before
    → matches r pkt dir ≡ true
    → (check f pkt dir).0 ≡ (is_expected f pkt dir || is_allow r.action || is_established f pkt)
unfolding verdict
check_first f pkt dir before after r on rules miss hit =
    let found =
      ap (find (λ x. matches x pkt dir)) rules
      ∙ find-first (λ x. matches x pkt dir) before after r miss hit in
    let v : verdict f.config pkt dir ≡ r.action =
      ap (λ o. elim o [ none ↦ f.config.default_policy | some q ↦ q.action ]) found in
    check-passes f pkt dir
    ∙ ap
        (λ b.
          (not b || is_expected f pkt dir)
          || is_allow (verdict f.config pkt dir)
          || is_established f pkt)
        on
    ∙ ap (λ w. is_expected f pkt dir || is_allow w || is_established f pkt) v
