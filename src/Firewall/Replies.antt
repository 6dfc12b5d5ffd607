-- ===== src/Firewall/Replies.antt =====
-- Answers to what src/core/nodes/firewall.ts let through are let in.
use net_sim.Prelude.{
  nat_eq, ◌≡◌, refl, ap, ◌∙◌, Bool, true, false, not, ◌&&◌, ◌||◌, List, [], ◌∷◌, Text, text_key,
  arith, contains, add_capped, contains-add_capped, if◌then◌else◌,
}
use net_sim.Addr.{Ip}
use net_sim.Packet.{L4, IpPacket}
use net_sim.Firewall.{
  Firewall, new, FlowDirection, verdict, is_allow, import_flow, is_expected, is_established, pass,
  check,
}
use net_sim.Firewall.Keys.{
  Carried, carried, source, target, is_initiator, original_key, key_between, key_answered,
  forward_key, reverse_key,
}
use net_sim.Firewall.Verdicts.{check-passes}
use net_sim.Firewall.Flows.{
  Call, run, Small, run-Small, Reply, pong, segment_back, datagram_back, esp_back, Quoted,
  quoted_echo, quoted_segment, quoted_datagram, Answers, replied, reported,
}

Reply-key : (c d : Carried) (a b : Ip) → Reply c d → key_answered d b a ≡ key_between c a b
unfolding key_answered key_between
Reply-key c d a b (pong id) = refl
Reply-key c d a b (segment_back p q s e) = refl
Reply-key c d a b (datagram_back s e) = refl
Reply-key c d a b esp_back = refl

Quoted-key :
    (c : Carried) (l4 : L4) (a b : Ip)
    → Quoted c l4
    → original_key (record { src = a; dst = b; l4 = l4 }) ≡ key_between c a b
unfolding original_key key_between
Quoted-key c l4 a b (quoted_echo t id seq) = refl
Quoted-key c l4 a b (quoted_segment p s d) = refl
Quoted-key c l4 a b (quoted_datagram s d) = refl

-- An answer is looked up under the key of the flow that it answers.
pub Answers-key : (p a : IpPacket) → Answers p a → reverse_key a ≡ forward_key p
unfolding reverse_key forward_key key_answered
Answers-key p a (replied from to reply) =
    ap (λ x. key_answered (carried a) x (target a)) from
    ∙ ap (key_answered (carried a) (target p)) to
    ∙ Reply-key (carried p) (carried a) (source p) (target p) reply
Answers-key p a (reported l4 e quoted) =
    ap (λ c. key_answered c (source a) (target a)) e
    ∙ Quoted-key (carried p) l4 (source p) (target p) quoted

-- the packet opens a flow: a stateful firewall is on and its rules let the packet pass, which
-- starts a conversation, was not expected, and answers no flow itself
pub record OpensFlow (f : Firewall) (p : IpPacket) (dir : FlowDirection) : Type 0 where
  pub on : f.config.enabled ≡ true
  pub stateful : f.config.stateful ≡ true
  pub allowed : is_allow (verdict f.config p dir) ≡ true
  pub starts : is_initiator (carried p) ≡ true
  pub unexpected : is_expected f p dir ≡ false
  pub fresh : is_established f p ≡ false

choose :
    (a b c : Bool) (x y z : Firewall × List Text) (w : Bool × (Firewall × List Text))
    → a ≡ false
    → b ≡ true
    → c ≡ true
    → (if◌then◌else◌ {A = Bool × (Firewall × List Text)} a
        (true, x)
        (if b then (true, if c then y else z) else w)).1.0
      ≡ y.0
choose false true true x y z w ha hb hc = refl
choose false true false x y z w ha hb hc = absurd (cc (hc))
choose false false c x y z w ha hb hc = absurd (cc (hb))
choose true b c x y z w ha hb hc = absurd (cc (ha))

established :
    (f : Firewall) (p a : IpPacket)
    → Small f
    → f.config.stateful ≡ true
    → Answers p a
    → is_established (import_flow f (forward_key p)) a ≡ true
unfolding is_established import_flow
established f p a small stateful answers =
    let there : contains (add_capped 512 f.flows (forward_key p)) (reverse_key a) ≡ true =
      ap (contains (add_capped 512 f.flows (forward_key p))) (Answers-key p a answers)
      ∙ contains-add_capped 511 f.flows (forward_key p) small in
    ground (arith, there, stateful)

or_true : (a b c : Bool) → c ≡ true → (a || b || c) ≡ true
or_true a b c h = ground arith

check-opened :
    (f : Firewall) (p : IpPacket) (dir : FlowDirection)
    → OpensFlow f p dir
    → (check f p dir).1.0 ≡ import_flow f (forward_key p)
unfolding check pass
check-opened f p dir o =
    let go : (f.config.stateful && not (is_established f p) && is_initiator (carried p)) ≡ true =
      ground (arith, o.stateful, o.fresh, o.starts) in
    let asked : (not f.config.enabled || is_expected f p dir) ≡ false =
      ground (arith, o.on, o.unexpected) in
    choose _ _ _ (f, []) (import_flow f (forward_key p), forward_key p ∷ []) (f, [])
      (is_established f p, (f, [])) asked o.allowed go

-- After any calls of a new firewall, where a packet opens a flow, every answer to it that comes
-- next passes, in whatever direction and whatever the rules say: a reply from where it went, or an
-- error about it.
pub check-answer :
    (cs : List Call) (p a : IpPacket) (dir back : FlowDirection)
    → OpensFlow (run new cs) p dir
    → Answers p a
    → (check (check (run new cs) p dir).1.0 a back).0 ≡ true
check-answer cs p a dir back o answers =
    let f = run new cs in
    let f1 = import_flow f (forward_key p) in
    ap (λ g. (check g a back).0) (check-opened f p dir o)
    ∙ check-passes f1 a back
    ∙ or_true (not f1.config.enabled || is_expected f1 a back) (is_allow (verdict f1.config a back))
        _ (established f p a (run-Small cs) o.stateful answers)
