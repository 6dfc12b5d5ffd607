-- ===== src/Lan/Switch/History.antt =====
-- The switch after any calls, and where it sends a frame then.
use mathlib.Core.Path.{subst}
use net_sim.Prelude.{
  nat_eq, ℕ, suc, ◌≡◌, refl, sym, ap, ◌∙◌, Bool, true, false, not, ◌||◌, none, some, List, [], ◌∷◌,
  keep, upto, arith, ◌==◌, if◌then◌else◌, All, All-weaken, All-keep, Dict, get, put, add, remove,
  Bool-cases, Option-cases, inl, inr, ◌⊎◌,
}
use net_sim.Packet.{Mac, EthernetFrame, FramePayload, bpdu}
use net_sim.Lan.Loop.{guard_loop, hops_of}
use net_sim.Lan.Igmp.{link_down}
use net_sim.Lan.Stp.Root.{Stp, StpConfig, forwarding}
use net_sim.Lan.Switch.Table.{PortVlan, default_vlan, MacKey, mac_key, MacEntry}
use net_sim.Lan.Switch.{
  Switch, new, Context, Result, vlan_of, in_vlan, ingress, egress, learn_source, receive_frame,
  receive, with_stp, set_vlans_on, set_vlans, scope_of, on_link, on_timer, set_stp, set_igmp,
}
use net_sim.Lan.Switch.Isolation.{Tidy, Allowed, deliver-Allowed}
use net_sim.Lan.Switch.Tags.{Carries, tag_of, in_vlan-Carries, ingress-tag_of, egress-tag_of}
use net_sim.Lan.Switch.Entries.{
  counted, Placed, learn_source-frame, learn_source-Tidy, ingress-in_vlan, with_stp-Tidy,
  receive_frame-Tidy,
}

-- a call of the switch that changes it
pub data Call : Type 0 where
  received : Context → ℕ → EthernetFrame → Call
  linked : ℕ → Bool → Call
  timed : Call
  vlans : Dict ℕ PortVlan → Call
  tree : StpConfig → Mac → Call
  snoops : Context → Bool → Mac → ℕ → Call

unfoldable pub step : Switch → Call → Switch
step s (received ctx port frame) = (receive s ctx port frame).switch
step s (linked port up) = (on_link s port up).switch
step s timed = (on_timer s).switch
step s (vlans cfg) = set_vlans s cfg
step s (tree cfg mac) = (set_stp s cfg mac).switch
step s (snoops ctx on mac id) = (set_igmp s ctx on mac id).switch

unfoldable pub run : Switch → List Call → Switch
run s [] = s
run s (c ∷ cs) = run (step s c) cs

if-Tidy :
    (b : Bool) (x y : Result) → Tidy x.switch → Tidy y.switch → Tidy (if b then x else y).switch
if-Tidy true x y tx ty = tx
if-Tidy false x y tx ty = ty

receive-Tidy :
    (s : Switch) (ctx : Context) (port : ℕ) (frame : EthernetFrame) (payload : FramePayload)
    → frame.payload ≡ payload
    → Tidy s
    → Tidy (receive s ctx port frame).switch
unfolding receive
receive-Tidy s ctx port frame (bpdu b) e tidy =
    rw (e, receive)
      (if-Tidy s.stp.config.enabled _ _ (with_stp-Tidy s _ tidy)
        (receive_frame-Tidy s ctx port frame tidy))
receive-Tidy s ctx port frame (FramePayload.arp a) e tidy =
    rw (e, receive) (receive_frame-Tidy s ctx port frame tidy)
receive-Tidy s ctx port frame (FramePayload.ipv4 a) e tidy =
    rw (e, receive) (receive_frame-Tidy s ctx port frame tidy)
receive-Tidy s ctx port frame (FramePayload.ipv6 a) e tidy =
    rw (e, receive) (receive_frame-Tidy s ctx port frame tidy)

on_link-Tidy : (s : Switch) (port : ℕ) (up : Bool) → Tidy s → Tidy (on_link s port up).switch
unfolding on_link
on_link-Tidy s port true tidy =
    with_stp-Tidy (record s { up = add s.up port }) _ (unfold vlan_of in tidy)
on_link-Tidy s port false tidy =
    with_stp-Tidy
      (record s {
        up = remove s.up port;
        igmp = link_down s.igmp port;
        mac_table = keep (λ (x : MacKey × MacEntry). not (x.1.port == port)) s.mac_table;
      })
      _ (unfold vlan_of in All-keep (Placed s) _ s.mac_table tidy)

some_changed : (b : Bool) → (b || true) ≡ false → ⊥
some_changed true h = cc
some_changed false h = cc

-- one round: `same` says whether the VLAN of the port stays
by_port :
    (cfg : Dict ℕ PortVlan) (ps : List ℕ) (s : Switch) (p : ℕ) (next : PortVlan) (changed : Bool)
    → ((s' : Switch) (c : Bool)
        → (set_vlans_on cfg s' ps c).1 ≡ false
        → ((set_vlans_on cfg s' ps c).0 ≡ s') × (c ≡ false))
    → (same : Bool)
    → (set_vlans_on cfg
        (if same then s else record s { port_vlan = put s.port_vlan p next })
        ps
        (changed || not same)).1
      ≡ false
    → ((set_vlans_on cfg
          (if same then s else record s { port_vlan = put s.port_vlan p next })
          ps
          (changed || not same)).0
        ≡ s)
      × (changed ≡ false)
by_port cfg ps s p next changed rest true h =
    let (kept, same) = rest s (changed || false) h in (kept, ground arith)
by_port cfg ps s p next changed rest false h = absurd (
    some_changed changed
      (rest (record s { port_vlan = put s.port_vlan p next }) (changed || true) h).1)

-- Where no VLAN changed, nothing did.
set_vlans_on-same :
    (cfg : Dict ℕ PortVlan) (ps : List ℕ) (s : Switch) (changed : Bool)
    → (set_vlans_on cfg s ps changed).1 ≡ false
    → ((set_vlans_on cfg s ps changed).0 ≡ s) × (changed ≡ false)
unfolding set_vlans_on
set_vlans_on-same cfg [] s changed h = (refl, h)
set_vlans_on-same cfg (p ∷ ps) s changed h =
    by_port cfg ps s p (elim (get cfg p) [ none ↦ default_vlan | some v ↦ v ]) changed
      (λ s' c. set_vlans_on-same cfg ps s' c) _ h

set_vlans-Tidy : (s : Switch) (cfg : Dict ℕ PortVlan) → Tidy s → Tidy (set_vlans s cfg)
unfolding set_vlans
set_vlans-Tidy s cfg tidy = elim (Bool-cases (set_vlans_on cfg s (upto s.port_count 0) false).1) [
  | inl changed ↦ rw changed tt
  | inr same ↦
      rw same (subst Tidy (sym (set_vlans_on-same cfg (upto s.port_count 0) s false same).0) tidy)
]

set_igmp-Tidy :
    (s : Switch) (ctx : Context) (on : Bool) (mac : Mac) (id : ℕ)
    → Tidy s
    → Tidy (set_igmp s ctx on mac id).switch
unfolding set_igmp
set_igmp-Tidy s ctx on mac id tidy =
    if-Tidy (not on || s.igmp.enabled) _ _ (unfold vlan_of in tidy) (unfold vlan_of in tidy)

pub step-Tidy : (s : Switch) (c : Call) → Tidy s → Tidy (step s c)
unfolding step on_timer set_stp
step-Tidy s (received ctx port frame) tidy = receive-Tidy s ctx port frame frame.payload refl tidy
step-Tidy s (linked port up) tidy = on_link-Tidy s port up tidy
step-Tidy s timed tidy = with_stp-Tidy s _ tidy
step-Tidy s (vlans cfg) tidy = set_vlans-Tidy s cfg tidy
step-Tidy s (tree cfg mac) tidy = with_stp-Tidy s _ tidy
step-Tidy s (snoops ctx on mac id) tidy = set_igmp-Tidy s ctx on mac id tidy

run-Tidy_from : (cs : List Call) (s : Switch) → Tidy s → Tidy (run s cs)
unfolding run
run-Tidy_from [] s tidy = tidy
run-Tidy_from (c ∷ cs) s tidy = run-Tidy_from cs (step s c) (step-Tidy s c tidy)

-- After any calls of a new switch, each address that it has learned in a VLAN is behind a port of
-- that VLAN, or behind a trunk.
pub run-Tidy : (n : ℕ) (cs : List Call) → Tidy (run (new n) cs)
run-Tidy n cs = run-Tidy_from cs (new n) tt

-- How a frame that came in by `port` is sent on: it had the tag of its VLAN there, and leaves with
-- the tag of that VLAN on the other port's cable, one hop further, else as it was.
pub record Sent (s : Switch) (port : ℕ) (frame : EthernetFrame) (x : ℕ × EthernetFrame)
    : Type 0 where
  pub vlan : ℕ
  pub arrived : Carries (vlan_of s port) vlan
  pub tagged : frame.vlan ≡ tag_of (vlan_of s port) vlan
  pub listening : forwarding s.stp port ≡ true
  pub elsewhere : (x.0 == port) ≡ false
  pub unblocked : forwarding s.stp x.0 ≡ true
  pub inside : Carries (vlan_of s x.0) vlan
  pub marked :
      x.1 ≡ record frame { hops = some (suc (hops_of frame)); vlan = tag_of (vlan_of s x.0) vlan }

Allowed-frame :
    (a s : Switch) (port vlan : ℕ) (frame : EthernetFrame) (x : ℕ × EthernetFrame)
    → a.port_vlan ≡ s.port_vlan
    → a.stp ≡ s.stp
    → Allowed a port vlan frame x
    → Allowed s port vlan frame x
unfolding vlan_of
Allowed-frame a s port vlan frame x same_vlans same_stp w =
    let mode : vlan_of a x.0 ≡ vlan_of s x.0 =
      ap (λ (m : Dict ℕ PortVlan). vlan_of (record s { port_vlan = m }) x.0) same_vlans in
    record {
      elsewhere = w.elsewhere;
      unblocked = sym (ap (λ (t : Stp). forwarding t x.0) same_stp) ∙ w.unblocked;
      inside = sym (ap (λ v. in_vlan v vlan) mode) ∙ w.inside;
      marked = w.marked ∙ ap (λ v. egress v vlan frame) mode;
    }

Allowed-Sent :
    (s : Switch) (port vlan : ℕ) (frame inner : EthernetFrame) (x : ℕ × EthernetFrame)
    → forwarding s.stp port ≡ true
    → ingress (vlan_of s port) (counted frame) ≡ some (vlan, inner)
    → Allowed s port vlan inner x
    → Sent s port frame x
Allowed-Sent s port vlan frame inner x open_now came w =
    let (carried, (tag, stripped)) =
      ingress-tag_of (vlan_of s port) (counted frame) inner vlan came in
    record {
      vlan = vlan;
      arrived = carried;
      tagged = tag;
      listening = open_now;
      elsewhere = w.elsewhere;
      unblocked = w.unblocked;
      inside = in_vlan-Carries (vlan_of s x.0) vlan w.inside;
      marked =
          w.marked
          ∙ (ap (egress (vlan_of s x.0) vlan) stripped
              ∙ egress-tag_of (vlan_of s x.0) vlan (counted frame));
    }

receive_frame-Sent :
    (s : Switch) (ctx : Context) (port : ℕ) (frame : EthernetFrame)
    → Tidy s
    → All (Sent s port frame) (receive_frame s ctx port frame).frames
unfolding receive_frame
receive_frame-Sent s ctx port frame tidy = elim (Bool-cases (forwarding s.stp port)) [
  | inr blocked ↦ rw blocked tt
  | inl open_now ↦
      let mode = vlan_of s port in
      let guarded = guard_loop s.seen port frame (some (scope_of mode frame)) in
      let s1 = record s { seen = guarded.1 } in
      let tidy1 : Tidy s1 = unfold vlan_of in tidy in
      elim (Bool-cases guarded.0) [
        | inr looped ↦ rw (open_now, looped) tt
        | inl ok ↦ elim (Option-cases (ingress mode (counted frame))) [
          | inl dropped ↦ rw (open_now, ok, dropped, receive_frame) tt
          | inr ((vlan, inner), came) ↦
              let s2 = learn_source s1 ctx port vlan inner in
              let (same_vlans, same_stp) = learn_source-frame s1 ctx port vlan inner in
              rw (open_now, ok, came, receive_frame)
                (All-weaken (Allowed s2 port vlan inner) (Sent s port frame)
                  (λ x w.
                    Allowed-Sent s port vlan frame inner x open_now came
                      (Allowed-frame s2 s port vlan inner x same_vlans same_stp w))
                  _
                  (deliver-Allowed s2 ctx port vlan inner (
                    learn_source-Tidy s1 ctx port vlan inner
                      (unfold vlan_of in ingress-in_vlan mode (counted frame) inner vlan came)
                      tidy1)))
        ]
      ]
]

-- A frame is for the spanning tree, and nothing is sent on, or it is data.
receive-cases :
    (s : Switch) (ctx : Context) (port : ℕ) (frame : EthernetFrame) (payload : FramePayload)
    → frame.payload ≡ payload
    → (receive s ctx port frame ≡ receive_frame s ctx port frame)
      ⊎ ((receive s ctx port frame).frames ≡ [])
unfolding receive with_stp
receive-cases s ctx port frame (bpdu b) e = elim (Bool-cases s.stp.config.enabled) [
  | inl on ↦ inr (ground arith)
  | inr off ↦ inl (ground arith)
]
receive-cases s ctx port frame (FramePayload.arp a) e = inl (ground arith)
receive-cases s ctx port frame (FramePayload.ipv4 a) e = inl (ground arith)
receive-cases s ctx port frame (FramePayload.ipv6 a) e = inl (ground arith)

receive-Sent_of :
    (s : Switch) (ctx : Context) (port : ℕ) (frame : EthernetFrame)
    → Tidy s
    → All (Sent s port frame) (receive s ctx port frame).frames
receive-Sent_of s ctx port frame tidy = elim (receive-cases s ctx port frame frame.payload refl) [
  | inl same ↦
      subst (λ (r : Result). All (Sent s port frame) r.frames) (sym same)
        (receive_frame-Sent s ctx port frame tidy)
  | inr quiet ↦ subst (All (Sent s port frame)) (sym quiet) tt
]

-- After any calls of a new switch, snooping included, a frame that comes in is sent on only if the
-- spanning tree lets its port forward and it has the tag of a VLAN that its port carries (none on an
-- access port), and then only by other ports that the tree lets forward and that are trunks or of
-- the same VLAN. It leaves a trunk with the VLAN's tag and an access port with none, has one hop
-- more, and is else unchanged.
pub receive-Sent :
    (n : ℕ) (cs : List Call) (ctx : Context) (port : ℕ) (frame : EthernetFrame)
    → All (Sent (run (new n) cs) port frame) (receive (run (new n) cs) ctx port frame).frames
receive-Sent n cs ctx port frame = receive-Sent_of (run (new n) cs) ctx port frame (run-Tidy n cs)
