-- ===== src/Firewall/Flows.antt =====
-- The flows that src/core/nodes/firewall.ts remembers: how many, and that answers pass.
use net_sim.Prelude.{
  nat_eq, ℕ, ◌≤◌, ◌≡◌, Bool, true, false, not, ◌&&◌, ◌||◌, List, [], ◌∷◌, Text, text_key, arith,
  length, contains, length-add_capped, if◌then◌else◌,
}
use net_sim.Packet.{EchoType, echo_request, echo_reply, tcp, udp, L4, echo_l4, ports_l4, IpPacket}
use net_sim.Firewall.{
  FirewallConfig, Firewall, new, FlowDirection, verdict, is_allow, import_flow, remember,
  is_expected, is_established, pass, check, set_config,
}
use net_sim.Firewall.Keys.{
  Carried, echo, error, segment, datagram, esp, carried, source, target, is_initiator, forward_key,
}

-- a call that changes the firewall, or the set of what is expected
pub data Call : Type 0 where
  configured : FirewallConfig → Call
  imported : Text → Call
  remembered : IpPacket → Call
  checked : IpPacket → FlowDirection → Call
  expecting : List Text → Call

unfoldable pub step : Firewall → Call → Firewall
step f (configured cfg) = set_config f cfg
step f (imported key) = import_flow f key
step f (remembered pkt) = (remember f pkt).0
step f (checked pkt dir) = (check f pkt dir).1.0
step f (expecting keys) = record f { expects = keys }

unfoldable pub run : Firewall → List Call → Firewall
run f [] = f
run f (c ∷ cs) = run (step f c) cs

abbrev pub Small : Firewall → Type 0
Small f = length f.flows ≤ 512

import_flow-Small : (f : Firewall) (key : Text) → Small f → Small (import_flow f key)
unfolding import_flow
import_flow-Small f key small = length-add_capped 512 f.flows key small

if-Small :
    (b : Bool) (x y : Firewall × List Text) → Small x.0 → Small y.0 → Small (if b then x else y).0
if-Small true x y sx sy = sx
if-Small false x y sx sy = sy

remember-Small : (f : Firewall) (pkt : IpPacket) → Small f → Small (remember f pkt).0
unfolding remember
remember-Small f pkt small =
    if-Small (not f.config.enabled || not f.config.stateful || not (is_initiator (carried pkt)))
      (f, []) _ small
      (if-Small (contains f.flows (forward_key pkt)) (f, []) _ small
        (import_flow-Small f (forward_key pkt) small))

pass-Small : (f : Firewall) (pkt : IpPacket) → Small f → Small (pass f pkt).0
unfolding pass
pass-Small f pkt small =
    if-Small (f.config.stateful && not (is_established f pkt) && is_initiator (carried pkt)) _
      (f, []) (import_flow-Small f (forward_key pkt) small) small

if-checked :
    (b : Bool) (x y : Bool × (Firewall × List Text))
    → Small x.1.0
    → Small y.1.0
    → Small (if b then x else y).1.0
if-checked true x y sx sy = sx
if-checked false x y sx sy = sy

check-Small :
    (f : Firewall) (pkt : IpPacket) (dir : FlowDirection) → Small f → Small (check f pkt dir).1.0
unfolding check
check-Small f pkt dir small =
    if-checked (not f.config.enabled || is_expected f pkt dir) (true, (f, [])) _ small
      (if-checked (is_allow (verdict f.config pkt dir)) (true, pass f pkt) (_, (f, []))
        (pass-Small f pkt small) small)

set_config-Small : (f : Firewall) (cfg : FirewallConfig) → Small f → Small (set_config f cfg)
unfolding set_config
set_config-Small f cfg small = ground arith

step-Small : (f : Firewall) (c : Call) → Small f → Small (step f c)
unfolding step
step-Small f (configured cfg) small = set_config-Small f cfg small
step-Small f (imported key) small = import_flow-Small f key small
step-Small f (remembered pkt) small = remember-Small f pkt small
step-Small f (checked pkt dir) small = check-Small f pkt dir small
step-Small f (expecting keys) small = small

run-Small_from : (f : Firewall) (cs : List Call) → Small f → Small (run f cs)
unfolding run
run-Small_from f [] small = small
run-Small_from f (c ∷ cs) small = run-Small_from (step f c) cs (step-Small f c small)

-- After any calls of a new firewall it remembers at most 512 flows.
pub run-Small : (cs : List Call) → Small (run new cs)
run-Small cs = run-Small_from new cs (omega arith)

-- what answers what is carried: the reply to a ping, or the same ports the other way round
pub data Reply : Carried → Carried → Type 0 where
  pong : (id : ℕ) → Reply (echo echo_request id) (echo echo_reply id)
  segment_back : (b c : Bool) (s d : ℕ) → Reply (segment b s d) (segment c d s)
  datagram_back : (s d : ℕ) → Reply (datagram s d) (datagram d s)
  esp_back : Reply esp esp

-- what an error quotes of what is carried
pub data Quoted : Carried → L4 → Type 0 where
  quoted_echo : (t : EchoType) (id seq : ℕ) → Quoted (echo t id) (echo_l4 id seq)
  quoted_segment : (b : Bool) (s d : ℕ) → Quoted (segment b s d) (ports_l4 tcp s d)
  quoted_datagram : (s d : ℕ) → Quoted (datagram s d) (ports_l4 udp s d)

-- the second packet answers the first: from where it went, or as an error about it from anywhere
pub data Answers (p a : IpPacket) : Type 0 where
  replied : source a ≡ target p → target a ≡ source p → Reply (carried p) (carried a) → Answers p a
  reported :
      (l4 : L4)
      → carried a ≡ error (record { src = source p; dst = target p; l4 = l4 })
      → Quoted (carried p) l4
      → Answers p a
