-- ===== src/Firewall.antt =====
-- src/core/nodes/firewall.ts: rules on passing packets, and the flows that they let through. The
-- keys of flows are the texts that the source builds. `label`, `denyHint`, log lines and rows are
-- left out; the callback `onFlow` is the list of keys that an operation hands to it.
pub mod Cidr
pub mod Keys
pub mod Ranges
pub mod Verdicts
pub mod Flows
pub mod Replies
mod Tests
use Prim.Native.Nat.{bit_and}
use net_sim.Prelude.{
  nat_eq, ℕ, Bool, true, false, not, ◌&&◌, ◌||◌, Option, none, some, List, [], ◌∷◌, ◌++◌, Text,
  codes, text_eq, text_key, ltb, ◌==◌, if◌then◌else◌, find, contains, add_capped, is_some,
}
use net_sim.Addr.{Ip, split, all_digits, number_from, decimal, ip_to_int, prefix_to_mask}
use net_sim.Addr6.{colon, trim, is_ipv6, same_subnet6}
use net_sim.Packet.{
  EchoType, echo_request, echo_reply, Transport, L4, echo_l4, ports_l4, OriginalPacket, IcmpError,
  TcpSegment, UdpPacket, IpPayload, Ipv6Payload, IpPacket, v4, v6,
}
use net_sim.Firewall.Cidr.{
  whole_number, prefix_length, same_network, contains_parts, cidr_contains, valid_parts, valid_cidr,
}
use net_sim.Firewall.Keys.{
  Carried, carried4, carried6, carried, source, target, is_initiator, keyed, original_key,
  key_between, forward_key, key_answered, reverse_key, echo, error, discovery, segment, datagram,
  esp, vrrp, pfsync, igmp,
}

pub data FwAction : Type 0 where
  allow deny : FwAction

pub data FwProto : Type 0 where
  any_proto icmp_proto tcp_proto udp_proto esp_proto : FwProto

pub data FwDirection : Type 0 where
  only_in only_out both_ways : FwDirection

pub data FlowDirection : Type 0 where
  inbound outbound between : FlowDirection

pub record FirewallRule : Type 0 where
  pub action : FwAction
  pub proto : FwProto
  pub direction : FwDirection
  pub src : Option Text
  pub dst : Option Text
  pub dst_port : Option ℕ

pub record FirewallConfig : Type 0 where
  pub enabled : Bool
  pub default_policy : FwAction
  pub stateful : Bool
  pub rules : List FirewallRule

pub record Firewall : Type 0 where
  pub config : FirewallConfig
  pub flows : List Text
  pub expects : List Text

abbrev pub max_flows : ℕ
max_flows = 512

abbrev pub fits_direction : FwDirection → FlowDirection → Bool
fits_direction both_ways d = true
fits_direction only_in inbound = true
fits_direction only_out outbound = true
fits_direction _ _ = false

abbrev pub fits_proto : FwProto → Carried → Bool
fits_proto any_proto c = true
fits_proto icmp_proto (echo t id) = true
fits_proto icmp_proto (error o) = true
fits_proto icmp_proto discovery = true
fits_proto tcp_proto (segment b s d) = true
fits_proto udp_proto (datagram s d) = true
fits_proto esp_proto esp = true
fits_proto _ _ = false

-- no range, or an empty one, fits every address
unfoldable pub fits_range : Option Text → Ip → Bool
fits_range none ip = true
fits_range (some []) ip = true
fits_range (some (c ∷ s)) ip = cidr_contains (c ∷ s) ip

abbrev pub target_port : Carried → Option ℕ
target_port (segment b s d) = some d
target_port (datagram s d) = some d
target_port _ = none

-- no port, or 0, fits everything; another one fits only what has ports
unfoldable pub fits_port : Option ℕ → Carried → Bool
fits_port none c = true
fits_port (some n) c = n == 0 || elim (target_port c) [ none ↦ false | some d ↦ d == n ]

unfoldable pub matches : FirewallRule → IpPacket → FlowDirection → Bool
matches r pkt dir =
    fits_direction r.direction dir
    && fits_proto r.proto (carried pkt)
    && fits_range r.src (source pkt)
    && fits_range r.dst (target pkt)
    && fits_port r.dst_port (carried pkt)

abbrev pub is_allow : FwAction → Bool
is_allow allow = true
is_allow deny = false

unfoldable pub allows_by_rule : Firewall → IpPacket → FlowDirection → Bool
allows_by_rule f pkt dir = f.config.enabled && elim (find (λ r. matches r pkt dir) f.config.rules) [
  | none ↦ false
  | some r ↦ is_allow r.action
]

-- the action of the first rule that matches, or the default
unfoldable pub verdict : FirewallConfig → IpPacket → FlowDirection → FwAction
verdict cfg pkt dir = elim (find (λ r. matches r pkt dir) cfg.rules) [
  | none ↦ cfg.default_policy
  | some r ↦ r.action
]

unfoldable pub import_flow : Firewall → Text → Firewall
import_flow f key = record f { flows = add_capped max_flows f.flows key }

-- a flow is added, and handed to `onFlow`
abbrev pub open_flow : Firewall → IpPacket → Firewall × List Text
open_flow f pkt = (import_flow f (forward_key pkt), forward_key pkt ∷ [])

unfoldable pub remember : Firewall → IpPacket → Firewall × List Text
remember f pkt =
    if not f.config.enabled || not f.config.stateful || not (is_initiator (carried pkt))
    then (f, [])
    else if contains f.flows (forward_key pkt)
    then (f, [])
    else open_flow f pkt

-- the packet goes where a call has asked to be let in
unfoldable pub is_expected : Firewall → IpPacket → FlowDirection → Bool
is_expected f pkt inbound = elim (carried pkt) [
  | segment b s d ↦ contains f.expects (keyed (codes "tcp" ∷ target pkt ∷ decimal d ∷ []))
  | datagram s d ↦ contains f.expects (keyed (codes "udp" ∷ target pkt ∷ decimal d ∷ []))
  | _ ↦ false
]
is_expected f pkt outbound = false
is_expected f pkt between = false

unfoldable pub is_established : Firewall → IpPacket → Bool
is_established f pkt = f.config.stateful && contains f.flows (reverse_key pkt)

-- a packet that passes, and the flow that it opens
unfoldable pub pass : Firewall → IpPacket → Firewall × List Text
pass f pkt =
    if f.config.stateful && not (is_established f pkt) && is_initiator (carried pkt)
    then open_flow f pkt
    else (f, [])

-- whether the packet passes, the firewall afterwards, and the keys for `onFlow`
unfoldable pub check : Firewall → IpPacket → FlowDirection → Bool × (Firewall × List Text)
check f pkt dir =
    if not f.config.enabled || is_expected f pkt dir
    then (true, (f, []))
    else if is_allow (verdict f.config pkt dir)
    then (true, pass f pkt)
    else (is_established f pkt, (f, []))

abbrev bool_code : Bool → ℕ
bool_code true = 1
bool_code false = 0

abbrev action_code : FwAction → ℕ
action_code allow = 1
action_code deny = 0

abbrev proto_code : FwProto → ℕ
proto_code any_proto = 0
proto_code icmp_proto = 1
proto_code tcp_proto = 2
proto_code udp_proto = 3
proto_code esp_proto = 4

abbrev direction_code : FwDirection → ℕ
direction_code only_in = 0
direction_code only_out = 1
direction_code both_ways = 2

abbrev same_text : Option Text → Option Text → Bool
same_text none none = true
same_text (some s) (some t) = text_eq s t
same_text none (some t) = false
same_text (some s) none = false

abbrev same_port : Option ℕ → Option ℕ → Bool
same_port none none = true
same_port (some m) (some n) = m == n
same_port none (some n) = false
same_port (some m) none = false

abbrev same_rule : FirewallRule → FirewallRule → Bool
same_rule a b =
    action_code a.action == action_code b.action
    && proto_code a.proto == proto_code b.proto
    && direction_code a.direction == direction_code b.direction
    && same_text a.src b.src
    && same_text a.dst b.dst
    && same_port a.dst_port b.dst_port

abbrev same_rules : List FirewallRule → List FirewallRule → Bool
same_rules [] [] = true
same_rules (a ∷ rest) (b ∷ bs) = same_rule a b && same_rules rest bs
same_rules [] (b ∷ bs) = false
same_rules (a ∷ rest) [] = false

-- the comparison of `setConfig`; the rules are compared field by field, as their JSON is
unfoldable pub same_config : FirewallConfig → FirewallConfig → Bool
same_config a b =
    bool_code a.enabled == bool_code b.enabled
    && action_code a.default_policy == action_code b.default_policy
    && bool_code a.stateful == bool_code b.stateful
    && same_rules a.rules b.rules

unfoldable pub set_config : Firewall → FirewallConfig → Firewall
set_config f cfg = record f {
  config = cfg;
  flows = if not (same_config f.config cfg) && not cfg.enabled then [] else f.flows;
}

-- a firewall as it is built
abbrev pub new : Firewall
new = record {
  config = record { enabled = false; default_policy = allow; stateful = true; rules = [] };
  flows = [];
  expects = [];
}
