-- ===== src/Lan/Switch.antt =====
-- src/core/nodes/switch.ts: the learning switch, over the spanning tree, the IGMP snooper and the
-- guard against loops. The key "vlan:mac" of the table is the pair of its parts.
pub mod Table
pub mod Isolation
pub mod Entries
pub mod Tags
pub mod History
pub mod Learning
mod Tests
use net_sim.Prelude.{
  nat_eq, ℕ, zero, suc, Bool, true, false, not, ◌&&◌, ◌||◌, Option, none, some, List, [], ◌∷◌, ◌++◌,
  ◌==◌, if◌then◌else◌, any, keep, map, upto, Dict, get, put, Text, add, remove, contains,
}
use net_sim.Addr.{decimal, is_broadcast_mac, is_multicast_mac}
use net_sim.Packet.{Mac, EthernetFrame, FramePayload, arp, ipv4, ipv6, bpdu, BpduPacket}
use net_sim.Lan.Loop.{SeenKey, guard_loop, hops_of}
use net_sim.Lan.Igmp.{IgmpSnoop, observe, link_down, set_enabled, query_frame}
use net_sim.Lan.Stp.Root
use net_sim.Lan.Stp.Root.{
  Stp, StpConfig, Effect, send, topology_changed, start_timer, Ports, forwarding,
}
use net_sim.Lan.Stp.Protocol
use net_sim.Lan.Switch.Table.{
  PortVlan, access, trunk, vlan_eq, default_vlan, MacKey, mac_key, MacEntry,
}

pub record Switch : Type 0 where
  pub port_count : ℕ
  pub mac_table : Dict MacKey MacEntry
  pub port_vlan : Dict ℕ PortVlan
  pub seen : Dict SeenKey ℕ
  pub up : List ℕ
  pub stp : Stp
  pub igmp : IgmpSnoop

-- a switch as it is built
abbrev pub new : ℕ → Switch
new n = record {
  port_count = n;
  mac_table = [];
  port_vlan = [];
  seen = [];
  up = [];
  stp = Root.init;
  igmp = record { enabled = false; groups = [] };
}

-- what the simulator tells: `isPortConnected` and `now`
pub record Context : Type 0 where
  pub connected : ℕ → Bool
  pub now : ℕ

-- the switch after a call, the frames that it sends, and what its spanning tree asks for
pub record Result : Type 0 where
  pub switch : Switch
  pub frames : List (ℕ × EthernetFrame)
  pub effects : List Effect

abbrev silent : Switch → Result
silent s = record { switch = s; frames = []; effects = [] }

unfoldable pub vlan_of : Switch → ℕ → PortVlan
vlan_of s port = elim (get s.port_vlan port) [ none ↦ default_vlan | some v ↦ v ]

-- a port that frames of the VLAN may leave by
abbrev pub in_vlan : PortVlan → ℕ → Bool
in_vlan (access w) vlan = w == vlan
in_vlan trunk vlan = true

-- how the spanning tree sees the ports
abbrev pub ports_of : Switch → Ports
ports_of s = record { port_count = s.port_count; connected = λ p. contains s.up p }

unfoldable pub is_topology_change : Effect → Bool
is_topology_change topology_changed = true
is_topology_change (send p mac b) = false
is_topology_change start_timer = false

-- `topologyChanged` empties the table
unfoldable pub with_stp : Switch → Stp × List Effect → Result
with_stp s (stp, effects) = record {
  switch = record s {
    stp = stp;
    mac_table = if any is_topology_change effects then [] else s.mac_table;
  };
  frames = [];
  effects = effects;
}

-- the loop of `setVlans`
unfoldable pub set_vlans_on : Dict ℕ PortVlan → Switch → List ℕ → Bool → Switch × Bool
set_vlans_on cfg s [] changed = (s, changed)
set_vlans_on cfg s (p ∷ ps) changed =
    let next : PortVlan = elim (get cfg p) [ none ↦ default_vlan | some v ↦ v ] in
    let same = vlan_eq (vlan_of s p) next in
    set_vlans_on cfg (if same then s else record s { port_vlan = put s.port_vlan p next }) ps
      (changed || not same)

unfoldable pub set_vlans : Switch → Dict ℕ PortVlan → Switch
set_vlans s cfg =
    let (s1, changed) = set_vlans_on cfg s (upto s.port_count 0) false in
    if changed then record s1 { mac_table = [] } else s1

-- `scope` of the guard: the same frame may come back in another VLAN
unfoldable pub scope_of : PortVlan → EthernetFrame → Text
scope_of (access v) frame = b'a' ∷ decimal v
scope_of trunk frame = elim frame.vlan [ none ↦ b't' ∷ b'-' ∷ [] | some v ↦ b't' ∷ decimal v ]

-- the VLAN of a frame that comes in, and the frame without its tag (none: dropped)
unfoldable pub ingress : PortVlan → EthernetFrame → Option (ℕ × EthernetFrame)
ingress (access v) frame = elim frame.vlan [ none ↦ some (v, frame) | some w ↦ none ]
ingress trunk frame = elim frame.vlan [
  | none ↦ none
  | some v ↦ some (v, record frame { vlan = none })
]

-- the frame of `sendOut`
unfoldable pub egress : PortVlan → ℕ → EthernetFrame → EthernetFrame
egress trunk vlan frame = record frame { vlan = some vlan }
egress (access v) vlan frame = frame

abbrev pub send_out : Switch → ℕ → EthernetFrame → ℕ → ℕ × EthernetFrame
send_out s vlan frame p = (p, egress (vlan_of s p) vlan frame)

-- the source of a frame is behind the port
unfoldable pub learn_source : Switch → Context → ℕ → ℕ → EthernetFrame → Switch
learn_source s ctx port vlan frame =
    let key : MacKey = record { vlan = vlan; mac = frame.src } in
    let known : Bool = elim (get s.mac_table key) [ none ↦ false | some e ↦ e.port == port ] in
    if not known && ctx.connected port
    then record s {
      mac_table = put s.mac_table key (record { port = port; vlan = vlan; learned_at = ctx.now });
    }
    else s

-- a port that a frame of the VLAN may be sent to
unfoldable pub is_open : Switch → Context → ℕ → ℕ → Bool
is_open s ctx vlan p = ctx.connected p && forwarding s.stp p && in_vlan (vlan_of s p) vlan

unfoldable pub flood : Switch → Context → ℕ → ℕ → EthernetFrame → List (ℕ × EthernetFrame)
flood s ctx port vlan frame =
    map (send_out s vlan frame)
      (keep (λ p. not (p == port) && is_open s ctx vlan p) (upto s.port_count 0))

-- to the one port behind which the destination is
unfoldable pub forward_to : Switch → ℕ → ℕ → EthernetFrame → MacEntry → List (ℕ × EthernetFrame)
forward_to s port vlan frame e =
    if not (forwarding s.stp e.port) || e.port == port
    then []
    else send_out s vlan frame e.port ∷ []

-- a multicast goes to the members that the snooper knows, else everywhere
unfoldable pub deliver_group : Switch → Context → ℕ → ℕ → EthernetFrame → Result
deliver_group s ctx port vlan frame =
    let (only, igmp) = observe s.igmp port vlan frame in
    record {
      switch = record s { igmp = igmp };
      frames = elim only [
        | none ↦ flood s ctx port vlan frame
        | some members ↦ map (send_out s vlan frame) (keep (is_open s ctx vlan) members)
      ];
      effects = [];
    }

unfoldable pub lookup_and_send : Switch → Context → ℕ → ℕ → EthernetFrame → List (ℕ × EthernetFrame)
lookup_and_send s ctx port vlan frame =
    elim (get s.mac_table (record { vlan = vlan; mac = frame.dst })) [
      | none ↦ flood s ctx port vlan frame
      | some e ↦ forward_to s port vlan frame e
    ]

-- The end of `receive`: the frame is counted, untagged and learned from.
unfoldable pub deliver : Switch → Context → ℕ → ℕ → EthernetFrame → Result
deliver s ctx port vlan frame =
    if is_broadcast_mac frame.dst
    then record { switch = s; frames = flood s ctx port vlan frame; effects = [] }
    else if is_multicast_mac frame.dst
    then deliver_group s ctx port vlan frame
    else record { switch = s; frames = lookup_and_send s ctx port vlan frame; effects = [] }

-- the switch takes a frame of a VLAN in: it learns from it and delivers it
abbrev pub take_in : Switch → Context → ℕ → ℕ → EthernetFrame → Result
take_in s ctx port vlan frame = deliver (learn_source s ctx port vlan frame) ctx port vlan frame

-- `receive` of a frame that is not for the spanning tree
unfoldable pub receive_frame : Switch → Context → ℕ → EthernetFrame → Result
receive_frame s ctx port frame =
    if not (forwarding s.stp port)
    then silent s
    else let mode = vlan_of s port in
      let (ok, seen) = guard_loop s.seen port frame (some (scope_of mode frame)) in
      let s1 = record s { seen = seen } in
      if not ok
      then silent s1
      else elim (ingress mode (record frame { hops = some (suc (hops_of frame)) })) [
        | none ↦ silent s1
        | some (vlan, inner) ↦ take_in s1 ctx port vlan inner
      ]

unfoldable pub receive : Switch → Context → ℕ → EthernetFrame → Result
receive s ctx port frame = elim frame.payload [
  | bpdu b ↦
      if s.stp.config.enabled
      then with_stp s (Protocol.handle s.stp (ports_of s) port b)
      else receive_frame s ctx port frame
  | _ ↦ receive_frame s ctx port frame
]

unfoldable pub on_link : Switch → ℕ → Bool → Result
on_link s port up =
    let s1 = if up then record s { up = add s.up port } else record s {
      up = remove s.up port;
      igmp = link_down s.igmp port;
      mac_table = keep (λ (x : MacKey × MacEntry). not (x.1.port == port)) s.mac_table;
    } in
    with_stp s1 (Protocol.on_link s1.stp (ports_of s1) port up)

-- the timer of the spanning tree
unfoldable pub on_timer : Switch → Result
on_timer s = with_stp s (Protocol.on_timer s.stp (ports_of s))

unfoldable pub set_stp : Switch → StpConfig → Mac → Result
set_stp s cfg mac = with_stp s (Protocol.set_config s.stp (ports_of s) cfg mac)

-- the VLAN in which a port is queried
abbrev pub query_vlan : PortVlan → ℕ
query_vlan trunk = 1
query_vlan (access v) = v

-- The queries that leave by the ports. `id` is the next packet's number, and nothing else takes one
-- meanwhile.
unfoldable pub queries : Switch → Context → Mac → ℕ → List ℕ → List (ℕ × EthernetFrame)
queries s ctx mac id [] = []
queries s ctx mac id (p ∷ ps) =
    let asked = queries s ctx mac (suc id) ps in
    let rest = queries s ctx mac id ps in
    if ctx.connected p && forwarding s.stp p
    then send_out s (query_vlan (vlan_of s p)) (query_frame mac id) p ∷ asked
    else rest

unfoldable pub set_igmp : Switch → Context → Bool → Mac → ℕ → Result
set_igmp s ctx on mac id =
    let s1 = record s { igmp = set_enabled s.igmp on } in
    if not on || s.igmp.enabled
    then silent s1
    else record { switch = s1; frames = queries s1 ctx mac id (upto s.port_count 0); effects = [] }

-- `onRemove`: the neighbours take back what they heard
unfoldable pub on_remove : Switch → List Effect
on_remove s = Protocol.withdraw s.stp (ports_of s)
