-- ===== src/Firewall/Keys.antt =====
-- The keys of flows in src/core/nodes/firewall.ts: `isInitiator` and `flowKey`.
use net_sim.Prelude.{
  nat_eq, ℕ, Bool, true, false, not, ◌&&◌, List, [], ◌∷◌, ◌++◌, Text, codes, text_key,
}
use net_sim.Addr.{Ip, decimal}
use net_sim.Addr6.{colon}
use net_sim.Packet.{
  EchoType, echo_request, echo_reply, Transport, echo_l4, ports_l4, OriginalPacket, TcpSegment,
  IpPayload, Ipv6Payload, IpPacket, v4, v6,
}

-- what a packet carries, as rules and keys see it
pub data Carried : Type 0 where
  echo : EchoType → ℕ → Carried
  error : OriginalPacket → Carried
  discovery : Carried
  segment : Bool → ℕ → ℕ → Carried
  datagram : ℕ → ℕ → Carried
  esp vrrp pfsync igmp : Carried

-- the segment that opens a connection: SYN without ACK
abbrev opens : TcpSegment → Bool
opens t = t.syn && not t.ack_flag

unfoldable pub carried4 : IpPayload → Carried
carried4 (IpPayload.echo t id seq) = echo t id
carried4 (IpPayload.error e) = error e.original
carried4 (IpPayload.udp u) = datagram u.src_port u.dst_port
carried4 (IpPayload.tcp t) = segment (opens t) t.src_port t.dst_port
carried4 (IpPayload.esp b) = esp
carried4 (IpPayload.vrrp b) = vrrp
carried4 (IpPayload.pfsync b) = pfsync
carried4 (IpPayload.igmp t g) = igmp

unfoldable pub carried6 : Ipv6Payload → Carried
carried6 (Ipv6Payload.echo t id seq) = echo t id
carried6 (Ipv6Payload.error e) = error e.original
carried6 (Ipv6Payload.ndp b) = discovery
carried6 (Ipv6Payload.udp u) = datagram u.src_port u.dst_port
carried6 (Ipv6Payload.tcp t) = segment (opens t) t.src_port t.dst_port

unfoldable pub carried : IpPacket → Carried
carried (v4 p) = carried4 p.payload
carried (v6 p) = carried6 p.payload

abbrev pub source : IpPacket → Ip
source (v4 p) = p.src
source (v6 p) = p.src

abbrev pub target : IpPacket → Ip
target (v4 p) = p.dst
target (v6 p) = p.dst

-- a packet that starts a conversation
unfoldable pub is_initiator : Carried → Bool
is_initiator (echo echo_request id) = true
is_initiator (echo echo_reply id) = false
is_initiator (error o) = false
is_initiator discovery = false
is_initiator (segment starts s d) = starts
is_initiator _ = true

-- texts with a colon between them
unfoldable pub keyed : List Text → Text
keyed [] = []
keyed (s ∷ ss) = let rest = keyed ss in elim ss [ [] ↦ s | _ ↦ s ++ (colon ∷ rest) ]

abbrev transport_name : Transport → Text
transport_name Transport.tcp = codes "tcp"
transport_name Transport.udp = codes "udp"

-- the key of the flow that an error is about
unfoldable pub original_key : OriginalPacket → Text
original_key o = elim o.l4 [
  | echo_l4 id seq ↦ keyed (codes "icmp" ∷ o.src ∷ o.dst ∷ decimal id ∷ [])
  | ports_l4 t sp dp ↦ keyed (transport_name t ∷ o.src ∷ decimal sp ∷ o.dst ∷ decimal dp ∷ [])
]

-- `flowKey` of what goes from `a` to `b`, seen forwards
unfoldable pub key_between : Carried → Ip → Ip → Text
key_between (echo t id) a b = keyed (codes "icmp" ∷ a ∷ b ∷ decimal id ∷ [])
key_between (error o) a b = keyed (codes "icmp-error" ∷ a ∷ b ∷ [])
key_between discovery a b = keyed (codes "icmp" ∷ a ∷ b ∷ decimal 0 ∷ [])
key_between (segment starts s d) a b = keyed (codes "tcp" ∷ a ∷ decimal s ∷ b ∷ decimal d ∷ [])
key_between (datagram s d) a b = keyed (codes "udp" ∷ a ∷ decimal s ∷ b ∷ decimal d ∷ [])
key_between esp a b = keyed (codes "esp" ∷ a ∷ b ∷ [])
key_between vrrp a b = keyed (codes "vrrp" ∷ a ∷ b ∷ [])
key_between pfsync a b = keyed (codes "pfsync" ∷ a ∷ b ∷ [])
key_between igmp a b = keyed (codes "igmp" ∷ a ∷ b ∷ [])

unfoldable pub forward_key : IpPacket → Text
forward_key pkt = key_between (carried pkt) (source pkt) (target pkt)

-- the key of the flow that is answered by what goes from `a` to `b`
unfoldable pub key_answered : Carried → Ip → Ip → Text
key_answered (error o) a b = original_key o
key_answered (echo t id) a b = key_between (echo t id) b a
key_answered discovery a b = key_between discovery b a
key_answered (segment starts s d) a b = key_between (segment starts d s) b a
key_answered (datagram s d) a b = key_between (datagram d s) b a
key_answered esp a b = key_between esp b a
key_answered vrrp a b = key_between vrrp b a
key_answered pfsync a b = key_between pfsync b a
key_answered igmp a b = key_between igmp b a

-- `flowKey` with `reverse`: that of the flow which the packet answers
unfoldable pub reverse_key : IpPacket → Text
reverse_key pkt = key_answered (carried pkt) (source pkt) (target pkt)
