-- ===== src/Packet.antt =====
-- src/core/packet.ts: the packets, with the fields that the modelled components read. What they
-- only carry (the message inside a UDP packet, the body of an ESP packet) is an opaque number.
pub mod Errors
mod Tests
use net_sim.Prelude.{
  ℕ, Bool, true, false, ◌&&◌, ◌||◌, Option, none, some, List, [], ◌∷◌, Text, codes, text_eq, ltb,
  leb, ◌==◌, if◌then◌else◌,
}
pub use net_sim.Addr.{Mac}
use net_sim.Addr.{Ip}

abbrev pub Opaque : Type 0
Opaque = ℕ

pub data EchoType : Type 0 where
  echo_request echo_reply : EchoType

pub data UnreachableCode : Type 0 where
  net host port : UnreachableCode

pub data Transport : Type 0 where
  tcp udp : Transport

-- what an error quotes of the packet that it is about
pub data L4 : Type 0 where
  echo_l4 : ℕ → ℕ → L4
  ports_l4 : Transport → ℕ → ℕ → L4

pub record OriginalPacket : Type 0 where
  pub src : Ip
  pub dst : Ip
  pub l4 : L4

pub data ErrorKind : Type 0 where
  time_exceeded : ErrorKind
  unreachable : UnreachableCode → ErrorKind

pub record IcmpError : Type 0 where
  pub kind : ErrorKind
  pub original : OriginalPacket

pub record TcpSegment : Type 0 where
  pub src_port : ℕ
  pub dst_port : ℕ
  pub seq : ℕ
  pub ack : ℕ
  pub syn : Bool
  pub ack_flag : Bool
  pub fin : Bool
  pub rst : Bool
  pub len : ℕ
  pub rest : Opaque

pub record UdpPacket : Type 0 where
  pub src_port : ℕ
  pub dst_port : ℕ
  pub body : Opaque

pub data IgmpType : Type 0 where
  report leave query : IgmpType

pub data IpPayload : Type 0 where
  echo : EchoType → ℕ → ℕ → IpPayload
  error : IcmpError → IpPayload
  udp : UdpPacket → IpPayload
  tcp : TcpSegment → IpPayload
  esp vrrp pfsync : Opaque → IpPayload
  igmp : IgmpType → Ip → IpPayload

pub record Ipv4Packet : Type 0 where
  pub src : Ip
  pub dst : Ip
  pub ttl : ℕ
  pub payload : IpPayload

-- `ndp` stands for the four neighbour discovery messages, which nothing modelled here reads.
pub data Ipv6Payload : Type 0 where
  echo : EchoType → ℕ → ℕ → Ipv6Payload
  error : IcmpError → Ipv6Payload
  ndp : Opaque → Ipv6Payload
  udp : UdpPacket → Ipv6Payload
  tcp : TcpSegment → Ipv6Payload

pub record Ipv6Packet : Type 0 where
  pub src : Ip
  pub dst : Ip
  pub hop_limit : ℕ
  pub payload : Ipv6Payload

pub data IpPacket : Type 0 where
  v4 : Ipv4Packet → IpPacket
  v6 : Ipv6Packet → IpPacket

pub record BridgeId : Type 0 where
  pub prio : ℕ
  pub mac : Mac

pub record BpduPacket : Type 0 where
  pub root : BridgeId
  pub cost : ℕ
  pub bridge : BridgeId
  pub port : ℕ
  pub age : ℕ
  pub tc : Option ℕ

pub data FramePayload : Type 0 where
  arp : Opaque → FramePayload
  ipv4 : Ipv4Packet → FramePayload
  ipv6 : Ipv6Packet → FramePayload
  bpdu : BpduPacket → FramePayload

pub record EthernetFrame : Type 0 where
  pub id : ℕ
  pub src : Mac
  pub dst : Mac
  pub payload : FramePayload
  pub hops : Option ℕ
  pub vlan : Option ℕ

abbrev pub max_l2_hops : ℕ
max_l2_hops = 16

-- `isIcmpError`, with the error that it finds
unfoldable pub error_of : IpPayload → Option IcmpError
error_of (error e) = some e
error_of (echo _ _ _) = none
error_of (udp _) = none
error_of (tcp _) = none
error_of (esp _) = none
error_of (vrrp _) = none
error_of (pfsync _) = none
error_of (igmp _ _) = none

unfoldable pub is_control : IpPayload → Bool
is_control (vrrp _) = true
is_control (pfsync _) = true
is_control (igmp _ _) = true
is_control _ = false

abbrev pub unspecified_ip : Ip
unspecified_ip = codes "0.0.0.0"

abbrev pub limited_broadcast_ip : Ip
limited_broadcast_ip = codes "255.255.255.255"

-- `/^2(2[4-9]|3\d)\./` on a destination
unfoldable pub starts_multicast : Ip → Bool
starts_multicast (a ∷ b ∷ c ∷ d ∷ _) =
    a == b'2'
    && ((b == b'2' && leb b'4' c && leb c b'9') || (b == b'3' && leb b'0' c && leb c b'9'))
    && d == b'.'
starts_multicast _ = false

-- what is quoted of a packet that may be answered by an error
unfoldable pub quotable : IpPayload → Option L4
quotable (echo _ id seq) = some (echo_l4 id seq)
quotable (udp p) = some (ports_l4 Transport.udp p.src_port p.dst_port)
quotable (tcp p) = some (ports_l4 Transport.tcp p.src_port p.dst_port)
quotable _ = none

abbrev pub error_packet : Ip → Ipv4Packet → ErrorKind → L4 → Ipv4Packet
error_packet from dropped kind l4 = record {
  src = from;
  dst = dropped.src;
  ttl = 64;
  payload =
      error (record {
        kind = kind;
        original = record { src = dropped.src; dst = dropped.dst; l4 = l4 };
      });
}

unfoldable pub icmp_error_for : Ip → Ipv4Packet → ErrorKind → Option Ipv4Packet
icmp_error_for from dropped kind =
    if text_eq dropped.src unspecified_ip
      || text_eq dropped.dst limited_broadcast_ip
      || starts_multicast dropped.dst
    then none
    else elim (quotable dropped.payload) [
      | none ↦ none
      | some l4 ↦ some (error_packet from dropped kind l4)
    ]

unfoldable pub time_exceeded_for : Ip → Ipv4Packet → Option Ipv4Packet
time_exceeded_for from dropped = icmp_error_for from dropped time_exceeded
