-- ===== src/Nat/Translate.antt =====
-- `translate` (inside to outside), `restore` (outside to inside), and their kin for ICMP errors.
use net_sim.Prelude.{
  ℕ, Bool, true, false, not, ◌&&◌, ◌||◌, Option, none, some, List, [], ltb, ◌==◌, if◌then◌else◌,
  find, text_eq, get, put, has, drop_oldest, contains, add, length,
}
use net_sim.Addr.{Ip}
use net_sim.Packet.{
  error_of, L4, echo_l4, ports_l4, OriginalPacket, IcmpError, TcpSegment, IpPayload, echo, error,
  esp, vrrp, pfsync, igmp, Ipv4Packet,
}
use net_sim.Nat.Keys.{
  NatProto, icmp, tcp, udp, Peer, addr, addr_port, NatKey, InnerKey, FlowKey, peer_key, nat_key,
  inner_key, flow_key, peer_eq,
}
use net_sim.Nat.Table.{
  NatType, full_cone, restricted, port_restricted, symmetric, NatEntry, PortForward, rule_for,
  NatTable, alloc_public_id, update_entry, note_tcp, expire, transport_proto,
}

-- What `translate` and `restore` read of a payload: ICMP echo has one id, TCP and UDP two ports.
pub record Flow : Type 0 where
  pub proto : NatProto
  pub from_id : ℕ
  pub to_id : ℕ
  pub segment : Option TcpSegment

unfoldable pub flow_of : IpPayload → Option Flow
flow_of (echo _ id _) = some (record { proto = icmp; from_id = id; to_id = id; segment = none })
flow_of (IpPayload.udp p) =
    some (record { proto = udp; from_id = p.src_port; to_id = p.dst_port; segment = none })
flow_of (IpPayload.tcp p) =
    some (record { proto = tcp; from_id = p.src_port; to_id = p.dst_port; segment = some p })
flow_of (error _) = none
flow_of (esp _) = none
flow_of (vrrp _) = none
flow_of (pfsync _) = none
flow_of (igmp _ _) = none

abbrev pub is_icmp : NatProto → Bool
is_icmp icmp = true
is_icmp _ = false

-- a peer as a mapping remembers it: an ICMP id has no port
abbrev pub peer_at : NatProto → Ip → ℕ → Peer
peer_at proto ip port = if is_icmp proto then addr ip else addr_port ip port

unfoldable pub with_source : IpPayload → ℕ → IpPayload
with_source (echo ty _ seq) id = echo ty id seq
with_source (IpPayload.udp p) id = IpPayload.udp (record p { src_port = id })
with_source (IpPayload.tcp p) id = IpPayload.tcp (record p { src_port = id })
with_source p id = p

unfoldable pub with_target : IpPayload → ℕ → IpPayload
with_target (echo ty _ seq) id = echo ty id seq
with_target (IpPayload.udp p) id = IpPayload.udp (record p { dst_port = id })
with_target (IpPayload.tcp p) id = IpPayload.tcp (record p { dst_port = id })
with_target p id = p

-- A translated packet (none: dropped), the table after it, and the mapping announced to `onNew`.
pub record Translated : Type 0 where
  pub packet : Option Ipv4Packet
  pub table : NatTable
  pub created : Option NatEntry

abbrev pub is_symmetric : NatType → Bool
is_symmetric symmetric = true
is_symmetric _ = false

unfoldable pub lookup_key : NatTable → Ipv4Packet → Flow → InnerKey
lookup_key t pkt f = record {
  proto = f.proto;
  lan_ip = pkt.src;
  inner_id = f.from_id;
  dest = if is_symmetric t.kind then some (peer_at f.proto pkt.dst f.to_id) else none;
}

-- the key of a flow that a forwarding rule let in, read off its reply
abbrev pub reply_key : Ipv4Packet → Flow → FlowKey
reply_key pkt f = record {
  proto = f.proto;
  lan_ip = pkt.src;
  lan_port = f.from_id;
  peer_ip = pkt.dst;
  peer_port = f.to_id;
}

-- the forwarding rule that a reply from inside belongs to
unfoldable pub reply_rule : NatTable → Ipv4Packet → Flow → Option PortForward
reply_rule t pkt f = if is_icmp f.proto then none else elim (get t.rule_flows (reply_key pkt f)) [
  | some port ↦ find (λ r. r.public_port == port && rule_for r f.proto) t.forwards
  | none ↦
      find (λ r. text_eq r.lan_ip pkt.src && r.lan_port == f.from_id && rule_for r f.proto)
        t.forwards
]

unfoldable pub new_entry : NatTable → Ipv4Packet → Flow → ℕ → ℕ → NatEntry
new_entry t pkt f id now = record {
  proto = f.proto;
  lan_ip = pkt.src;
  inner_id = f.from_id;
  public_id = id;
  created_at = now;
  last_used = now;
  fin_out = false;
  fin_in = false;
  closed_at = none;
  peers = some [];
  dest = (lookup_key t pkt f).dest;
  pinhole = false;
}

-- The mapping of a flow: the one there is, or a new one under a fresh public id.
unfoldable pub find_or_create :
    NatTable → Ipv4Packet → Flow → ℕ → NatKey × NatTable × Option NatEntry
find_or_create t pkt f now = elim (get t.by_inner (lookup_key t pkt f)) [
  | some key ↦ (key, t, none)
  | none ↦
      let (id, t1) = alloc_public_id t f.proto in
      let e = new_entry t pkt f id now in
      let key : NatKey = record { proto = f.proto; public_id = id } in
      (
        key,
        record t1 {
          by_inner = put t1.by_inner (lookup_key t pkt f) key;
          entries = put t1.entries key e;
        },
        some e,
      )
]

unfoldable pub note_segment : NatEntry → Option TcpSegment → Bool → ℕ → NatEntry
note_segment e none outgoing now = e
note_segment e (some seg) outgoing now = note_tcp e seg outgoing now

unfoldable pub note_peer : Option (List Peer) → NatProto → Ip → ℕ → Option (List Peer)
note_peer none proto ip port = none
note_peer (some ps) proto ip port =
    some (if is_icmp proto then add ps (addr ip) else add (add ps (addr ip)) (addr_port ip port))

-- what an outgoing packet leaves in its mapping
unfoldable pub touch_out : Ipv4Packet → Flow → ℕ → NatEntry → NatEntry
touch_out pkt f now e =
    note_segment (record e { last_used = now; peers = note_peer e.peers f.proto pkt.dst f.to_id })
      f.segment true now

abbrev pub leave : Ipv4Packet → Ip → ℕ → Ipv4Packet
leave pkt public_ip id = record pkt { src = public_ip; payload = with_source pkt.payload id }

unfoldable pub translate_flow : NatTable → Ipv4Packet → Flow → Ip → ℕ → Option Translated
translate_flow t pkt f public_ip now =
    let (key, t1, created) = find_or_create (expire t now) pkt f now in
    elim (update_entry t1 key (touch_out pkt f now)) [
      | none ↦ none
      | some (e, t2) ↦ some (record {
        packet = some (leave pkt public_ip e.public_id);
        table = t2;
        created = created;
      })
    ]

-- A mapping of the quoted packet: one of this peer, else one of any peer.
unfoldable pub quoted_key : NatTable → NatProto → Ip → ℕ → Peer → Option NatKey
quoted_key t proto ip id peer =
    elim (get t.by_inner (record { proto = proto; lan_ip = ip; inner_id = id; dest = some peer })) [
      | some key ↦ some key
      | none ↦ get t.by_inner (record { proto = proto; lan_ip = ip; inner_id = id; dest = none })
    ]

abbrev pub entry_at : NatTable → Option NatKey → Option NatEntry
entry_at t none = none
entry_at t (some key) = get t.entries key

-- the quoted packet as the outside knows it
unfoldable pub publish_original : NatTable → OriginalPacket → L4 → Ip → OriginalPacket
publish_original t o (echo_l4 id seq) public_ip =
    elim (entry_at t (quoted_key t icmp o.dst id (addr o.src))) [
      | some e ↦ record o { dst = public_ip; l4 = echo_l4 e.public_id seq }
      | none ↦ o
    ]
publish_original t o (ports_l4 p from to) public_ip =
    elim (entry_at t (quoted_key t (transport_proto p) o.dst to (addr_port o.src from))) [
      | some e ↦ record o { dst = public_ip; l4 = ports_l4 p from e.public_id }
      | none ↦
          elim (find
            (λ r. text_eq r.lan_ip o.dst && r.lan_port == to && rule_for r (transport_proto p))
            t.forwards) [
              | some r ↦ record o { dst = public_ip; l4 = ports_l4 p from r.public_port }
              | none ↦ o
            ]
    ]

unfoldable pub translate_error : NatTable → Ipv4Packet → IcmpError → Ip → Ipv4Packet
translate_error t pkt p public_ip = record pkt {
  src = public_ip;
  payload = error (record p { original = publish_original t p.original p.original.l4 public_ip });
}

-- `none` is a `TypeError`; a dropped packet is a `Translated` without packet.
unfoldable pub translate : NatTable → Ipv4Packet → Ip → ℕ → Option Translated
translate t pkt public_ip now = elim (error_of pkt.payload) [
  | some p ↦
      some (record { packet = some (translate_error t pkt p public_ip); table = t; created = none })
  | none ↦ elim (flow_of pkt.payload) [
    | none ↦ some (record { packet = none; table = t; created = none })
    | some f ↦ elim (reply_rule t pkt f) [
      | some r ↦
          some (record {
            packet = some (leave pkt public_ip r.public_port);
            table = t;
            created = none;
          })
      | none ↦ translate_flow t pkt f public_ip now
    ]
  ]
]

unfoldable pub carries : NatTable → Ipv4Packet → Bool
carries t pkt = elim (flow_of pkt.payload) [
  | none ↦ false
  | some f ↦
      (not (is_icmp f.proto) && has t.rule_flows (reply_key pkt f))
      || has t.by_inner (lookup_key t pkt f)
]

abbrev pub enter : Ipv4Packet → Ip → ℕ → Ipv4Packet
enter pkt lan_ip id = record pkt { dst = lan_ip; payload = with_target pkt.payload id }

abbrev pub sender : Ipv4Packet → Flow → Peer
sender pkt f = peer_at f.proto pkt.src f.from_id

-- the filter of the NAT type, where the mapping remembers its peers
unfoldable pub admits_peers : NatType → Option Peer → List Peer → Ipv4Packet → Flow → Bool
admits_peers full_cone dest ps pkt f = true
admits_peers restricted dest ps pkt f = contains ps (addr pkt.src)
admits_peers port_restricted dest ps pkt f = contains ps (sender pkt f)
admits_peers symmetric (some d) ps pkt f = peer_eq d (sender pkt f)
admits_peers symmetric none ps pkt f = contains ps (sender pkt f)

unfoldable pub admits : NatType → NatEntry → Ipv4Packet → Flow → Bool
admits kind e pkt f = elim e.peers [ none ↦ true | some ps ↦ admits_peers kind e.dest ps pkt f ]

unfoldable pub touch_in : Flow → ℕ → NatEntry → NatEntry
touch_in f now e = note_segment (record e { last_used = now }) f.segment false now

-- the key under which a forwarding rule remembers a flow that it lets in
abbrev pub rule_key : PortForward → Ipv4Packet → Flow → FlowKey
rule_key r pkt f = record {
  proto = f.proto;
  lan_ip = r.lan_ip;
  lan_port = r.lan_port;
  peer_ip = pkt.src;
  peer_port = f.from_id;
}

unfoldable pub remember_flow : NatTable → FlowKey → ℕ → NatTable
remember_flow t key port =
    let flows = put t.rule_flows key port in
    record t { rule_flows = if ltb 256 (length flows) then drop_oldest flows else flows }

-- A packet to a public id that has no mapping: a forwarding rule lets it in, or it is dropped.
unfoldable pub restore_forward : NatTable → Ipv4Packet → Flow → Option Ipv4Packet × NatTable
restore_forward t pkt f =
    if is_icmp f.proto
    then (none, t)
    else elim (find (λ r. r.public_port == f.to_id && rule_for r f.proto) t.forwards) [
      | none ↦ (none, t)
      | some r ↦
          (some (enter pkt r.lan_ip r.lan_port), remember_flow t (rule_key r pkt f) r.public_port)
    ]

unfoldable pub restore_flow : NatTable → Ipv4Packet → Flow → ℕ → Option Ipv4Packet × NatTable
restore_flow t pkt f now =
    let key : NatKey = record { proto = f.proto; public_id = f.to_id } in
    elim (get t.entries key) [
      | none ↦ restore_forward t pkt f
      | some e ↦
          if admits t.kind e pkt f
          then (
            some (enter pkt e.lan_ip e.inner_id),
            record t { entries = put t.entries key (touch_in f now e) },
          )
          else (none, t)
    ]

abbrev pub quoted_proto : L4 → NatProto
quoted_proto (echo_l4 _ _) = icmp
quoted_proto (ports_l4 p _ _) = transport_proto p

abbrev pub quoted_source : L4 → ℕ
quoted_source (echo_l4 id _) = id
quoted_source (ports_l4 _ port _) = port

abbrev pub with_quoted_source : L4 → ℕ → L4
with_quoted_source (echo_l4 _ seq) id = echo_l4 id seq
with_quoted_source (ports_l4 p _ to) id = ports_l4 p id to

-- the error, sent on to the inner host that sent the quoted packet
abbrev pub return_error : Ipv4Packet → IcmpError → Ip → ℕ → Ipv4Packet
return_error pkt p lan_ip id = record pkt {
  dst = lan_ip;
  payload = error (record p {
    original = record (p.original) { src = lan_ip; l4 = with_quoted_source p.original.l4 id };
  });
}

unfoldable pub restore_error : NatTable → Ipv4Packet → IcmpError → ℕ → Option Ipv4Packet × NatTable
restore_error t pkt p now =
    let l4 = p.original.l4 in
    let key : NatKey = record { proto = quoted_proto l4; public_id = quoted_source l4 } in
    elim (get t.entries key) [
      | some e ↦ (
        some (return_error pkt p e.lan_ip e.inner_id),
        record t { entries = put t.entries key (record e { last_used = now }) },
      )
      | none ↦
          if is_icmp (quoted_proto l4)
          then (none, t)
          else elim (find (λ r. r.public_port == quoted_source l4 && rule_for r (quoted_proto l4))
              t.forwards) [
                | none ↦ (none, t)
                | some r ↦ (some (return_error pkt p r.lan_ip r.lan_port), t)
              ]
    ]

unfoldable pub restore : NatTable → Ipv4Packet → ℕ → Option Ipv4Packet × NatTable
restore t pkt now = elim (error_of pkt.payload) [
  | some p ↦ restore_error t pkt p now
  | none ↦ elim (flow_of pkt.payload) [ none ↦ (none, t) | some f ↦ restore_flow t pkt f now ]
]
