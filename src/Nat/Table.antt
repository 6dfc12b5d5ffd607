-- ===== src/Nat/Table.antt =====
-- The table's state, and what allocates, imports, closes and expires mappings.
use net_sim.Prelude.{
  ℕ, zero, suc, ◌+◌, Bool, true, false, not, ◌&&◌, ◌||◌, Option, none, some, List, [], ◌∷◌, leb,
  ◌==◌, if◌then◌else◌, any, Dict, get, put, delete, has, length,
}
use Prim.Native.Nat.{max}
use net_sim.Addr.{Ip}
use net_sim.Packet.{Transport, TcpSegment}
use net_sim.Nat.Keys.{
  NatProto, icmp, tcp, udp, Peer, NatKey, InnerKey, FlowKey, nat_key, inner_key, proto_eq,
  nat_key_eq,
}

pub data NatType : Type 0 where
  full_cone restricted port_restricted symmetric : NatType

-- An optional field that is only set to `true` is a Boolean.
pub record NatEntry : Type 0 where
  pub proto : NatProto
  pub lan_ip : Ip
  pub inner_id : ℕ
  pub public_id : ℕ
  pub created_at : ℕ
  pub last_used : ℕ
  pub fin_out : Bool
  pub fin_in : Bool
  pub closed_at : Option ℕ
  pub peers : Option (List Peer)
  pub dest : Option Peer
  pub pinhole : Bool

pub record PortForward : Type 0 where
  pub public_port : ℕ
  pub lan_ip : Ip
  pub lan_port : ℕ
  pub proto : Option Transport

abbrev pub nat_id_start : ℕ
nat_id_start = 40000

abbrev pub nat_tcp_time_wait : ℕ
nat_tcp_time_wait = 2000

abbrev pub transport_proto : Transport → NatProto
transport_proto Transport.tcp = tcp
transport_proto Transport.udp = udp

unfoldable pub rule_for : PortForward → NatProto → Bool
rule_for r proto = elim r.proto [
  | none ↦ proto_eq tcp proto
  | some p ↦ proto_eq (transport_proto p) proto
]

-- `reserved` is the predicate that the device hands over (none: nothing is reserved).
pub record NatTable : Type 0 where
  pub entries : Dict NatKey NatEntry
  pub by_inner : Dict InnerKey NatKey
  pub seq : ℕ
  pub forwards : List PortForward
  pub rule_flows : Dict FlowKey ℕ
  pub kind : NatType
  pub reserved : ℕ → Bool

abbrev pub init : NatTable
init = record {
  entries = [];
  by_inner = [];
  seq = nat_id_start;
  forwards = [];
  rule_flows = [];
  kind = full_cone;
  reserved = λ _. false;
}

abbrev pub inner_key_of : NatEntry → InnerKey
inner_key_of e = record { proto = e.proto; lan_ip = e.lan_ip; inner_id = e.inner_id; dest = e.dest }

abbrev pub nat_key_of : NatEntry → NatKey
nat_key_of e = record { proto = e.proto; public_id = e.public_id }

unfoldable pub is_forwarded : NatTable → ℕ → Bool
is_forwarded t id = any (λ r. r.public_port == id) t.forwards

-- the loop condition of `allocPublicId`
unfoldable pub is_taken : NatTable → NatProto → ℕ → Bool
is_taken t proto id =
    (not (proto_eq proto icmp) && (is_forwarded t id || t.reserved id))
    || has t.entries (record { proto = proto; public_id = id })

unfoldable pub alloc_from : ℕ → NatTable → NatProto → ℕ → ℕ
alloc_from zero t proto id = id
alloc_from (suc fuel) t proto id =
    let next = alloc_from fuel t proto (suc id) in if is_taken t proto id then next else id

-- Above every public id in use, and above the ports.
unfoldable pub ceiling : Dict NatKey NatEntry → ℕ
ceiling [] = 65536
ceiling ((k, e) ∷ m) = max (suc k.public_id) (ceiling m)

unfoldable pub ceiling_forwards : List PortForward → ℕ
ceiling_forwards [] = 0
ceiling_forwards (r ∷ rs) = max (suc r.public_port) (ceiling_forwards rs)

unfoldable pub alloc_public_id : NatTable → NatProto → ℕ × NatTable
alloc_public_id t proto =
    let id = alloc_from (ceiling t.entries + ceiling_forwards t.forwards) t proto t.seq in
    (id, record t { seq = suc id })

-- what `importEntry` is given of a mapping
pub record Imported : Type 0 where
  pub proto : NatProto
  pub lan_ip : Ip
  pub inner_id : ℕ
  pub public_id : ℕ
  pub dest : Option Peer

abbrev pub imported_entry : Imported → ℕ → NatEntry
imported_entry e now = record {
  proto = e.proto;
  lan_ip = e.lan_ip;
  inner_id = e.inner_id;
  public_id = e.public_id;
  created_at = now;
  last_used = now;
  fin_out = false;
  fin_in = false;
  closed_at = none;
  peers = none;
  dest = e.dest;
  pinhole = false;
}

-- the old mapping of the public id goes
unfoldable pub forget_inner : Dict InnerKey NatKey → Option NatEntry → Dict InnerKey NatKey
forget_inner by none = by
forget_inner by (some old) = delete by (inner_key_of old)

-- the old mapping of the inner host goes, if it had another public id
unfoldable pub forget_public : Dict NatKey NatEntry → NatKey → Option NatKey → Dict NatKey NatEntry
forget_public entries key none = entries
forget_public entries key (some prev) = if nat_key_eq prev key then entries else delete entries prev

unfoldable pub import_entry : NatTable → Imported → ℕ → NatTable
import_entry t e now =
    let fresh = imported_entry e now in
    let by = forget_inner t.by_inner (get t.entries (nat_key_of fresh)) in
    let entries = forget_public t.entries (nat_key_of fresh) (get by (inner_key_of fresh)) in
    record t {
      entries = put entries (nat_key_of fresh) fresh;
      by_inner = put by (inner_key_of fresh) (nat_key_of fresh);
      seq = if leb t.seq e.public_id then suc e.public_id else t.seq;
    }

-- A write to a field of the entry under a key; `none` is a `TypeError` on a missing entry.
unfoldable pub update_entry :
    NatTable → NatKey → (NatEntry → NatEntry) → Option (NatEntry × NatTable)
update_entry t key f = elim (get t.entries key) [
  | none ↦ none
  | some e ↦ some (f e, record t { entries = put t.entries key (f e) })
]

-- `free` of `openPinhole`: the inner port can serve as the public one
unfoldable pub is_free : NatTable → NatProto → ℕ → Bool
is_free t proto inner =
    not (has t.entries (record { proto = proto; public_id = inner }))
    && not (is_forwarded t inner)
    && not (t.reserved inner)

-- A free inner port is kept as it is, and does not move the sequence of public ids.
unfoldable pub punch : NatTable → NatProto → Ip → ℕ → ℕ → Option (NatEntry × NatTable)
punch t proto lan_ip inner now =
    let free = is_free t proto inner in
    let (id, t1) = if free then (inner, t) else alloc_public_id t proto in
    let t2 =
      import_entry t1
        (record { proto = proto; lan_ip = lan_ip; inner_id = inner; public_id = id; dest = none })
        now in
    update_entry (record t2 { seq = if free then t1.seq else t2.seq })
      (record { proto = proto; public_id = id }) (λ e. record e { pinhole = true })

unfoldable pub open_pinhole : NatTable → NatProto → Ip → ℕ → ℕ → Option (NatEntry × NatTable)
open_pinhole t proto lan_ip inner now =
    elim (get t.by_inner
      (record { proto = proto; lan_ip = lan_ip; inner_id = inner; dest = none })) [
        | some key ↦ update_entry t key (λ e. record e { peers = none })
        | none ↦ punch t proto lan_ip inner now
      ]

unfoldable pub close_pinhole : NatTable → NatProto → ℕ → Option NatEntry × NatTable
close_pinhole t proto id =
    let key : NatKey = record { proto = proto; public_id = id } in
    elim (get t.entries key) [
      | none ↦ (none, t)
      | some e ↦
          if e.pinhole
          then (
            some e,
            record t {
              entries = delete t.entries key;
              by_inner = delete t.by_inner (inner_key_of e);
            },
          )
          else (none, t)
    ]

unfoldable pub set_forwards : NatTable → List PortForward → NatTable
set_forwards t rules = record t { forwards = rules }

-- `outgoing` is the source's direction "out".
unfoldable pub note_tcp : NatEntry → TcpSegment → Bool → ℕ → NatEntry
note_tcp e seg outgoing now =
    if seg.syn && not seg.ack_flag
    then record e { fin_out = false; fin_in = false; closed_at = none }
    else elim e.closed_at [
      | some _ ↦ e
      | none ↦
          if seg.rst
          then record e { closed_at = some now }
          else if seg.fin
          then (if outgoing then record e { fin_out = true } else record e { fin_in = true })
          else if e.fin_out && e.fin_in && seg.ack_flag && seg.len == 0
          then record e { closed_at = some now }
          else e
    ]

-- closed for at least the time to wait
unfoldable pub is_stale : ℕ → NatEntry → Bool
is_stale now e = elim e.closed_at [ none ↦ false | some c ↦ leb (c + nat_tcp_time_wait) now ]

abbrev pub drop_inner : Dict InnerKey NatKey → NatEntry → NatKey → Dict InnerKey NatKey
drop_inner by e key = elim (get by (inner_key_of e)) [
  | none ↦ by
  | some k ↦ if nat_key_eq k key then delete by (inner_key_of e) else by
]

-- one round of `expire`
unfoldable pub expire_one : ℕ → NatTable → NatKey → NatEntry → NatTable
expire_one now t key e =
    if is_stale now e
    then record t { entries = delete t.entries key; by_inner = drop_inner t.by_inner e key }
    else t

-- The loop of `expire` runs over a copy of the entries.
unfoldable pub expire_all : ℕ → NatTable → Dict NatKey NatEntry → NatTable
expire_all now t [] = t
expire_all now t ((key, e) ∷ rest) = expire_all now (expire_one now t key e) rest

unfoldable pub expire : NatTable → ℕ → NatTable
expire t now = expire_all now t t.entries

abbrev pub type_eq : NatType → NatType → Bool
type_eq full_cone full_cone = true
type_eq restricted restricted = true
type_eq port_restricted port_restricted = true
type_eq symmetric symmetric = true
type_eq _ _ = false

-- Returns the number of mappings that stay.
unfoldable pub set_type : NatTable → NatType → ℕ × NatTable
set_type t kind =
    if type_eq kind t.kind then (0, t) else (length t.entries, record t { kind = kind })
