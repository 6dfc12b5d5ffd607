-- ===== src/Nat/Keys.antt =====
-- The keys of the translation table's maps, and `===` on them.
use net_sim.Prelude.{
  ℕ, ◌≡◌, ◌↔◌, Bool, true, false, ◌&&◌, Option, none, some, arith, ◌==◌, text_eq, text_eq_iff, Eq,
}
use net_sim.Addr.{Ip}

pub data NatProto : Type 0 where
  icmp tcp udp : NatProto

-- "address", or "address:port"
pub data Peer : Type 0 where
  addr : Ip → Peer
  addr_port : Ip → ℕ → Peer

-- "proto:publicId"
pub record NatKey : Type 0 where
  pub proto : NatProto
  pub public_id : ℕ

-- "proto:lanIp:innerId", and ">dest" where the mapping belongs to one peer
pub record InnerKey : Type 0 where
  pub proto : NatProto
  pub lan_ip : Ip
  pub inner_id : ℕ
  pub dest : Option Peer

-- "proto:lanIp:lanPort:peerIp:peerPort"
pub record FlowKey : Type 0 where
  pub proto : NatProto
  pub lan_ip : Ip
  pub lan_port : ℕ
  pub peer_ip : Ip
  pub peer_port : ℕ

unfoldable pub proto_eq : NatProto → NatProto → Bool
proto_eq icmp icmp = true
proto_eq tcp tcp = true
proto_eq udp udp = true
proto_eq _ _ = false

pub proto_eq_iff : (a b : NatProto) → (proto_eq a b ≡ true) ↔ (a ≡ b)
unfolding proto_eq
proto_eq_iff a b = ground arith

unfoldable pub peer_eq : Peer → Peer → Bool
peer_eq (addr a) (addr b) = text_eq a b
peer_eq (addr_port a p) (addr_port b q) = text_eq a b && p == q
peer_eq (addr a) (addr_port b q) = false
peer_eq (addr_port a p) (addr b) = false

pub peer_eq_iff : (a b : Peer) → (peer_eq a b ≡ true) ↔ (a ≡ b)
unfolding peer_eq
peer_eq_iff (addr a) (addr b) = ground (arith, text_eq_iff a b)
peer_eq_iff (addr_port a p) (addr_port b q) = ground (arith, text_eq_iff a b)
peer_eq_iff (addr a) (addr_port b q) = ground arith
peer_eq_iff (addr_port a p) (addr b) = ground arith

unfoldable pub opt_peer_eq : Option Peer → Option Peer → Bool
opt_peer_eq none none = true
opt_peer_eq (some a) (some b) = peer_eq a b
opt_peer_eq none (some b) = false
opt_peer_eq (some a) none = false

pub opt_peer_eq_iff : (a b : Option Peer) → (opt_peer_eq a b ≡ true) ↔ (a ≡ b)
unfolding opt_peer_eq
opt_peer_eq_iff none none = ground arith
opt_peer_eq_iff (some a) (some b) = ground (arith, peer_eq_iff a b)
opt_peer_eq_iff none (some b) = ground arith
opt_peer_eq_iff (some a) none = ground arith

unfoldable pub nat_key_eq : NatKey → NatKey → Bool
nat_key_eq a b = proto_eq a.proto b.proto && a.public_id == b.public_id

pub nat_key_eq_iff : (a b : NatKey) → (nat_key_eq a b ≡ true) ↔ (a ≡ b)
unfolding nat_key_eq
nat_key_eq_iff a b = ground (arith, proto_eq_iff a.proto b.proto)

unfoldable pub inner_key_eq : InnerKey → InnerKey → Bool
inner_key_eq a b =
    proto_eq a.proto b.proto
    && text_eq a.lan_ip b.lan_ip
    && a.inner_id == b.inner_id
    && opt_peer_eq a.dest b.dest

pub inner_key_eq_iff : (a b : InnerKey) → (inner_key_eq a b ≡ true) ↔ (a ≡ b)
unfolding inner_key_eq
inner_key_eq_iff a b = ground (
  arith,
  proto_eq_iff a.proto b.proto,
  text_eq_iff a.lan_ip b.lan_ip,
  opt_peer_eq_iff a.dest b.dest,
)

unfoldable pub flow_key_eq : FlowKey → FlowKey → Bool
flow_key_eq a b =
    proto_eq a.proto b.proto
    && text_eq a.lan_ip b.lan_ip
    && a.lan_port == b.lan_port
    && text_eq a.peer_ip b.peer_ip
    && a.peer_port == b.peer_port

pub flow_key_eq_iff : (a b : FlowKey) → (flow_key_eq a b ≡ true) ↔ (a ≡ b)
unfolding flow_key_eq
flow_key_eq_iff a b = ground (
  arith,
  proto_eq_iff a.proto b.proto,
  text_eq_iff a.lan_ip b.lan_ip,
  text_eq_iff a.peer_ip b.peer_ip,
)

instance abbrev pub peer_key : Eq Peer
peer_key = record { beq = peer_eq; beq_iff = peer_eq_iff }

instance abbrev pub nat_key : Eq NatKey
nat_key = record { beq = nat_key_eq; beq_iff = nat_key_eq_iff }

instance abbrev pub inner_key : Eq InnerKey
inner_key = record { beq = inner_key_eq; beq_iff = inner_key_eq_iff }

instance abbrev pub flow_key : Eq FlowKey
flow_key = record { beq = flow_key_eq; beq_iff = flow_key_eq_iff }
