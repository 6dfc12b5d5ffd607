-- ===== src/Lan/Stp/Root.antt =====
-- The state of the spanning tree, and `recompute`: the root, the root port, the roles of the ports.
use Prim.Native.Nat.{bit_xor}
use net_sim.Prelude.{
  nat_eq, ℕ, suc, ◌+◌, ◌*◌, ◌%◌, ◌^◌, Bool, true, false, not, ◌&&◌, ◌||◌, Option, none, some, List,
  [], ◌∷◌, ◌++◌, map, Text, codes, ltb, ◌==◌, if◌then◌else◌, length, get_elem?, any, keep, upto,
  Dict, get, add,
}
use net_sim.Packet.{Mac, BridgeId, BpduPacket}
use net_sim.Lan.Stp.Order.{Vector, cmp_id, cmp_vec, is_lower, is_same, is_higher}

pub record StpConfig : Type 0 where
  pub enabled : Bool
  pub priority : ℕ

abbrev pub stp_port_cost : ℕ
stp_port_cost = 4

abbrev pub stp_max_age : ℕ
stp_max_age = 20

pub data StpRole : Type 0 where
  root_port designated alternate disabled : StpRole

abbrev pub role_eq : StpRole → StpRole → Bool
role_eq root_port root_port = true
role_eq designated designated = true
role_eq alternate alternate = true
role_eq disabled disabled = true
role_eq _ _ = false

pub record Stp : Type 0 where
  pub config : StpConfig
  pub mac : Mac
  pub heard : Dict ℕ BpduPacket
  pub roles : List StpRole
  pub root : BridgeId
  pub root_cost : ℕ
  pub root_port_no : Option ℕ
  pub age : ℕ
  pub send_pending : Bool
  pub tc_out : Option ℕ
  pub tc_seen : List ℕ
  pub tc_seq : ℕ

pub data Effect : Type 0 where
  send : ℕ → Mac → BpduPacket → Effect
  topology_changed start_timer : Effect

-- what the switch tells of its ports
pub record Ports : Type 0 where
  pub port_count : ℕ
  pub connected : ℕ → Bool

abbrev pub init : Stp
init = record {
  config = record { enabled = false; priority = 32768 };
  mac = codes "00:00:00:00:00:00";
  heard = [];
  roles = [];
  root = record { prio = 32768; mac = codes "00:00:00:00:00:00" };
  root_cost = 0;
  root_port_no = none;
  age = 0;
  send_pending = false;
  tc_out = none;
  tc_seen = [];
  tc_seq = 0;
}

abbrev pub me : Stp → BridgeId
me s = record { prio = s.config.priority; mac = s.mac }

unfoldable pub is_root : Stp → Bool
is_root s = s.config.enabled && is_same (cmp_id s.root (me s))

abbrev pub is_forwarding_role : Option StpRole → Bool
is_forwarding_role (some root_port) = true
is_forwarding_role (some designated) = true
is_forwarding_role (some alternate) = false
is_forwarding_role (some disabled) = false
is_forwarding_role none = false

unfoldable pub forwarding : Stp → ℕ → Bool
forwarding s p = if s.config.enabled then is_forwarding_role (get_elem? s.roles p) else true

-- FNV-1a of the character codes, modulo 2 ^ 32
unfoldable pub hash_from : ℕ → Text → ℕ
hash_from h [] = h
hash_from h (c ∷ s) = hash_from (bit_xor h c * 0x0100_0193 % 2 ^ 32) s

unfoldable pub hash : Text → ℕ
hash s = hash_from 0x811c_9dc5 s

-- the vector that this bridge sends on a port
abbrev pub my_vector : Stp → ℕ → Vector
my_vector s p = record { root = s.root; cost = s.root_cost; bridge = me s; port = p }

-- a BPDU as a vector, and with the cost of the link
abbrev pub vector_of : BpduPacket → Vector
vector_of h = record { root = h.root; cost = h.cost; bridge = h.bridge; port = h.port }

abbrev pub key_vector : BpduPacket → Vector
key_vector h = record {
  root = h.root;
  cost = h.cost + stp_port_cost;
  bridge = h.bridge;
  port = h.port;
}

-- `best` and `bestKey` of the loop
pub record Best : Type 0 where
  pub root : BridgeId
  pub cost : ℕ
  pub via : Option ℕ
  pub age : ℕ
  pub best_key : Option Vector

unfoldable pub improves : Best → ℕ → Vector → Bool
improves b p key = elim b.best_key [
  | none ↦ true
  | some k ↦
      is_lower (cmp_vec key k)
      || (is_same (cmp_vec key k) && elim b.via [ none ↦ false | some v ↦ ltb p v ])
]

-- one round: the port `p`
unfoldable pub consider : Stp → Ports → Best → ℕ → Best
consider s ports b p = elim (get s.heard p) [
  | none ↦ b
  | some h ↦
      if not (ports.connected p) || not (is_higher (cmp_id (me s) h.root))
      then b
      else if improves b p (key_vector h)
      then record {
        root = h.root;
        cost = h.cost + stp_port_cost;
        via = some p;
        age = suc h.age;
        best_key = some (key_vector h);
      }
      else b
]

unfoldable pub consider_all : Stp → Ports → Best → List ℕ → Best
consider_all s ports b [] = b
consider_all s ports b (p ∷ ps) = consider_all s ports (consider s ports b p) ps

unfoldable pub best_root : Stp → Ports → Best
best_root s ports =
    consider_all s ports (record { root = me s; cost = 0; via = none; age = 0; best_key = none })
      (upto ports.port_count 0)

abbrev pub opt_nat_eq : Option ℕ → Option ℕ → Bool
opt_nat_eq none none = true
opt_nat_eq (some a) (some b) = a == b
opt_nat_eq none (some b) = false
opt_nat_eq (some a) none = false

unfoldable pub role_of : Stp → Ports → ℕ → StpRole
role_of s ports p =
    if not (ports.connected p)
    then disabled
    else if opt_nat_eq s.root_port_no (some p)
    then root_port
    else elim (get s.heard p) [
      | none ↦ designated
      | some h ↦ if is_lower (cmp_vec (my_vector s p) (vector_of h)) then designated else alternate
    ]

-- the port has another role than before, and is connected
unfoldable pub is_changed : List StpRole → List StpRole → ℕ → Bool
is_changed old new p = elim (get_elem? new p) [
  | none ↦ false
  | some r ↦
      not (role_eq r disabled)
      && elim (get_elem? old p) [ none ↦ true | some q ↦ not (role_eq r q) ]
]

-- the port is not connected, and forwarded before
unfoldable pub is_lost : List StpRole → List StpRole → ℕ → Bool
is_lost old new p = elim (get_elem? new p) [
  | none ↦ false
  | some r ↦ role_eq r disabled && is_forwarding_role (get_elem? old p)
]

abbrev pub was_up : List StpRole → ℕ → Bool
was_up old p = elim (get_elem? old p) [ none ↦ false | some r ↦ not (role_eq r disabled) ]

-- One message for all changes of a moment.
unfoldable pub schedule : Stp → Stp × List Effect
schedule s =
    if s.send_pending then (s, []) else (record s { send_pending = true }, start_timer ∷ [])

-- the root as it is now known
unfoldable pub elect : Stp → Ports → Stp
elect s ports =
    let best = best_root s ports in
    record s { root = best.root; root_cost = best.cost; root_port_no = best.via; age = best.age }

abbrev pub root_changed : Stp → Stp → Bool
root_changed old new =
    not (is_same (cmp_id new.root old.root))
    || not (new.root_cost == old.root_cost)
    || not (opt_nat_eq new.root_port_no old.root_port_no)

-- `topo`: the number of the change goes into the next message.
unfoldable pub announce : Stp → Stp × List Effect
announce s =
    let seq = suc s.tc_seq in
    let id = hash s.mac % 0x1_0000 * 0x1_0000 + seq % 0x1_0000 in
    (record s { tc_seq = seq; tc_seen = add s.tc_seen id; tc_out = some id }, topology_changed ∷ [])

-- The state after it, whether the root or a role changed, and the effects.
unfoldable pub recompute : Stp → Ports → Bool → Stp × Bool × List Effect
recompute s ports force =
    let s1 = elect s ports in
    let all = upto ports.port_count 0 in
    let roles = map (role_of s1 ports) all in
    let changed_ports = keep (is_changed s.roles roles) all in
    let lost = any (is_lost s.roles roles) all in
    let topo = lost || any (was_up s.roles) changed_ports in
    let s2 = record s1 { roles = roles } in
    let (s3, told) = if topo then announce s2 else (s2, []) in
    let changed = root_changed s s1 || not (length changed_ports == 0) || lost in
    let (s4, timed) = if changed || force then schedule s3 else (s3, []) in
    (s4, changed, told ++ timed)
