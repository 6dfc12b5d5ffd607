-- ===== src/Lan/Stp/Protocol.antt =====
-- Messages, links and the configuration.
use net_sim.Prelude.{
  nat_eq, ℕ, suc, Bool, true, false, not, ◌&&◌, Option, none, some, List, [], ◌∷◌, ◌++◌, text_eq,
  ltb, ◌==◌, if◌then◌else◌, get_elem?, upto, get, put, delete, contains, add_capped,
}
use net_sim.Packet.{Mac, BpduPacket}
use net_sim.Lan.Stp.Order.{cmp_id, cmp_vec, is_lower, is_same}
use net_sim.Lan.Stp.Root.{
  StpConfig, stp_max_age, designated, disabled, role_eq, Stp, Effect, send, topology_changed, Ports,
  me, is_root, my_vector, vector_of, schedule, recompute,
}

unfoldable pub withdrawal : Stp → ℕ → BpduPacket
withdrawal s p = record {
  root = me s;
  cost = 0;
  bridge = me s;
  port = p;
  age = suc stp_max_age;
  tc = none;
}

unfoldable pub withdraw_on : Stp → Ports → List ℕ → List Effect
withdraw_on s ports [] = []
withdraw_on s ports (p ∷ ps) =
    let rest = withdraw_on s ports ps in
    if ports.connected p then send p s.mac (withdrawal s p) ∷ rest else rest

unfoldable pub withdraw : Stp → Ports → List Effect
withdraw s ports = if s.config.enabled then withdraw_on s ports (upto ports.port_count 0) else []

unfoldable pub set_config : Stp → Ports → StpConfig → Mac → Stp × List Effect
set_config s ports cfg mac =
    if not cfg.enabled
    then (record s { config = cfg; mac = mac; heard = []; roles = [] }, withdraw s ports)
    else if s.config.enabled && cfg.priority == s.config.priority && text_eq mac s.mac
    then (s, [])
    else let s1 = record s { config = cfg; mac = mac; heard = []; roles = [] } in
      let (s2, changed, effects) = recompute s1 ports true in (s2, withdraw s ports ++ effects)

-- the BPDU that goes out on a port
unfoldable pub bpdu_on : Stp → ℕ → BpduPacket
bpdu_on s p = record {
  root = s.root;
  cost = s.root_cost;
  bridge = me s;
  port = p;
  age = if is_root s then 0 else s.age;
  tc = s.tc_out;
}

abbrev pub send_on : Stp → ℕ → Effect
send_on s p = send p s.mac (bpdu_on s p)

abbrev pub is_designated : Stp → ℕ → Bool
is_designated s p = elim (get_elem? s.roles p) [ none ↦ false | some r ↦ role_eq r designated ]

-- This bridge is the better one on the link, and tells the other.
unfoldable pub correct : Stp → ℕ → BpduPacket → List Effect
correct s p bpdu =
    if is_designated s p && is_lower (cmp_vec (my_vector s p) (vector_of bpdu))
    then send_on s p ∷ []
    else []

abbrev pub same_sender : Option BpduPacket → BpduPacket → Bool
same_sender none bpdu = false
same_sender (some prev) bpdu = is_same (cmp_id prev.bridge bpdu.bridge) && prev.port == bpdu.port

-- a change that another switch announces, and that is new here
unfoldable pub hear_change : Stp → Option ℕ → Stp × List Effect
hear_change s none = (s, [])
hear_change s (some tc) =
    if contains s.tc_seen tc
    then (s, [])
    else let (s1, timed) =
        schedule (record s { tc_seen = add_capped 64 s.tc_seen tc; tc_out = some tc }) in
      (s1, topology_changed ∷ timed)

-- the information of a port is kept against worse one from another sender
abbrev pub is_worse : Option BpduPacket → BpduPacket → Bool
is_worse none bpdu = false
is_worse (some prev) bpdu =
    not (same_sender (some prev) bpdu) && not (is_lower (cmp_vec (vector_of bpdu) (vector_of prev)))

unfoldable pub forget : Stp → Ports → ℕ → Stp × List Effect
forget s ports p =
    let (s1, changed, effects) = recompute (record s { heard = delete s.heard p }) ports false in
    (s1, effects)

unfoldable pub accept : Stp → Ports → ℕ → BpduPacket → Stp × List Effect
accept s ports p bpdu =
    let (s1, changed, effects) = recompute (record s { heard = put s.heard p bpdu }) ports false in
    (s1, effects ++ (if changed then [] else correct s1 p bpdu))

-- `handle` after the announced change
unfoldable pub hear : Stp → Ports → ℕ → BpduPacket → Stp × List Effect
hear s ports p bpdu =
    let prev = get s.heard p in
    if ltb stp_max_age bpdu.age
    then (if same_sender prev bpdu then forget s ports p else (s, []))
    else if is_worse prev bpdu
    then (s, correct s p bpdu)
    else accept s ports p bpdu

unfoldable pub handle : Stp → Ports → ℕ → BpduPacket → Stp × List Effect
handle s ports p bpdu =
    if not s.config.enabled
    then (s, [])
    else let (s1, told) = hear_change s bpdu.tc in
      let (s2, effects) = hear s1 ports p bpdu in (s2, told ++ effects)

unfoldable pub on_link : Stp → Ports → ℕ → Bool → Stp × List Effect
on_link s ports p up =
    if not s.config.enabled
    then (s, [])
    else let heard = if up then s.heard else delete s.heard p in
      let (s1, changed, effects) = recompute (record s { heard = heard }) ports up in (s1, effects)

unfoldable pub send_all : Stp → List ℕ → List Effect
send_all s [] = []
send_all s (p ∷ ps) =
    let rest = send_all s ps in
    elim (get_elem? s.roles p) [
      | none ↦ rest
      | some r ↦ if role_eq r disabled then rest else send_on s p ∷ rest
    ]

unfoldable pub on_timer : Stp → Ports → Stp × List Effect
on_timer s ports =
    let s1 = record s { send_pending = false } in
    if s.config.enabled
    then (record s1 { tc_out = none }, send_all s1 (upto ports.port_count 0))
    else (s1, [])
