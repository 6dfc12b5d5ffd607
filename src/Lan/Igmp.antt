-- ===== src/Lan/Igmp.antt =====
-- src/core/nodes/igmp.ts: IGMP snooping. The key "vlan:group" of a group is the pair of its parts.
use net_sim.Prelude.{
  nat_eq, ℕ, ◌≡◌, ◌↔◌, Bool, true, false, not, ◌&&◌, ◌||◌, Option, none, some, List, [], ◌∷◌, arith,
  Text, codes, text_eq, text_eq_iff, leb, ltb, ◌+◌, ◌-◌, ◌/◌, ◌%◌, ◌++◌, ◌==◌, if◌then◌else◌, Eq,
  Dict, get, put, delete, add, remove, keep, map,
}
use net_sim.Addr.{Ip, Mac, dot, split, is_number, number_from}
use net_sim.Packet.{EthernetFrame, ipv4, Ipv4Packet, igmp, IgmpType, report, leave, query}

pub record GroupKey : Type 0 where
  pub vlan : ℕ
  pub group : Ip

unfoldable pub group_key_eq : GroupKey → GroupKey → Bool
group_key_eq a b = a.vlan == b.vlan && text_eq a.group b.group

pub group_key_eq_iff : (a b : GroupKey) → (group_key_eq a b ≡ true) ↔ (a ≡ b)
unfolding group_key_eq
group_key_eq_iff a b = ground (arith, text_eq_iff a.group b.group)

instance abbrev pub group_key : Eq GroupKey
group_key = record { beq = group_key_eq; beq_iff = group_key_eq_iff }

pub record IgmpSnoop : Type 0 where
  pub enabled : Bool
  pub groups : Dict GroupKey (List ℕ)

unfoldable pub set_enabled : IgmpSnoop → Bool → IgmpSnoop
set_enabled s on =
    if (on && s.enabled) || (not on && not s.enabled)
    then s
    else record { enabled = on; groups = [] }

-- `Number` of the first part, which is digits in the addresses that the program builds.
unfoldable pub is_mcast_ip : Ip → Bool
is_mcast_ip ip = elim (split dot ip) [
  | [] ↦ false
  | a ∷ rest ↦ is_number a && leb 224 (number_from 0 a) && leb (number_from 0 a) 239
]

-- `startsWith`
unfoldable pub starts_with : Text → Text → Bool
starts_with s [] = true
starts_with [] (d ∷ t) = false
starts_with (c ∷ s) (d ∷ t) = c == d && starts_with s t

unfoldable pub is_link_local_mcast : Ip → Bool
is_link_local_mcast ip = starts_with ip (codes "224.0.0.")

abbrev pub ports_of : Dict GroupKey (List ℕ) → GroupKey → List ℕ
ports_of groups key = elim (get groups key) [ none ↦ [] | some ports ↦ ports ]

abbrev pub is_empty : List ℕ → Bool
is_empty [] = true
is_empty (p ∷ ps) = false

-- a group without ports is forgotten
unfoldable pub store_ports : Dict GroupKey (List ℕ) → GroupKey → List ℕ → Dict GroupKey (List ℕ)
store_ports groups key ports = if is_empty ports then delete groups key else put groups key ports

-- what a membership message teaches
unfoldable pub learn : Dict GroupKey (List ℕ) → GroupKey → ℕ → IgmpType → Dict GroupKey (List ℕ)
learn groups key port report = put groups key (add (ports_of groups key) port)
learn groups key port leave = store_ports groups key (remove (ports_of groups key) port)
learn groups key port query = groups

-- The ports of a stream (none: flood it).
unfoldable pub route : IgmpSnoop → ℕ → ℕ → Ip → Option (List ℕ)
route s port vlan dst =
    if not (is_mcast_ip dst) || is_link_local_mcast dst
    then none
    else elim (get s.groups (record { vlan = vlan; group = dst })) [
      | none ↦ some []
      | some members ↦ some (keep (λ x. not (x == port)) members)
    ]

unfoldable pub observe_packet : IgmpSnoop → ℕ → ℕ → Ipv4Packet → Option (List ℕ) × IgmpSnoop
observe_packet s port vlan pkt = elim pkt.payload [
  | igmp ty group ↦
      (none, record s { groups = learn s.groups (record { vlan = vlan; group = group }) port ty })
  | _ ↦ (route s port vlan pkt.dst, s)
]

unfoldable pub observe : IgmpSnoop → ℕ → ℕ → EthernetFrame → Option (List ℕ) × IgmpSnoop
observe s port vlan frame =
    if s.enabled
    then elim frame.payload [ ipv4 pkt ↦ observe_packet s port vlan pkt | _ ↦ (none, s) ]
    else (none, s)

unfoldable pub without_port : ℕ → Dict GroupKey (List ℕ) → Dict GroupKey (List ℕ)
without_port port [] = []
without_port port ((key, ports) ∷ groups) =
    let rest = without_port port groups in
    if is_empty (remove ports port) then rest else (key, remove ports port) ∷ rest

unfoldable pub link_down : IgmpSnoop → ℕ → IgmpSnoop
link_down s port = record s { groups = without_port port s.groups }

abbrev hex_char : ℕ → ℕ
hex_char d = if ltb d 10 then b'0' + d else b'a' + (d - 10)

-- `toString(16).padStart(2, "0")` of a byte
abbrev hex_byte : ℕ → Text
hex_byte n = hex_char (n / 16) ∷ hex_char (n % 16) ∷ []

-- `mcastMac` of an address, which has four numbers
unfoldable pub mcast_mac : Ip → Mac
mcast_mac ip = elim (map (number_from 0) (split dot ip)) [
  | _ ∷ b ∷ c ∷ d ∷ _ ↦
      codes "01:00:5e:" ++ (hex_byte (b % 128) ++ (b':' ∷ (hex_byte c ++ (b':' ∷ hex_byte d))))
  | _ ↦ []
]

abbrev pub all_hosts_ip : Ip
all_hosts_ip = codes "224.0.0.1"

-- `query` under a packet number
unfoldable pub query_frame : Mac → ℕ → EthernetFrame
query_frame mac id = record {
  id = id;
  src = mac;
  dst = mcast_mac all_hosts_ip;
  payload = ipv4 (record {
    src = codes "0.0.0.0";
    dst = all_hosts_ip;
    ttl = 1;
    payload = igmp query (codes "0.0.0.0");
  });
  hops = none;
  vlan = none;
}
