-- ===== src/Lan/Tests.antt =====
-- A hub of four ports and a group of an IPTV stream.
use net_sim.Prelude.{
  nat_eq, ℕ, ◌≡◌, refl, Bool, true, false, not, ◌&&◌, none, some, List, [], ◌∷◌, codes, text_eq,
  ltb, ◌==◌, if◌then◌else◌, get, put, delete, drop_oldest, contains, add, remove, Distinct,
}
use net_sim.Addr.{Ip, split, is_number, all_digits, number_from}
use net_sim.Packet.{EthernetFrame, arp, ipv4, Ipv4Packet, IpPayload, igmp, report, leave}
use net_sim.Lan.Loop.{scope_eq, seen_key_eq, guard_loop, is_fresh}
use net_sim.Lan.Hub.{Hub, hop, repeat_ports, receive}
use net_sim.Lan.Igmp.{
  GroupKey, group_key, group_key_eq, IgmpSnoop, is_mcast_ip, starts_with, is_link_local_mcast,
  store_ports, learn, route, observe_packet, observe, without_port, link_down, set_enabled,
}
use net_sim.Lan.Repeating.{receive_exact, receive_once}
use net_sim.Lan.Members.{is_member, after, observe_message, observe_stream}

program : Unit {0}
unfolding text_eq get put delete drop_oldest contains add remove split is_number all_digits
    number_from scope_eq seen_key_eq guard_loop repeat_ports receive group_key_eq is_mcast_ip
    starts_with is_link_local_mcast store_ports learn route observe_packet observe without_port
    link_down set_enabled
program = tt

abbrev plugged : ℕ → Bool
plugged p = not (p == 2)

abbrev hub : Hub
hub = record { port_count = 4; seen = [] }

abbrev shout : EthernetFrame
shout = record {
  id = 7;
  src = codes "02:00:00:00:00:01";
  dst = codes "ff:ff:ff:ff:ff:ff";
  payload = arp 0;
  hops = none;
  vlan = none;
}

abbrev tired : EthernetFrame
tired = record shout { hops = some 16 }

receive_tests :
    ((receive plugged hub 0 shout).0 ≡ (1, hop shout) ∷ (3, hop shout) ∷ [])
    × ((receive plugged hub 0 tired).0 ≡ [])
    × ((receive plugged (receive plugged hub 0 shout).1 3 (hop shout)).0 ≡ [])
unfolding program
receive_tests = (refl, refl, refl)

receive_exact_example :
    Distinct (receive plugged hub 0 shout).0
    × (get (receive plugged hub 0 shout).0 3 ≡ (
        if is_fresh hub.seen shout none && ltb 3 4 && not (3 == 0) && plugged 3
        then some (hop shout)
        else none))
receive_exact_example = receive_exact plugged hub 0 shout 3

receive_once_example : (receive plugged (receive plugged hub 0 shout).1 3 (hop shout)).0 ≡ []
unfolding program
receive_once_example = receive_once plugged hub 0 3 shout (hop shout) refl refl

abbrev group : Ip
group = codes "239.1.1.1"

abbrev key : GroupKey
key = record { vlan = 1; group = group }

abbrev snoop : IgmpSnoop
snoop = record { enabled = true; groups = (key, 2 ∷ 3 ∷ []) ∷ [] }

abbrev packet : IpPayload → Ipv4Packet
packet payload = record { src = codes "10.0.0.9"; dst = group; ttl = 8; payload = payload }

abbrev carrying : IpPayload → EthernetFrame
carrying payload = record shout { payload = ipv4 (packet payload) }

abbrev stream : IpPayload
stream = IpPayload.udp (record { src_port = 5004; dst_port = 5004; body = 1 })

igmp_tests :
    ((observe snoop 3 1 (carrying stream)).0 ≡ some (2 ∷ []))
    × ((observe snoop 3 2 (carrying stream)).0 ≡ some [])
    × ((observe snoop 0 1 (carrying (igmp report group))).1.groups ≡ (key, 2 ∷ 3 ∷ 0 ∷ []) ∷ [])
    × ((link_down (link_down snoop 2) 3).groups ≡ [])
    × ((set_enabled snoop false).groups ≡ [])
unfolding program
igmp_tests = (refl, refl, refl, refl, refl)

observe_message_example :
    ((observe snoop 2 1 (carrying (igmp leave group))).0 ≡ none)
    × (is_member (observe snoop 2 1 (carrying (igmp leave group))).1 key 2
        ≡ after leave (group_key_eq key key && 2 == 2) (is_member snoop key 2))
observe_message_example =
    observe_message snoop 2 1 (carrying (igmp leave group)) (packet (igmp leave group)) leave group
      key 2 refl refl refl

observe_stream_example :
    (out : List ℕ) × (observe snoop 3 1 (carrying stream) ≡ (some out, snoop))
    × ((p : ℕ) → contains out p ≡ (not (p == 3) && is_member snoop key p))
unfolding program
observe_stream_example =
    observe_stream snoop 3 1 (carrying stream) (packet stream) refl refl refl refl refl
