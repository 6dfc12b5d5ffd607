-- ===== src/Lan/Switch/Tests.antt =====
-- A switch of four ports: 0 and 1 in VLAN 10, 2 in VLAN 20, 3 a trunk.
use net_sim.Prelude.{
  nat_eq, ℕ, ◌≡◌, refl, true, Option, none, some, List, [], ◌∷◌, codes, text_eq, All, get, put,
  delete, drop_oldest, contains, add, remove, map,
}
use net_sim.Addr.{
  Ip, split, is_number, number_from, all_digits, decimal_fuel, decimal, to_lower_case,
  is_broadcast_mac, hex_digit, group_bit, is_multicast_mac, broadcast_mac,
}
use net_sim.Packet.{Mac, EthernetFrame, arp, ipv4, IpPayload, udp, igmp, report}
use net_sim.Lan.Igmp.{
  group_key_eq, set_enabled, is_mcast_ip, starts_with, is_link_local_mcast, store_ports, learn,
  route, observe_packet, observe, mcast_mac, query_frame,
}
use net_sim.Lan.Loop.{scope_eq, seen_key_eq, guard_loop}
use net_sim.Lan.Stp.Root.{forwarding}
use net_sim.Lan.Stp.Protocol
use net_sim.Lan.Stp.Protocol.{on_link}
use net_sim.Lan.Switch.Table.{PortVlan, access, trunk, vlan_eq, mac_key_eq, mac_key}
use net_sim.Lan.Switch.{
  Switch, new, Context, vlan_of, is_topology_change, with_stp, set_vlans_on, set_vlans, scope_of,
  ingress, egress, learn_source, is_open, flood, forward_to, deliver_group, lookup_and_send,
  deliver, take_in, receive_frame, receive, queries, set_igmp,
}
use net_sim.Lan.Switch
use net_sim.Lan.Switch.History.{
  Call, received, vlans, snoops, step, run, Sent, receive-Sent, run-Tidy,
}
use net_sim.Lan.Switch.Isolation.{Tidy}
use net_sim.Lan.Switch.Learning.{take_in-answer}

program : Unit {0}
unfolding text_eq get put delete drop_oldest contains add remove decimal_fuel decimal to_lower_case
    is_broadcast_mac hex_digit group_bit is_multicast_mac scope_eq seen_key_eq guard_loop forwarding
    Protocol.on_link vlan_eq mac_key_eq vlan_of is_topology_change with_stp set_vlans_on set_vlans
    scope_of ingress egress learn_source is_open flood forward_to deliver_group lookup_and_send
    deliver receive_frame receive Switch.on_link step run queries set_igmp group_key_eq set_enabled
    is_mcast_ip starts_with is_link_local_mcast store_ports learn route observe_packet observe
    mcast_mac query_frame split is_number number_from all_digits
program = tt

abbrev ctx : Context
ctx = record { connected = λ p. true; now = 7 }

abbrev modes : List (ℕ × PortVlan)
modes = (0, access 10) ∷ (1, access 10) ∷ (2, access 20) ∷ (3, trunk) ∷ []

abbrev alice : Mac
alice = codes "02:00:00:00:00:01"

abbrev bob : Mac
bob = codes "02:00:00:00:00:02"

abbrev from_to : ℕ → Mac → Mac → EthernetFrame
from_to id src dst = record {
  id = id;
  src = src;
  dst = dst;
  payload = arp 0;
  hops = none;
  vlan = none;
}

abbrev calls : List Call
calls = vlans modes ∷ received ctx 0 (from_to 1 alice broadcast_mac) ∷ []

abbrev switch : Switch
switch = run (new 4) calls

abbrev ready : Switch
ready = step (new 4) (vlans modes)

abbrev hopped : EthernetFrame → EthernetFrame
hopped f = record f { hops = some 1 }

-- The broadcast reaches VLAN 10 and, tagged, the trunk; the answer reaches its asker alone.
switch_tests :
    ((receive (step (new 4) (vlans modes)) ctx 0 (from_to 1 alice broadcast_mac)).frames
      ≡ (1, hopped (from_to 1 alice broadcast_mac))
        ∷ (3, record (hopped (from_to 1 alice broadcast_mac)) { vlan = some 10 })
        ∷ [])
    × ((receive switch ctx 1 (from_to 2 bob alice)).frames ≡ (0, hopped (from_to 2 bob alice)) ∷ [])
    × ((receive switch ctx 2 (from_to 3 bob alice)).frames
        ≡ (3, record (hopped (from_to 3 bob alice)) { vlan = some 20 }) ∷ [])
    × ((receive switch ctx 3 (from_to 4 bob alice)).frames ≡ [])
    × ((receive switch ctx 1 (from_to 1 alice broadcast_mac)).frames ≡ [])
unfolding program
switch_tests = (refl, refl, refl, refl, refl)

abbrev group : Ip
group = codes "239.1.1.1"

abbrev to_group : ℕ → Mac → IpPayload → EthernetFrame
to_group id src payload = record {
  id = id;
  src = src;
  dst = codes "01:00:5e:01:01:01";
  payload = ipv4 (record { src = codes "10.0.0.1"; dst = group; ttl = 1; payload = payload });
  hops = none;
  vlan = none;
}

-- Snooping is switched on, and a host of VLAN 10 behind the trunk joins the group.
abbrev joined : List Call
joined =
    vlans modes
    ∷ snoops ctx true alice 9
    ∷ received ctx 3 (record (to_group 5 bob (igmp report group)) { vlan = some 10 })
    ∷ []

abbrev stream : EthernetFrame
stream = to_group 6 alice (udp (record { src_port = 5004; dst_port = 5004; body = 1 }))

-- Of the ports of VLAN 10, the stream reaches the member only.
snoop_tests :
    ((receive (run (new 4) joined) ctx 0 stream).frames
      ≡ (3, record (hopped stream) { vlan = some 10 }) ∷ [])
    × (map {B = ℕ × (ℕ × Option ℕ)}
          (λ (x : ℕ × EthernetFrame). (x.0, (x.1.id, x.1.vlan)))
          (set_igmp ready ctx true alice 9).frames
        ≡ (0, (9, none)) ∷ (1, (10, none)) ∷ (2, (11, none)) ∷ (3, (12, some 1)) ∷ [])
    × (mcast_mac group ≡ codes "01:00:5e:01:01:01")
unfolding program
snoop_tests = (refl, refl, refl)

receive-Sent_example :
    All (Sent (run (new 4) joined) 0 stream) (receive (run (new 4) joined) ctx 0 stream).frames
receive-Sent_example = receive-Sent 4 joined ctx 0 stream

run-Tidy_example : Tidy (run (new 4) calls)
run-Tidy_example = run-Tidy 4 calls

take_in-answer_example :
    (take_in
      (take_in ready ctx 0 10 (from_to 1 alice broadcast_mac)).switch
      ctx
      1
      10
      (from_to 2 bob alice)).frames
    ≡ (0, from_to 2 bob alice) ∷ []
unfolding program
take_in-answer_example =
    take_in-answer ready ctx ctx 0 1 10 (from_to 1 alice broadcast_mac) (from_to 2 bob alice) refl
      refl refl refl refl refl refl
