-- ===== src/Lan/Groups.antt =====
-- Each group is in the table once.
use net_sim.Prelude.{
  nat_eq, Distinct-put, Distinct-delete, ℕ, ◌≡◌, refl, Bool, true, false, Option, none, List, [],
  ◌∷◌, arith, if◌then◌else◌, Dict, get, remove, Distinct, Bool-cases, inl, inr,
}
use net_sim.Packet.{
  EthernetFrame, FramePayload, ipv4, Ipv4Packet, IpPayload, igmp, IgmpType, report, leave, query,
}
use net_sim.Lan.Igmp.{
  GroupKey, group_key, IgmpSnoop, ports_of, is_empty, store_ports, learn, observe_packet, observe,
  without_port, link_down,
}

get-without_port-none :
    (port : ℕ) (groups : Dict GroupKey (List ℕ)) (k : GroupKey)
    → get groups k ≡ none
    → get (without_port port groups) k ≡ none
unfolding without_port get
get-without_port-none port [] k h = refl
get-without_port-none port ((key, ports) ∷ groups) k h =
    ground (arith, get-without_port-none port groups k)

without_port-Distinct :
    (port : ℕ) (groups : Dict GroupKey (List ℕ))
    → Distinct groups
    → Distinct (without_port port groups)
unfolding without_port
without_port-Distinct port [] d = tt
without_port-Distinct port ((key, ports) ∷ groups) (fresh, d) =
    elim (Bool-cases (is_empty (remove ports port))) [
      | inl gone ↦ rw gone (without_port-Distinct port groups d)
      | inr some_left ↦
          rw some_left
            (get-without_port-none port groups key fresh, without_port-Distinct port groups d)
    ]

learn-Distinct :
    (groups : Dict GroupKey (List ℕ)) (key : GroupKey) (port : ℕ) (ty : IgmpType)
    → Distinct groups
    → Distinct (learn groups key port ty)
unfolding learn store_ports
learn-Distinct groups key port report d = Distinct-put groups key _ d
learn-Distinct groups key port query d = d
learn-Distinct groups key port leave d =
    elim (Bool-cases (is_empty (remove (ports_of groups key) port))) [
      | inl gone ↦ rw gone (Distinct-delete groups key d)
      | inr some_left ↦ rw some_left (Distinct-put groups key _ d)
    ]

observe_packet-Distinct :
    (s : IgmpSnoop) (port vlan : ℕ) (pkt : Ipv4Packet) (payload : IpPayload)
    → pkt.payload ≡ payload
    → Distinct s.groups
    → Distinct (observe_packet s port vlan pkt).1.groups
unfolding observe_packet
observe_packet-Distinct s port vlan pkt (igmp ty group) e d =
    rw (e, observe_packet) (learn-Distinct s.groups _ port ty d)
observe_packet-Distinct s port vlan pkt (IpPayload.echo a b c) e d = rw (e, observe_packet) d
observe_packet-Distinct s port vlan pkt (IpPayload.error a) e d = rw (e, observe_packet) d
observe_packet-Distinct s port vlan pkt (IpPayload.udp a) e d = rw (e, observe_packet) d
observe_packet-Distinct s port vlan pkt (IpPayload.tcp a) e d = rw (e, observe_packet) d
observe_packet-Distinct s port vlan pkt (IpPayload.esp a) e d = rw (e, observe_packet) d
observe_packet-Distinct s port vlan pkt (IpPayload.vrrp a) e d = rw (e, observe_packet) d
observe_packet-Distinct s port vlan pkt (IpPayload.pfsync a) e d = rw (e, observe_packet) d

pick :
    (b : Bool) (x y : Option (List ℕ) × IgmpSnoop)
    → Distinct x.1.groups
    → Distinct y.1.groups
    → Distinct (if b then x else y).1.groups
pick true x y dx dy = dx
pick false x y dx dy = dy

observe-Distinct_of :
    (s : IgmpSnoop) (port vlan : ℕ) (frame : EthernetFrame) (payload : FramePayload)
    → frame.payload ≡ payload
    → Distinct s.groups
    → Distinct (observe s port vlan frame).1.groups
unfolding observe
observe-Distinct_of s port vlan frame (ipv4 pkt) e d =
    rw (e, observe)
      (pick s.enabled _ _ (observe_packet-Distinct s port vlan pkt pkt.payload refl d) d)
observe-Distinct_of s port vlan frame (FramePayload.arp a) e d =
    rw (e, observe) (pick s.enabled _ _ d d)
observe-Distinct_of s port vlan frame (FramePayload.ipv6 a) e d =
    rw (e, observe) (pick s.enabled _ _ d d)
observe-Distinct_of s port vlan frame (FramePayload.bpdu a) e d =
    rw (e, observe) (pick s.enabled _ _ d d)

-- Where no group is in the table twice, none is after the snooper observes a frame, nor after a
-- link goes down.
pub observe-Distinct :
    (s : IgmpSnoop) (port vlan : ℕ) (frame : EthernetFrame)
    → Distinct s.groups
    → Distinct (observe s port vlan frame).1.groups × Distinct (link_down s port).groups
unfolding link_down
observe-Distinct s port vlan frame d = (
  observe-Distinct_of s port vlan frame frame.payload refl d,
  without_port-Distinct port s.groups d,
)
