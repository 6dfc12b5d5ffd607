-- ===== src/Lan/Switch/Isolation.antt =====
-- Which ports a frame leaves by.
use mathlib.Core.Path.{subst}
use net_sim.Prelude.{
  nat_eq, ℕ, ◌≡◌, refl, sym, ap, ◌∙◌, Bool, true, false, not, ◌||◌, Option, some, List, [], ◌∷◌,
  map, keep, upto, arith, ◌==◌, All, Dict, get, Bool-cases, Option-cases, inl, inr,
}
use net_sim.Addr.{Ip, is_broadcast_mac, is_multicast_mac}
use net_sim.Packet.{EthernetFrame, FramePayload, ipv4, Ipv4Packet}
use net_sim.Lan.Igmp.{
  is_mcast_ip, is_link_local_mcast, group_key, IgmpSnoop, route, observe_packet, observe,
}
use net_sim.Lan.Members.{is_message, observe_packet-stream, observe_packet-message}
use net_sim.Lan.Stp.Root.{forwarding}
use net_sim.Lan.Switch.Table.{MacKey, mac_key, mac_key_eq_iff, MacEntry}
use net_sim.Lan.Switch.{
  Switch, Context, vlan_of, in_vlan, egress, send_out, is_open, flood, forward_to, deliver_group,
  lookup_and_send, deliver,
}

-- Each learned address is behind a port of its VLAN.
abbrev pub Tidy : Switch → Type 0
Tidy s = All (λ (x : MacKey × MacEntry). in_vlan (vlan_of s x.1.port) x.0.vlan ≡ true) s.mac_table

-- A frame of the VLAN that came in by `port` may leave like this.
pub record Allowed (s : Switch) (port vlan : ℕ) (frame : EthernetFrame) (x : ℕ × EthernetFrame)
    : Type 0 where
  pub elsewhere : (x.0 == port) ≡ false
  pub unblocked : forwarding s.stp x.0 ≡ true
  pub inside : in_vlan (vlan_of s x.0) vlan ≡ true
  pub marked : x.1 ≡ egress (vlan_of s x.0) vlan frame

module _ (s : Switch) (port vlan : ℕ) (frame : EthernetFrame) where
  All-sent :
      (test : ℕ → Bool) (ps : List ℕ)
      → ((p : ℕ) → test p ≡ true → Allowed s port vlan frame (send_out s vlan frame p))
      → All (Allowed s port vlan frame) (map (send_out s vlan frame) (keep test ps))
  All-sent test [] ok = tt
  All-sent test (p ∷ ps) ok = elim (Bool-cases (test p)) [
    | inl kept ↦ rw kept (ok p kept, All-sent test ps ok)
    | inr left_out ↦ rw left_out (All-sent test ps ok)
  ]

  flood-Allowed : (ctx : Context) → All (Allowed s port vlan frame) (flood s ctx port vlan frame)
  unfolding flood is_open
  flood-Allowed ctx = All-sent _ (upto s.port_count 0) λ p h. record {
    elsewhere = ground arith;
    unblocked = ground arith;
    inside = ground arith;
    marked = refl;
  }

  members-Allowed :
      (ctx : Context) (ps : List ℕ)
      → All (λ p. (p == port) ≡ false) ps
      → All (Allowed s port vlan frame) (map (send_out s vlan frame) (keep (is_open s ctx vlan) ps))
  unfolding is_open
  members-Allowed ctx [] away = tt
  members-Allowed ctx (p ∷ ps) away = elim (Bool-cases (is_open s ctx vlan p)) [
    | inr shut ↦ rw shut (members-Allowed ctx ps away.1)
    | inl open_now ↦ rw open_now (
      record { elsewhere = away.0; unblocked = ground arith; inside = ground arith; marked = refl },
      members-Allowed ctx ps away.1,
    )
  ]

  forward_to-Allowed :
      (e : MacEntry)
      → in_vlan (vlan_of s e.port) vlan ≡ true
      → All (Allowed s port vlan frame) (forward_to s port vlan frame e)
  unfolding forward_to
  forward_to-Allowed e inside =
      elim (Bool-cases (not (forwarding s.stp e.port) || e.port == port)) [
        | inl stop ↦ rw stop tt
        | inr go ↦ rw go (
          record {
            elsewhere = ground arith;
            unblocked = ground arith;
            inside = inside;
            marked = refl;
          },
          tt,
        )
      ]

-- The snooper never names the port that a stream came from.
All-keep :
    (port : ℕ) (ps : List ℕ) → All (λ p. (p == port) ≡ false) (keep (λ x. not (x == port)) ps)
All-keep port [] = tt
All-keep port (p ∷ ps) = elim (Bool-cases (p == port)) [
  | inl same ↦ rw same (All-keep port ps)
  | inr other ↦ rw other (other, All-keep port ps)
]

route-away :
    (g : IgmpSnoop) (port vlan : ℕ) (dst : Ip) (o : Option (List ℕ))
    → route g port vlan dst ≡ o
    → (out : List ℕ) → o ≡ some out
    → All (λ p. (p == port) ≡ false) out
unfolding route
route-away g port vlan dst o e out h =
    elim (Bool-cases (not (is_mcast_ip dst) || is_link_local_mcast dst)) [
      | inl flooded ↦ absurd (ground arith)
      | inr routed ↦ elim (Option-cases (get g.groups (record { vlan = vlan; group = dst }))) [
        | inl nobody ↦
            let same : [] ≡ out = ground arith in subst (All (λ p. (p == port) ≡ false)) same tt
        | inr (ports, found) ↦
            let same : keep (λ x. not (x == port)) ports ≡ out = ground arith in
            subst (All (λ p. (p == port) ≡ false)) same (All-keep port ports)
      ]
    ]

observe_packet-away :
    (g : IgmpSnoop) (port vlan : ℕ) (pkt : Ipv4Packet) (out : List ℕ)
    → (observe_packet g port vlan pkt).0 ≡ some out
    → All (λ p. (p == port) ≡ false) out
observe_packet-away g port vlan pkt out h = elim (Bool-cases (is_message pkt.payload)) [
  | inl message ↦ absurd (cc (observe_packet-message g port vlan pkt pkt.payload refl message, h))
  | inr stream ↦ route-away g port vlan pkt.dst _ refl out (
      sym (
        ap (λ (x : Option (List ℕ) × IgmpSnoop). x.0)
          (observe_packet-stream g port vlan pkt pkt.payload refl stream))
      ∙ h)
]

observe-away :
    (g : IgmpSnoop) (port vlan : ℕ) (frame : EthernetFrame) (out : List ℕ)
    → (observe g port vlan frame).0 ≡ some out
    → All (λ p. (p == port) ≡ false) out
unfolding observe
observe-away g port vlan frame out h = by_payload frame.payload refl
  where
    by_payload :
        (payload : FramePayload) → frame.payload ≡ payload → All (λ p. (p == port) ≡ false) out
    by_payload (ipv4 pkt) e = observe_packet-away g port vlan pkt out (ground arith)
    by_payload (FramePayload.arp a) e = absurd (ground arith)
    by_payload (FramePayload.ipv6 a) e = absurd (ground arith)
    by_payload (FramePayload.bpdu a) e = absurd (ground arith)

lookup-Tidy :
    (s : Switch) (table : Dict MacKey MacEntry) (key : MacKey) (e : MacEntry)
    → All (λ (x : MacKey × MacEntry). in_vlan (vlan_of s x.1.port) x.0.vlan ≡ true) table
    → get table key ≡ some e
    → in_vlan (vlan_of s e.port) key.vlan ≡ true
unfolding get
lookup-Tidy s [] key e tidy h = absurd (cc)
lookup-Tidy s ((k, f) ∷ table) key e tidy h =
    ground (arith, tidy.0, mac_key_eq_iff k key, lookup-Tidy s table key e tidy.1)

module _ (s : Switch) (ctx : Context) (port vlan : ℕ) (frame : EthernetFrame) where
  lookup_and_send-Allowed :
      Tidy s → All (Allowed s port vlan frame) (lookup_and_send s ctx port vlan frame)
  unfolding lookup_and_send
  lookup_and_send-Allowed tidy =
      elim (Option-cases (get s.mac_table (record { vlan = vlan; mac = frame.dst }))) [
        | inl unknown ↦ rw (unknown, lookup_and_send) (flood-Allowed s port vlan frame ctx)
        | inr (e, found) ↦
            rw (found, lookup_and_send)
              (forward_to-Allowed s port vlan frame e
                (lookup-Tidy s s.mac_table (record { vlan = vlan; mac = frame.dst }) e tidy found))
      ]

  deliver_group-Allowed :
      All (Allowed s port vlan frame) (deliver_group s ctx port vlan frame).frames
  unfolding deliver_group
  deliver_group-Allowed = elim (Option-cases (observe s.igmp port vlan frame).0) [
    | inl everyone ↦ rw (everyone, deliver_group) (flood-Allowed s port vlan frame ctx)
    | inr (members, only) ↦
        rw (only, deliver_group)
          (members-Allowed s port vlan frame ctx members
            (observe-away s.igmp port vlan frame members only))
  ]

  pub deliver-Allowed :
      Tidy s → All (Allowed s port vlan frame) (deliver s ctx port vlan frame).frames
  unfolding deliver
  deliver-Allowed tidy = elim (Bool-cases (is_broadcast_mac frame.dst)) [
    | inl everyone ↦ rw everyone (flood-Allowed s port vlan frame ctx)
    | inr other ↦ elim (Bool-cases (is_multicast_mac frame.dst)) [
      | inl group ↦ rw (other, group) (deliver_group-Allowed)
      | inr one ↦ rw (other, one) (lookup_and_send-Allowed tidy)
    ]
  ]
