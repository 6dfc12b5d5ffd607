-- ===== src/Lan/Members.antt =====
-- Which ports belong to a group, and where its stream goes.
use net_sim.Prelude.{
  nat_eq, ℕ, ◌≡◌, refl, sym, ap, ◌∙◌, Bool, true, false, not, ◌&&◌, ◌||◌, Option, none, some, List,
  [], ◌∷◌, arith, ◌==◌, if◌then◌else◌, Dict, get, put, contains, add, remove, keep, get-put,
  get-delete, contains-add, contains-remove, Distinct, Option-cases, Bool-cases, inl, inr,
}
use net_sim.Addr.{Ip}
use net_sim.Packet.{
  EthernetFrame, ipv4, Ipv4Packet, IpPayload, igmp, IgmpType, report, leave, query,
}
use net_sim.Lan.Igmp.{
  GroupKey, group_key, group_key_eq, group_key_eq_iff, IgmpSnoop, is_mcast_ip, is_link_local_mcast,
  ports_of, is_empty, store_ports, learn, route, observe_packet, observe, without_port, link_down,
}

-- the ports of a group, as a set
abbrev pub is_member : IgmpSnoop → GroupKey → ℕ → Bool
is_member s key p = contains (ports_of s.groups key) p

-- Membership after a message: `was` is what it was before.
abbrev pub after : IgmpType → Bool → Bool → Bool
after report same was = same || was
after leave same was = not same && was
after query same was = was

is_empty-nil : (ps : List ℕ) → is_empty ps ≡ true → ps ≡ []
is_empty-nil [] h = refl
is_empty-nil (p ∷ ps) h = absurd (ground arith)

module _ (groups : Dict GroupKey (List ℕ)) (key k : GroupKey) (ports : List ℕ) where
  ports_of-put :
      ports_of (put groups key ports) k ≡ (if group_key_eq key k then ports else ports_of groups k)
  ports_of-put = ground (arith, get-put groups key k ports)

  ports_of-store_ports :
      ports_of (store_ports groups key ports) k
      ≡ (if group_key_eq key k then ports else ports_of groups k)
  unfolding store_ports
  ports_of-store_ports =
      ground (arith, get-put groups key k ports, get-delete groups key k, is_empty-nil ports)

contains-learn :
    (groups : Dict GroupKey (List ℕ)) (key k : GroupKey) (port p : ℕ) (ty : IgmpType)
    → contains (ports_of (learn groups key port ty) k) p
      ≡ after ty (group_key_eq key k && port == p) (contains (ports_of groups k) p)
unfolding learn
contains-learn groups key k port p report = ground (
  arith,
  ports_of-put groups key k (add (ports_of groups key) port),
  contains-add (ports_of groups key) port p,
  group_key_eq_iff key k,
)
contains-learn groups key k port p leave = ground (
  arith,
  ports_of-store_ports groups key k (remove (ports_of groups key) port),
  contains-remove (ports_of groups key) port p,
  group_key_eq_iff key k,
)
contains-learn groups key k port p query = refl

-- Where snooping is on, a membership message is not routed, and changes the membership of its own
-- port in its own group only: a report makes the port a member, a leave ends that, a query does
-- nothing.
pub observe_message :
    (s : IgmpSnoop) (port vlan : ℕ) (frame : EthernetFrame) (pkt : Ipv4Packet) (ty : IgmpType)
    (group : Ip) (k : GroupKey) (p : ℕ)
    → s.enabled ≡ true
    → frame.payload ≡ ipv4 pkt
    → pkt.payload ≡ igmp ty group
    → ((observe s port vlan frame).0 ≡ none)
      × (is_member (observe s port vlan frame).1 k p
          ≡ after ty
              (group_key_eq (record { vlan = vlan; group = group }) k && port == p)
              (is_member s k p))
unfolding observe observe_packet
observe_message s port vlan frame pkt ty group k p on hf hp =
    rw (on, hf, hp, observe, observe_packet)
      (refl, contains-learn s.groups (record { vlan = vlan; group = group }) k port p ty)

contains-keep :
    (port : ℕ) (ports : List ℕ) (p : ℕ)
    → contains (keep (λ x. not (x == port)) ports) p ≡ (not (p == port) && contains ports p)
unfolding contains
contains-keep port [] p = ground arith
contains-keep port (q ∷ ports) p = ground (arith, contains-keep port ports p)

contains-route :
    (s : IgmpSnoop) (port vlan : ℕ) (dst : Ip) (out : List ℕ) (p : ℕ)
    → route s port vlan dst ≡ some out
    → contains out p ≡ (not (p == port) && is_member s (record { vlan = vlan; group = dst }) p)
unfolding route contains
contains-route s port vlan dst out p h =
    elim (Bool-cases (not (is_mcast_ip dst) || is_link_local_mcast dst)) [
      | inl flooded ↦ absurd (ground arith)
      | inr routed ↦ elim (Option-cases (get s.groups (record { vlan = vlan; group = dst }))) [
        | inl nobody ↦ ground arith
        | inr (ports, found) ↦ ground (arith, contains-keep port ports p)
      ]
    ]

abbrev pub is_message : IpPayload → Bool
is_message (igmp ty group) = true
is_message _ = false

pub observe_packet-stream :
    (s : IgmpSnoop) (port vlan : ℕ) (pkt : Ipv4Packet) (payload : IpPayload)
    → pkt.payload ≡ payload
    → is_message payload ≡ false
    → observe_packet s port vlan pkt ≡ (route s port vlan pkt.dst, s)
unfolding observe_packet
observe_packet-stream s port vlan pkt (igmp ty group) e h = absurd (ground arith)
observe_packet-stream s port vlan pkt (IpPayload.echo a b c) e h = rw (e, observe_packet)
observe_packet-stream s port vlan pkt (IpPayload.error a) e h = rw (e, observe_packet)
observe_packet-stream s port vlan pkt (IpPayload.udp a) e h = rw (e, observe_packet)
observe_packet-stream s port vlan pkt (IpPayload.tcp a) e h = rw (e, observe_packet)
observe_packet-stream s port vlan pkt (IpPayload.esp a) e h = rw (e, observe_packet)
observe_packet-stream s port vlan pkt (IpPayload.vrrp a) e h = rw (e, observe_packet)
observe_packet-stream s port vlan pkt (IpPayload.pfsync a) e h = rw (e, observe_packet)

pub observe_packet-message :
    (s : IgmpSnoop) (port vlan : ℕ) (pkt : Ipv4Packet) (payload : IpPayload)
    → pkt.payload ≡ payload
    → is_message payload ≡ true
    → (observe_packet s port vlan pkt).0 ≡ none
unfolding observe_packet
observe_packet-message s port vlan pkt (igmp ty group) e h = rw (e, observe_packet) refl
observe_packet-message s port vlan pkt (IpPayload.echo a b c) e h = absurd (ground arith)
observe_packet-message s port vlan pkt (IpPayload.error a) e h = absurd (ground arith)
observe_packet-message s port vlan pkt (IpPayload.udp a) e h = absurd (ground arith)
observe_packet-message s port vlan pkt (IpPayload.tcp a) e h = absurd (ground arith)
observe_packet-message s port vlan pkt (IpPayload.esp a) e h = absurd (ground arith)
observe_packet-message s port vlan pkt (IpPayload.vrrp a) e h = absurd (ground arith)
observe_packet-message s port vlan pkt (IpPayload.pfsync a) e h = absurd (ground arith)

observe-stream :
    (s : IgmpSnoop) (port vlan : ℕ) (frame : EthernetFrame) (pkt : Ipv4Packet)
    → s.enabled ≡ true
    → frame.payload ≡ ipv4 pkt
    → is_message pkt.payload ≡ false
    → observe s port vlan frame ≡ (route s port vlan pkt.dst, s)
unfolding observe
observe-stream s port vlan frame pkt on hf h =
    ground (arith, observe_packet-stream s port vlan pkt pkt.payload refl h)

route-mcast :
    (s : IgmpSnoop) (port vlan : ℕ) (dst : Ip)
    → is_mcast_ip dst ≡ true
    → is_link_local_mcast dst ≡ false
    → (out : List ℕ) × (route s port vlan dst ≡ some out)
unfolding route
route-mcast s port vlan dst mcast far =
    elim (Option-cases (get s.groups (record { vlan = vlan; group = dst }))) [
      | inl nobody ↦ ([], ground arith)
      | inr (ports, found) ↦ (keep (λ x. not (x == port)) ports, ground arith)
    ]

-- Where snooping is on, a multicast stream outside 224.0.0.0/24 goes exactly to the members of its
-- group in its VLAN, less the port that it came from, and teaches nothing.
pub observe_stream :
    (s : IgmpSnoop) (port vlan : ℕ) (frame : EthernetFrame) (pkt : Ipv4Packet)
    → s.enabled ≡ true
    → frame.payload ≡ ipv4 pkt
    → is_message pkt.payload ≡ false
    → is_mcast_ip pkt.dst ≡ true
    → is_link_local_mcast pkt.dst ≡ false
    → (out : List ℕ) × (observe s port vlan frame ≡ (some out, s))
      × ((p : ℕ)
          → contains out p
            ≡ (not (p == port) && is_member s (record { vlan = vlan; group = pkt.dst }) p))
observe_stream s port vlan frame pkt on hf h mcast far =
    let (out, routed) = route-mcast s port vlan pkt.dst mcast far in
    (
      out,
      observe-stream s port vlan frame pkt on hf h ∙ ap (λ (o : Option (List ℕ)). (o, s)) routed,
      λ p. contains-route s port vlan pkt.dst out p routed,
    )

module _ (key k : GroupKey) (ports : List ℕ) (groups : Dict GroupKey (List ℕ)) where
  ports_of-cons :
      ports_of ((key, ports) ∷ groups) k ≡ (if group_key_eq key k then ports else ports_of groups k)
  unfolding get
  ports_of-cons = ground arith

  ports_of-fresh : get groups key ≡ none → group_key_eq key k ≡ true → ports_of groups k ≡ []
  ports_of-fresh fresh same = ground (arith, group_key_eq_iff key k)

remove-nil : (port : ℕ) → remove [] port ≡ []
unfolding remove
remove-nil port = refl

get-without_port :
    (port : ℕ) (groups : Dict GroupKey (List ℕ)) (k : GroupKey)
    → Distinct groups
    → ports_of (without_port port groups) k ≡ remove (ports_of groups k) port
unfolding without_port
get-without_port port [] k d = unfold get in sym (remove-nil port)
get-without_port port ((key, ports) ∷ groups) k (fresh, d) =
    let rest = without_port port groups in
    let ih = get-without_port port groups k d in
    elim (Bool-cases (is_empty (remove ports port))) [
      | inl gone ↦
          rw (gone, ports_of-cons key k ports groups)
            (elim (Bool-cases (group_key_eq key k)) [
              | inl same ↦ rw same (
                  ih
                  ∙ ap (λ ps. remove ps port) (ports_of-fresh key k ports groups fresh same)
                  ∙ remove-nil port
                  ∙ sym (is_empty-nil (remove ports port) gone))
              | inr other ↦ rw other ih
            ])
      | inr some_left ↦
          rw
            (
              some_left,
              ports_of-cons key k ports groups,
              ports_of-cons key k (remove ports port) rest,
            )
            (elim (Bool-cases (group_key_eq key k)) [
              | inl same ↦ rw same refl
              | inr other ↦ rw other ih
            ])
    ]

-- In a table that has each group once, a link that goes down takes its port out of every group and
-- leaves the other ports as they were.
pub link_down-members :
    (s : IgmpSnoop) (port : ℕ) (k : GroupKey) (p : ℕ)
    → Distinct s.groups
    → is_member (link_down s port) k p ≡ (not (port == p) && is_member s k p)
unfolding link_down
link_down-members s port k p d =
    ap (λ ps. contains ps p) (get-without_port port s.groups k d)
    ∙ contains-remove (ports_of s.groups k) port p
