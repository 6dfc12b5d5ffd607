-- ===== src/Lan/Switch/Learning.antt =====
-- A learned address is sent to directly.
use net_sim.Prelude.{
  ℕ, ◌≡◌, refl, ap, ◌∙◌, true, false, some, [], ◌∷◌, arith, text_eq, text_eq_iff, ◌==◌, Dict,
  nat_eq, get, get-put, Bool-cases, Option-cases, inl, inr,
}
use net_sim.Addr.{is_broadcast_mac, is_multicast_mac}
use net_sim.Packet.{Mac, EthernetFrame}
use net_sim.Lan.Stp.Root.{Stp, forwarding}
use net_sim.Lan.Switch.Table.{PortVlan, MacKey, mac_key, mac_key_eq_iff, MacEntry}
use net_sim.Lan.Switch.{
  Switch, Context, vlan_of, egress, send_out, learn_source, forward_to, deliver_group,
  lookup_and_send, deliver, take_in,
}
use net_sim.Lan.Switch.Entries.{learn_source-frame}

abbrev pub address_key : ℕ → Mac → MacKey
address_key vlan mac = record { vlan = vlan; mac = mac }

-- The address is known behind the port.
abbrev pub Known : Switch → ℕ → Mac → ℕ → Type 0
Known s vlan mac port =
    (e : MacEntry) × (get s.mac_table (address_key vlan mac) ≡ some e) × (e.port ≡ port)

learn_source-Known :
    (s : Switch) (ctx : Context) (port vlan : ℕ) (frame : EthernetFrame)
    → ctx.connected port ≡ true
    → Known (learn_source s ctx port vlan frame) vlan frame.src port
unfolding learn_source
learn_source-Known s ctx port vlan frame up =
    elim (Option-cases (get s.mac_table (address_key vlan frame.src))) [
      | inl unknown ↦ (
        record { port = port; vlan = vlan; learned_at = ctx.now },
        ground (
          arith,
          get-put s.mac_table (address_key vlan frame.src) (address_key vlan frame.src)
              (record { port = port; vlan = vlan; learned_at = ctx.now }),
          mac_key_eq_iff (address_key vlan frame.src) (address_key vlan frame.src),
        ),
        refl,
      )
      | inr (e, found) ↦ elim (Bool-cases (e.port == port)) [
        | inl here ↦ (e, ground arith, ground arith)
        | inr moved ↦ (
          record { port = port; vlan = vlan; learned_at = ctx.now },
          ground (
            arith,
            get-put s.mac_table (address_key vlan frame.src) (address_key vlan frame.src)
                (record { port = port; vlan = vlan; learned_at = ctx.now }),
            mac_key_eq_iff (address_key vlan frame.src) (address_key vlan frame.src),
          ),
          refl,
        )
      ]
    ]

-- Learning another source does not touch the address.
learn_source-other :
    (s : Switch) (ctx : Context) (port vlan : ℕ) (frame : EthernetFrame) (mac : Mac)
    → text_eq frame.src mac ≡ false
    → get (learn_source s ctx port vlan frame).mac_table (address_key vlan mac)
      ≡ get s.mac_table (address_key vlan mac)
unfolding learn_source
learn_source-other s ctx port vlan frame mac other = ground (
  arith,
  get-put s.mac_table (address_key vlan frame.src) (address_key vlan mac)
      (record { port = port; vlan = vlan; learned_at = ctx.now }),
  mac_key_eq_iff (address_key vlan frame.src) (address_key vlan mac),
  text_eq_iff frame.src mac,
)

pub deliver-frame :
    (s : Switch) (ctx : Context) (port vlan : ℕ) (frame : EthernetFrame)
    → ((deliver s ctx port vlan frame).switch.mac_table ≡ s.mac_table)
      × ((deliver s ctx port vlan frame).switch.stp ≡ s.stp)
      × ((deliver s ctx port vlan frame).switch.port_vlan ≡ s.port_vlan)
unfolding deliver deliver_group
deliver-frame s ctx port vlan frame = ground arith

lookup_and_send-known :
    (s : Switch) (ctx : Context) (port vlan : ℕ) (frame : EthernetFrame) (e : MacEntry)
    → get s.mac_table (address_key vlan frame.dst) ≡ some e
    → forwarding s.stp e.port ≡ true
    → (e.port == port) ≡ false
    → lookup_and_send s ctx port vlan frame ≡ send_out s vlan frame e.port ∷ []
unfolding lookup_and_send forward_to
lookup_and_send-known s ctx port vlan frame e found open_now other = ground arith

deliver-unicast :
    (s : Switch) (ctx : Context) (port vlan : ℕ) (frame : EthernetFrame)
    → is_broadcast_mac frame.dst ≡ false
    → is_multicast_mac frame.dst ≡ false
    → (deliver s ctx port vlan frame).frames ≡ lookup_and_send s ctx port vlan frame
unfolding deliver
deliver-unicast s ctx port vlan frame single one = ground arith

vlan_of-frame :
    (a b : Switch) (port : ℕ) → a.port_vlan ≡ b.port_vlan → vlan_of a port ≡ vlan_of b port
unfolding vlan_of
vlan_of-frame a b port e = ap (λ (m : Dict ℕ PortVlan). vlan_of (record b { port_vlan = m }) port) e

-- After a connected port has taken a frame in, a frame of the same VLAN from another address to its
-- source, coming in by another port, goes out by that port alone, where the spanning tree lets it
-- forward and the source is the address of one host.
pub take_in-answer :
    (s : Switch) (ctx later : Context) (port back vlan : ℕ) (frame answer : EthernetFrame)
    → ctx.connected port ≡ true
    → answer.dst ≡ frame.src
    → text_eq answer.src frame.src ≡ false
    → is_broadcast_mac frame.src ≡ false
    → is_multicast_mac frame.src ≡ false
    → forwarding s.stp port ≡ true
    → (port == back) ≡ false
    → (take_in (take_in s ctx port vlan frame).switch later back vlan answer).frames
      ≡ (port, egress (vlan_of s port) vlan answer) ∷ []
take_in-answer s ctx later port back vlan frame answer up to_src other single one open_now away =
    let s1 = learn_source s ctx port vlan frame in
    let s2 = (deliver s1 ctx port vlan frame).switch in
    let s3 = learn_source s2 later back vlan answer in
    let (e, found, behind) = learn_source-Known s ctx port vlan frame up in
    let (table2, stp2, vlans2) = deliver-frame s1 ctx port vlan frame in
    let (vlans1, stp1) = learn_source-frame s ctx port vlan frame in
    let (vlans3, stp3) = learn_source-frame s2 later back vlan answer in
    let found3 : get s3.mac_table (address_key vlan answer.dst) ≡ some e =
      ap (λ m. get s3.mac_table (address_key vlan m)) to_src
      ∙ learn_source-other s2 later back vlan answer frame.src other
      ∙ ap (λ (m : Dict MacKey MacEntry). get m (address_key vlan frame.src)) table2
      ∙ found in
    let listening : forwarding s3.stp e.port ≡ true =
      ap (λ (t : Stp). forwarding t e.port) (stp3 ∙ stp2 ∙ stp1)
      ∙ ap (forwarding s.stp) behind
      ∙ open_now in
    deliver-unicast s3 later back vlan answer (ap is_broadcast_mac to_src ∙ single)
      (ap is_multicast_mac to_src ∙ one)
    ∙ lookup_and_send-known s3 later back vlan answer e found3 listening
        (ap (λ p. p == back) behind ∙ away)
    ∙ ap (λ p. send_out s3 vlan answer p ∷ []) behind
    ∙ ap (λ v. (port, egress v vlan answer) ∷ [])
        (vlan_of-frame s3 s port (vlans3 ∙ vlans2 ∙ vlans1))
