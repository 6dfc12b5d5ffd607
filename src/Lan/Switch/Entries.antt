-- ===== src/Lan/Switch/Entries.antt =====
-- The table holds only addresses behind ports of their VLAN, whatever the calls.
use net_sim.Prelude.{
  nat_eq, ℕ, suc, ◌≡◌, refl, Bool, true, false, some, List, any, arith, if◌then◌else◌, All-put,
  Bool-cases, Option-cases, inl, inr, nat_eq,
}
use net_sim.Packet.{EthernetFrame}
use net_sim.Lan.Loop.{guard_loop, hops_of}
use net_sim.Lan.Stp.Root.{Stp, Effect, forwarding}
use net_sim.Lan.Switch.Table.{PortVlan, access, trunk, MacKey, mac_key, MacEntry}
use net_sim.Lan.Switch.{
  Switch, Context, vlan_of, in_vlan, ingress, learn_source, deliver, deliver_group, receive_frame,
  with_stp, is_topology_change, scope_of,
}
use net_sim.Addr.{is_broadcast_mac, is_multicast_mac}
use net_sim.Lan.Switch.Isolation.{Tidy}

abbrev pub counted : EthernetFrame → EthernetFrame
counted frame = record frame { hops = some (suc (hops_of frame)) }

-- an entry of the table, in the VLANs of `s`
abbrev pub Placed : Switch → MacKey × MacEntry → Type 0
Placed s x = in_vlan (vlan_of s x.1.port) x.0.vlan ≡ true

module _ (s : Switch) (ctx : Context) (port vlan : ℕ) (frame : EthernetFrame) where
  pub learn_source-frame :
      ((learn_source s ctx port vlan frame).port_vlan ≡ s.port_vlan)
      × ((learn_source s ctx port vlan frame).stp ≡ s.stp)
  unfolding learn_source
  learn_source-frame = ground arith

  if-Tidy : (b : Bool) (x y : Switch) → Tidy x → Tidy y → Tidy (if b then x else y)
  if-Tidy true x y tx ty = tx
  if-Tidy false x y tx ty = ty

  pub learn_source-Tidy :
      in_vlan (vlan_of s port) vlan ≡ true → Tidy s → Tidy (learn_source s ctx port vlan frame)
  unfolding learn_source vlan_of
  learn_source-Tidy p tidy =
      if-Tidy _ _ s
        (All-put (Placed s) s.mac_table (record { vlan = vlan; mac = frame.src })
          (record { port = port; vlan = vlan; learned_at = ctx.now }) p tidy)
        tidy

  deliver-Tidy : Tidy s → Tidy (deliver s ctx port vlan frame).switch
  unfolding deliver deliver_group
  deliver-Tidy tidy = elim (Bool-cases (is_broadcast_mac frame.dst)) [
    | inl everyone ↦ rw everyone tidy
    | inr other ↦ elim (Bool-cases (is_multicast_mac frame.dst)) [
      | inl group ↦ rw (other, group) (unfold vlan_of in tidy)
      | inr one ↦ rw (other, one) tidy
    ]
  ]

pub ingress-in_vlan :
    (mode : PortVlan) (frame inner : EthernetFrame) (vlan : ℕ)
    → ingress mode frame ≡ some (vlan, inner)
    → in_vlan mode vlan ≡ true
unfolding ingress
ingress-in_vlan (access v) frame inner vlan h = ground arith
ingress-in_vlan trunk frame inner vlan h = refl

pub with_stp-Tidy : (s : Switch) (r : Stp × List Effect) → Tidy s → Tidy (with_stp s r).switch
unfolding with_stp
with_stp-Tidy s r tidy = elim (Bool-cases (any is_topology_change r.1)) [
  | inl cleared ↦ rw cleared tt
  | inr same ↦ rw same (unfold vlan_of in tidy)
]

pub receive_frame-Tidy :
    (s : Switch) (ctx : Context) (port : ℕ) (frame : EthernetFrame)
    → Tidy s
    → Tidy (receive_frame s ctx port frame).switch
unfolding receive_frame
receive_frame-Tidy s ctx port frame tidy = elim (Bool-cases (forwarding s.stp port)) [
  | inr blocked ↦ rw blocked tidy
  | inl open_now ↦
      let mode = vlan_of s port in
      let guarded = guard_loop s.seen port frame (some (scope_of mode frame)) in
      let s1 = record s { seen = guarded.1 } in
      let tidy1 : Tidy s1 = unfold vlan_of in tidy in
      elim (Bool-cases guarded.0) [
        | inr looped ↦ rw (open_now, looped) tidy1
        | inl ok ↦ elim (Option-cases (ingress mode (counted frame))) [
          | inl dropped ↦ rw (open_now, ok, dropped, receive_frame) tidy1
          | inr ((vlan, inner), came) ↦
              rw (open_now, ok, came, receive_frame)
                (deliver-Tidy (learn_source s1 ctx port vlan inner) ctx port vlan inner (
                  learn_source-Tidy s1 ctx port vlan inner
                    (unfold vlan_of in ingress-in_vlan mode (counted frame) inner vlan came) tidy1))
        ]
      ]
]
