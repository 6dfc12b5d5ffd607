-- ===== src/Lan/Switch/Tags.antt =====
-- The VLAN tags of src/core/nodes/switch.ts, said of a port's mode alone.
use mathlib.Core.Option.{some-injective}
use net_sim.Prelude.{
  ℕ, ◌≡◌, refl, sym, ap, ◌∙◌, true, Option, none, some, arith, Option-cases, inl, inr,
}
use net_sim.Packet.{EthernetFrame}
use net_sim.Lan.Switch.Table.{PortVlan, access, trunk}
use net_sim.Lan.Switch.{in_vlan, ingress, egress}

-- an access port carries its own VLAN, a trunk every one
abbrev pub Carries : PortVlan → ℕ → Type 0
Carries (access w) vlan = w ≡ vlan
Carries trunk vlan = Unit

-- the tag of a frame of a VLAN on a cable of a port
abbrev pub tag_of : PortVlan → ℕ → Option ℕ
tag_of (access w) vlan = none
tag_of trunk vlan = some vlan

pub in_vlan-Carries : (mode : PortVlan) (vlan : ℕ) → in_vlan mode vlan ≡ true → Carries mode vlan
in_vlan-Carries (access w) vlan e = ground (arith, e)
in_vlan-Carries trunk vlan e = tt

abbrev untagged : EthernetFrame → EthernetFrame
untagged frame = record frame { vlan = none }

-- A frame that a port takes in has the tag of its VLAN there, and loses it.
pub ingress-tag_of :
    (mode : PortVlan) (frame inner : EthernetFrame) (vlan : ℕ)
    → ingress mode frame ≡ some (vlan, inner)
    → Carries mode vlan × ((frame.vlan ≡ tag_of mode vlan) × (inner ≡ record frame { vlan = none }))
unfolding ingress
ingress-tag_of (access v) frame inner vlan h = elim (Option-cases frame.vlan) [
  | inl e ↦
      let same = some-injective (v, frame) (vlan, inner) (sym (rw e refl) ∙ h) in
      (
        ap (λ (r : ℕ × EthernetFrame). r.0) same,
        (e, sym (ap (λ (r : ℕ × EthernetFrame). r.1) same) ∙ (λ i. record frame { vlan = e i })),
      )
  | inr (w, e) ↦ absurd (ground (arith, e, h))
]
ingress-tag_of trunk frame inner vlan h = elim (Option-cases frame.vlan) [
  | inl e ↦ absurd (ground (arith, e, h))
  | inr (w, e) ↦
      let same = some-injective (w, untagged frame) (vlan, inner) (sym (rw e refl) ∙ h) in
      (
        tt,
        (
          e ∙ ap (λ (r : ℕ × EthernetFrame). some r.0) same,
          sym (ap (λ (r : ℕ × EthernetFrame). r.1) same),
        ),
      )
]

-- A frame without a tag leaves with the tag of its VLAN on the port's cable.
pub egress-tag_of :
    (mode : PortVlan) (vlan : ℕ) (frame : EthernetFrame)
    → egress mode vlan (record frame { vlan = none }) ≡ record frame { vlan = tag_of mode vlan }
unfolding egress
egress-tag_of (access w) vlan frame = refl
egress-tag_of trunk vlan frame = refl
