-- ===== src/Lan/Switch/Table.antt =====
-- The ports' VLANs and the table of MAC addresses.
use net_sim.Prelude.{ℕ, ◌≡◌, ◌↔◌, Bool, true, false, ◌&&◌, arith, text_eq, text_eq_iff, ◌==◌, Eq}
use net_sim.Packet.{Mac}

pub data PortVlan : Type 0 where
  access : ℕ → PortVlan
  trunk : PortVlan

abbrev pub default_vlan : PortVlan
default_vlan = access 1

unfoldable pub vlan_eq : PortVlan → PortVlan → Bool
vlan_eq (access v) (access w) = v == w
vlan_eq trunk trunk = true
vlan_eq (access v) trunk = false
vlan_eq trunk (access w) = false

pub record MacKey : Type 0 where
  pub vlan : ℕ
  pub mac : Mac

unfoldable pub mac_key_eq : MacKey → MacKey → Bool
mac_key_eq a b = a.vlan == b.vlan && text_eq a.mac b.mac

pub mac_key_eq_iff : (a b : MacKey) → (mac_key_eq a b ≡ true) ↔ (a ≡ b)
unfolding mac_key_eq
mac_key_eq_iff a b = ground (arith, text_eq_iff a.mac b.mac)

instance abbrev pub mac_key : Eq MacKey
mac_key = record { beq = mac_key_eq; beq_iff = mac_key_eq_iff }

pub record MacEntry : Type 0 where
  pub port : ℕ
  pub vlan : ℕ
  pub learned_at : ℕ
