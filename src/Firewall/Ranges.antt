-- ===== src/Firewall/Ranges.antt =====
-- Ranges of addresses in the rules of src/core/nodes/firewall.ts.
use net_sim.Prelude.{ℕ, ◌≡◌, true, List, [], ◌∷◌, Text, arith, is_some, Option-cases, inl, inr}
use net_sim.Addr.{Ip, ip_to_int}
use net_sim.Firewall.Cidr.{
  prefix_length, same_network, contains_parts, cidr_contains, valid_parts, valid_cidr,
}

same_network-parses :
    (base ip : Ip) (p : ℕ) → same_network base ip p ≡ true → is_some (ip_to_int base) ≡ true
unfolding same_network
same_network-parses base ip p h = ground arith

contains_parts-valid :
    (parts : List Text) (ip : Ip) → contains_parts parts ip ≡ true → valid_parts parts ≡ true
unfolding contains_parts valid_parts
contains_parts-valid [] ip h = absurd (cc (h))
contains_parts-valid ([] ∷ rest) ip h = absurd (cc (h))
contains_parts-valid ((c ∷ s) ∷ rest) ip h = elim (Option-cases (prefix_length 32 rest)) [
  | inl bad ↦ ground (arith, bad)
  | inr (p, e) ↦ ground (arith, e, same_network-parses (c ∷ s) ip p)
]

-- A range that contains any address at all is one that the check of the settings calls valid.
pub cidr_contains-valid :
    (cidr : Text) (ip : Ip) → cidr_contains cidr ip ≡ true → valid_cidr cidr ≡ true
unfolding cidr_contains valid_cidr
cidr_contains-valid cidr ip h = contains_parts-valid _ ip h
