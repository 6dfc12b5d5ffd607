-- ===== src/Firewall/Cidr.antt =====
-- Ranges of addresses in src/core/nodes/firewall.ts: `cidrContains` and `validCidr`.
use Prim.Native.Nat.{bit_and}
use net_sim.Prelude.{
  nat_eq, ℕ, Bool, false, ◌&&◌, Option, none, some, List, [], ◌∷◌, Text, text_key, ltb, ◌==◌,
  if◌then◌else◌, is_some,
}
use net_sim.Addr.{Ip, split, all_digits, number_from, ip_to_int, prefix_to_mask}
use net_sim.Addr6.{trim, is_ipv6, same_subnet6}

-- `Number` of the text after the slash, where it is a whole number: blank text is 0, and numerals
-- other than digits (signs, fractions, exponents, other bases) count as none
abbrev pub whole_number : Text → Option ℕ
whole_number s = elim (trim s) [
  | [] ↦ some 0
  | c ∷ t ↦ if all_digits (c ∷ t) then some (number_from 0 (c ∷ t)) else none
]

-- the prefix length, at most `top`, which it is where none is written
unfoldable pub prefix_length : ℕ → List Text → Option ℕ
prefix_length top [] = some top
prefix_length top ([] ∷ rest) = none
prefix_length top ((c ∷ s) ∷ rest) = elim (whole_number (c ∷ s)) [
  | none ↦ none
  | some n ↦ if ltb top n then none else some n
]

-- the masked words of two IPv4 addresses are the same, and both parse
unfoldable pub same_network : Ip → Ip → ℕ → Bool
same_network base ip prefix = elim (prefix_to_mask prefix) [
  | none ↦ false
  | some m ↦ elim (ip_to_int base) [
    | none ↦ false
    | some x ↦ elim (ip_to_int ip) [ none ↦ false | some y ↦ bit_and x m == bit_and y m ]
  ]
]

-- the parts of a range: what is before the first slash, and the rest
unfoldable pub contains_parts : List Text → Ip → Bool
contains_parts [] ip = false
contains_parts ([] ∷ rest) ip = false
contains_parts ((c ∷ s) ∷ rest) ip =
    if is_ipv6 (c ∷ s)
    then elim (prefix_length 128 rest) [
      | none ↦ false
      | some p ↦ is_ipv6 ip && same_subnet6 (c ∷ s) ip p
    ]
    else elim (prefix_length 32 rest) [ none ↦ false | some p ↦ same_network (c ∷ s) ip p ]

unfoldable pub cidr_contains : Text → Ip → Bool
cidr_contains cidr ip = contains_parts (split b'/' (trim cidr)) ip

unfoldable pub valid_parts : List Text → Bool
valid_parts [] = false
valid_parts ([] ∷ rest) = false
valid_parts ((c ∷ s) ∷ rest) =
    if is_ipv6 (c ∷ s)
    then is_some (prefix_length 128 rest)
    else is_some (prefix_length 32 rest) && is_some (ip_to_int (c ∷ s))

unfoldable pub valid_cidr : Text → Bool
valid_cidr cidr = valid_parts (split b'/' (trim cidr))
