-- ===== src/Addr6/Tests.antt =====
-- IPv6 addresses on concrete texts.
use net_sim.Addr6.Prefix.{same_subnet6_iff}
use net_sim.Prelude.{◌/◌, ◌^◌, ◌-◌, ◌↔◌, arith, ◌≡◌, refl, true, none, some, codes, contains}
use net_sim.Addr.{split, to_lower_case, hex_digit}
use net_sim.Addr6.{
  trim_start, trim_end, split_pairs, hex_number, zeros, join_words, parse_halves, parse_ip6,
  hex_fuel, hex, words_of, leading_zeros, best_run, join, format_words, format_ip6, canon_ip6,
  is_ipv6, mask6_word, mask6, network6, same_subnet6, solicited_node, is_link_local6,
}

program : Unit {0}
unfolding split to_lower_case hex_digit contains trim_start trim_end split_pairs hex_number zeros
    join_words parse_halves parse_ip6 hex_fuel hex words_of leading_zeros best_run join format_words
    format_ip6 canon_ip6 is_ipv6 mask6_word mask6 network6 same_subnet6 solicited_node
    is_link_local6
program = tt

addr6_tests :
    (parse_ip6 (codes " ::1 ") ≡ some 1)
    × (parse_ip6 (codes "1:2:3:4:5:6:7") ≡ none)
    × (parse_ip6 (codes ":::") ≡ none)
    × (parse_ip6 (codes "1::2::3") ≡ none)
    × (parse_ip6 (codes "12345::") ≡ none)
    × (canon_ip6 (codes "2001:DB8:0:0:1:0:0:0") ≡ some (codes "2001:db8:0:0:1::"))
    × (canon_ip6 (codes "0:0:0:0:0:0:0:0") ≡ some (codes "::"))
    × (canon_ip6 (codes "1:0:2:0:3:0:4:0") ≡ some (codes "1:0:2:0:3:0:4:0"))
    × (network6 (codes "2001:db8:1::10") 64 ≡ some (codes "2001:db8:1::"))
    × (same_subnet6 (codes "fe80::1") (codes "fe80::2") 64 ≡ true)
    × (solicited_node (codes "2001:db8::12:3456") ≡ some (codes "ff02::1:ff12:3456"))
unfolding program
addr6_tests = (refl, refl, refl, refl, refl, refl, refl, refl, refl, refl, refl)

same_subnet6_iff_example :
    (same_subnet6 (codes "::1:2") (codes "::1:3") 112 ≡ true)
    ↔ (65538 / 2 ^ (128 - 112) ≡ 65539 / 2 ^ (128 - 112))
unfolding program
same_subnet6_iff_example =
    same_subnet6_iff 112 (omega arith) (codes "::1:2") (codes "::1:3") 65538 65539 refl refl
