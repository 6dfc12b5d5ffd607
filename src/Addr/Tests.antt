-- ===== src/Addr/Tests.antt =====
-- Addresses, subnets and the private ranges on concrete texts.
use net_sim.Prelude.{
  ℕ, ◌+◌, ◌^◌, ◌-◌, ◌≤◌, ◌≡◌, ◌↔◌, refl, none, some, true, false, codes, arith, text_eq,
}
use net_sim.Addr.{
  Ip, split, all_digits, number_from, is_number, octet, octets_from, ip_to_int, decimal_fuel,
  decimal, int_to_ip, mask_word, prefix_to_mask, network_of, broadcast_of, same_subnet,
  is_private_word, is_private_ip,
}
use net_sim.Addr.Decimal.{ip_to_int-int_to_ip}
use net_sim.Addr.Subnet.{subnet_range}
use net_sim.Addr.Private.{is_private_ip_iff, cidrs, Within}

program : Unit {0}
unfolding split all_digits number_from is_number octet octets_from ip_to_int decimal_fuel decimal
    int_to_ip mask_word prefix_to_mask network_of broadcast_of same_subnet is_private_word
    is_private_ip text_eq
program = tt

abbrev host : Ip
host = codes "192.168.1.77"

abbrev neighbour : Ip
neighbour = codes "192.168.1.9"

abbrev host_word : ℕ
host_word = 3232235853

abbrev neighbour_word : ℕ
neighbour_word = 3232235785

addr_tests :
    (ip_to_int host ≡ some host_word)
    × (ip_to_int (codes "1.2.3") ≡ none)
    × (ip_to_int (codes "1.2.3.256") ≡ none)
    × (int_to_ip host_word ≡ host)
    × (network_of host 26 ≡ some (codes "192.168.1.64"))
    × (broadcast_of host 26 ≡ some (codes "192.168.1.127"))
    × (network_of host 0 ≡ some (codes "0.0.0.0"))
    × (network_of host 33 ≡ none)
    × (same_subnet host neighbour 26 ≡ some false)
    × (same_subnet host neighbour 24 ≡ some true)
    × (is_private_ip (codes "100.127.0.1") ≡ some true)
    × (is_private_ip (codes "100.128.0.1") ≡ some false)
unfolding program
addr_tests = (refl, refl, refl, refl, refl, refl, refl, refl, refl, refl, refl, refl)

ip_to_int-int_to_ip_example : ip_to_int (int_to_ip host_word) ≡ some host_word
ip_to_int-int_to_ip_example = ip_to_int-int_to_ip host_word (omega arith)

subnet_range_example :
    (lo : Ip) × (hi : Ip) × (l : ℕ) × (u : ℕ) × (network_of host 24 ≡ some lo)
    × (broadcast_of host 24 ≡ some hi)
    × (ip_to_int lo ≡ some l)
    × (ip_to_int hi ≡ some u)
    × (u + 1 ≡ l + 2 ^ (32 - 24))
    × ((same_subnet host neighbour 24 ≡ some true) ↔ ((l ≤ neighbour_word) × (neighbour_word ≤ u)))
unfolding program
subnet_range_example =
    subnet_range 24 (omega arith) host neighbour host_word neighbour_word refl refl

is_private_ip_iff_example : (is_private_ip host ≡ some true) ↔ Within host cidrs
unfolding program
is_private_ip_iff_example = is_private_ip_iff host host_word refl
