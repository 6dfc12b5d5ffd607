-- ===== src/Firewall/Tests.antt =====
-- A stateful firewall that lets only web traffic out.
use net_sim.Prelude.{
  nat_eq, ℕ, ◌≡◌, refl, Bool, true, false, none, some, List, [], ◌∷◌, codes, text_eq, text_key,
  contains, add, remove, add_capped,
}
use net_sim.Addr.{
  Ip, split, all_digits, number_from, is_number, octet, octets_from, ip_to_int, decimal_fuel,
  decimal, mask_word, prefix_to_mask, to_lower_case, hex_digit,
}
use net_sim.Addr6.{
  trim_start, trim_end, split_pairs, hex_number, zeros, join_words, parse_halves, parse_ip6,
  is_ipv6, mask6_word, mask6, same_subnet6,
}
use net_sim.Packet.{IpPayload, IpPacket, v4}
use net_sim.Firewall.{
  allow, deny, only_out, both_ways, tcp_proto, any_proto, inbound, outbound, FirewallRule,
  FirewallConfig, new, fits_range, fits_port, matches, verdict, import_flow, remember, is_expected,
  is_established, pass, check, same_config, set_config,
}
use net_sim.Firewall.Cidr.{
  prefix_length, same_network, contains_parts, cidr_contains, valid_parts, valid_cidr,
}
use net_sim.Firewall.Keys.{
  carried4, carried6, carried, is_initiator, keyed, original_key, key_between, key_answered,
  forward_key, reverse_key,
}
use net_sim.Firewall.Flows.{
  Call, configured, checked, step, run, Small, run-Small, segment_back, replied,
}
use net_sim.Firewall.Replies.{OpensFlow, check-answer}

program : Unit {0}
unfolding text_eq contains add remove add_capped split all_digits number_from is_number octet
    octets_from ip_to_int decimal_fuel decimal mask_word prefix_to_mask to_lower_case hex_digit
    trim_start trim_end split_pairs hex_number zeros join_words parse_halves parse_ip6 is_ipv6
    mask6_word mask6 same_subnet6 prefix_length same_network contains_parts cidr_contains
    valid_parts valid_cidr carried4 carried6 carried is_initiator keyed original_key key_between
    key_answered forward_key reverse_key fits_range fits_port matches verdict import_flow remember
    is_expected is_established pass check same_config set_config step run
program = tt

abbrev web : FirewallRule
web = record {
  action = allow;
  proto = tcp_proto;
  direction = only_out;
  src = some (codes "192.168.0.0/24");
  dst = none;
  dst_port = some 80;
}

abbrev other : FirewallRule
other = record {
  action = deny;
  proto = any_proto;
  direction = both_ways;
  src = none;
  dst = none;
  dst_port = none;
}

abbrev strict : FirewallConfig
strict = record { enabled = true; default_policy = deny; stateful = true; rules = web ∷ other ∷ [] }

abbrev inside : Ip
inside = codes "192.168.0.20"

abbrev outside : Ip
outside = codes "203.0.113.5"

abbrev packet : Ip → Ip → ℕ → ℕ → Bool → Bool → IpPacket
packet a b s d syn ack = v4 (record {
  src = a;
  dst = b;
  ttl = 64;
  payload = IpPayload.tcp (record {
    src_port = s;
    dst_port = d;
    seq = 0;
    ack = 0;
    syn = syn;
    ack_flag = ack;
    fin = false;
    rst = false;
    len = 0;
    rest = 0;
  });
})

abbrev request : IpPacket
request = packet inside outside 40000 80 true false

abbrev reply : IpPacket
reply = packet outside inside 80 40000 true true

abbrev calls : List Call
calls = configured strict ∷ []

firewall_tests :
    (cidr_contains (codes " 10.0.0.0/8 ") (codes "10.1.2.3") ≡ true)
    × (cidr_contains (codes "10.0.0.0/") (codes "10.1.2.3") ≡ false)
    × (cidr_contains (codes "10.0.0.0/33") (codes "10.1.2.3") ≡ false)
    × (cidr_contains (codes "2001:db8::/32") (codes "2001:db8:1::1") ≡ true)
    × (cidr_contains (codes "2001:db8::/32") (codes "10.1.2.3") ≡ false)
    × (forward_key request ≡ codes "tcp:192.168.0.20:40000:203.0.113.5:80")
    × ((check (run new calls) request outbound).0 ≡ true)
    × ((check (run new calls) reply inbound).0 ≡ false)
    × ((check (check (run new calls) request outbound).1.0 reply inbound).0 ≡ true)
unfolding program
firewall_tests = (refl, refl, refl, refl, refl, refl, refl, refl, refl)

opens : OpensFlow (run new calls) request outbound
unfolding program
opens = record {
  on = refl;
  stateful = refl;
  allowed = refl;
  starts = refl;
  unexpected = refl;
  fresh = refl;
}

check-answer_example : (check (check (run new calls) request outbound).1.0 reply inbound).0 ≡ true
unfolding program
check-answer_example =
    check-answer calls request reply outbound inbound opens
      (replied refl refl (segment_back true false 40000 80))

run-Small_example : Small (run new (checked request outbound ∷ calls))
run-Small_example = run-Small (checked request outbound ∷ calls)
