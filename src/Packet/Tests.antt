-- ===== src/Packet/Tests.antt =====
-- `icmpErrorFor` on concrete packets.
use net_sim.Prelude.{◌≡◌, refl, none, some, codes, text_eq}
use net_sim.Addr.{Ip}
use net_sim.Packet.{
  Ipv4Packet, IpPayload, time_exceeded, ports_l4, Transport, quotable, icmp_error_for,
  starts_multicast, limited_broadcast_ip,
}
use net_sim.Packet.Errors.{icmp_error_for_final}

abbrev host : Ip
host = codes "10.0.0.5"

abbrev router : Ip
router = codes "10.0.0.1"

abbrev lost : Ip → Ipv4Packet
lost dst = record {
  src = host;
  dst = dst;
  ttl = 1;
  payload = IpPayload.udp (record { src_port = 9; dst_port = 53; body = 0 });
}

abbrev notice : Ipv4Packet
notice = record {
  src = router;
  dst = host;
  ttl = 64;
  payload = IpPayload.error (record {
    kind = time_exceeded;
    original = record { src = host; dst = codes "8.8.8.8"; l4 = ports_l4 Transport.udp 9 53 };
  });
}

icmp_error_for_tests :
    (icmp_error_for router (lost (codes "8.8.8.8")) time_exceeded ≡ some notice)
    × (icmp_error_for router (lost limited_broadcast_ip) time_exceeded ≡ none)
    × (icmp_error_for router (lost (codes "224.0.0.9")) time_exceeded ≡ none)
unfolding icmp_error_for quotable starts_multicast text_eq
icmp_error_for_tests = (refl, refl, refl)

icmp_error_for_final_example :
    (notice.src ≡ router) × (notice.dst ≡ host) × (icmp_error_for host notice time_exceeded ≡ none)
unfolding icmp_error_for quotable starts_multicast text_eq
icmp_error_for_final_example =
    icmp_error_for_final router host (lost (codes "8.8.8.8")) notice time_exceeded time_exceeded
      refl
