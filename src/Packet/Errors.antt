-- ===== src/Packet/Errors.antt =====
-- `icmpErrorFor`: who an ICMP error goes to, and what is never answered by one.
use net_sim.Prelude.{
  ◌≡◌, refl, sym, ap, ◌∙◌, Bool, ◌||◌, none, some, arith, text_eq, Bool-cases, Option-cases, inl,
  inr,
}
use net_sim.Addr.{Ip}
use net_sim.Packet.{
  Ipv4Packet, IpPayload, IcmpError, ErrorKind, L4, quotable, error_packet, icmp_error_for,
  starts_multicast, unspecified_ip, limited_broadcast_ip,
}

abbrev pub silent : Ipv4Packet → Bool
silent p =
    text_eq p.src unspecified_ip || text_eq p.dst limited_broadcast_ip || starts_multicast p.dst

-- The error that is sent, spelled out.
pub icmp_error_for-inv :
    (from : Ip) (dropped r : Ipv4Packet) (kind : ErrorKind)
    → icmp_error_for from dropped kind ≡ some r
    → (l4 : L4) × (quotable dropped.payload ≡ some l4) × (error_packet from dropped kind l4 ≡ r)
unfolding icmp_error_for
icmp_error_for-inv from dropped r kind h = elim (Bool-cases (silent dropped)) [
  | inl quiet ↦ absurd (ground arith)
  | inr loud ↦ elim (Option-cases (quotable dropped.payload)) [
    | inl no_quote ↦ absurd (ground arith)
    | inr (l4, quote) ↦ (l4, quote, ground arith)
  ]
]

quotable-error : (p : IcmpError) → quotable (IpPayload.error p) ≡ none
unfolding quotable
quotable-error p = refl

icmp_error_for_unquotable :
    (from : Ip) (p : Ipv4Packet) (kind : ErrorKind)
    → quotable p.payload ≡ none
    → icmp_error_for from p kind ≡ none
unfolding icmp_error_for
icmp_error_for_unquotable from p kind h = ground arith

error_packet_final :
    (from other : Ip) (dropped : Ipv4Packet) (kind again : ErrorKind) (l4 : L4)
    → icmp_error_for other (error_packet from dropped kind l4) again ≡ none
error_packet_final from other dropped kind again l4 =
    icmp_error_for_unquotable other (error_packet from dropped kind l4) again (quotable-error _)

-- An error about a packet goes from the address that dropped it back to the packet's source, and
-- no host ever answers that error by another one.
pub icmp_error_for_final :
    (from other : Ip) (dropped r : Ipv4Packet) (kind again : ErrorKind)
    → icmp_error_for from dropped kind ≡ some r
    → (r.src ≡ from) × (r.dst ≡ dropped.src) × (icmp_error_for other r again ≡ none)
icmp_error_for_final from other dropped r kind again h =
    let (l4, quote, shape) = icmp_error_for-inv from dropped r kind h in
    (
      sym (ap (λ (p : Ipv4Packet). p.src) shape),
      sym (ap (λ (p : Ipv4Packet). p.dst) shape),
      ap (λ p. icmp_error_for other p again) (sym shape)
          ∙ error_packet_final from other dropped kind again l4,
    )
