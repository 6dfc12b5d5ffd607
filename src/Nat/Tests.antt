-- ===== src/Nat/Tests.antt =====
-- The table on concrete packets: a port-restricted NAT box with a web server behind it.
use net_sim.Prelude.{
  ◌⊎◌, ℕ, suc, ◌≤◌, ◌≡◌, refl, true, false, none, some, List, [], ◌∷◌, codes, get, put, contains,
  drop_oldest, delete, text_eq, add,
}
use net_sim.Addr.{Ip}
use net_sim.Packet.{Ipv4Packet, IpPayload, error_of}
use net_sim.Nat.Keys.{
  tcp, udp, NatKey, InnerKey, nat_key, inner_key, proto_eq, peer_eq, opt_peer_eq, nat_key_eq,
  inner_key_eq, flow_key_eq, icmp,
}
use net_sim.Nat.Table.{
  NatEntry, port_restricted, PortForward, rule_for, NatTable, Imported, init, is_forwarded,
  is_taken, ceiling, ceiling_forwards, alloc_from, alloc_public_id, import_entry, forget_inner,
  forget_public, update_entry, is_free, punch, open_pinhole, close_pinhole, set_forwards, note_tcp,
  is_stale, expire_one, expire_all, expire, set_type,
}
use net_sim.Nat.Translate.{
  Flow, flow_of, with_source, with_target, Translated, lookup_key, reply_rule, new_entry,
  find_or_create, note_segment, note_peer, touch_out, leave, translate_flow, translate_error,
  translate, admits_peers, admits, touch_in, remember_flow, restore_forward, restore_flow,
  restore_error, restore, publish_original, carries,
}
use net_sim.Nat.Alloc.{Unforwarded, alloc_public_id_free}
use net_sim.Nat.Expiry.{get-expire, until_over}
use net_sim.Nat.Invariant.{Inv, init-Inv}
use net_sim.Nat.RoundTrip.{translate_leaves, restore-translate}
use net_sim.Nat.History.{Call, outgoing, incoming, opened, run, step, step-Inv, run-Inv}

program : Unit {0}
unfolding proto_eq peer_eq opt_peer_eq nat_key_eq inner_key_eq flow_key_eq get put delete
    drop_oldest contains add text_eq error_of rule_for is_forwarded is_taken ceiling
    ceiling_forwards alloc_from alloc_public_id import_entry forget_inner forget_public update_entry
    is_free punch open_pinhole close_pinhole set_forwards note_tcp is_stale expire_one expire_all
    expire set_type flow_of with_source with_target lookup_key reply_rule new_entry find_or_create
    note_segment note_peer touch_out translate_flow translate_error translate admits_peers admits
    touch_in remember_flow restore_forward restore_flow restore_error restore publish_original
    carries step run
program = tt

abbrev web : PortForward
web = record { public_port = 80; lan_ip = codes "192.168.0.9"; lan_port = 8080; proto = none }

abbrev box : NatTable
box = record init { kind = port_restricted; forwards = web ∷ [] }

box-Inv : Inv box
box-Inv = record {
  paired = init-Inv.paired;
  distinct = init-Inv.distinct;
  limits = init-Inv.limits;
}

abbrev host : Ip
host = codes "192.168.0.5"

abbrev server : Ip
server = codes "8.8.8.8"

abbrev gate : Ip
gate = codes "1.2.3.4"

abbrev datagram : Ip → ℕ → Ip → ℕ → Ipv4Packet
datagram src src_port dst dst_port = record {
  src = src;
  dst = dst;
  ttl = 64;
  payload = IpPayload.udp (record { src_port = src_port; dst_port = dst_port; body = 0 });
}

abbrev flow : ℕ → ℕ → Flow
flow a b = record { proto = udp; from_id = a; to_id = b; segment = none }

abbrev ask : Ipv4Packet
ask = datagram host 5000 server 53

abbrev sent : Ipv4Packet
sent = datagram gate 40000 server 53

abbrev answer : Ipv4Packet
answer = datagram server 53 gate 40000

abbrev asked : NatTable
asked = elim (translate box ask gate 10) [ none ↦ box | some r ↦ r.table ]

abbrev first : InnerKey
first = record { proto = udp; lan_ip = host; inner_id = 5000; dest = none }

abbrev public_key : NatKey
public_key = record { proto = udp; public_id = 40000 }

-- The answer is let in, a stranger's packet is not; the forwarded port is.
translate_tests :
    ((restore asked answer 11).0 ≡ some (datagram server 53 host 5000))
    × ((restore asked (datagram server 54 gate 40000) 11).0 ≡ none)
    × ((restore box (datagram server 53 gate 40000) 11).0 ≡ none)
    × (get asked.by_inner first ≡ some public_key)
    × (carries asked ask ≡ true)
    × (carries box ask ≡ false)
unfolding program
translate_tests = (refl, refl, refl, refl, refl, refl)

abbrev translated : Translated
translated = record {
  packet = some sent;
  table = asked;
  created = get (find_or_create box ask (flow 5000 53) 10).1.entries public_key;
}

translate_leaves_example :
    (r : Translated) × (id : ℕ) × (translate box ask gate 10 ≡ some r)
    × (r.packet ≡ some (leave ask gate id))
    × Inv r.table
    × ((e : NatEntry) × (get r.table.entries (record { proto = udp; public_id = id }) ≡ some e)
        × (e.lan_ip ≡ host)
        × (e.inner_id ≡ 5000))
unfolding program
translate_leaves_example = translate_leaves box ask (flow 5000 53) gate 10 box-Inv refl refl

restore-translate_example : (restore asked answer 99).0 ≡ some (datagram server 53 host 5000)
unfolding program
restore-translate_example =
    restore-translate box ask sent answer (flow 5000 53) (flow 40000 53) (flow 53 40000) gate 10 99
      translated box-Inv refl refl refl refl refl refl refl refl refl refl

abbrev calls : List Call
calls = outgoing ask gate 10 ∷ incoming answer 11 ∷ opened udp host 5001 12 ∷ []

run-Inv_example : (t : NatTable) × (run init calls ≡ some t) × Inv t
run-Inv_example = run-Inv calls

abbrev ran : NatTable
ran = elim (run init calls) [ none ↦ init | some t ↦ t ]

step-Inv_example : (t : NatTable) × (step box (outgoing ask gate 10) ≡ some t) × Inv t
step-Inv_example = step-Inv box (outgoing ask gate 10) box-Inv

-- Port 40000 is in use and 40001 is forwarded: the next one is free.
abbrev busy : NatTable
busy = record init {
  entries =
      (
        record { proto = tcp; public_id = 40000 },
        new_entry init (datagram host 7000 server 80)
            (record { proto = tcp; from_id = 7000; to_id = 80; segment = none }) 40000 1,
      )
      ∷ [];
  forwards = record web { public_port = 40001 } ∷ [];
}

busy_test : (alloc_public_id busy tcp).0 ≡ 40002
unfolding program
busy_test = refl

alloc_public_id_free_example :
    (get busy.entries (record { proto = tcp; public_id = (alloc_public_id busy tcp).0 }) ≡ none)
    × ((tcp ≡ icmp)
        ⊎ (Unforwarded (alloc_public_id busy tcp).0 busy.forwards
            × (busy.reserved (alloc_public_id busy tcp).0 ≡ false)))
    × (busy.seq ≤ (alloc_public_id busy tcp).0)
    × ((alloc_public_id busy tcp).1 ≡ record busy { seq = suc (alloc_public_id busy tcp).0 })
alloc_public_id_free_example = alloc_public_id_free busy tcp (λ j h. refl)

get-expire_example :
    get (expire asked 5000).entries public_key ≡ until_over 5000 (get asked.entries public_key)
unfolding program
get-expire_example = get-expire asked 5000 public_key (refl, tt)

abbrev handed : Imported
handed = record { proto = udp; lan_ip = host; inner_id = 5000; public_id = 40007; dest = none }
