-- ===== src/Lan/Repeating.antt =====
-- What a hub sends, and how often.
use net_sim.Prelude.{
  nat_eq, ℕ, zero, suc, ◌+◌, ◌≤◌, ◌≡◌, refl, sym, ◌∙◌, Bool, true, false, not, ◌&&◌, none, some, [],
  map, arith, ltb, leb, ◌==◌, if◌then◌else◌, get, keep, upto, length, Bool-cases, inl, inr,
  Distinct,
}
use net_sim.Packet.{EthernetFrame}
use net_sim.Lan.Loop.{guard_loop, is_fresh, guard_loop-passes, guard_loop-bound, get-guard_loop}
use net_sim.Lan.Hub.{Hub, hop, repeat_ports, receive}

get-sends :
    (n s : ℕ) (test : ℕ → Bool) (frame : EthernetFrame) (p : ℕ)
    → get (map (λ q. (q, frame)) (keep test (upto n s))) p
      ≡ (if leb s p && ltb p (s + n) && test p then some frame else none)
unfolding get
get-sends zero s test frame p = ground arith
get-sends (suc n) s test frame p = ground (arith, get-sends n (suc s) test frame p)

Distinct-sends :
    (n s : ℕ) (test : ℕ → Bool) (frame : EthernetFrame)
    → Distinct (map (λ q. (q, frame)) (keep test (upto n s)))
Distinct-sends zero s test frame = tt
Distinct-sends (suc n) s test frame = elim (Bool-cases (test s)) [
  | inl kept ↦
      rw kept (get-sends n (suc s) test frame s ∙ ground arith, Distinct-sends n (suc s) test frame)
  | inr left_out ↦ rw left_out (Distinct-sends n (suc s) test frame)
]

-- A hub repeats a frame exactly where it should: a frame of fewer than 16 hops that it has not seen
-- goes, with one more hop, to every connected port but the one it came from, to each once; any other
-- frame goes nowhere.
pub receive_exact :
    (connected : ℕ → Bool) (h : Hub) (port : ℕ) (frame : EthernetFrame) (p : ℕ)
    → Distinct (receive connected h port frame).0
      × (get (receive connected h port frame).0 p ≡ (
          if is_fresh h.seen frame none && ltb p h.port_count && not (p == port) && connected p
          then some (hop frame)
          else none))
unfolding receive
receive_exact connected h port frame p = elim (Bool-cases (guard_loop h.seen port frame none).0) [
  | inl ok ↦
      rw (sym (guard_loop-passes h.seen port frame none), ok)
        (
          unfold repeat_ports in
              Distinct-sends h.port_count 0 (λ q. not (q == port) && connected q) (hop frame),
          unfold repeat_ports in
              get-sends h.port_count 0 (λ q. not (q == port) && connected q) (hop frame) p
              ∙ ground arith,
        )
  | inr stop ↦ rw (sym (guard_loop-passes h.seen port frame none), stop) (tt, unfold get in refl)
]

receive-seen :
    (connected : ℕ → Bool) (h : Hub) (port : ℕ) (frame : EthernetFrame)
    → (receive connected h port frame).1.seen ≡ (guard_loop h.seen port frame none).1
unfolding receive
receive-seen connected h port frame = ground arith

receive_stops :
    (connected : ℕ → Bool) (h : Hub) (port : ℕ) (frame : EthernetFrame)
    → is_fresh h.seen frame none ≡ false
    → (receive connected h port frame).0 ≡ []
unfolding receive
receive_stops connected h port frame stale =
    ground (arith, guard_loop-passes h.seen port frame none)

-- A frame that a hub has repeated and that comes back, on any port and with any hops, before
-- another one, is not repeated again: a loop of cables ends.
pub receive_once :
    (connected : ℕ → Bool) (h : Hub) (port again : ℕ) (frame back : EthernetFrame)
    → is_fresh h.seen frame none ≡ true
    → back.id ≡ frame.id
    → (receive connected (receive connected h port frame).1 again back).0 ≡ []
receive_once connected h port again frame back fresh same =
    receive_stops connected (receive connected h port frame).1 again back (
      rw (receive-seen connected h port frame) (
        ground
          (arith, get-guard_loop h.seen port frame none, guard_loop-passes h.seen port frame none)))

-- A hub that remembers at most 512 frames still does after it receives one.
pub receive-bound :
    (connected : ℕ → Bool) (h : Hub) (port : ℕ) (frame : EthernetFrame)
    → length h.seen ≤ 512
    → length (receive connected h port frame).1.seen ≤ 512
receive-bound connected h port frame le =
    rw (receive-seen connected h port frame) (guard_loop-bound h.seen port frame none le)
