-- ===== src/Mwan/Failover.antt =====
-- Failover of src/core/nodes/mwan.ts: a line whose tracking pings go unanswered is left, and one
-- that answers again is come back to.
use net_sim.Prelude.{
  nat_eq, ℕ, zero, suc, ◌≡◌, refl, ap, ◌∙◌, Bool, true, false, not, ◌&&◌, ◌||◌, none, some, arith,
  leb, ◌==◌, if◌then◌else◌, is_some,
}
use net_sim.Addr.{Ip}
use net_sim.Mwan.{
  WanName, wan, wan2, wan_eq, mwan_down, mwan_up, LineState, Lookout, MultiWan, line_of, usable,
  switch_to, wanted, decide, arm, then_arm,
}
use net_sim.Mwan.Calls.{
  on_reply, answered_line, silent_line, judge, track_line, track_both, on_timer,
}

-- both lines have a link and an address
abbrev pub all_ready : Lookout
all_ready = record { ready = λ w. true; waiting = λ w. false }

abbrev pub reply_to : MultiWan → WanName → MultiWan
reply_to m w = elim (line_of m w).probe [ none ↦ m | some p ↦ (on_reply m w p.seq).1 ]

-- some rounds of the timer, before each of which the pings of one line alone were answered
unfoldable pub rounds : WanName → ℕ → MultiWan → MultiWan
rounds w zero m = m
rounds w (suc n) m = rounds w n (on_timer all_ready (reply_to m w) m.tick).1

abbrev pub Pinged : LineState → Type 0
Pinged l = is_some l.probe ≡ true

program : Unit {0}
unfolding rounds on_reply answered_line silent_line judge track_line track_both on_timer usable
    switch_to wanted decide arm wan_eq
program = tt

-- Failover is on, WAN2 may be used, and both lines have a ping out that no one has answered.
abbrev pub tracking : MultiWan → WanName → Ip → LineState → LineState → MultiWan
tracking m active track a b = record m {
  enabled = true;
  track = some track;
  wan2_member = true;
  wan_line = a;
  wan2_line = b;
  active = active;
}

abbrev pub pinged : Bool → ℕ → ℕ → ℕ → LineState
pinged online fails oks seq = record {
  online = online;
  fails = fails;
  oks = oks;
  probe = some (record { seq = seq; answered = false });
}

beq-same : (n : ℕ) → (n == n) ≡ true
beq-same n = ground arith

-- what a round leaves, but for the line in use
abbrev moved : MultiWan → MultiWan
moved m = record m { seq = suc (suc m.seq); tick = suc m.tick }

chosen : Bool → Bool → WanName
chosen a b = if a then wan else if b then wan2 else wan

decided :
    (m : MultiWan) (active : WanName) (t : Ip) (o p : Bool) (f k s g l r : ℕ)
    → (then_arm (decide all_ready (tracking m active t (pinged o f k s) (pinged p g l r)))).1
      ≡ record (tracking m (chosen o p) t (pinged o f k s) (pinged p g l r)) { tick = suc m.tick }
unfolding program chosen
decided m wan t true p f k s g l r = refl
decided m wan t false true f k s g l r = refl
decided m wan t false false f k s g l r = refl
decided m wan2 t true p f k s g l r = refl
decided m wan2 t false true f k s g l r = refl
decided m wan2 t false false f k s g l r = refl

replied :
    (m : MultiWan) (active : WanName) (t : Ip) (a : LineState) (p : Bool) (g l r : ℕ)
    → reply_to (tracking m active t a (pinged p g l r)) wan2
      ≡ tracking m active t a
          (record (pinged p g l r) { probe = some (record { seq = r; answered = true }) })
unfolding program
replied m active t a p g l r = rw (beq-same r, on_reply, reply_to) refl

-- WAN1 stays silent for a round.
silent_round :
    (m : MultiWan) (active : WanName) (t : Ip) (o p : Bool) (f k s g l r : ℕ)
    → rounds wan2 1 (tracking m active t (pinged o f k s) (pinged p g l r))
      ≡ tracking
          (moved m)
          (chosen (o && not (leb mwan_down (suc f))) (p || leb mwan_up (suc l)))
          t
          (pinged (o && not (leb mwan_down (suc f))) (suc f) 0 (suc m.seq))
          (pinged (p || leb mwan_up (suc l)) 0 (suc l) (suc (suc m.seq)))
unfolding program
silent_round m active t o p f k s g l r =
    ap (λ n. (on_timer all_ready n m.tick).1) (replied m active t (pinged o f k s) p g l r)
    ∙ rw (beq-same m.tick, on_timer)
        (decided (record m { seq = suc (suc m.seq) }) active t (o && not (leb mwan_down (suc f)))
          (p || leb mwan_up (suc l)) (suc f) 0 (suc m.seq) 0 (suc l) (suc (suc m.seq)))

replied1 :
    (m : MultiWan) (active : WanName) (t : Ip) (b : LineState) (o : Bool) (f k s : ℕ)
    → reply_to (tracking m active t (pinged o f k s) b) wan
      ≡ tracking m active t
          (record (pinged o f k s) { probe = some (record { seq = s; answered = true }) })
          b
unfolding program
replied1 m active t b o f k s = rw (beq-same s, on_reply, reply_to) refl

-- WAN1 answers in a round, and WAN2 does not.
answered_round :
    (m : MultiWan) (active : WanName) (t : Ip) (o p : Bool) (f k s g l r : ℕ)
    → rounds wan 1 (tracking m active t (pinged o f k s) (pinged p g l r))
      ≡ tracking
          (moved m)
          (chosen (o || leb mwan_up (suc k)) (p && not (leb mwan_down (suc g))))
          t
          (pinged (o || leb mwan_up (suc k)) 0 (suc k) (suc m.seq))
          (pinged (p && not (leb mwan_down (suc g))) (suc g) 0 (suc (suc m.seq)))
unfolding program
answered_round m active t o p f k s g l r =
    ap (λ n. (on_timer all_ready n m.tick).1) (replied1 m active t (pinged p g l r) o f k s)
    ∙ rw (beq-same m.tick, on_timer)
        (decided (record m { seq = suc (suc m.seq) }) active t (o || leb mwan_up (suc k))
          (p && not (leb mwan_down (suc g))) 0 (suc k) (suc m.seq) (suc g) 0 (suc (suc m.seq)))

chosen-wan2 : (a b : Bool) → a ≡ false → b ≡ true → chosen a b ≡ wan2
unfolding chosen
chosen-wan2 false true e f = refl
chosen-wan2 true b e f = absurd (cc)
chosen-wan2 false false e f = absurd (cc)

chosen-wan : (a b : Bool) → a ≡ true → chosen a b ≡ wan
unfolding chosen
chosen-wan true b e = refl
chosen-wan false b e = absurd (cc)

-- Where failover is on, WAN2 may be used and a ping is out on each line, three rounds in which
-- WAN2 alone answers leave WAN2 in use, whatever was in use and was counted before.
pub silence-switches :
    (m : MultiWan) (active : WanName) (t : Ip) (o p : Bool) (f k s g l r : ℕ)
    → (rounds wan2 3 (tracking m active t (pinged o f k s) (pinged p g l r))).active ≡ wan2
unfolding rounds
silence-switches m active t o p f k s g l r =
    let o1 = o && not (leb mwan_down (suc f)) in
    let p1 = p || leb mwan_up (suc l) in
    let o2 = o1 && not (leb mwan_down (suc (suc f))) in
    let p2 = p1 || leb mwan_up (suc (suc l)) in
    let o3 = o2 && not (leb mwan_down (suc (suc (suc f)))) in
    let p3 = p2 || leb mwan_up (suc (suc (suc l))) in
    let m1 = moved m in
    let m2 = moved m1 in
    ap (λ n. (rounds wan2 2 n).active) (silent_round m active t o p f k s g l r)
    ∙ ap (λ n. (rounds wan2 1 n).active)
        (silent_round m1 (chosen o1 p1) t o1 p1 (suc f) 0 (suc m.seq) 0 (suc l) (suc (suc m.seq)))
    ∙ ap (λ n. n.active)
        (silent_round m2 (chosen o2 p2) t o2 p2 (suc (suc f)) 0 (suc m1.seq) 0 (suc (suc l))
          (suc (suc m1.seq)))
    ∙ chosen-wan2 o3 p3 (ground arith) (ground arith)

-- There, two rounds in which WAN1 answers leave WAN1 in use again.
pub answers-return :
    (m : MultiWan) (active : WanName) (t : Ip) (o p : Bool) (f k s g l r : ℕ)
    → (rounds wan 2 (tracking m active t (pinged o f k s) (pinged p g l r))).active ≡ wan
unfolding rounds
answers-return m active t o p f k s g l r =
    let o1 = o || leb mwan_up (suc k) in
    let p1 = p && not (leb mwan_down (suc g)) in
    let o2 = o1 || leb mwan_up (suc (suc k)) in
    let p2 = p1 && not (leb mwan_down (suc (suc g))) in
    let m1 = moved m in
    ap (λ n. (rounds wan 1 n).active) (answered_round m active t o p f k s g l r)
    ∙ ap (λ n. n.active)
        (answered_round m1 (chosen o1 p1) t o1 p1 0 (suc k) (suc m.seq) (suc g) 0 (suc (suc m.seq)))
    ∙ chosen-wan o2 p2 (ground arith)
