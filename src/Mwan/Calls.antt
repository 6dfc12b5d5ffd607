-- ===== src/Mwan/Calls.antt =====
-- The operations of src/core/nodes/mwan.ts on rules, lines and timers, and sequences of calls.
use net_sim.Prelude.{
  nat_eq, ℕ, suc, Bool, true, false, not, ◌&&◌, ◌||◌, Option, none, some, List, [], ◌∷◌, ◌++◌, map,
  text_eq, leb, ◌==◌, if◌then◌else◌, is_some,
}
use net_sim.Addr.{Ip}
use net_sim.Mwan.{
  WanName, wan, wan2, wan_eq, mwan_down, mwan_up, MwanRule, mwan_rule_label, LineState, fresh,
  Lookout, Effect, probes, MultiWan, line_of, set_line, decide, then_arm, set_config,
}

unfoldable pub same_rules : List MwanRule → List MwanRule → Bool
same_rules [] [] = true
same_rules [] (b ∷ bs) = false
same_rules (a ∷ as_) [] = false
same_rules (a ∷ as_) (b ∷ bs) = text_eq (mwan_rule_label a) (mwan_rule_label b) && same_rules as_ bs

unfoldable pub set_rules : MultiWan → List MwanRule → MultiWan
set_rules m rules =
    if same_rules rules m.rules then m else record m { rules = rules; hits = map (λ r. 0) rules }

-- a line whose link or address came or went: down at once, up at once where it was never tracked
unfoldable pub seen_line : Bool → LineState → LineState
seen_line ready l =
    if not ready && l.online
    then fresh false
    else if ready && not l.online && l.fails == 0 && l.oks == 0 && not (is_some l.probe)
    then fresh true
    else l

unfoldable pub on_line : Lookout → MultiWan → WanName → List Effect × MultiWan
on_line io m w =
    if m.enabled then decide io (set_line m w (seen_line (io.ready w) (line_of m w))) else ([], m)

unfoldable pub on_reply : MultiWan → WanName → ℕ → Bool × MultiWan
on_reply m w seq =
    let l = line_of m w in
    elim l.probe [
      | none ↦ (false, m)
      | some p ↦
          if p.seq == seq
          then (true, set_line m w (record l { probe = some (record p { answered = true }) }))
          else (false, m)
    ]

-- what the last tracking ping says of a line
unfoldable pub answered_line : LineState → LineState
answered_line l = record l {
  fails = 0;
  oks = suc l.oks;
  online = l.online || leb mwan_up (suc l.oks);
}

unfoldable pub silent_line : LineState → LineState
silent_line l = record l {
  oks = 0;
  fails = suc l.fails;
  online = l.online && not (leb mwan_down (suc l.fails));
}

unfoldable pub judge : LineState → LineState
judge l = elim l.probe [ none ↦ l | some p ↦ if p.answered then answered_line l else silent_line l ]

-- the round of one line: the last ping is judged and the next one sent
unfoldable pub track_line : Lookout → MultiWan → WanName → Ip → List Effect × MultiWan
track_line io m w track =
    let l = line_of m w in
    if not (io.ready w) || (wan_eq w wan2 && not m.wan2_member)
    then ([], set_line m w (record l { probe = none }))
    else let seq = suc m.seq in
      let next = record (judge l) { probe = some (record { seq = seq; answered = false }) } in
      (probes w track seq ∷ [], record (set_line m w next) { seq = seq })

unfoldable pub track_both : Lookout → MultiWan → Ip → List Effect × MultiWan
track_both io m track =
    let (es, m1) = track_line io m wan track in
    let (fs, m2) = track_line io m1 wan2 track in
    let (gs, m3) = then_arm (decide io m2) in (es ++ fs ++ gs, m3)

unfoldable pub on_timer : Lookout → MultiWan → ℕ → List Effect × MultiWan
on_timer io m tick = elim m.track [
  | none ↦ ([], m)
  | some track ↦ if not (tick == m.tick) || not m.enabled then ([], m) else track_both io m track
]

-- a call of the device, with what it told of its lines then
pub data Call : Type 0 where
  configures : Bool → Option Ip → Bool → Call
  orders : List MwanRule → Call
  lines : WanName → Call
  replies : WanName → ℕ → Call
  fires : ℕ → Call

unfoldable pub step : MultiWan → Lookout × Call → MultiWan
step m (io, configures enabled track member) = (set_config io m enabled track member).1
step m (io, orders rules) = set_rules m rules
step m (io, lines w) = (on_line io m w).1
step m (io, replies w seq) = (on_reply m w seq).1
step m (io, fires tick) = (on_timer io m tick).1

unfoldable pub run : MultiWan → List (Lookout × Call) → MultiWan
run m [] = m
run m (c ∷ cs) = run (step m c) cs
