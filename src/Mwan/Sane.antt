-- ===== src/Mwan/Sane.antt =====
-- What always holds of src/core/nodes/mwan.ts: which line is in use, and what is counted of each.
use net_sim.Prelude.{
  nat_eq, ℕ, suc, ◌<◌, ◌≡◌, refl, sym, ap, ◌∙◌, Bool, true, false, not, ◌&&◌, ◌||◌, Option, none,
  some, List, [], ◌∷◌, arith, ◌==◌, if◌then◌else◌, is_some, Option-cases, Bool-cases, inl, inr,
}
use mathlib.Core.Path.{subst}
use net_sim.Addr.{Ip}
use net_sim.Mwan.{
  WanName, wan, wan2, wan_eq, mwan_down, mwan_up, MwanRule, Probe, LineState, fresh, Lookout,
  Effect, arms, mwan_interval, MultiWan, new, line_of, set_line, usable, switch_to, wanted, decide,
  arm, then_arm, is_tracking, set_config, same_bool, track_eq,
}
use net_sim.Mwan.Calls.{
  same_rules, set_rules, seen_line, on_line, on_reply, answered_line, silent_line, judge,
  track_line, track_both, on_timer, Call, configures, orders, lines, replies, fires, step, run,
}

-- WAN2 is used only where it may be, is alive and WAN1 is not.
abbrev pub Chosen : MultiWan → Type 0
Chosen m =
    m.active ≡ wan2
    → (m.enabled ≡ true)
      × ((m.wan2_member ≡ true) × ((m.wan2_line.online ≡ true) × (m.wan_line.online ≡ false)))

-- A line that is alive has missed fewer than three answers in a row, and one that is not has had
-- fewer than two.
abbrev pub Sound : LineState → Type 0
Sound l = (l.online ≡ true → l.fails < mwan_down) × (l.online ≡ false → l.oks < mwan_up)

abbrev pub BothSound : MultiWan → Type 0
BothSound m = Sound m.wan_line × Sound m.wan2_line

wan_eq-same : (a b : WanName) → wan_eq a b ≡ true → a ≡ b
unfolding wan_eq
wan_eq-same wan wan e = refl
wan_eq-same wan wan2 e = absurd (cc)
wan_eq-same wan2 wan e = absurd (cc)
wan_eq-same wan2 wan2 e = refl

switch_to-state : (m : MultiWan) (to : WanName) → (switch_to m to).1 ≡ record m { active = to }
unfolding switch_to
switch_to-state m to = elim (Bool-cases (wan_eq to m.active)) [
  | inl same ↦ rw same (ap (λ w. record m { active = w }) (sym (wan_eq-same to m.active same)))
  | inr other ↦ rw other refl
]

decided_if :
    (b : Bool) (io : Lookout) (m : MultiWan)
    → (if b then switch_to m (wanted io m) else ([], m)).1
      ≡ (if b then record m { active = wanted io m } else m)
decided_if true io m = switch_to-state m (wanted io m)
decided_if false io m = refl

decide-state :
    (io : Lookout) (m : MultiWan)
    → (decide io m).1 ≡ (if m.enabled then record m { active = wanted io m } else m)
unfolding decide
decide-state io m = decided_if m.enabled io m

choose :
    (a b : Bool) → (if a then wan else if b then wan2 else wan) ≡ wan2 → (a ≡ false) × (b ≡ true)
choose true b e = absurd (cc)
choose false true e = (refl, refl)
choose false false e = absurd (cc)

wanted-Chosen :
    (io : Lookout) (m : MultiWan) → m.enabled ≡ true → Chosen (record m { active = wanted io m })
unfolding wanted usable wan_eq
wanted-Chosen io m on e =
    let (alive, other) =
      choose (m.wan_line.online || (wan_eq m.active wan && io.waiting wan)) (usable m wan2) e in
    (on, (ground (arith, other), (ground (arith, other), ground (arith, alive))))

Chosen-if :
    (b : Bool) (m n : MultiWan)
    → (b ≡ true → Chosen m)
    → (b ≡ false → Chosen n)
    → Chosen (if b then m else n)
Chosen-if true m n f g = f refl
Chosen-if false m n f g = g refl

-- Deciding puts the choice right.
decide-Chosen :
    (io : Lookout) (m : MultiWan) → (m.enabled ≡ false → Chosen m) → Chosen (decide io m).1
decide-Chosen io m f =
    subst Chosen (sym (decide-state io m))
      (Chosen-if m.enabled (record m { active = wanted io m }) m (wanted-Chosen io m) f)

-- A predicate of the state after a branch holds if it holds in both.
state-if :
    (P : MultiWan → Type 0) (b : Bool) (r q : List Effect × MultiWan)
    → (b ≡ true → P r.1)
    → (b ≡ false → P q.1)
    → P (if◌then◌else◌ {A = List Effect × MultiWan} b r q).1
state-if P true r q f g = f refl
state-if P false r q f g = g refl

abbrev pub Sane : MultiWan → Type 0
Sane m = Chosen m × BothSound m

arm-Sane : (m : MultiWan) → Sane m → Sane (arm m).1
unfolding arm
arm-Sane m v =
    state-if Sane (is_tracking m)
      (arms mwan_interval (suc m.tick) ∷ [], record m { tick = suc m.tick }) ([], m) (λ e. v)
      (λ e. v)

decide-Sane :
    (io : Lookout) (m : MultiWan)
    → (m.enabled ≡ false → Chosen m)
    → BothSound m
    → Sane (decide io m).1
decide-Sane io m f v =
    (decide-Chosen io m f, subst BothSound (sym (decide-state io m)) (sound_if m.enabled))
  where
    sound_if : (b : Bool) → BothSound (if b then record m { active = wanted io m } else m)
    sound_if true = v
    sound_if false = v

fresh-Sound : (b : Bool) → Sound (fresh b)
fresh-Sound b = (λ e. omega arith, λ e. omega arith)

Sound-if : (b : Bool) (k l : LineState) → Sound k → Sound l → Sound (if b then k else l)
Sound-if true k l v w = v
Sound-if false k l v w = w

seen_line-Sound : (ready : Bool) (l : LineState) → Sound l → Sound (seen_line ready l)
unfolding seen_line
seen_line-Sound ready l v = Sound-if (not ready && l.online) (fresh false) _ (fresh-Sound false) (
    Sound-if (ready && not l.online && l.fails == 0 && l.oks == 0 && not (is_some l.probe))
      (fresh true) l (fresh-Sound true) v)

judge-Sound : (l : LineState) → Sound l → Sound (judge l)
unfolding judge answered_line silent_line
judge-Sound l v = elim (Option-cases l.probe) [
  | inl e ↦ rw (e, judge) v
  | inr (p, e) ↦ elim (Bool-cases p.answered) [
    | inl a ↦ rw (e, a, judge) ((λ o. omega arith), λ o. ground (arith, o))
    | inr a ↦ rw (e, a, judge) ((λ o. ground (arith, o)), λ o. omega arith)
  ]
]

-- The rest of the state is what it was, and the line is a sound one.
set_line-BothSound :
    (m : MultiWan) (w : WanName) (l : LineState)
    → Sound l
    → BothSound m
    → BothSound (set_line m w l)
set_line-BothSound m wan l s v = (s, v.1)
set_line-BothSound m wan2 l s v = (v.0, s)

line_of-Sound : (m : MultiWan) (w : WanName) → BothSound m → Sound (line_of m w)
line_of-Sound m wan v = v.0
line_of-Sound m wan2 v = v.1

track_line-BothSound :
    (io : Lookout) (m : MultiWan) (w : WanName) (track : Ip)
    → BothSound m
    → BothSound (track_line io m w track).1
unfolding track_line
track_line-BothSound io m w track v =
    let s = line_of-Sound m w v in
    state-if BothSound (not (io.ready w) || (wan_eq w wan2 && not m.wan2_member)) _ _
      (λ e. set_line-BothSound m w (record (line_of m w) { probe = none }) s v)
      (λ e.
        set_line-BothSound m w
          (record (judge (line_of m w)) {
            probe = some (record { seq = suc m.seq; answered = false });
          })
          (judge-Sound (line_of m w) s) v)

set_line-enabled :
    (m : MultiWan) (w : WanName) (l : LineState) → (set_line m w l).enabled ≡ m.enabled
set_line-enabled m wan l = refl
set_line-enabled m wan2 l = refl

track_line-enabled :
    (io : Lookout) (m : MultiWan) (w : WanName) (track : Ip)
    → (track_line io m w track).1.enabled ≡ m.enabled
unfolding track_line
track_line-enabled io m w track =
    state-if (λ n. n.enabled ≡ m.enabled) (not (io.ready w) || (wan_eq w wan2 && not m.wan2_member))
      _ _ (λ e. set_line-enabled m w (record (line_of m w) { probe = none }))
      (λ e. set_line-enabled m w (record (judge (line_of m w)) {
        probe = some (record { seq = suc m.seq; answered = false });
      }))

then_arm-Sane : (r : List Effect × MultiWan) → Sane r.1 → Sane (then_arm r).1
then_arm-Sane (es, m) v = arm-Sane m v

track_both-Sane :
    (io : Lookout) (m : MultiWan) (track : Ip)
    → m.enabled ≡ true
    → Sane m
    → Sane (track_both io m track).1
unfolding track_both
track_both-Sane io m track on v =
    let m1 = (track_line io m wan track).1 in
    let m2 = (track_line io m1 wan2 track).1 in
    let still : m2.enabled ≡ true =
      track_line-enabled io m1 wan2 track ∙ track_line-enabled io m wan track ∙ on in
    then_arm-Sane (decide io m2) (
      decide-Sane io m2 (λ off. absurd (cc))
        (track_line-BothSound io m1 wan2 track (track_line-BothSound io m wan track v.1)))

on_timer-Sane : (io : Lookout) (m : MultiWan) (tick : ℕ) → Sane m → Sane (on_timer io m tick).1
unfolding on_timer
on_timer-Sane io m tick v = elim (Option-cases m.track) [
  | inl e ↦ rw (e, on_timer) v
  | inr (track, e) ↦
      rw (e, on_timer)
        (state-if Sane (not (tick == m.tick) || not m.enabled) ([], m) (track_both io m track)
          (λ s. v) (λ s. track_both-Sane io m track (ground (arith, s)) v))
]

probe-Sane :
    (m : MultiWan) (w : WanName) (p : Option Probe)
    → Sane m
    → Sane (set_line m w (record (line_of m w) { probe = p }))
probe-Sane m wan p v = v
probe-Sane m wan2 p v = v

on_reply-Sane : (m : MultiWan) (w : WanName) (seq : ℕ) → Sane m → Sane (on_reply m w seq).1
unfolding on_reply
on_reply-Sane m w seq v = elim (Option-cases (line_of m w).probe) [
  | inl e ↦ rw (e, on_reply) v
  | inr (p, e) ↦ elim (Bool-cases (p.seq == seq)) [
    | inl same ↦ rw (e, same, on_reply) (probe-Sane m w (some (record p { answered = true })) v)
    | inr other ↦ rw (e, other, on_reply) v
  ]
]

set_config-Sane :
    (io : Lookout) (m : MultiWan) (enabled : Bool) (track : Option Ip) (member : Bool)
    → Sane m
    → Sane (set_config io m enabled track member).1
unfolding set_config
set_config-Sane io m enabled track member v =
    let n : MultiWan = record m {
      enabled = enabled;
      track = track;
      wan2_member = member;
      wan_line = fresh (io.ready wan);
      wan2_line = fresh (io.ready wan2);
    } in
    let sound : BothSound n = (fresh-Sound (io.ready wan), fresh-Sound (io.ready wan2)) in
    state-if Sane
      (same_bool enabled m.enabled && track_eq track m.track && same_bool member m.wan2_member)
      ([], m) (if not enabled then switch_to n wan else then_arm (decide io n)) (λ e. v)
      (λ e.
        state-if Sane (not enabled) (switch_to n wan) (then_arm (decide io n))
          (λ off. subst Sane (sym (switch_to-state n wan)) ((λ c. absurd (cc)), sound))
          (λ on.
            then_arm-Sane (decide io n)
              (decide-Sane io n (λ off. absurd (ground (arith, on, off))) sound)))

on_line-Sane : (io : Lookout) (m : MultiWan) (w : WanName) → Sane m → Sane (on_line io m w).1
unfolding on_line
on_line-Sane io m w v =
    let n = set_line m w (seen_line (io.ready w) (line_of m w)) in
    state-if Sane m.enabled (decide io n) ([], m)
      (λ on.
        decide-Sane io n
          (λ off. absurd (
            let still = set_line-enabled m w (seen_line (io.ready w) (line_of m w)) in
            ground (arith, still, on, off)))
          (set_line-BothSound m w (seen_line (io.ready w) (line_of m w))
            (seen_line-Sound (io.ready w) (line_of m w) (line_of-Sound m w v.1)) v.1))
      (λ off. v)

set_rules-Sane : (m : MultiWan) (rules : List MwanRule) → Sane m → Sane (set_rules m rules)
unfolding set_rules
set_rules-Sane m rules v = elim (Bool-cases (same_rules rules m.rules)) [
  | inl same ↦ rw same v
  | inr other ↦ rw other v
]

step-Sane : (m : MultiWan) (c : Lookout × Call) → Sane m → Sane (step m c)
unfolding step
step-Sane m (io, configures enabled track member) v = set_config-Sane io m enabled track member v
step-Sane m (io, orders rules) v = set_rules-Sane m rules v
step-Sane m (io, lines w) v = on_line-Sane io m w v
step-Sane m (io, replies w seq) v = on_reply-Sane m w seq v
step-Sane m (io, fires tick) v = on_timer-Sane io m tick v

run_from-Sane : (m : MultiWan) (cs : List (Lookout × Call)) → Sane m → Sane (run m cs)
unfolding run
run_from-Sane m [] v = v
run_from-Sane m (c ∷ cs) v = run_from-Sane (step m c) cs (step-Sane m c v)

-- After any calls, whatever the lines do, WAN2 is in use only while failover is on, it may use
-- WAN2, WAN2 is alive and WAN1 is not; and a line that is alive has missed fewer than three
-- answers in a row, one that is not has had fewer than two.
pub run-Sane : (cs : List (Lookout × Call)) → Sane (run new cs)
run-Sane cs = run_from-Sane new cs ((λ e. absurd (cc)), (fresh-Sound false, fresh-Sound false))
