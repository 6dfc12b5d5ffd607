-- ===== src/Network/Loop.antt =====
-- The event loop of src/core/network.ts. Skipping what is cancelled has a round for each event.
use net_sim.Prelude.{
  nat_eq, text_key, ℕ, zero, suc, ◌-◌, Bool, true, false, not, ◌&&◌, ◌||◌, Option, none, some, List,
  [], ltb, leb, if◌then◌else◌, get, adjust, has, remove,
}
use net_sim.Scheduler.{Scheduler, size, count, peek, pop}
use net_sim.Network.State.{Transmission, Devices, Timer, SimEvent, deliver, fire, action, Network}
use net_sim.Network.Links.{lose, visit}

-- a background timer goes first only where it is earlier
abbrev pub is_before : Option ℕ → Option ℕ → Bool
is_before none next = false
is_before (some b) none = true
is_before (some b) (some t) = ltb b t

abbrev pub is_within : Option ℕ → ℕ → Bool
is_within none limit = false
is_within (some t) limit = leb t limit

module _ {E : Type 0} where
  -- the queue without the events in front that are to be skipped
  unfoldable pub skip : (E → Bool) → ℕ → Scheduler E → Scheduler E
  skip test zero q = q
  skip test (suc fuel) q =
      let rest = skip test fuel (pop q).1 in
      elim (peek q) [ none ↦ q | some x ↦ if test x.payload then rest else q ]

  abbrev pub head_time : Scheduler E → Option ℕ
  head_time q = elim (peek q) [ none ↦ none | some x ↦ some x.time ]

module _ {S A D : Type 0} where
  -- a timer that is cancelled, or whose device is gone
  unfoldable pub is_dead_timer : Network S A D → ℕ → Bool
  is_dead_timer n ref = elim (get n.timer_store ref) [
    | none ↦ true
    | some t ↦ t.cancelled || not (has n.nodes t.node)
  ]

  unfoldable pub is_lost : Network S A D → ℕ → Bool
  is_lost n id = elim (get n.tx_store id) [ none ↦ true | some tx ↦ tx.lost ]

  -- an event that will do nothing
  unfoldable pub is_void : Network S A D → SimEvent A → Bool
  is_void n (deliver id) = is_lost n id
  is_void n (fire ref) = is_dead_timer n ref
  is_void n (action id a) = false

  -- `peekNextTime` and `peekBackgroundTime` take void events from the front
  abbrev pub settle : Network S A D → Network S A D
  settle n = record n {
    sched = skip (is_void n) (size n.sched) n.sched;
    bg = skip (is_void n) (size n.bg) n.bg;
  }

  unfoldable pub peek_next_time : Network S A D → Option ℕ × Network S A D
  peek_next_time n =
      let q = skip (is_void n) (size n.sched) n.sched in (head_time q, record n { sched = q })

  unfoldable pub peek_background_time : Network S A D → Option ℕ × Network S A D
  peek_background_time n =
      let q = skip (is_void n) (size n.bg) n.bg in (head_time q, record n { bg = q })

  -- how many events will do something
  abbrev pub pending_events : Network S A D → ℕ
  pending_events n = count (λ e. not (is_void n e)) (peek_next_time n).1.sched

  -- the clock goes to the event that is handled
  abbrev pub advance : Network S A D → ℕ → Network S A D
  advance n time = record n { now = time; event_count = suc n.event_count }

module _ {S A D : Type 0} (dev : Devices S A D) where
  -- a timer goes off: its device no longer keeps it
  unfoldable pub ring : Network S A D → ℕ → Timer D → Network S A D
  ring n ref t =
      let refs : List ℕ = elim (get n.timers_of t.node) [ none ↦ [] | some refs ↦ refs ] in
      let n1 = record n { timers_of = adjust (λ x. remove refs ref) n.timers_of t.node } in
      if t.cancelled then n1 else visit n1 t.node (λ s ctx. dev.on_timer s ctx t.data_of)

  -- a frame arrives, where its cable is still there or it survives that
  unfoldable pub arrive : Network S A D → ℕ → Transmission → Network S A D
  arrive n id tx =
      if tx.lost
      then n
      else if not (has n.nodes tx.to.node) || (not (has n.links tx.link_id) && not tx.graceful)
      then record n { tx_store = adjust lose n.tx_store id }
      else visit n tx.to.node (λ s ctx. dev.receive s ctx tx.to.port tx.frame)

  unfoldable pub dispatch : Network S A D → SimEvent A → Network S A D
  dispatch n (deliver id) = elim (get n.tx_store id) [ none ↦ n | some tx ↦ arrive n id tx ]
  dispatch n (fire ref) = elim (get n.timer_store ref) [ none ↦ n | some t ↦ ring n ref t ]
  dispatch n (action id a) = visit n id (λ s ctx. dev.act s ctx a)

  unfoldable pub take_background : Network S A D → Network S A D
  take_background n = elim (pop n.bg).0 [
    | none ↦ n
    | some x ↦ dispatch (advance (record n { bg = (pop n.bg).1 }) x.time) x.payload
  ]

  unfoldable pub take_next : Network S A D → Network S A D
  take_next n = elim (pop n.sched).0 [
    | none ↦ n
    | some x ↦ dispatch (advance (record n { sched = (pop n.sched).1 }) x.time) x.payload
  ]

  -- one event no later than the limit, and whether there was one
  unfoldable pub step_until : Network S A D → ℕ → Bool × Network S A D
  step_until n limit =
      let n1 = settle n in
      let next = head_time n1.sched in
      let background = head_time n1.bg in
      if is_within background limit && is_before background next
      then (true, take_background n1)
      else if is_within next limit
      then (true, take_next n1)
      else (false, n1)

  unfoldable pub step : Network S A D → Bool × Network S A D
  step n =
      let (next, n1) = peek_next_time n in
      elim next [ none ↦ (false, n1) | some t ↦ step_until n1 t ]

  -- `runUntil`: whether it ended before it had handled `max` events (else it throws), how many there
  -- were, and the network
  unfoldable pub run_steps : ℕ → Network S A D → ℕ → ℕ → Bool × (ℕ × Network S A D)
  run_steps zero n time done =
      let (more, n1) = step_until n time in
      if more then (false, (suc done, n1)) else (true, (done, n1))
  run_steps (suc max) n time done =
      let (more, n1) = step_until n time in
      let rest = run_steps max n1 time (suc done) in if more then rest else (true, (done, n1))

  unfoldable pub run_until : Network S A D → ℕ → ℕ → Bool × (ℕ × Network S A D)
  run_until n time max =
      let (ended, (done, n1)) = run_steps (max - 1) n time 0 in
      if ended && ltb n1.now time
      then (ended, (done, record n1 { now = time }))
      else (ended, (done, n1))

  unfoldable pub run_to_idle : ℕ → Network S A D → ℕ → Bool × (ℕ × Network S A D)
  run_to_idle zero n done = (false, (done, n))
  run_to_idle (suc max) n done =
      let (more, n1) = step n in
      let rest = run_to_idle max n1 (suc done) in if more then rest else (true, (done, n1))
