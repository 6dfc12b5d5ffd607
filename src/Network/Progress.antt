-- ===== src/Network/Progress.antt =====
-- The event loop of src/core/network.ts: events that will do something are not lost, and are handled.
use mathlib.Core.Option.{some-injective}
use mathlib.Core.Path.{subst}
use net_sim.Prelude.{
  nat_eq, ℕ, zero, suc, ◌≤◌, ◌≡◌, refl, sym, ap, ◌∙◌, Bool, true, false, not, ◌&&◌, none, some,
  List, [], ◌∷◌, arith, leb, ◌==◌, if◌then◌else◌, length, get_elem?, is_some, Option-cases,
  Bool-cases, inl, inr,
}
use net_sim.Scheduler.{Scheduled, Scheduler, size, peek, pop, count}
use net_sim.Scheduler.Size.{size-pop}
use net_sim.Scheduler.Count.{total, total-cons, weight, taken, count-pop}
use net_sim.Scheduler.Earliest.{total-headless}
use net_sim.Network.State.{Devices, SimEvent, deliver, fire, action, Network}
use net_sim.Network.Loop.{
  is_within, is_before, head_time, is_void, is_lost, is_dead_timer, skip, settle, step_until,
  peek_next_time, pending_events, step, run_to_idle,
}

module _ {E : Type 0} (test : E → Bool) where
  live : E → Bool
  live e = not (test e)

  abbrev live_event : Scheduled E → Bool
  live_event x = live x.payload

  -- Nothing that a queue keeps is skipped away.
  count-skip : (fuel : ℕ) (q : Scheduler E) → count live (skip test fuel q) ≡ count live q
  unfolding skip live
  count-skip zero q = refl
  count-skip (suc fuel) q = elim (Option-cases (peek q)) [
    | inl e ↦ rw (e, skip) refl
    | inr (x, e) ↦ elim (Bool-cases (test x.payload)) [
      | inl t ↦
          let gone : weight live_event x ≡ 0 = rw t refl in
          let front : (pop q).0 ≡ some x = (size-pop q).0 ∙ e in
          let left : taken live_event (pop q).0 ≡ weight live_event x =
            ap (taken live_event) front in
          rw (e, t, skip)
            (omega (arith, count-skip fuel (pop q).1, count-pop live_event q, gone, left))
      | inr t ↦ rw (e, t, skip) refl
    ]
  ]

  headless : (h : List (Scheduled E)) → length h ≤ 0 → get_elem? h 0 ≡ none
  headless [] k = refl
  headless (x ∷ xs) k = absurd (omega arith)

  -- What is in front after skipping is not skipped.
  pub skip-head :
      (fuel : ℕ) (q : Scheduler E) (x : Scheduled E)
      → size q ≤ fuel
      → peek (skip test fuel q) ≡ some x
      → test x.payload ≡ false
  unfolding skip
  skip-head zero q x k e = let gone = headless q.heap k in absurd (cc)
  skip-head (suc fuel) q x k e = elim (Option-cases (peek q)) [
    | inl f ↦ let same : peek (skip test (suc fuel) q) ≡ none = rw (f, skip) f in absurd (cc)
    | inr (y, f) ↦ elim (Bool-cases (test y.payload)) [
      | inl t ↦
          let same : skip test (suc fuel) q ≡ skip test fuel (pop q).1 = rw (f, t, skip) refl in
          skip-head fuel (pop q).1 x (omega (arith, (size-pop q).1)) (ap peek (sym same) ∙ e)
      | inr t ↦
          let same : skip test (suc fuel) q ≡ q = rw (f, t, skip) refl in
          let front : y ≡ x = some-injective y x (sym f ∙ ap peek (sym same) ∙ e) in
          subst (λ z. test z.payload ≡ false) front t
    ]
  ]

  -- A queue whose head is kept stays as it is.
  pub skip-kept :
      (fuel : ℕ) (q : Scheduler E) (x : Scheduled E)
      → peek q ≡ some x
      → test x.payload ≡ false
      → skip test fuel q ≡ q
  unfolding skip
  skip-kept zero q x e t = refl
  skip-kept (suc fuel) q x e t = rw (e, t, skip) refl

  count-front :
      (h : List (Scheduled E)) (x : Scheduled E)
      → get_elem? h 0 ≡ some x
      → live x.payload ≡ true
      → (total live_event h == 0) ≡ false
  count-front [] x e t = absurd (cc)
  count-front (y ∷ ys) x e t =
      let same : weight live_event y ≡ 1 =
        subst (λ z. weight live_event z ≡ 1) (sym (some-injective y x e)) (rw t refl) in
      ground (arith, total-cons live_event y ys, same)

  -- After skipping, a queue has a head if and only if it has something that is kept.
  skip-some :
      (fuel : ℕ) (q : Scheduler E)
      → size q ≤ fuel
      → is_some (head_time (skip test fuel q)) ≡ not (count live q == 0)
  skip-some fuel q k = elim (Option-cases (peek (skip test fuel q))) [
    | inl e ↦
        let front : is_some (head_time (skip test fuel q)) ≡ false = rw (e, head_time) refl in
        ground
          (arith, front, total-headless live_event (skip test fuel q).heap e, count-skip fuel q)
    | inr (x, e) ↦
        let front : is_some (head_time (skip test fuel q)) ≡ true = rw (e, head_time) refl in
        let kept : live x.payload ≡ true = unfold live in ground (arith, skip-head fuel q x k e) in
        ground (arith, front, count-front (skip test fuel q).heap x e kept, count-skip fuel q)
  ]

module _ {S A D : Type 0} where
  -- How many events are pending is how many of the queued ones will do something.
  pub pending_events-live :
      (n : Network S A D) → pending_events n ≡ count (λ e. not (is_void n e)) n.sched
  unfolding peek_next_time live
  pending_events-live n = count-skip (is_void n) (size n.sched) n.sched

  pub same_void :
      (n : Network S A D) (q : Scheduler (SimEvent A)) (e : SimEvent A)
      → is_void (record n { sched = q }) e ≡ is_void n e
  unfolding is_void is_lost is_dead_timer
  same_void n q (deliver id) = refl
  same_void n q (fire ref) = refl
  same_void n q (action id a) = refl

  step_until-more :
      (dev : Devices S A D) (n : Network S A D) (limit : ℕ)
      → is_within (head_time (settle n).sched) limit ≡ true
      → (step_until dev n limit).0 ≡ true
  unfolding step_until
  step_until-more dev n limit here =
      elim (Bool-cases (
        is_within (head_time (settle n).bg) limit
        && is_before (head_time (settle n).bg) (head_time (settle n).sched))) [
          | inl first ↦ rw (first, step_until) refl
          | inr later ↦ rw (later, here, step_until) refl
        ]

  -- `step` tells of an event exactly as long as one is pending.
  pub step-pending_events :
      (dev : Devices S A D) (n : Network S A D) → (step dev n).0 ≡ not (pending_events n == 0)
  unfolding step peek_next_time live
  step-pending_events dev n =
      let q = skip (is_void n) (size n.sched) n.sched in
      let there = skip-some (is_void n) (size n.sched) n.sched (omega arith) in
      let same = ap (λ k. not (k == 0)) (sym (pending_events-live n)) in
      elim (Option-cases (peek q)) [
        | inl e ↦
            let front : head_time q ≡ none = rw (e, head_time) refl in
            let idle : is_some (head_time q) ≡ false = rw (e, head_time) refl in
            rw (front, step) (sym idle ∙ there ∙ same)
        | inr (x, e) ↦
            let front : head_time q ≡ some x.time = rw (e, head_time) refl in
            let busy : is_some (head_time q) ≡ true = rw (e, head_time) refl in
            let now : leb x.time x.time ≡ true = ground arith in
            let n1 = record n { sched = q } in
            let alive = skip-head (is_void n) (size n.sched) n.sched x (omega arith) e in
            let kept = skip-kept (is_void n1) (size q) q x e (same_void n q x.payload ∙ alive) in
            let within =
              ap (λ s. is_within (head_time s) x.time) kept
              ∙ (ap (λ o. is_within o x.time) front ∙ now) in
            rw (front, step) (step_until-more dev n1 x.time within ∙ sym busy ∙ there ∙ same)
      ]

  pending_again : (n : Network S A D) → pending_events (peek_next_time n).1 ≡ pending_events n
  unfolding peek_next_time live
  pending_again n =
      let q = skip (is_void n) (size n.sched) n.sched in
      let tests : is_void (record n { sched = q }) ≡ is_void n = λ i e. same_void n q e i in
      pending_events-live (record n { sched = q }) ∙ ap (λ t. count (λ e. not (t e)) q) tests

  idle-if :
      (b : Bool) (done : ℕ) (m : Network S A D) (rest : Bool × (ℕ × Network S A D))
      → (b ≡ false → pending_events m ≡ 0)
      → (rest.0 ≡ true → pending_events rest.1.1 ≡ 0)
      → (if b then rest else (true, (done, m))).0 ≡ true
      → pending_events (if b then rest else (true, (done, m))).1.1 ≡ 0
  idle-if true done m rest f g e = g e
  idle-if false done m rest f g e = f refl

  step-idle :
      (dev : Devices S A D) (n : Network S A D)
      → (step dev n).0 ≡ false
      → pending_events (step dev n).1 ≡ 0
  unfolding step peek_next_time live
  step-idle dev n e =
      let q = skip (is_void n) (size n.sched) n.sched in
      let there = skip-some (is_void n) (size n.sched) n.sched (omega arith) in
      let same = ap (λ k. not (k == 0)) (sym (pending_events-live n)) in
      let quiet = sym (there ∙ same ∙ sym (step-pending_events dev n)) in
      elim (Option-cases (peek q)) [
        | inl f ↦
            let front : head_time q ≡ none = rw (f, head_time) refl in
            rw (front, step) (pending_again n ∙ ground (arith, step-pending_events dev n, e))
        | inr (x, f) ↦
            let busy : is_some (head_time q) ≡ true = rw (f, head_time) refl in
            let never : false ≡ true = sym e ∙ quiet ∙ busy in absurd (cc)
      ]

  -- A run that ends of itself, not after its `max` events, leaves nothing pending.
  pub run_to_idle-idle :
      (dev : Devices S A D) (max : ℕ) (n : Network S A D) (done : ℕ)
      → (run_to_idle dev max n done).0 ≡ true
      → pending_events (run_to_idle dev max n done).1.1 ≡ 0
  unfolding run_to_idle
  run_to_idle-idle dev zero n done e = absurd (cc)
  run_to_idle-idle dev (suc max) n done e =
      idle-if (step dev n).0 done (step dev n).1 (run_to_idle dev max (step dev n).1 (suc done))
        (step-idle dev n) (run_to_idle-idle dev max (step dev n).1 (suc done)) e
