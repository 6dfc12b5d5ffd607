-- ===== src/Network/Handling.antt =====
-- The event loop of src/core/network.ts: what handling an event is, and that a step does it.
use mathlib.Core.Path.{subst}
use net_sim.Prelude.{
  nat_eq, ℕ, suc, ◌<◌, ◌≤◌, ◌≡◌, refl, sym, ap, ◌∙◌, true, false, not, ◌==◌, ◌&&◌, Option, none,
  some, arith, leb, All, All-weaken, Option-cases, Bool-cases, inl, inr,
}
use net_sim.Scheduler.{Scheduled, size, peek, pop}
use net_sim.Scheduler.Size.{size-pop}
use net_sim.Network.State.{Devices, SimEvent, deliver, fire, action, Network}
use net_sim.Network.Loop.{
  is_within, is_before, head_time, is_void, is_lost, is_dead_timer, skip, settle, dispatch,
  take_background, take_next, step_until, peek_next_time, pending_events, step,
}
use net_sim.Network.Queues.{Timed-pop, Timed-skip, first-time, head-before, head-after}
use net_sim.Network.Clock.{Held, dispatch-Held}
use net_sim.Network.Steps.{Running, settle-Held, not_before}
use net_sim.Network.Progress.{skip-head, skip-kept, same_void, step-pending_events}

-- From `n`, an event of the time that is the index is handled, which gives `m`: it stands in front
-- of its queue, will do something, and none of either queue is earlier. It leaves its queue, the
-- clock goes to its time, it is counted, and it does what it does.
pub data Handles {S A D : Type 0} (dev : Devices S A D) (n m : Network S A D) : ℕ → Type 0 where
  ordinary :
      (x : Scheduled (SimEvent A))
      → peek n.sched ≡ some x
      → is_void n x.payload ≡ false
      → All (λ y. x.time ≤ y.time) n.sched.heap
      → All (λ y. x.time ≤ y.time) n.bg.heap
      → m
        ≡ dispatch dev
            (record n { sched = (pop n.sched).1; now = x.time; event_count = suc n.event_count })
            x.payload
      → Handles dev n m x.time
  background :
      (x : Scheduled (SimEvent A))
      → peek n.bg ≡ some x
      → is_void n x.payload ≡ false
      → All (λ y. x.time < y.time) n.sched.heap
      → All (λ y. x.time ≤ y.time) n.bg.heap
      → m
        ≡ dispatch dev
            (record n { bg = (pop n.bg).1; now = x.time; event_count = suc n.event_count })
            x.payload
      → Handles dev n m x.time

idle_before :
    (b t : Option ℕ) (limit : ℕ)
    → (is_within b limit && is_before b t) ≡ false
    → is_within t limit ≡ true
    → is_before b t ≡ false
idle_before b t limit p q = elim (Bool-cases (is_within b limit)) [
  | inl soon ↦ ground (arith, p, soon)
  | inr late ↦ not_before b t limit late q
]

module _ {S A D : Type 0} (dev : Devices S A D) where
  settled_void : (n : Network S A D) (e : SimEvent A) → is_void (settle n) e ≡ is_void n e
  unfolding is_void is_lost is_dead_timer
  settled_void n (deliver id) = refl
  settled_void n (fire ref) = refl
  settled_void n (action id a) = refl

  -- Handling an event sets the clock to its time, which is not before what the clock was.
  pub Handles-Held :
      (n m : Network S A D) (t : ℕ) → Running n → Handles dev n m t → (n.now ≤ t) × Held t m
  Handles-Held n m t (e, (v, w)) (ordinary x front here first others done) =
      let taken : (pop n.sched).0 ≡ some x = (size-pop n.sched).0 ∙ front in
      let (later, rest) = Timed-pop n.now n.sched x v taken in
      let moved : Network S A D = record n {
        sched = (pop n.sched).1;
        now = x.time;
        event_count = suc n.event_count;
      } in
      (
        later,
        subst (λ k. Held x.time k) (sym done)
            (dispatch-Held dev x.time moved x.payload (refl, (rest, (w.0, others)))),
      )
  Handles-Held n m t (e, (v, w)) (background x front here others first done) =
      let taken : (pop n.bg).0 ≡ some x = (size-pop n.bg).0 ∙ front in
      let (later, rest) = Timed-pop n.now n.bg x w taken in
      let moved : Network S A D = record n {
        bg = (pop n.bg).1;
        now = x.time;
        event_count = suc n.event_count;
      } in
      (
        later,
        subst (λ k. Held x.time k) (sym done)
            (dispatch-Held dev x.time moved x.payload (
              refl,
              (
                (
                  v.0,
                  All-weaken (λ y. x.time < y.time) (λ y. x.time ≤ y.time) (λ y k. omega (arith, k))
                      n.sched.heap others,
                ),
                rest,
              ),
            )),
      )

  take_background-Handles :
      (limit : ℕ) (n : Network S A D)
      → Running n
      → ((x : Scheduled (SimEvent A)) → peek n.bg ≡ some x → is_void n x.payload ≡ false)
      → is_within (head_time n.bg) limit ≡ true
      → is_before (head_time n.bg) (head_time n.sched) ≡ true
      → (t : ℕ) × ((t ≤ limit) × Handles dev n (take_background dev n) t)
  unfolding take_background
  take_background-Handles limit n (now, (v, w)) alive k b = elim (Option-cases (peek n.bg)) [
    | inl e ↦
        let front : head_time n.bg ≡ none = rw (e, head_time) refl in
        let never : false ≡ true = sym (ap (λ o. is_within o limit) front) ∙ k in absurd (cc)
    | inr (x, e) ↦
        let taken : (pop n.bg).0 ≡ some x = (size-pop n.bg).0 ∙ e in
        let front : head_time n.bg ≡ some x.time = rw (e, head_time) refl in
        let others =
          head-after n.sched x.time v.0
            (sym (ap (λ o. is_before o (head_time n.sched)) front) ∙ b) in
        let soon : leb x.time limit ≡ true = sym (ap (λ o. is_within o limit) front) ∙ k in
        (
          x.time,
          (
            ground (arith, soon),
            background x e (alive x e) others (first-time n.bg x w.0 taken)
                (rw (taken, take_background) refl),
          ),
        )
  ]

  take_next-Handles :
      (limit : ℕ) (n : Network S A D)
      → Running n
      → ((x : Scheduled (SimEvent A)) → peek n.sched ≡ some x → is_void n x.payload ≡ false)
      → is_within (head_time n.sched) limit ≡ true
      → is_before (head_time n.bg) (head_time n.sched) ≡ false
      → (t : ℕ) × ((t ≤ limit) × Handles dev n (take_next dev n) t)
  unfolding take_next
  take_next-Handles limit n (now, (v, w)) alive k b = elim (Option-cases (peek n.sched)) [
    | inl e ↦
        let front : head_time n.sched ≡ none = rw (e, head_time) refl in
        let never : false ≡ true = sym (ap (λ o. is_within o limit) front) ∙ k in absurd (cc)
    | inr (x, e) ↦
        let taken : (pop n.sched).0 ≡ some x = (size-pop n.sched).0 ∙ e in
        let front : head_time n.sched ≡ some x.time = rw (e, head_time) refl in
        let others =
          head-before n.bg x.time w.0 (sym (ap (λ o. is_before (head_time n.bg) o) front) ∙ b) in
        let soon : leb x.time limit ≡ true = sym (ap (λ o. is_within o limit) front) ∙ k in
        (
          x.time,
          (
            ground (arith, soon),
            ordinary x e (alive x e) (first-time n.sched x v.0 taken) others
                (rw (taken, take_next) refl),
          ),
        )
  ]

  settle-Running : (n : Network S A D) → Running n → Running (settle n)
  settle-Running n v = settle-Held n.now n v

  -- A step that tells of an event has handled one, no later than its limit.
  pub step_until-Handles :
      (n : Network S A D) (limit : ℕ)
      → Running n
      → (step_until dev n limit).0 ≡ true
      → (t : ℕ) × ((t ≤ limit) × Handles dev (settle n) (step_until dev n limit).1 t)
  unfolding step_until
  step_until-Handles n limit v more =
      let m = settle n in
      let next = head_time m.sched in
      let back = head_time m.bg in
      let alive : (x : Scheduled (SimEvent A))
          → peek m.sched ≡ some x
          → is_void m x.payload ≡ false =
        λ x e.
          settled_void n x.payload
          ∙ skip-head (is_void n) (size n.sched) n.sched x (omega arith) e in
      let behind : (x : Scheduled (SimEvent A)) → peek m.bg ≡ some x → is_void m x.payload ≡ false =
        λ x e.
          settled_void n x.payload ∙ skip-head (is_void n) (size n.bg) n.bg x (omega arith) e in
      elim (Bool-cases (is_within back limit && is_before back next)) [
        | inl first ↦
            rw (first, step_until)
              (take_background-Handles limit m (settle-Running n v) behind (ground (arith, first))
                (ground (arith, first)))
        | inr later ↦ elim (Bool-cases (is_within next limit)) [
          | inl here ↦
              rw (later, here, step_until)
                (take_next-Handles limit m (settle-Running n v) alive here
                  (idle_before back next limit later here))
          | inr far ↦
              let none_of : (step_until dev n limit).0 ≡ false = rw (later, far, step_until) refl in
              absurd (cc)
        ]
      ]

  -- Where nothing queued is earlier than the clock, `step` tells of an event exactly as long as one
  -- is pending, and then has handled one: it stood in front of its queue after what is void, was the
  -- earliest of both queues, and has done what it does with the clock at its time.
  pub step-progress :
      (n : Network S A D)
      → Running n
      → ((step dev n).0 ≡ not (pending_events n == 0))
        × ((step dev n).0 ≡ true → (t : ℕ) × Handles dev (settle n) (step dev n).1 t)
  unfolding step peek_next_time
  step-progress n v =
      let q = skip (is_void n) (size n.sched) n.sched in
      (
        step-pending_events dev n,
        λ more. elim (Option-cases (peek q)) [
          | inl e ↦
              let front : head_time q ≡ none = rw (e, head_time) refl in
              let idle : (step dev n).0 ≡ false = rw (front, step) refl in absurd (cc)
          | inr (x, e) ↦
              let front : head_time q ≡ some x.time = rw (e, head_time) refl in
              let n1 : Network S A D = record n { sched = q } in
              let alive = skip-head (is_void n) (size n.sched) n.sched x (omega arith) e in
              let kept = skip-kept (is_void n1) (size q) q x e (same_void n q x.payload ∙ alive) in
              let tests : is_void n1 ≡ is_void n = λ i y. same_void n q y i in
              let same : settle n1 ≡ settle n =
                λ i. record n { sched = kept i; bg = skip (tests i) (size n.bg) n.bg } in
              let moves : step dev n ≡ step_until dev n1 x.time = rw (front, step) refl in
              let held : Running n1 =
                (refl, (Timed-skip (is_void n) (size n.sched) n.now n.sched v.1.0, v.1.1)) in
              let (t, (soon, handled)) =
                step_until-Handles n1 x.time held (sym (ap (λ r. r.0) moves) ∙ more) in
              (
                t,
                subst (λ r. Handles dev (settle n) r.1 t) (sym moves)
                    (subst (λ k. Handles dev k (step_until dev n1 x.time).1 t) same handled),
              )
        ],
      )
