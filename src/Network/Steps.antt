-- ===== src/Network/Steps.antt =====
-- The event loop of src/core/network.ts: what a step and a run leave.
use net_sim.Prelude.{
  ℕ, zero, suc, ◌+◌, ◌-◌, ◌<◌, ◌≤◌, ◌≡◌, refl, Bool, true, false, ◌&&◌, Option, none, some, arith,
  ltb, if◌then◌else◌, All, All-weaken, Bool-cases, inl, inr,
}
use net_sim.Scheduler.{size}
use net_sim.Network.State.{Devices, Network}
use net_sim.Network.Loop.{
  is_within, is_before, head_time, is_void, settle, step_until, run_steps, run_until,
}
use net_sim.Network.Queues.{Timed-skip, head-late}
use net_sim.Network.Clock.{Held, Reached, take_background-Reached, take_next-Reached}

not_within :
    (b t : Option ℕ) (limit : ℕ)
    → is_within b limit ≡ true
    → is_before b t ≡ false
    → is_within t limit ≡ false
    → ⊥
not_within none t limit p q r = ground arith
not_within (some b) none limit p q r = ground arith
not_within (some b) (some t) limit p q r = ground arith

pub not_before :
    (b t : Option ℕ) (limit : ℕ)
    → is_within b limit ≡ false
    → is_within t limit ≡ true
    → is_before b t ≡ false
not_before none t limit p q = refl
not_before (some b) none limit p q = absurd (cc)
not_before (some b) (some t) limit p q = ground arith

-- the later of two times
abbrev pub later : ℕ → ℕ → ℕ
later a b = if ltb a b then b else a

module _ {S A D : Type 0} where
  pub settle-Held : (t : ℕ) (n : Network S A D) → Held t n → Held t (settle n)
  settle-Held t n (e, (v, w)) = (
    e,
    (
      Timed-skip (is_void n) (size n.sched) t n.sched v,
      Timed-skip (is_void n) (size n.bg) t n.bg w,
    ),
  )

  -- everything that is queued is later than a time
  abbrev pub After : ℕ → Network S A D → Type 0
  After limit n = All (λ x. limit < x.time) n.sched.heap × All (λ x. limit < x.time) n.bg.heap

  -- what a step from `t` with a limit leaves
  abbrev pub Stepped : ℕ → ℕ → Bool × Network S A D → Type 0
  Stepped t limit (more, m) =
      (more ≡ true → Reached t limit m) × (more ≡ false → Held t m × After limit m)

  pub step_until-Stepped :
      (dev : Devices S A D) (t limit : ℕ) (n : Network S A D)
      → Held t n
      → Stepped t limit (step_until dev n limit)
  unfolding step_until
  step_until-Stepped dev t limit n v =
      let held = settle-Held t n v in
      let next = head_time (settle n).sched in
      let back = head_time (settle n).bg in
      elim (Bool-cases (is_within back limit)) [
        | inl soon ↦ elim (Bool-cases (is_before back next)) [
          | inl first ↦
              rw (soon, first, step_until)
                (
                  (λ e. take_background-Reached dev t limit (settle n) held soon first),
                  λ e. absurd (cc),
                )
          | inr later ↦ elim (Bool-cases (is_within next limit)) [
            | inl here ↦
                rw (soon, later, here, step_until)
                  (
                    (λ e. take_next-Reached dev t limit (settle n) held here later),
                    λ e. absurd (cc),
                  )
            | inr far ↦ absurd (not_within back next limit soon later far)
          ]
        ]
        | inr late ↦ elim (Bool-cases (is_within next limit)) [
          | inl here ↦
              rw (late, here, step_until)
                (
                  (λ e.
                      take_next-Reached dev t limit (settle n) held here
                        (not_before back next limit late here)),
                  λ e. absurd (cc),
                )
          | inr far ↦
              rw (late, far, step_until)
                (
                  (λ e. absurd (cc)),
                  λ e. (
                    held,
                    (
                      head-late (settle n).sched limit held.1.0.0 far,
                      head-late (settle n).bg limit held.1.1.0 late,
                    ),
                  ),
                )
        ]
      ]

  -- What `max` steps up to a time leave: the clock is the later of two times at most.
  abbrev pub Ran : ℕ → ℕ → Bool × (ℕ × Network S A D) → Type 0
  Ran t time (ended, (done, m)) =
      (t ≤ m.now) × ((m.now ≤ t + (time - t)) × (Held m.now m × (ended ≡ true → After time m)))

  Ran-if :
      (b : Bool) (t time done : ℕ) (m : Network S A D) (rest : Bool × (ℕ × Network S A D))
      → Stepped t time (b, m)
      → (Reached t time m → Ran m.now time rest)
      → Ran t time (if b then rest else (true, (done, m)))
  Ran-if true t time done m rest v f =
      let r = v.0 refl in
      let after = f r in
      (omega (arith, r.0, after.0), (omega (arith, r.0, r.1.0, after.1.0), after.1.1))
  Ran-if false t time done m rest v f =
      let (held, after) = v.1 refl in
      (omega (arith, held.0), (omega (arith, held.0), ((refl, rw held.0 held.1), λ e. after)))

  run_steps-Ran :
      (dev : Devices S A D) (max t : ℕ) (n : Network S A D) (time done : ℕ)
      → Held t n
      → Ran t time (run_steps dev max n time done)
  unfolding run_steps
  run_steps-Ran dev zero t n time done v =
      let m = (step_until dev n time).1 in
      Ran-if (step_until dev n time).0 t time done m (false, (suc done, m))
        (step_until-Stepped dev t time n v)
        (λ r. (omega arith, (omega arith, (r.1.1, λ e. absurd (cc)))))
  run_steps-Ran dev (suc max) t n time done v =
      let m = (step_until dev n time).1 in
      Ran-if (step_until dev n time).0 t time done m (run_steps dev max m time (suc done))
        (step_until-Stepped dev t time n v)
        (λ r. run_steps-Ran dev max m.now m time (suc done) r.1.1)

  -- nothing that is queued is earlier than the clock
  abbrev pub Running : Network S A D → Type 0
  Running n = Held n.now n

  After-Timed :
      (now time : ℕ) (n : Network S A D)
      → Held now n
      → After time n
      → Held time (record n { now = time })
  After-Timed now time n (e, (v, w)) (a, b) = (
    refl,
    (
      (
        v.0,
        All-weaken (λ x. time < x.time) (λ x. time ≤ x.time) (λ x k. omega (arith, k)) n.sched.heap
            a,
      ),
      (
        w.0,
        All-weaken (λ x. time < x.time) (λ x. time ≤ x.time) (λ x k. omega (arith, k)) n.bg.heap b,
      ),
    ),
  )

  Settled : ℕ → ℕ → Bool × (ℕ × Network S A D) → Type 0
  Settled t time (ended, (done, m)) =
      (t ≤ m.now) × (Running m × (ended ≡ true → (m.now ≡ later t time) × After time m))

  Settled-if :
      (b : Bool) (t time done : ℕ) (m : Network S A D)
      → Ran t time (b, (done, m))
      → Settled t time
          (if b && ltb m.now time then (b, (done, record m { now = time })) else (b, (done, m)))
  unfolding Settled
  Settled-if b t time done m (low, (high, (held, after))) = elim (Bool-cases b) [
    | inl ended ↦ elim (Bool-cases (ltb m.now time)) [
      | inl early ↦
          rw (ended, early)
            (
              ground (arith, low, early),
              (
                After-Timed m.now time m held (after ended),
                λ e. (ground (arith, low, high, early), after ended),
              ),
            )
      | inr late ↦
          rw (ended, late) (low, (held, λ e. (ground (arith, low, high, late), after ended)))
    ]
    | inr thrown ↦ rw thrown (low, (held, λ e. absurd (cc)))
  ]

  -- A run up to `time` never sets the clock back, and leaves nothing queued that is earlier than
  -- the clock. One that does not throw (it throws after `max` events) leaves the clock at the later
  -- of `time` and what it was, and everything still queued is later than `time`.
  pub run_until-settles :
      (dev : Devices S A D) (n : Network S A D) (time max : ℕ)
      → Running n
      → (n.now ≤ (run_until dev n time max).1.1.now)
        × (Running (run_until dev n time max).1.1
            × ((run_until dev n time max).0 ≡ true
                → ((run_until dev n time max).1.1.now ≡ later n.now time)
                  × After time (run_until dev n time max).1.1))
  unfolding run_until Settled
  run_until-settles dev n time max v =
      let r = run_steps dev (max - 1) n time 0 in
      Settled-if r.0 n.now time r.1.0 r.1.1 (run_steps-Ran dev (max - 1) n.now n time 0 v)
