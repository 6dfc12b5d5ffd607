-- ===== src/Network/Queues.antt =====
-- The queues of src/core/network.ts: none of their events is earlier than the clock.
use net_sim.Prelude.{
  ℕ, zero, suc, ◌<◌, ◌≤◌, ◌≡◌, refl, sym, ◌∙◌, ap, Bool, true, false, none, some, List, [], ◌∷◌,
  arith, ltb, leb, get_elem?, if◌then◌else◌, All, All-weaken, Option-cases, Bool-cases, inl, inr,
}
use net_sim.Scheduler.{Scheduled, Scheduler, less, push, pop, peek}
use net_sim.Scheduler.Items.{All-get_elem?, All-push, All-pop}
use net_sim.Scheduler.Earliest.{IsQueue, pushed, popped, apply, apply-IsQueue, pop-Earliest_of}
use net_sim.Scheduler.Size.{size-pop}
use net_sim.Network.Loop.{skip, head_time, is_within, is_before}

module _ {E : Type 0} where
  -- in heap order, and no event is earlier than `now`
  abbrev pub Timed : ℕ → Scheduler E → Type 0
  Timed now s = IsQueue s × All (λ x. now ≤ x.time) s.heap

  pub Timed-push :
      (now : ℕ) (s : Scheduler E) (time : ℕ) (payload : E) (priority : ℕ)
      → Timed now s
      → now ≤ time
      → Timed now (push s time payload priority).1
  unfolding apply
  Timed-push now s time payload priority v h = (
    apply-IsQueue s (pushed time payload priority) v.0,
    All-push (λ x. now ≤ x.time) s time payload priority h v.1,
  )

  pub Timed-popped : (now : ℕ) (s : Scheduler E) → Timed now s → Timed now (pop s).1
  unfolding apply
  Timed-popped now s v = (apply-IsQueue s popped v.0, All-pop (λ x. now ≤ x.time) s v.1)

  pub Timed-if :
      (b : Bool) (now : ℕ) (l r : Scheduler E)
      → Timed now l
      → Timed now r
      → Timed now (if b then l else r)
  Timed-if true now l r v w = v
  Timed-if false now l r v w = w

  time_of_first : (x y : Scheduled E) → less y x ≡ false → x.time ≤ y.time
  unfolding less
  time_of_first x y e = ground arith

  pub first-time :
      (s : Scheduler E) (x : Scheduled E)
      → IsQueue s
      → (pop s).0 ≡ some x
      → All (λ y. x.time ≤ y.time) s.heap
  first-time s x v e =
      All-weaken (λ y. less y x ≡ false) (λ y. x.time ≤ y.time) (time_of_first x) s.heap
        (pop-Earliest_of s x v e)

  pub Timed-pop :
      (now : ℕ) (s : Scheduler E) (x : Scheduled E)
      → Timed now s
      → (pop s).0 ≡ some x
      → (now ≤ x.time) × Timed x.time (pop s).1
  unfolding apply
  Timed-pop now s x v e = (
    All-get_elem? (λ y. now ≤ y.time) s.heap 0 x v.1 (sym (size-pop s).0 ∙ e),
    (apply-IsQueue s popped v.0, All-pop (λ y. x.time ≤ y.time) s (first-time s x v.0 e)),
  )

  pub Timed-skip :
      (test : E → Bool) (fuel : ℕ) (now : ℕ) (s : Scheduler E)
      → Timed now s
      → Timed now (skip test fuel s)
  unfolding skip
  Timed-skip test zero now s v = v
  Timed-skip test (suc fuel) now s v = elim (Option-cases (peek s)) [
    | inl e ↦ rw (e, skip) v
    | inr (x, e) ↦ elim (Bool-cases (test x.payload)) [
      | inl t ↦ rw (e, t, skip) (Timed-skip test fuel now (pop s).1 (Timed-popped now s v))
      | inr t ↦ rw (e, t, skip) v
    ]
  ]

  All-headless :
      (P : Scheduled E → Type 0) (h : List (Scheduled E)) → get_elem? h 0 ≡ none → All P h
  All-headless P [] e = tt
  All-headless P (x ∷ xs) e = absurd (cc)

  -- what holds of all times that are not earlier than the head's holds of the queue
  All-head :
      (P : Scheduled E → Type 0) (s : Scheduler E)
      → IsQueue s
      → ((x : Scheduled E) → peek s ≡ some x → (y : Scheduled E) → x.time ≤ y.time → P y)
      → All P s.heap
  All-head P s v f = elim (Option-cases (peek s)) [
    | inl e ↦ All-headless P s.heap e
    | inr (x, e) ↦
        All-weaken (λ y. x.time ≤ y.time) P (f x e) s.heap (first-time s x v ((size-pop s).0 ∙ e))
  ]

  -- A head that is not within the limit leaves nothing within it.
  pub head-late :
      (s : Scheduler E) (limit : ℕ)
      → IsQueue s
      → is_within (head_time s) limit ≡ false
      → All (λ y. limit < y.time) s.heap
  head-late s limit v e =
      All-head (λ y. limit < y.time) s v
        (λ x here y k.
          let front : head_time s ≡ some x.time = rw (here, head_time) refl in
          let late : leb x.time limit ≡ false = sym (ap (λ o. is_within o limit) front) ∙ e in
          ground (arith, late, k))

  -- A head that is not before a time leaves nothing before it.
  pub head-before :
      (s : Scheduler E) (t : ℕ)
      → IsQueue s
      → is_before (head_time s) (some t) ≡ false
      → All (λ y. t ≤ y.time) s.heap
  head-before s t v e =
      All-head (λ y. t ≤ y.time) s v
        (λ x here y k.
          let front : head_time s ≡ some x.time = rw (here, head_time) refl in
          let late : ltb x.time t ≡ false = sym (ap (λ o. is_before o (some t)) front) ∙ e in
          ground (arith, late, k))

  -- A head that a time is before leaves everything after that time.
  pub head-after :
      (s : Scheduler E) (t : ℕ)
      → IsQueue s
      → is_before (some t) (head_time s) ≡ true
      → All (λ y. t < y.time) s.heap
  head-after s t v e =
      All-head (λ y. t < y.time) s v
        (λ x here y k.
          let front : head_time s ≡ some x.time = rw (here, head_time) refl in
          let early : ltb t x.time ≡ true = sym (ap (λ o. is_before (some t) o) front) ∙ e in
          ground (arith, early, k))
