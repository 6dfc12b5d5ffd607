-- ===== src/Scheduler/Earliest.antt =====
-- What is taken, and in which order.
use mathlib.Core.Path.{subst}
use mathlib.Core.Option.{some-injective}
use net_sim.Prelude.{
  ℕ, zero, suc, ◌+◌, ◌<◌, ◌≤◌, ◌≡◌, ◌⊎◌, refl, sym, ap, ◌∙◌, Bool, true, false, none, some, List,
  [], ◌∷◌, arith, ◌==◌, length, get_elem?, All, Option-cases, Bool-cases, inl, inr,
}
use net_sim.Scheduler.{Scheduled, Scheduler, less, push, pop, size}
use net_sim.Scheduler.Items.{All-get_elem?, All-pop}
use net_sim.Scheduler.Heap.{at, IsHeap, root_first}
use net_sim.Scheduler.Heap.Up.{push-IsHeap}
use net_sim.Scheduler.Heap.Down.{pop-IsHeap}
use net_sim.Scheduler.Size.{size-pop}
use net_sim.Scheduler.Count.{total, total-cons, weight, taken, count-pop, count-push}

module _ {A : Type 0} where
  -- `x` comes before no later than any event of the list
  abbrev pub Earliest : Scheduled A → List (Scheduled A) → Type 0
  Earliest x = All (λ y. less y x ≡ false)

  All-from_index :
      (P : Scheduled A → Type 0) (d : Scheduled A) (h : List (Scheduled A))
      → ((i : ℕ) → i < length h → P (at d h i))
      → All P h
  unfolding at
  All-from_index P d [] f = tt
  All-from_index P d (x ∷ xs) f =
      (f 0 (omega arith), All-from_index P d xs (λ i p. f (suc i) (omega arith)))

  pub head-Earliest :
      (d : Scheduled A) (h : List (Scheduled A)) (x : Scheduled A)
      → IsHeap d h
      → get_elem? h 0 ≡ some x
      → Earliest x h
  head-Earliest d [] x v e = tt
  head-Earliest d (y ∷ ys) x v e =
      subst (λ z. Earliest z (y ∷ ys)) (some-injective y x e)
        (All-from_index (λ z. less z y ≡ false) d (y ∷ ys)
          (λ i p. unfold at in root_first d (y ∷ ys) i v p))

  -- The array is in heap order, whatever stands for an event out of range.
  abbrev pub IsQueue : Scheduler A → Type 0
  IsQueue s = (d : Scheduled A) → IsHeap d s.heap

  abbrev pub new : Scheduler A
  new = record { heap = []; seq = 0 }

-- a call of the queue
pub data Op (A : Type 0) : Type 0 where
  pushed : ℕ → A → ℕ → Op A
  popped : Op A

module _ {A : Type 0} where
  unfoldable pub apply : Scheduler A → Op A → Scheduler A
  apply s (pushed time payload priority) = (push s time payload priority).1
  apply s popped = (pop s).1

  -- the queue after a list of calls
  unfoldable pub after : Scheduler A → List (Op A) → Scheduler A
  after s [] = s
  after s (op ∷ ops) = after (apply s op) ops

  -- what is taken by `n` calls of `pop`
  unfoldable pub drain : ℕ → Scheduler A → List (Scheduled A)
  drain zero s = []
  drain (suc n) s = let rest = drain n (pop s).1 in elim (pop s).0 [ none ↦ [] | some x ↦ x ∷ rest ]

  -- the events that a list of calls pushes, numbered from a number on
  abbrev pub items : ℕ → List (Op A) → List (Scheduled A)
  items k [] = []
  items k (pushed time payload priority ∷ ops) =
      record { time = time; priority = priority; seq = k; payload = payload } ∷ items (suc k) ops
  items k (popped ∷ ops) = items k ops

  -- what the calls take
  abbrev pub outs : Scheduler A → List (Op A) → List (Scheduled A)
  outs s [] = []
  outs s (pushed time payload priority ∷ ops) = outs (push s time payload priority).1 ops
  outs s (popped ∷ ops) =
      let rest = outs (pop s).1 ops in elim (pop s).0 [ none ↦ rest | some x ↦ x ∷ rest ]

  -- earlier, or as early and of a lower priority number, or equal in both and pushed before
  abbrev pub Before : Scheduled A → Scheduled A → Type 0
  Before x y =
      (x.time < y.time)
      ⊎ ((x.time ≡ y.time)
          × ((x.priority < y.priority) ⊎ ((x.priority ≡ y.priority) × (x.seq < y.seq))))

  -- Each event comes before all that follow it.
  abbrev pub InOrder : List (Scheduled A) → Type 0
  InOrder [] = Unit
  InOrder (x ∷ xs) = All (Before x) xs × InOrder xs

  -- no two events have the same number
  abbrev pub Distinct : List (Scheduled A) → Type 0
  Distinct h = (n : ℕ) → total (λ x. x.seq == n) h ≤ 1

  pub apply-IsQueue : (s : Scheduler A) (op : Op A) → IsQueue s → IsQueue (apply s op)
  unfolding apply
  apply-IsQueue s (pushed time payload priority) v =
      λ d. push-IsHeap d s time payload priority (v d)
  apply-IsQueue s popped v = λ d. pop-IsHeap d s (v d)

  pub after-IsQueue : (ops : List (Op A)) (s : Scheduler A) → IsQueue s → IsQueue (after s ops)
  unfolding after
  after-IsQueue [] s v = v
  after-IsQueue (op ∷ ops) s v = after-IsQueue ops (apply s op) (apply-IsQueue s op v)

  pub new-IsQueue : IsQueue (new {A = A})
  new-IsQueue = λ d c p q. absurd (omega arith)

  pub pop-Earliest_of :
      (s : Scheduler A) (x : Scheduled A) → IsQueue s → (pop s).0 ≡ some x → Earliest x s.heap
  pop-Earliest_of s x v e = head-Earliest x s.heap x (v x) (sym (size-pop s).0 ∙ e)

  All-drain :
      (P : Scheduled A → Type 0) (n : ℕ) (s : Scheduler A) → All P s.heap → All P (drain n s)
  unfolding drain
  All-drain P zero s all = tt
  All-drain P (suc n) s all = elim (Option-cases (pop s).0) [
    | inl empty ↦ rw (empty, drain) tt
    | inr (x, e) ↦
        rw (e, drain)
          (
            All-get_elem? P s.heap 0 x all (sym (size-pop s).0 ∙ e),
            All-drain P n (pop s).1 (All-pop P s all),
          )
  ]

  before : (x y : Scheduled A) → less y x ≡ false → (y.seq == x.seq) ≡ false → Before x y
  unfolding less
  before x y e d = ground arith

  All-none :
      (test : Scheduled A → Bool) (h : List (Scheduled A))
      → total test h ≡ 0
      → All (λ y. test y ≡ false) h
  All-none test [] e = tt
  All-none test (y ∷ ys) e = elim (Bool-cases (test y)) [
    | inl t ↦
        let one : weight test y ≡ 1 = rw t refl in
        absurd (omega (arith, total-cons test y ys, one, e))
    | inr t ↦ (t, All-none test ys (omega (arith, total-cons test y ys, e)))
  ]

  All-both :
      (P Q R : Scheduled A → Type 0) (h : List (Scheduled A))
      → ((y : Scheduled A) → P y → Q y → R y)
      → All P h
      → All Q h
      → All R h
  All-both P Q R [] f v w = tt
  All-both P Q R (y ∷ ys) f v w = (f y v.0 w.0, All-both P Q R ys f v.1 w.1)

  Distinct-pop : (s : Scheduler A) → Distinct s.heap → Distinct (pop s).1.heap
  Distinct-pop s d n = omega (arith, d n, count-pop (λ x. x.seq == n) s)

  pop-Before :
      (s : Scheduler A) (x : Scheduled A)
      → IsQueue s
      → Distinct s.heap
      → (pop s).0 ≡ some x
      → All (Before x) (pop s).1.heap
  pop-Before s x v d e =
      let same : (x.seq == x.seq) ≡ true = ground arith in
      let one : weight (λ y. y.seq == x.seq) x ≡ 1 = rw same refl in
      let left : taken (λ y. y.seq == x.seq) (pop s).0 ≡ 1 =
        ap (taken (λ y. y.seq == x.seq)) e ∙ one in
      All-both (λ y. less y x ≡ false) (λ y. (y.seq == x.seq) ≡ false) (Before x) (pop s).1.heap
        (before x) (All-pop (λ y. less y x ≡ false) s (pop-Earliest_of s x v e))
        (All-none (λ y. y.seq == x.seq) (pop s).1.heap
          (omega (arith, left, d x.seq, count-pop (λ y. y.seq == x.seq) s)))

  drain-InOrder : (n : ℕ) (s : Scheduler A) → IsQueue s → Distinct s.heap → InOrder (drain n s)
  unfolding drain
  drain-InOrder zero s v d = tt
  drain-InOrder (suc n) s v d = elim (Option-cases (pop s).0) [
    | inl empty ↦ rw (empty, drain) tt
    | inr (x, e) ↦
        rw (e, drain)
          (
            All-drain (Before x) n (pop s).1 (pop-Before s x v d e),
            drain-InOrder n (pop s).1 (λ d. pop-IsHeap d s (v d)) (Distinct-pop s d),
          )
  ]

  total-empty :
      (test : Scheduled A → Bool) (h : List (Scheduled A)) → length h ≤ 0 → total test h ≡ 0
  total-empty test [] k = refl
  total-empty test (x ∷ xs) k = absurd (omega arith)

  pub total-headless :
      (test : Scheduled A → Bool) (h : List (Scheduled A)) → get_elem? h 0 ≡ none → total test h ≡ 0
  total-headless test [] e = refl
  total-headless test (x ∷ xs) e = absurd (cc)

  drain-total :
      (test : Scheduled A → Bool) (n : ℕ) (s : Scheduler A)
      → size s ≤ n
      → total test (drain n s) ≡ total test s.heap
  unfolding drain
  drain-total test zero s h = sym (total-empty test s.heap h)
  drain-total test (suc n) s h = elim (Option-cases (pop s).0) [
    | inl empty ↦ rw (empty, drain) (sym (total-headless test s.heap (sym (size-pop s).0 ∙ empty)))
    | inr (x, e) ↦
        let left : taken test (pop s).0 ≡ weight test x = ap (taken test) e in
        rw (e, drain)
          (omega (
            arith,
            total-cons test x (drain n (pop s).1),
            drain-total test n (pop s).1 (omega (arith, (size-pop s).1)),
            count-pop test s,
            left,
          ))
  ]

  -- After any calls of a new queue, `pop` takes an event that no event of the queue comes before.
  pub pop-Earliest :
      (ops : List (Op A)) (x : Scheduled A)
      → (pop (after new ops)).0 ≡ some x
      → Earliest x (after new ops).heap
  pop-Earliest ops x e = pop-Earliest_of (after new ops) x (after-IsQueue ops new new-IsQueue) e

  -- What is queued at first and what is pushed is what the calls take and what stays.
  after-total :
      (test : Scheduled A → Bool) (s : Scheduler A) (ops : List (Op A))
      → total test (outs s ops) + total test (after s ops).heap
        ≡ total test s.heap + total test (items s.seq ops)
  unfolding after apply
  after-total test s [] = omega arith
  after-total test s (pushed time payload priority ∷ ops) =
      let item : Scheduled A = record {
        time = time;
        priority = priority;
        seq = s.seq;
        payload = payload;
      } in
      let m = (push s time payload priority).1 in
      let next : total test (items m.seq ops) ≡ total test (items (suc s.seq) ops) =
        ap (λ k. total test (items k ops)) (unfold push in refl) in
      omega (
        arith,
        after-total test m ops,
        count-push test s time payload priority,
        next,
        total-cons test item (items (suc s.seq) ops),
      )
  after-total test s (popped ∷ ops) =
      let next : total test (items (pop s).1.seq ops) ≡ total test (items s.seq ops) =
        unfold pop in refl in
      elim (Option-cases (pop s).0) [
        | inl e ↦
            let left : taken test (pop s).0 ≡ 0 = ap (taken test) e in
            rw (e, outs)
              (omega (arith, after-total test (pop s).1 ops, count-pop test s, next, left))
        | inr (x, e) ↦
            let left : taken test (pop s).0 ≡ weight test x = ap (taken test) e in
            rw (e, outs)
              (omega (
                arith,
                after-total test (pop s).1 ops,
                count-pop test s,
                next,
                left,
                total-cons test x (outs (pop s).1 ops),
              ))
      ]

  items-numbered :
      (n k : ℕ) (ops : List (Op A))
      → (total (λ x. x.seq == n) (items k ops) ≤ 1)
        × (n < k → total (λ x. x.seq == n) (items k ops) ≡ 0)
  items-numbered n k [] = (omega arith, λ p. refl)
  items-numbered n k (popped ∷ ops) = items-numbered n k ops
  items-numbered n k (pushed time payload priority ∷ ops) =
      let (low, none_of) = items-numbered n (suc k) ops in
      elim (Bool-cases (k == n)) [
        | inl e ↦
            let gone = none_of (ground (arith, e)) in
            rw e (omega (arith, gone), λ p. ground (arith, e, p))
        | inr e ↦ rw e (low, λ p. none_of (omega (arith, p)))
      ]

  -- After any calls of a new queue, taking all its events gives them strictly in the order of time,
  -- then priority, then insertion. Nothing is lost, doubled or changed, counted by any test: what
  -- the calls took and what is taken then are together the events that the calls pushed, numbered
  -- in the order of the calls.
  pub drain-sorts :
      (ops : List (Op A)) (test : Scheduled A → Bool)
      → InOrder (drain (size (after new ops)) (after new ops))
        × (total test (outs new ops) + total test (drain (size (after new ops)) (after new ops))
            ≡ total test (items 0 ops))
  drain-sorts ops test =
      let s = after new ops in
      (
        drain-InOrder (size s) s (after-IsQueue ops new new-IsQueue)
            (λ n. omega (arith, after-total (λ x. x.seq == n) new ops, (items-numbered n 0 ops).0)),
        omega (arith, after-total test new ops, drain-total test (size s) s (omega arith)),
      )
