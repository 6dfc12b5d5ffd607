-- ===== src/Scheduler/Count.antt =====
-- Which events are queued, counted by a test.
use net_sim.Prelude.{
  ℕ, zero, suc, ◌+◌, ◌-◌, ◌/◌, ◌≡◌, refl, ◌∙◌, Bool, Option, none, some, List, [], ◌∷◌, ◌++◌, arith,
  if◌then◌else◌, length, get_elem?, set, keep, Option-cases, inl, inr,
}
use net_sim.Scheduler.{
  Scheduled, Scheduler, swap, sift_up, least_child, sift_down, push, last_of, but_last, refill,
  pop_heap, pop,
}

module _ {A : Type 0} (test : Scheduled A → Bool) where
  abbrev pub total : List (Scheduled A) → ℕ
  total h = length (keep test h)

  -- what one event adds to a count
  abbrev pub weight : Scheduled A → ℕ
  weight x = if test x then 1 else 0

  total-set :
      (h : List (Scheduled A)) (i : ℕ) (a v : Scheduled A)
      → get_elem? h i ≡ some a
      → total (set h i v) + weight a ≡ total h + weight v
  total-set [] i a v e = absurd (cc)
  total-set (x ∷ xs) zero a v e = ground arith
  total-set (x ∷ xs) (suc i) a v e = ground (arith, total-set xs i a v e)

  get_elem?-set :
      (h : List (Scheduled A)) (i j : ℕ) (b : Scheduled A)
      → get_elem? h j ≡ some b
      → get_elem? (set h i b) j ≡ some b
  get_elem?-set [] i j b e = e
  get_elem?-set (x ∷ xs) zero zero b e = refl
  get_elem?-set (x ∷ xs) zero (suc j) b e = e
  get_elem?-set (x ∷ xs) (suc i) zero b e = e
  get_elem?-set (x ∷ xs) (suc i) (suc j) b e = get_elem?-set xs i j b e

  total-swap : (h : List (Scheduled A)) (i j : ℕ) → total (swap h i j) ≡ total h
  unfolding swap
  total-swap h i j = elim (Option-cases (get_elem? h i)) [
    | inl missing ↦ rw (missing, swap) refl
    | inr (a, found) ↦ elim (Option-cases (get_elem? h j)) [
      | inl missing ↦ rw (found, missing, swap) refl
      | inr (b, other) ↦
          rw (found, other, swap)
            (omega (
              arith,
              total-set h i a b found,
              total-set (set h i b) j b a (get_elem?-set h i j b other),
            ))
    ]
  ]

  total-sift_up : (fuel : ℕ) (h : List (Scheduled A)) (i : ℕ) → total (sift_up fuel h i) ≡ total h
  unfolding sift_up
  total-sift_up zero h i = refl
  total-sift_up (suc fuel) h i = ground (
    arith,
    total-sift_up fuel (swap h i ((i - 1) / 2)) ((i - 1) / 2),
    total-swap h i ((i - 1) / 2),
  )

  total-sift_down :
      (fuel : ℕ) (h : List (Scheduled A)) (i : ℕ) → total (sift_down fuel h i) ≡ total h
  unfolding sift_down
  total-sift_down zero h i = refl
  total-sift_down (suc fuel) h i = ground (
    arith,
    total-sift_down fuel (swap h i (least_child h i)) (least_child h i),
    total-swap h i (least_child h i),
  )

  pub total-cons :
      (x : Scheduled A) (xs : List (Scheduled A)) → total (x ∷ xs) ≡ weight x + total xs
  total-cons x xs = ground arith

  total-snoc :
      (xs : List (Scheduled A)) (x : Scheduled A) → total (xs ++ x ∷ []) ≡ total xs + weight x
  total-snoc [] x = ground arith
  total-snoc (y ∷ ys) x = ground (arith, total-snoc ys x)

  total-but_last :
      (x : Scheduled A) (xs : List (Scheduled A))
      → total (but_last x xs) + weight (last_of x xs) ≡ weight x + total xs
  total-but_last x [] = ground arith
  total-but_last x (y ∷ ys) =
      omega (arith, total-but_last y ys, total-cons x (but_last y ys), total-cons y ys)

  total-refill :
      (x : Scheduled A) (xs : List (Scheduled A))
      → total (refill (last_of x xs) (but_last x xs)) ≡ total xs
  unfolding refill
  total-refill x [] = refl
  total-refill x (y ∷ ys) = omega (
    arith,
    total-sift_down (length (x ∷ but_last y ys)) (last_of y ys ∷ but_last y ys) 0,
    total-cons (last_of y ys) (but_last y ys),
    total-but_last y ys,
    total-cons y ys,
  )

  -- No event is lost or doubled by pushing: of the events that satisfy a test, there are as many as
  -- before, and one more if the new one does.
  pub count-push :
      (s : Scheduler A) (time : ℕ) (payload : A) (priority : ℕ)
      → total (push s time payload priority).1.heap
        ≡ total s.heap
          + weight (record { time = time; priority = priority; seq = s.seq; payload = payload })
  unfolding push
  count-push s time payload priority = total-sift_up _ _ _ ∙ total-snoc s.heap _

  -- the weight of the event taken, if there is one
  abbrev pub taken : Option (Scheduled A) → ℕ
  taken none = 0
  taken (some x) = weight x

  total-pop_heap : (h : List (Scheduled A)) → taken (pop_heap h).0 + total (pop_heap h).1 ≡ total h
  unfolding pop_heap
  total-pop_heap [] = refl
  total-pop_heap (x ∷ xs) = omega (arith, total-refill x xs, total-cons x xs)

  -- No event is lost or doubled by taking one: of the events that satisfy a test, the one taken
  -- and those that stay are together as many as before.
  pub count-pop : (s : Scheduler A) → taken (pop s).0 + total (pop s).1.heap ≡ total s.heap
  unfolding pop
  count-pop s = total-pop_heap s.heap
