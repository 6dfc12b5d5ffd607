-- ===== src/Scheduler/Size.antt =====
-- How many events are queued.
use net_sim.Prelude.{
  ℕ, zero, suc, ◌-◌, ◌/◌, ◌≡◌, refl, ap, ◌∙◌, List, [], ◌∷◌, ◌++◌, arith, length, get_elem?, set,
  Option-cases, inl, inr,
}
use net_sim.Scheduler.{
  Scheduled, Scheduler, swap, sift_up, least_child, sift_down, size, peek, push, last_of, but_last,
  refill, pop_heap, pop,
}

module _ {A : Type 0} where
  pub length-set :
      (xs : List (Scheduled A)) (i : ℕ) (v : Scheduled A) → length (set xs i v) ≡ length xs
  length-set [] i v = refl
  length-set (x ∷ xs) zero v = refl
  length-set (x ∷ xs) (suc i) v = ap suc (length-set xs i v)

  pub length-swap : (h : List (Scheduled A)) (i j : ℕ) → length (swap h i j) ≡ length h
  unfolding swap
  length-swap h i j = elim (Option-cases (get_elem? h i)) [
    | inl missing ↦ ground arith
    | inr (a, found) ↦ elim (Option-cases (get_elem? h j)) [
      | inl missing ↦ ground arith
      | inr (b, other) ↦ ground (arith, length-set (set h i b) j a, length-set h i b)
    ]
  ]

  pub length-sift_up :
      (fuel : ℕ) (h : List (Scheduled A)) (i : ℕ) → length (sift_up fuel h i) ≡ length h
  unfolding sift_up
  length-sift_up zero h i = refl
  length-sift_up (suc fuel) h i = ground (
    arith,
    length-sift_up fuel (swap h i ((i - 1) / 2)) ((i - 1) / 2),
    length-swap h i ((i - 1) / 2),
  )

  pub length-sift_down :
      (fuel : ℕ) (h : List (Scheduled A)) (i : ℕ) → length (sift_down fuel h i) ≡ length h
  unfolding sift_down
  length-sift_down zero h i = refl
  length-sift_down (suc fuel) h i = ground (
    arith,
    length-sift_down fuel (swap h i (least_child h i)) (least_child h i),
    length-swap h i (least_child h i),
  )

  pub length-snoc :
      (xs : List (Scheduled A)) (x : Scheduled A) → length (xs ++ x ∷ []) ≡ suc (length xs)
  length-snoc [] x = refl
  length-snoc (y ∷ ys) x = ap suc (length-snoc ys x)

  pub length-but_last :
      (x : Scheduled A) (xs : List (Scheduled A)) → length (but_last x xs) ≡ length xs
  length-but_last x [] = refl
  length-but_last x (y ∷ ys) = ap suc (length-but_last y ys)

  length-refill :
      (last : Scheduled A) (xs : List (Scheduled A)) → length (refill last xs) ≡ length xs
  unfolding refill
  length-refill last [] = refl
  length-refill last (x ∷ xs) = length-sift_down (length (x ∷ xs)) (last ∷ xs) 0

  -- An event that is pushed makes the queue longer by one, under the next number.
  pub size-push :
      (s : Scheduler A) (time : ℕ) (payload : A) (priority : ℕ)
      → (size (push s time payload priority).1 ≡ suc (size s))
        × ((push s time payload priority).0.seq ≡ s.seq)
        × ((push s time payload priority).1.seq ≡ suc s.seq)
  unfolding push
  size-push s time payload priority = (length-sift_up _ _ _ ∙ length-snoc s.heap _, refl, refl)

  pop_heap-length :
      (h : List (Scheduled A))
      → ((pop_heap h).0 ≡ get_elem? h 0) × (length (pop_heap h).1 ≡ length h - 1)
  unfolding pop_heap
  pop_heap-length [] = (refl, refl)
  pop_heap-length (x ∷ xs) =
      (refl, omega (arith, length-refill (last_of x xs) (but_last x xs), length-but_last x xs))

  -- Taking an event takes the one that `peek` shows, and makes the queue shorter by one; an empty
  -- queue gives none and stays empty.
  pub size-pop : (s : Scheduler A) → ((pop s).0 ≡ peek s) × (size (pop s).1 ≡ size s - 1)
  unfolding pop
  size-pop s = pop_heap-length s.heap
