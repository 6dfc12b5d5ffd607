-- ===== src/Scheduler/Items.antt =====
-- What holds of every queued event survives the work of the heap.
use mathlib.Core.Path.{subst}
use mathlib.Core.Option.{some-injective}
use net_sim.Prelude.{
  ℕ, zero, suc, ◌≡◌, some, List, [], ◌∷◌, ◌-◌, ◌/◌, length, get_elem?, set, ◌==◌, All, All-if,
  All-++, Option-cases, Bool-cases, inl, inr,
}
use net_sim.Scheduler.{
  Scheduled, Scheduler, swap, less_at, sift_up, least_child, sift_down, last_of, but_last, refill,
  pop_heap, push, pop,
}

-- A predicate of all events in the array survives the work of the heap.
module _ {A : Type 0} (P : Scheduled A → Type 0) where
  pub All-get_elem? :
      (h : List (Scheduled A)) (i : ℕ) (x : Scheduled A) → All P h → get_elem? h i ≡ some x → P x
  All-get_elem? [] i x all e = absurd (cc)
  All-get_elem? (y ∷ ys) zero x all e = subst P (some-injective y x e) all.0
  All-get_elem? (y ∷ ys) (suc i) x all e = All-get_elem? ys i x all.1 e

  All-set : (h : List (Scheduled A)) (i : ℕ) (v : Scheduled A) → P v → All P h → All P (set h i v)
  All-set [] i v p all = tt
  All-set (y ∷ ys) zero v p all = (p, all.1)
  All-set (y ∷ ys) (suc i) v p all = (all.0, All-set ys i v p all.1)

  All-swap : (h : List (Scheduled A)) (i j : ℕ) → All P h → All P (swap h i j)
  unfolding swap
  All-swap h i j all = elim (Option-cases (get_elem? h i)) [
    | inl missing ↦ rw (missing, swap) all
    | inr (a, found) ↦ elim (Option-cases (get_elem? h j)) [
      | inl missing ↦ rw (found, missing, swap) all
      | inr (b, other) ↦
          rw (found, other, swap)
            (All-set _ j a (All-get_elem? h i a all found)
              (All-set h i b (All-get_elem? h j b all other) all))
    ]
  ]

  All-sift_down : (fuel : ℕ) (h : List (Scheduled A)) (i : ℕ) → All P h → All P (sift_down fuel h i)
  unfolding sift_down
  All-sift_down zero h i all = all
  All-sift_down (suc fuel) h i all = elim (Bool-cases (least_child h i == i)) [
    | inl done ↦ rw done all
    | inr on ↦ rw on (All-sift_down fuel _ _ (All-swap h i (least_child h i) all))
  ]

  All-but_last :
      (x : Scheduled A) (xs : List (Scheduled A))
      → P x
      → All P xs
      → All P (but_last x xs) × P (last_of x xs)
  All-but_last x [] p all = (tt, p)
  All-but_last x (y ∷ ys) p all =
      let (rest, last) = All-but_last y ys all.0 all.1 in ((p, rest), last)

  All-pop_heap : (h : List (Scheduled A)) → All P h → All P (pop_heap h).1
  unfolding pop_heap refill
  All-pop_heap [] all = tt
  All-pop_heap (x ∷ []) all = tt
  All-pop_heap (x ∷ y ∷ ys) all =
      let (rest, last) = All-but_last y ys all.1.0 all.1.1 in
      All-sift_down (length (x ∷ but_last y ys)) (last_of y ys ∷ but_last y ys) 0 (last, rest)

  All-sift_up : (fuel : ℕ) (h : List (Scheduled A)) (i : ℕ) → All P h → All P (sift_up fuel h i)
  unfolding sift_up
  All-sift_up zero h i all = all
  All-sift_up (suc fuel) h i all =
      let parent = (i - 1) / 2 in
      All-if P (i == 0) h _ all (
        All-if P (less_at h i parent) _ h
          (All-sift_up fuel (swap h i parent) parent (All-swap h i parent all)) all)

  pub All-push :
      (s : Scheduler A) (time : ℕ) (payload : A) (priority : ℕ)
      → P (record { time = time; priority = priority; seq = s.seq; payload = payload })
      → All P s.heap
      → All P (push s time payload priority).1.heap
  unfolding push
  All-push s time payload priority p all =
      All-sift_up (length s.heap) _ (length s.heap) (All-++ P s.heap _ all (p, tt))

module _ {A : Type 0} where
  pub All-pop : (P : Scheduled A → Type 0) (s : Scheduler A) → All P s.heap → All P (pop s).1.heap
  unfolding pop
  All-pop P s all = All-pop_heap P s.heap all
