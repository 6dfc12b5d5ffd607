-- ===== src/Scheduler/Heap/Down.antt =====
-- `siftDown` and `pop` keep the heap order.
use net_sim.Prelude.{
  ℕ, zero, suc, ◌+◌, ◌*◌, ◌<◌, ◌≤◌, ◌≡◌, ◌≢◌, ◌⊎◌, refl, false, List, [], ◌∷◌, arith, ◌==◌, ltb,
  if◌then◌else◌, length, Bool-cases, inl, inr,
}
use net_sim.Scheduler.{
  Scheduled, Scheduler, less, less_at, swap, least_child, sift_down, last_of, but_last, refill,
  pop_heap, pop,
}
use net_sim.Scheduler.Order.{after_trans, after_less, after_self}
use net_sim.Scheduler.Size.{length-swap, length-but_last}
use net_sim.Scheduler.Heap.{parent, at, IsHeap, Bridged, less_at-at, at-swap}

module _ {A : Type 0} (d : Scheduled A) where
  -- only the events just below `i` may come before it
  record Sinking (h : List (Scheduled A)) (i : ℕ) : Type 0 where
    settled :
        (c : ℕ) → parent c ≢ i → 0 < c → c < length h → less (at d h c) (at d h (parent c)) ≡ false
    bridged : Bridged d h i

  -- `m` is `i` or just below it, and holds the first event of these places
  record IsLeast (h : List (Scheduled A)) (i m : ℕ) : Type 0 where
    inside : m < length h
    near : (m ≡ i) ⊎ (parent m ≡ i) × (i < m)
    first : (c : ℕ) → 0 < c → c < length h → parent c ≡ i → less (at d h c) (at d h m) ≡ false
    not_before : less (at d h i) (at d h m) ≡ false

  first_of_two :
      (h : List (Scheduled A)) (l m : ℕ)
      → l < length h
      → m < length h
      → (less (at d h m) (at d h (if less_at h l m then l else m)) ≡ false)
        × (less (at d h l) (at d h (if less_at h l m then l else m)) ≡ false)
  first_of_two h l m hl hm = ground (
    arith,
    less_at-at d h l m hl hm,
    after_less (at d h l) (at d h m),
    after_self (at d h l),
    after_self (at d h m),
  )

  IsLeast-of_two :
      (h : List (Scheduled A)) (i : ℕ)
      → 2 * i + 1 < length h
      → length h ≤ 2 * i + 1 + 1
      → IsLeast h i (if less_at h (2 * i + 1) i then 2 * i + 1 else i)
  IsLeast-of_two h i hl hr =
      let (own, left) = first_of_two h (2 * i + 1) i hl (omega arith) in
      record {
        inside = ground arith;
        near = ground arith;
        first = λ c q r e. let same : c ≡ 2 * i + 1 = omega arith in rw same left;
        not_before = own;
      }

  IsLeast-of_three :
      (h : List (Scheduled A)) (i m : ℕ)
      → 2 * i + 1 + 1 < length h
      → m ≡ (if less_at h (2 * i + 1) i then 2 * i + 1 else i)
      → IsLeast h i (if less_at h (2 * i + 1 + 1) m then 2 * i + 1 + 1 else m)
  IsLeast-of_three h i m hr e =
      let (own, left) = first_of_two h (2 * i + 1) i (omega arith) (omega arith) in
      let (old, right) = first_of_two h (2 * i + 1 + 1) m hr (ground arith) in
      record {
        inside = ground arith;
        near = ground arith;
        first = λ c q r t. ground (
          arith,
          after_trans (at d h (if less_at h (2 * i + 1 + 1) m then 2 * i + 1 + 1 else m)) (at d h m)
              (at d h (2 * i + 1)),
        );
        not_before = after_trans _ (at d h m) (at d h i) old (rw e own);
      }

  least_child-IsLeast :
      (h : List (Scheduled A)) (i : ℕ) → i < length h → IsLeast h i (least_child h i)
  unfolding least_child
  least_child-IsLeast h i p = elim (Bool-cases (ltb (2 * i + 1) (length h))) [
    | inr none_below ↦
        let last : ltb (2 * i + 1 + 1) (length h) ≡ false = ground arith in
        rw (none_below, last)
          (record {
            inside = p;
            near = inl refl;
            first = λ c q r t. absurd (ground arith);
            not_before = after_self (at d h i);
          })
    | inl left ↦ elim (Bool-cases (ltb (2 * i + 1 + 1) (length h))) [
      | inr last ↦ rw (left, last) (IsLeast-of_two h i (ground arith) (ground arith))
      | inl right ↦ rw (left, right) (IsLeast-of_three h i _ (ground arith) refl)
    ]
  ]

  Sinking-swap :
      (h : List (Scheduled A)) (i m : ℕ)
      → Sinking h i
      → i < length h
      → IsLeast h i m
      → m ≢ i
      → Sinking (swap h i m) m
  Sinking-swap h i m v p s other =
      let size = length-swap h i m in
      let now = at-swap d h i m p s.inside in
      let below = s.near in
      record {
        settled = λ c q r t. ground (
          arith,
          now c,
          now (parent c),
          v.settled c,
          v.bridged c,
          v.bridged m,
          s.first c,
          s.not_before,
        );
        bridged = λ c q r t u. ground (arith, now c, now (parent m), v.settled c);
      }

  sift_down-IsHeap :
      (fuel : ℕ) (h : List (Scheduled A)) (i : ℕ)
      → length h ≤ fuel + i
      → i < length h
      → Sinking h i
      → IsHeap d (sift_down fuel h i)
  unfolding sift_down
  sift_down-IsHeap zero h i f p v = absurd (omega arith)
  sift_down-IsHeap (suc fuel) h i f p v =
      let m = least_child h i in
      let s = least_child-IsLeast h i p in
      elim (Bool-cases (m == i)) [
        | inl done ↦ rw done (λ c q r. ground (arith, v.settled c, s.first c))
        | inr on ↦ rw on (
            sift_down-IsHeap fuel (swap h i m) m
              (let near = s.near in ground (arith, length-swap h i m))
              (rw (length-swap h i m) s.inside) (Sinking-swap h i m v p s (ground arith)))
      ]

  at-but_last :
      (x : Scheduled A) (xs : List (Scheduled A)) (i : ℕ)
      → i < length xs
      → at d (but_last x xs) i ≡ at d (x ∷ xs) i
  unfolding at
  at-but_last x [] i p = absurd (omega arith)
  at-but_last x (y ∷ ys) zero p = refl
  at-but_last x (y ∷ ys) (suc i) p = at-but_last y ys i (omega arith)

  at-cons :
      (x y : Scheduled A) (xs : List (Scheduled A)) (i : ℕ)
      → i ≢ 0
      → at d (x ∷ xs) i ≡ at d (y ∷ xs) i
  unfolding at
  at-cons x y xs zero h = absurd (h refl)
  at-cons x y xs (suc i) h = refl

  -- Taking the last event to the place of the root leaves only the root out of order.
  Sinking-refill :
      (last x y : Scheduled A) (ys : List (Scheduled A))
      → IsHeap d (x ∷ y ∷ ys)
      → Sinking (last ∷ but_last y ys) 0
  Sinking-refill last x y ys v =
      let size = length-but_last y ys in
      record {
        settled = λ c other p q.
            rw
              (
                at-cons last x (but_last y ys) c (omega arith),
                at-cons last x (but_last y ys) (parent c) other,
                at-but_last x (y ∷ ys) c (omega arith),
                at-but_last x (y ∷ ys) (parent c) (omega arith),
              )
              (v c p (omega arith));
        bridged = λ c pos p q r. absurd (omega arith);
      }

  pop_heap-IsHeap : (h : List (Scheduled A)) → IsHeap d h → IsHeap d (pop_heap h).1
  unfolding pop_heap refill
  pop_heap-IsHeap [] v = v
  pop_heap-IsHeap (x ∷ []) v = λ c p q. absurd (omega arith)
  pop_heap-IsHeap (x ∷ y ∷ ys) v =
      sift_down-IsHeap (length (x ∷ but_last y ys)) (last_of y ys ∷ but_last y ys) 0 (omega arith)
        (omega arith) (Sinking-refill (last_of y ys) x y ys v)

  -- Taking an event keeps the heap order.
  pub pop-IsHeap : (s : Scheduler A) → IsHeap d s.heap → IsHeap d (pop s).1.heap
  unfolding pop
  pop-IsHeap s v = pop_heap-IsHeap s.heap v
