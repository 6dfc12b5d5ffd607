-- ===== src/Scheduler/Heap/Up.antt =====
-- `siftUp` and `push` keep the heap order.
use net_sim.Prelude.{
  ℕ, zero, suc, ◌<◌, ◌≤◌, ◌≡◌, ◌≢◌, sym, ◌∙◌, true, false, List, [], ◌∷◌, ◌++◌, arith, ◌==◌, length,
  Bool-cases, inl, inr,
}
use net_sim.Scheduler.{Scheduled, Scheduler, less, less_at, swap, sift_up, push}
use net_sim.Scheduler.Order.{after_trans, after_less}
use net_sim.Scheduler.Size.{length-swap, length-snoc}
use net_sim.Scheduler.Heap.{parent, at, IsHeap, Bridged, less_at-at, at-swap, at-snoc_old}

module _ {A : Type 0} (d : Scheduled A) where
  -- only the event at `i` may come before the one above it
  record Rising (h : List (Scheduled A)) (i : ℕ) : Type 0 where
    inside : i < length h
    settled : (c : ℕ) → c ≢ i → 0 < c → c < length h → less (at d h c) (at d h (parent c)) ≡ false
    bridged : Bridged d h i

  Rising-swap :
      (h : List (Scheduled A)) (i : ℕ)
      → Rising h i
      → 0 < i
      → less (at d h i) (at d h (parent i)) ≡ true
      → Rising (swap h i (parent i)) (parent i)
  Rising-swap h i v pos early =
      let above : parent i < length h = let p = v.inside in omega arith in
      let size = length-swap h i (parent i) in
      let now = at-swap d h i (parent i) v.inside above in
      let late = after_less (at d h i) (at d h (parent i)) early in
      record {
        inside = rw size above;
        settled = λ c other p q. ground (
          arith,
          now c,
          now (parent c),
          v.settled c,
          v.bridged c,
          after_trans (at d h i) (at d h (parent i)) (at d h c),
        );
        bridged = λ c pos' p q r. ground (
          arith,
          now c,
          now (parent (parent i)),
          v.settled c,
          v.settled (parent i),
          after_trans (at d h (parent (parent i))) (at d h (parent i)) (at d h c),
        );
      }

  sift_up-IsHeap :
      (fuel : ℕ) (h : List (Scheduled A)) (i : ℕ)
      → i ≤ fuel
      → Rising h i
      → IsHeap d (sift_up fuel h i)
  unfolding sift_up
  sift_up-IsHeap zero h i f v = λ c p q. v.settled c (omega arith) p q
  sift_up-IsHeap (suc fuel) h i f v = elim (Bool-cases (i == 0)) [
    | inl root ↦ rw root (λ c p q. v.settled c (ground arith) p q)
    | inr deep ↦ rw deep (elim (Bool-cases (less_at h i (parent i))) [
      | inl early ↦ rw early (
          sift_up-IsHeap fuel (swap h i (parent i)) (parent i) (ground arith) (
            Rising-swap h i v (ground arith) (
              sym (less_at-at d h i (parent i) v.inside (let p = v.inside in omega arith))
              ∙ early)))
      | inr fine ↦ rw fine (λ c p q.
          let above = less_at-at d h i (parent i) v.inside (let p = v.inside in omega arith) in
          ground (arith, v.settled c))
    ])
  ]

  Rising-snoc :
      (h : List (Scheduled A)) (x : Scheduled A) → IsHeap d h → Rising (h ++ x ∷ []) (length h)
  Rising-snoc h x v =
      let size = length-snoc h x in
      record {
        inside = omega (arith, size);
        settled = λ c other p q.
            ground (arith, size, at-snoc_old d h x c, at-snoc_old d h x (parent c), v c);
        bridged = λ c pos p q r. absurd (omega (arith, size));
      }

  -- Pushing an event keeps the heap order.
  pub push-IsHeap :
      (s : Scheduler A) (time : ℕ) (payload : A) (priority : ℕ)
      → IsHeap d s.heap
      → IsHeap d (push s time payload priority).1.heap
  unfolding push
  push-IsHeap s time payload priority v =
      sift_up-IsHeap (length s.heap) _ (length s.heap) (omega arith) (Rising-snoc s.heap _ v)
