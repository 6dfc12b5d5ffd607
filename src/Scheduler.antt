-- ===== src/Scheduler.antt =====
-- src/core/scheduler.ts: the event queue, a binary heap in an array. `none` stands for `undefined`.
-- The loop of `siftUp` has a round for each index below its own, which it halves; the loop of
-- `siftDown` has one for each item, and its index more than doubles.
pub mod Order
pub mod Size
pub mod Count
pub mod Items
pub mod Heap
pub mod Earliest
mod Tests
use net_sim.Prelude.{
  ℕ, zero, suc, ◌+◌, ◌-◌, ◌*◌, ◌/◌, Bool, true, false, not, Option, none, some, List, [], ◌∷◌, ◌++◌,
  ltb, ◌==◌, if◌then◌else◌, length, get_elem?, set, keep,
}

pub record Scheduled (A : Type 0) : Type 0 where
  pub time : ℕ
  pub priority : ℕ
  pub seq : ℕ
  pub payload : A

pub record Scheduler (A : Type 0) : Type 0 where
  pub heap : List (Scheduled A)
  pub seq : ℕ

module _ {A : Type 0} where
  unfoldable pub less : Scheduled A → Scheduled A → Bool
  less a b =
      if not (a.time == b.time)
      then ltb a.time b.time
      else if not (a.priority == b.priority)
      then ltb a.priority b.priority
      else ltb a.seq b.seq

  -- `less(h[i]!, h[j]!)`, of indices in range
  unfoldable pub less_at : List (Scheduled A) → ℕ → ℕ → Bool
  less_at h i j = elim (get_elem? h i) [
    | none ↦ false
    | some a ↦ elim (get_elem? h j) [ none ↦ false | some b ↦ less a b ]
  ]

  -- `[h[i], h[j]] = [h[j], h[i]]`
  unfoldable pub swap : List (Scheduled A) → ℕ → ℕ → List (Scheduled A)
  swap h i j = elim (get_elem? h i) [
    | none ↦ h
    | some a ↦ elim (get_elem? h j) [ none ↦ h | some b ↦ set (set h i b) j a ]
  ]

  unfoldable pub sift_up : ℕ → List (Scheduled A) → ℕ → List (Scheduled A)
  sift_up zero h i = h
  sift_up (suc fuel) h i =
      let parent = (i - 1) / 2 in
      let rest = sift_up fuel (swap h i parent) parent in
      if i == 0 then h else if less_at h i parent then rest else h

  -- the least of a node and its children: `m` of `siftDown`
  unfoldable pub least_child : List (Scheduled A) → ℕ → ℕ
  least_child h i =
      let l = 2 * i + 1 in
      let r = l + 1 in
      let m = if ltb l (length h) then (if less_at h l i then l else i) else i in
      if ltb r (length h) then (if less_at h r m then r else m) else m

  unfoldable pub sift_down : ℕ → List (Scheduled A) → ℕ → List (Scheduled A)
  sift_down zero h i = h
  sift_down (suc fuel) h i =
      let m = least_child h i in
      let rest = sift_down fuel (swap h i m) m in if m == i then h else rest

  abbrev pub size : Scheduler A → ℕ
  size s = length s.heap

  abbrev pub count : (A → Bool) → Scheduler A → ℕ
  count pred s = length (keep (λ (x : Scheduled A). pred x.payload) s.heap)

  abbrev pub peek : Scheduler A → Option (Scheduled A)
  peek s = get_elem? s.heap 0

  unfoldable pub push : Scheduler A → ℕ → A → ℕ → Scheduled A × Scheduler A
  push s time payload priority =
      let item : Scheduled A = record {
        time = time;
        priority = priority;
        seq = s.seq;
        payload = payload;
      } in
      (
        item,
        record {
          heap = sift_up (length s.heap) (s.heap ++ item ∷ []) (length s.heap);
          seq = suc s.seq;
        },
      )

  -- the last item of an array that is not empty, and the array without it
  abbrev pub last_of : Scheduled A → List (Scheduled A) → Scheduled A
  last_of x [] = x
  last_of x (y ∷ ys) = last_of y ys

  abbrev pub but_last : Scheduled A → List (Scheduled A) → List (Scheduled A)
  but_last x [] = []
  but_last x (y ∷ ys) = x ∷ but_last y ys

  -- the array after the last item has taken the place of the first
  unfoldable pub refill : Scheduled A → List (Scheduled A) → List (Scheduled A)
  refill last [] = []
  refill last (x ∷ xs) = sift_down (length (x ∷ xs)) (last ∷ xs) 0

  unfoldable pub pop_heap : List (Scheduled A) → Option (Scheduled A) × List (Scheduled A)
  pop_heap [] = (none, [])
  pop_heap (top ∷ xs) = (some top, refill (last_of top xs) (but_last top xs))

  unfoldable pub pop : Scheduler A → Option (Scheduled A) × Scheduler A
  pop s = let (top, heap) = pop_heap s.heap in (top, record s { heap = heap })
