-- ===== src/Scheduler/Heap.antt =====
-- The heap order of the array. `at` reads it with a default, an event that stands out of range.
pub mod Up
pub mod Down
use net_sim.Prelude.{
  ℕ, zero, suc, ◌+◌, ◌-◌, ◌/◌, ◌<◌, ◌≡◌, refl, sym, Bool, true, false, Option, none, some, List, [],
  ◌∷◌, ◌++◌, arith, ◌==◌, if◌then◌else◌, length, get_elem?, set,
}
use net_sim.Scheduler.{Scheduled, less, less_at, swap}
use net_sim.Scheduler.Order.{after_trans, after_self}
use net_sim.Scheduler.Size.{length-set, length-swap}

abbrev pub parent : ℕ → ℕ
parent c = (c - 1) / 2

module _ {A : Type 0} (d : Scheduled A) where
  unfoldable pub at : List (Scheduled A) → ℕ → Scheduled A
  at [] i = d
  at (x ∷ xs) zero = x
  at (x ∷ xs) (suc i) = at xs i

  -- No event comes before the one above it.
  abbrev pub IsHeap : List (Scheduled A) → Type 0
  IsHeap h = (c : ℕ) → 0 < c → c < length h → less (at h c) (at h (parent c)) ≡ false

  -- Around `i`, what is above it comes no later than what is below it.
  abbrev pub Bridged : List (Scheduled A) → ℕ → Type 0
  Bridged h i =
      (c : ℕ)
      → 0 < i
      → 0 < c
      → c < length h
      → parent c ≡ i
      → less (at h c) (at h (parent i)) ≡ false

  pub get_elem?-at : (h : List (Scheduled A)) (i : ℕ) → i < length h → get_elem? h i ≡ some (at h i)
  unfolding at
  get_elem?-at [] i k = absurd (omega arith)
  get_elem?-at (x ∷ xs) zero k = refl
  get_elem?-at (x ∷ xs) (suc i) k = get_elem?-at xs i (omega arith)

  at-set :
      (h : List (Scheduled A)) (i j : ℕ) (v : Scheduled A)
      → i < length h
      → at (set h i v) j ≡ (if i == j then v else at h j)
  unfolding at
  at-set [] i j v k = absurd (omega arith)
  at-set (x ∷ xs) zero zero v k = refl
  at-set (x ∷ xs) zero (suc j) v k = ground arith
  at-set (x ∷ xs) (suc i) zero v k = ground arith
  at-set (x ∷ xs) (suc i) (suc j) v k = ground (arith, at-set xs i j v)

  module _ (h : List (Scheduled A)) (i j : ℕ) (hi : i < length h) (hj : j < length h) where
    pub less_at-at : less_at h i j ≡ less (at h i) (at h j)
    unfolding less_at
    less_at-at = rw (get_elem?-at h i hi, get_elem?-at h j hj, less_at) refl

    pub at-swap :
        (c : ℕ) → at (swap h i j) c ≡ (if j == c then at h i else if i == c then at h j else at h c)
    unfolding swap
    at-swap c =
        rw (get_elem?-at h i hi, get_elem?-at h j hj, swap)
          (ground (
            arith,
            at-set (set h i (at h j)) j c (at h i),
            at-set h i c (at h j),
            length-set h i (at h j),
          ))

  root_first_below :
      (k : ℕ) (h : List (Scheduled A)) (i : ℕ)
      → IsHeap h
      → i < k
      → i < length h
      → less (at h i) (at h 0) ≡ false
  root_first_below zero h i v f p = absurd (omega arith)
  root_first_below (suc k) h zero v f p = after_self (at h 0)
  root_first_below (suc k) h (suc i) v f p =
      after_trans (at h 0) (at h (parent (suc i))) (at h (suc i))
        (root_first_below k h (parent (suc i)) v (omega arith) (omega arith))
        (v (suc i) (omega arith) p)

  -- In a heap no event comes before the root.
  pub root_first :
      (h : List (Scheduled A)) (i : ℕ) → IsHeap h → i < length h → less (at h i) (at h 0) ≡ false
  root_first h i v p = root_first_below (suc i) h i v (omega arith) p

  pub at-snoc_old :
      (h : List (Scheduled A)) (x : Scheduled A) (i : ℕ)
      → i < length h
      → at (h ++ x ∷ []) i ≡ at h i
  unfolding at
  at-snoc_old [] x i p = absurd (omega arith)
  at-snoc_old (y ∷ ys) x zero p = refl
  at-snoc_old (y ∷ ys) x (suc i) p = at-snoc_old ys x i (omega arith)
