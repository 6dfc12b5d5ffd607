-- ===== src/Scheduler/Tests.antt =====
-- A queue of four events.
use net_sim.Prelude.{Bool, leb, map, ℕ, ◌+◌, ◌≡◌, refl, List, [], ◌∷◌}
use net_sim.Scheduler.{
  Scheduled, Scheduler, less, less_at, swap, sift_up, least_child, sift_down, size, push, refill,
  pop_heap, pop,
}
use net_sim.Scheduler.Count.{total}
use net_sim.Scheduler.Earliest.{
  Op, pushed, popped, apply, after, new, drain, items, outs, InOrder, drain-sorts,
}

program : Unit {0}
unfolding less less_at swap sift_up least_child sift_down push refill pop_heap pop
program = tt

abbrev empty : Scheduler ℕ
empty = record { heap = []; seq = 0 }

abbrev queue : Scheduler ℕ
queue = (push (push (push (push empty 9 100 0).1 5 101 1).1 5 102 0).1 5 103 0).1

abbrev old : Scheduled ℕ → Bool
old x = leb x.payload 101

abbrev calls : List (Op ℕ)
calls =
    pushed 9 100 0 ∷ pushed 5 101 1 ∷ pushed 5 102 0 ∷ popped ∷ pushed 5 103 0 ∷ pushed 9 105 0 ∷ []

drain_test : map (λ (x : Scheduled ℕ). x.payload) (drain 5 queue) ≡ 102 ∷ 103 ∷ 101 ∷ 100 ∷ []
unfolding program drain
drain_test = refl

abbrev first : Scheduled ℕ
first = record { time = 5; priority = 0; seq = 3; payload = 103 }

drain-sorts_example :
    InOrder (drain (size (after new calls)) (after new calls))
    × (total old (outs new calls) + total old (drain (size (after new calls)) (after new calls))
        ≡ total old (items 0 calls))
drain-sorts_example = drain-sorts calls old

drain-sorts_test :
    map (λ (x : Scheduled ℕ). x.payload) (drain (size (after new calls)) (after new calls))
    ≡ 103 ∷ 101 ∷ 100 ∷ 105 ∷ []
unfolding program drain after apply
drain-sorts_test = refl
