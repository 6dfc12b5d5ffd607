-- ===== src/Scheduler/Order.antt =====
-- The order of events.
use net_sim.Prelude.{◌≡◌, ◌≢◌, ◌⊎◌, true, false, arith}
use net_sim.Scheduler.{Scheduled, less}

module _ {A : Type 0} where
  -- Coming first is transitive, and what comes first is not preceded by what follows it: no two
  -- events wait for each other.
  pub less_transitive :
      (a b c : Scheduled A)
      → less a b ≡ true
      → less b c ≡ true
      → (less a c ≡ true) × (less c a ≡ false)
  unfolding less
  less_transitive a b c h k = (ground arith, ground arith)

  -- Of two events of different number one comes first, whatever their times and priorities.
  pub less_total : (a b : Scheduled A) → a.seq ≢ b.seq → (less a b ≡ true) ⊎ (less b a ≡ true)
  unfolding less
  less_total a b h = ground arith

  pub after_trans : (a b c : Scheduled A) → less b a ≡ false → less c b ≡ false → less c a ≡ false
  unfolding less
  after_trans a b c h k = ground arith

  pub after_less : (a b : Scheduled A) → less a b ≡ true → less b a ≡ false
  unfolding less
  after_less a b h = ground arith

  pub after_self : (a : Scheduled A) → less a a ≡ false
  unfolding less
  after_self a = ground arith
