-- ===== src/Ha/Progress.antt =====
-- Timers of src/core/nodes/ha.ts: a box that waits becomes the master, and how long it waits.
use mathlib.Core.List.{append_assoc}
use net_sim.Prelude.{
  nat_eq, ℕ, suc, ◌+◌, ◌<◌, ◌≤◌, ◌≡◌, refl, sym, ap, ◌∙◌, List, [], ◌∷◌, ◌++◌, true, false, not,
  ◌||◌, none, some, arith, ◌==◌, Bool-cases, inl, inr,
}
use net_sim.Ha.{
  master_down, backup, is_master, skew_ms, HaHost, token, Effect, starts_timer, Ha, is_on,
}
use net_sim.Ha.Roles.{
  cancel_old, advertise, effective_priority, arm, schedule_advert, start, become_master,
}
use net_sim.Ha.Calls.{on_timer, option_eq}

-- Of two priorities up to 256, the higher one waits less.
pub skew_ms-order : (p q : ℕ) → p < q → q ≤ 256 → skew_ms q < skew_ms p
unfolding skew_ms
skew_ms-order p q l k = omega arith

module _ (count : ℕ) (host : HaHost) where
  become_master-master : (h : Ha) → is_master (become_master count host h).1.state ≡ true
  unfolding become_master schedule_advert is_master
  become_master-master h = elim (Bool-cases (is_on h.config.advert)) [
    | inl on ↦ rw (on, schedule_advert) refl
    | inr off ↦ rw (off, schedule_advert) refl
  ]

  -- The timer that a waiting box has set makes it the master.
  fire-master :
      (h : Ha) (n : ℕ)
      → h.armed ≡ some n
      → (not h.config.enabled || is_master h.state || effective_priority count host h.config == 0)
        ≡ false
      → is_master (on_timer count host h (token n)).1.state ≡ true
  unfolding on_timer
  fire-master h n e waits =
      let same : option_eq n h.armed ≡ true = ap (option_eq n) e ∙ ground arith in
      rw (same, waits) (become_master-master (record h { armed = none }))

  start-starts_timer :
      (h : Ha)
      → (effective_priority count host h.config == 0) ≡ false
      → (es : List Effect) × ((start count host h).0
          ≡ es
            ++ starts_timer
                (3000 + skew_ms (effective_priority count host h.config))
                (token (suc h.timer_token))
              ∷ [])
  unfolding start arm
  start-starts_timer h ready =
      let p = effective_priority count host h.config in
      let told = advertise count host (record h { last_priority = p; state = backup }) p true in
      (
        told ++ cancel_old h.armed_timer,
        rw (ready, start) (sym (append_assoc told (cancel_old h.armed_timer) _)),
      )

  -- A box that is on and whose interfaces are ready, when it starts, sets a timer of three seconds
  -- and its skew and does nothing after that; and when that timer fires, it is the master, where it
  -- hears nothing before.
  pub start-master :
      (h : Ha)
      → h.config.enabled ≡ true
      → (effective_priority count host h.config == 0) ≡ false
      → ((es : List Effect) × ((start count host h).0
            ≡ es
              ++ starts_timer
                  (3000 + skew_ms (effective_priority count host h.config))
                  (token (suc h.timer_token))
                ∷ []))
        × (is_master
              (on_timer count host (start count host h).1 (token (suc h.timer_token))).1.state
            ≡ true)
  unfolding start arm is_master
  start-master h on ready =
      let p = effective_priority count host h.config in
      let k : Ha =
        (arm (master_down + skew_ms p) (record h { last_priority = p; state = backup })).1 in
      let started : (start count host h).1 ≡ k = rw (ready, start) refl in
      (
        start-starts_timer h ready,
        ap (λ g. is_master (on_timer count host g (token (suc h.timer_token))).1.state) started
            ∙ fire-master k (suc h.timer_token) refl (ground (arith, on, ready)),
      )
