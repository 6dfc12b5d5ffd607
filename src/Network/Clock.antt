-- ===== src/Network/Clock.antt =====
-- The clock of src/core/network.ts and what is queued, under everything a program does with a network.
use net_sim.Prelude.{
  nat_eq, text_key, ℕ, suc, ◌+◌, ◌<◌, ◌≤◌, All-weaken, ◌≡◌, refl, sym, ap, ◌∙◌, Bool, true, false,
  none, some, List, [], ◌∷◌, Text, arith, leb, if◌then◌else◌, get, Option-cases, Bool-cases, inl,
  inr,
}
use net_sim.Packet.{EthernetFrame}
use net_sim.Scheduler.{push, pop, peek}
use net_sim.Scheduler.Size.{size-pop}
use net_sim.Network.State.{
  Endpoint, endpoint_key, Link, Command, send, timer, cancel, NodeContext, Outcome, Devices,
  SimEvent, deliver, fire, action, Network,
}
use net_sim.Network.Links.{
  put_on, send_frame, start_timer, run_command, run_commands, context, visit,
}
use net_sim.Network.Loop.{
  is_within, is_before, head_time, ring, arrive, dispatch, advance, take_background, take_next,
}
use net_sim.Network.Queues.{Timed, Timed-if, Timed-push, Timed-pop, head-before, head-after}

module _ {S A D : Type 0} where
  -- it is `t`, and nothing that is queued is earlier
  abbrev pub Held : ℕ → Network S A D → Type 0
  Held t n = (n.now ≡ t) × (Timed t n.sched × Timed t n.bg)

  -- the clock has gone on to no more than a limit, and nothing queued is earlier than it
  abbrev pub Reached : ℕ → ℕ → Network S A D → Type 0
  Reached t limit m = (t ≤ m.now) × ((m.now ≤ limit) × Held m.now m)

  pub Held-if :
      (b : Bool) (t : ℕ) (m n : Network S A D) → Held t m → Held t n → Held t (if b then m else n)
  Held-if true t m n v w = v
  Held-if false t m n v w = w

  put_on-Held :
      (t : ℕ) (n : Network S A D) (ref : ℕ) (link : Link) (from to : Endpoint)
      (frame : EthernetFrame)
      → Held t n
      → Held t (put_on n ref link from to frame)
  unfolding put_on
  put_on-Held t n ref link from to frame (e, (v, w)) =
      let pushed = (push n.sched (n.now + link.latency) (deliver (suc n.tx_seq)) 0).1 in
      (
        e,
        (
          Timed-if _ t n.sched pushed v (
              Timed-push t n.sched (n.now + link.latency) (deliver (suc n.tx_seq)) 0 v
                (omega (arith, e))),
          w,
        ),
      )

  send_frame-Held :
      (t : ℕ) (n : Network S A D) (id : Text) (port : ℕ) (frame : EthernetFrame)
      → Held t n
      → Held t (send_frame n id port frame)
  unfolding send_frame
  send_frame-Held t n id port frame v =
      elim (Option-cases (get n.port_map (record { node = id; port = port }))) [
        | inl e ↦ rw (e, send_frame) v
        | inr ((ref, other), e) ↦ elim (Option-cases (get n.link_store ref)) [
          | inl f ↦ rw (e, f, send_frame) v
          | inr (link, f) ↦
              rw (e, f, send_frame)
                (put_on-Held t n ref link (record { node = id; port = port }) other frame v)
        ]
      ]

  start_timer-Held :
      (t : ℕ) (n : Network S A D) (id : Text) (delay : ℕ) (data_of : D) (background : Bool)
      → Held t n
      → Held t (start_timer n id delay data_of background)
  unfolding start_timer
  start_timer-Held t n id delay data_of true (e, (v, w)) =
      (e, (v, Timed-push t n.bg (n.now + delay) (fire (suc n.timer_seq)) 0 w (omega (arith, e))))
  start_timer-Held t n id delay data_of false (e, (v, w)) =
      (e, (Timed-push t n.sched (n.now + delay) (fire (suc n.timer_seq)) 0 v (omega (arith, e)), w))

  run_commands-Held :
      (t : ℕ) (id : Text) (n : Network S A D) (cs : List (Command D))
      → Held t n
      → Held t (run_commands id n cs)
  unfolding run_commands run_command
  run_commands-Held t id n [] v = v
  run_commands-Held t id n (send port frame ∷ cs) v =
      run_commands-Held t id (send_frame n id port frame) cs (send_frame-Held t n id port frame v)
  run_commands-Held t id n (timer delay data_of background ∷ cs) v =
      run_commands-Held t id (start_timer n id delay data_of background) cs
        (start_timer-Held t n id delay data_of background v)
  run_commands-Held t id n (cancel ref ∷ cs) v = run_commands-Held t id _ cs v

  pub visit-Held :
      (t : ℕ) (n : Network S A D) (id : Text) (handler : S → NodeContext → Outcome S D)
      → Held t n
      → Held t (visit n id handler)
  unfolding visit
  visit-Held t n id handler v = elim (Option-cases (get n.nodes id)) [
    | inl e ↦ rw (e, visit) v
    | inr (s, e) ↦ rw (e, visit) (run_commands-Held t id _ (handler s (context n id)).commands v)
  ]

module _ {S A D : Type 0} (dev : Devices S A D) where
  pub dispatch-Held :
      (t : ℕ) (n : Network S A D) (e : SimEvent A) → Held t n → Held t (dispatch dev n e)
  unfolding dispatch arrive ring
  dispatch-Held t n (deliver id) v = elim (Option-cases (get n.tx_store id)) [
    | inl e ↦ rw (e, dispatch) v
    | inr (tx, e) ↦ elim (Bool-cases tx.lost) [
      | inl l ↦ rw (e, l, dispatch) v
      | inr l ↦
          rw (e, l, dispatch)
            (Held-if _ t _ _ v
              (visit-Held t n tx.to.node (λ s ctx. dev.receive s ctx tx.to.port tx.frame) v))
    ]
  ]
  dispatch-Held t n (fire ref) v = elim (Option-cases (get n.timer_store ref)) [
    | inl e ↦ rw (e, dispatch) v
    | inr (timer_of, e) ↦
        rw (e, dispatch)
          (Held-if timer_of.cancelled t _ _ v
            (visit-Held t _ timer_of.node (λ s ctx. dev.on_timer s ctx timer_of.data_of) v))
  ]
  dispatch-Held t n (action id a) v = visit-Held t n id (λ s ctx. dev.act s ctx a) v

  Reached-Held :
      (t x limit : ℕ) (m : Network S A D) → t ≤ x → x ≤ limit → Held x m → Reached t limit m
  Reached-Held t x limit m p q (e, v) = (omega (arith, e), (omega (arith, e), (refl, rw e v)))

  pub take_background-Reached :
      (t limit : ℕ) (n : Network S A D)
      → Held t n
      → is_within (head_time n.bg) limit ≡ true
      → is_before (head_time n.bg) (head_time n.sched) ≡ true
      → Reached t limit (take_background dev n)
  unfolding take_background
  take_background-Reached t limit n (now, (v, w)) k b = elim (Option-cases (peek n.bg)) [
    | inl e ↦
        let front : head_time n.bg ≡ none = rw (e, head_time) refl in
        let never : false ≡ true = sym (ap (λ o. is_within o limit) front) ∙ k in absurd (cc)
    | inr (x, e) ↦
        let taken : (pop n.bg).0 ≡ some x = (size-pop n.bg).0 ∙ e in
        let front : head_time n.bg ≡ some x.time = rw (e, head_time) refl in
        let (later, rest) = Timed-pop t n.bg x w taken in
        let others =
          All-weaken (λ y. x.time < y.time) (λ y. x.time ≤ y.time) (λ y k. omega (arith, k))
            n.sched.heap
            (head-after n.sched x.time v.0
              (sym (ap (λ o. is_before o (head_time n.sched)) front) ∙ b)) in
        let soon : leb x.time limit ≡ true = sym (ap (λ o. is_within o limit) front) ∙ k in
        let moved = advance (record n { bg = (pop n.bg).1 }) x.time in
        rw (taken, take_background)
          (Reached-Held t x.time limit (dispatch dev moved x.payload) later (ground (arith, soon))
            (dispatch-Held x.time moved x.payload (refl, ((v.0, others), rest))))
  ]

  pub take_next-Reached :
      (t limit : ℕ) (n : Network S A D)
      → Held t n
      → is_within (head_time n.sched) limit ≡ true
      → is_before (head_time n.bg) (head_time n.sched) ≡ false
      → Reached t limit (take_next dev n)
  unfolding take_next
  take_next-Reached t limit n (now, (v, w)) k b = elim (Option-cases (peek n.sched)) [
    | inl e ↦
        let front : head_time n.sched ≡ none = rw (e, head_time) refl in
        let never : false ≡ true = sym (ap (λ o. is_within o limit) front) ∙ k in absurd (cc)
    | inr (x, e) ↦
        let taken : (pop n.sched).0 ≡ some x = (size-pop n.sched).0 ∙ e in
        let front : head_time n.sched ≡ some x.time = rw (e, head_time) refl in
        let (later, rest) = Timed-pop t n.sched x v taken in
        let others =
          head-before n.bg x.time w.0 (sym (ap (λ o. is_before (head_time n.bg) o) front) ∙ b) in
        let soon : leb x.time limit ≡ true = sym (ap (λ o. is_within o limit) front) ∙ k in
        let moved = advance (record n { sched = (pop n.sched).1 }) x.time in
        rw (taken, take_next)
          (Reached-Held t x.time limit (dispatch dev moved x.payload) later (ground (arith, soon))
            (dispatch-Held x.time moved x.payload (refl, (rest, (w.0, others)))))
  ]
