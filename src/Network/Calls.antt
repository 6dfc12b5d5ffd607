-- ===== src/Network/Calls.antt =====
-- Everything that a program does with a network of src/core/network.ts.
use net_sim.Prelude.{
  nat_eq, text_key, ℕ, zero, suc, ◌≤◌, ◌≡◌, refl, Bool, true, false, not, ◌||◌, Option, none, some,
  List, [], ◌∷◌, Text, arith, ltb, if◌then◌else◌, get, has, text_eq, Option-cases, Bool-cases, inl,
  inr,
}
use net_sim.Scheduler.{size}
use net_sim.Scheduler.Earliest.{new-IsQueue}
use net_sim.Network.State.{Endpoint, Link, NodeContext, Outcome, Devices, action, Network, new}
use net_sim.Network.Links.{
  visit, add_node, is_pluggable, connect, pull_out, disconnect, unplug, remove_node, change_link,
  set_link_loss, drop_next_on, schedule_action, prune_transmissions, tell_link,
}
use net_sim.Network.Loop.{step, peek_next_time, run_until, run_to_idle, step_until, settle, is_void}
use net_sim.Network.Queues.{Timed-push, Timed-skip}
use net_sim.Network.Clock.{Held, Held-if, visit-Held}
use net_sim.Network.Steps.{Running, Stepped, run_until-settles, step_until-Stepped, settle-Held}
use net_sim.Network.Handling.{Handles, Handles-Held, step_until-Handles}

-- a call of the network; one that throws before it changes anything changes nothing
pub data Call (S A D : Type 0) : Type 0 where
  adds : Text → S → Call S A D
  removes : Text → Call S A D
  connects : Endpoint → Endpoint → ℕ → Option Text → Call S A D
  disconnects : Text → Call S A D
  sets_loss : Text → ℕ → Call S A D
  drops_next : Text → Call S A D
  tells : Text → (S → NodeContext → Outcome S D) → Call S A D
  schedules : ℕ → Text → A → Call S A D
  steps : Call S A D
  steps_until : ℕ → Call S A D
  runs_until : ℕ → ℕ → Call S A D
  runs_to_idle : ℕ → Call S A D
  prunes : ℕ → Call S A D

module _ {S A D : Type 0} where
  abbrev pub kept : Network S A D → Option (Network S A D) → Network S A D
  kept n none = n
  kept n (some m) = m

  -- a network that has gone on from another
  abbrev pub Onward : Network S A D → Network S A D → Type 0
  Onward n m = (n.now ≤ m.now) × Running m

  Held-Onward : (n m : Network S A D) → Held n.now m → Onward n m
  Held-Onward n m (e, v) = (omega (arith, e), (refl, rw e v))

pub new-Running : (S A D : Type 0) → Running (new {S = S} {A = A} {D = D})
new-Running S A D = (refl, ((new-IsQueue, tt), (new-IsQueue, tt)))

module _ {S A D : Type 0} (dev : Devices S A D) where
  unfoldable pub perform : Network S A D → Call S A D → Network S A D
  perform n (adds id s) = kept n (add_node n id s)
  perform n (removes id) = remove_node dev n id
  perform n (connects a b latency name) = kept n (connect dev n a b latency name)
  perform n (disconnects id) = disconnect dev n id
  perform n (sets_loss id loss) = set_link_loss n id loss
  perform n (drops_next id) = drop_next_on n id
  perform n (tells id handler) = visit n id handler
  perform n (schedules time id a) = kept n (schedule_action n time id a)
  perform n steps = (step dev n).1
  perform n (steps_until limit) = (step_until dev n limit).1
  perform n (runs_until time max) = (run_until dev n time max).1.1
  perform n (runs_to_idle max) = (run_to_idle dev max n 0).1.1
  perform n (prunes before) = prune_transmissions n before

  unfoldable pub perform_all : Network S A D → List (Call S A D) → Network S A D
  perform_all n [] = n
  perform_all n (c ∷ cs) = perform_all (perform n c) cs

  tell_link-Held :
      (up : Bool) (t : ℕ) (n : Network S A D) (ep : Endpoint)
      → Held t n
      → Held t (tell_link dev up n ep)
  tell_link-Held up t n ep v = visit-Held t n ep.node (λ s ctx. dev.on_link s ctx ep.port up) v

  disconnect-Held :
      (t : ℕ) (n : Network S A D) (id : Text) → Held t n → Held t (disconnect dev n id)
  unfolding disconnect pull_out
  disconnect-Held t n id v = elim (Option-cases (get n.links id)) [
    | inl e ↦ rw (e, disconnect) v
    | inr (ref, e) ↦ elim (Option-cases (get n.link_store ref)) [
      | inl f ↦ rw (e, f, disconnect) v
      | inr (link, f) ↦
          rw (e, f, disconnect)
            (tell_link-Held false t _ link.b (tell_link-Held false t _ link.a v))
    ]
  ]

  unplug-Held :
      (t : ℕ) (id : Text) (n : Network S A D) (links : List (Text × ℕ))
      → Held t n
      → Held t (unplug dev id n links)
  unfolding unplug
  unplug-Held t id n [] v = v
  unplug-Held t id n ((key, ref) ∷ rest) v = elim (Option-cases (get n.link_store ref)) [
    | inl e ↦ rw (e, unplug) (unplug-Held t id n rest v)
    | inr (link, e) ↦
        rw (e, unplug)
          (unplug-Held t id
            (if text_eq link.a.node id || text_eq link.b.node id
              then disconnect dev n link.id
              else n)
            rest
            (Held-if (text_eq link.a.node id || text_eq link.b.node id) t (disconnect dev n link.id)
              n (disconnect-Held t n link.id v) v))
  ]

  remove_node-Held :
      (t : ℕ) (n : Network S A D) (id : Text) → Held t n → Held t (remove_node dev n id)
  unfolding remove_node
  remove_node-Held t n id v =
      Held-if (not (has n.nodes id)) t n _ v
        (unplug-Held t id _ _ (visit-Held t _ id dev.on_remove v))

  connect-Held :
      (t : ℕ) (n : Network S A D) (a b : Endpoint) (latency : ℕ) (name : Option Text)
      → Held t n
      → Held t (kept n (connect dev n a b latency name))
  unfolding connect
  connect-Held t n a b latency name v =
      elim (Bool-cases (not (is_pluggable dev n a) || not (is_pluggable dev n b))) [
        | inl e ↦ rw (e, connect) v
        | inr e ↦ rw (e, connect) (tell_link-Held true t _ b (tell_link-Held true t _ a v))
      ]

  schedule_action-Held :
      (n : Network S A D) (time : ℕ) (id : Text) (a : A)
      → Running n
      → Held n.now (kept n (schedule_action n time id a))
  unfolding schedule_action
  schedule_action-Held n time id a (e, (v, w)) = elim (Bool-cases (ltb time n.now)) [
    | inl past ↦ rw (past, schedule_action) (e, (v, w))
    | inr now ↦
        rw (now, schedule_action)
          (e, (Timed-push n.now n.sched time (action id a) 1 v (ground (arith, now)), w))
  ]

  change_link-Held :
      (f : Link → Link) (t : ℕ) (n : Network S A D) (id : Text)
      → Held t n
      → Held t (change_link f n id)
  unfolding change_link
  change_link-Held f t n id v = elim (Option-cases (get n.links id)) [
    | inl e ↦ rw (e, change_link) v
    | inr (ref, e) ↦ rw (e, change_link) v
  ]

  add_node-Held :
      (t : ℕ) (n : Network S A D) (id : Text) (s : S) → Held t n → Held t (kept n (add_node n id s))
  unfolding add_node
  add_node-Held t n id s v = elim (Bool-cases (has n.nodes id)) [
    | inl e ↦ rw (e, add_node) v
    | inr e ↦ rw (e, add_node) v
  ]

  Stepped-Onward :
      (n : Network S A D) (t limit : ℕ) (r : Bool × Network S A D)
      → n.now ≡ t
      → Stepped t limit r
      → Onward n r.1
  Stepped-Onward n t limit (true, m) e v = let r = v.0 refl in (omega (arith, r.0, e), r.1.1)
  Stepped-Onward n t limit (false, m) e v =
      let r = v.1 refl in (omega (arith, r.0.0, e), (refl, rw r.0.0 r.0.1))

  step-Onward : (n : Network S A D) → Running n → Onward n (step dev n).1
  unfolding step peek_next_time
  step-Onward n v =
      let n1 = (peek_next_time n).1 in
      let held : Held n.now n1 =
        (refl, (Timed-skip (is_void n) (size n.sched) n.now n.sched v.1.0, v.1.1)) in
      elim (Option-cases (peek_next_time n).0) [
        | inl e ↦ rw (e, step) (omega arith, held)
        | inr (t, e) ↦
            rw (e, step)
              (Stepped-Onward n n.now t (step_until dev n1 t) refl
                (step_until-Stepped dev n.now t n1 held))
      ]

  if-Onward :
      (n : Network S A D) (b : Bool) (done : ℕ) (m : Network S A D)
      (rest : Bool × (ℕ × Network S A D))
      → Onward n m
      → Onward m rest.1.1
      → Onward n (if b then rest else (true, (done, m))).1.1
  if-Onward n true done m rest v w = (omega (arith, v.0, w.0), w.1)
  if-Onward n false done m rest v w = v

  run_to_idle-Onward :
      (max : ℕ) (n : Network S A D) (done : ℕ)
      → Running n
      → Onward n (run_to_idle dev max n done).1.1
  unfolding run_to_idle
  run_to_idle-Onward zero n done v = (omega arith, v)
  run_to_idle-Onward (suc max) n done v =
      let m = (step dev n).1 in
      let first = step-Onward n v in
      if-Onward n (step dev n).0 done m (run_to_idle dev max m (suc done)) first
        (run_to_idle-Onward max m (suc done) first.1)

  perform-Onward : (n : Network S A D) (c : Call S A D) → Running n → Onward n (perform n c)
  unfolding perform
  perform-Onward n (adds id s) v =
      Held-Onward n (kept n (add_node n id s)) (add_node-Held n.now n id s v)
  perform-Onward n (removes id) v =
      Held-Onward n (remove_node dev n id) (remove_node-Held n.now n id v)
  perform-Onward n (connects a b latency name) v =
      Held-Onward n (kept n (connect dev n a b latency name))
        (connect-Held n.now n a b latency name v)
  perform-Onward n (disconnects id) v =
      Held-Onward n (disconnect dev n id) (disconnect-Held n.now n id v)
  perform-Onward n (sets_loss id loss) v =
      Held-Onward n (set_link_loss n id loss) (change_link-Held _ n.now n id v)
  perform-Onward n (drops_next id) v =
      Held-Onward n (drop_next_on n id) (change_link-Held _ n.now n id v)
  perform-Onward n (tells id handler) v =
      Held-Onward n (visit n id handler) (visit-Held n.now n id handler v)
  perform-Onward n (schedules time id a) v =
      Held-Onward n (kept n (schedule_action n time id a)) (schedule_action-Held n time id a v)
  perform-Onward n steps v = step-Onward n v
  perform-Onward n (steps_until limit) v =
      Stepped-Onward n n.now limit (step_until dev n limit) refl
        (step_until-Stepped dev n.now limit n v)
  perform-Onward n (runs_until time max) v =
      let r = run_until-settles dev n time max v in (r.0, r.1.0)
  perform-Onward n (runs_to_idle max) v = run_to_idle-Onward max n 0 v
  perform-Onward n (prunes before) v = (omega arith, v)

  pub perform_all-Onward :
      (cs : List (Call S A D)) (n : Network S A D) → Running n → Onward n (perform_all n cs)
  unfolding perform_all
  perform_all-Onward [] n v = (omega arith, v)
  perform_all-Onward (c ∷ cs) n v =
      let first = perform-Onward n c v in
      let rest = perform_all-Onward cs (perform n c) first.1 in
      (omega (arith, first.0, rest.0), rest.1)

  -- Whatever is called, whatever the devices do, the clock of a network never goes back, and no
  -- event is handled after a later one: where two calls of `stepUntil` tell of an event, with any
  -- calls before the first and between the two, each has handled one, with the clock at its time,
  -- and the time of the first event is no later than that of the second.
  pub perform_all_keeps_time :
      (cs ds : List (Call S A D)) (limit bound : ℕ)
      → (step_until dev (perform_all new cs) limit).0 ≡ true
      → (step_until dev (perform_all (step_until dev (perform_all new cs) limit).1 ds) bound).0
        ≡ true
      → Onward (perform_all new cs) (perform_all (step_until dev (perform_all new cs) limit).1 ds)
        × ((t : ℕ) × ((u : ℕ) × ((t ≤ u)
                × (Handles dev
                      (settle (perform_all new cs))
                      (step_until dev (perform_all new cs) limit).1
                      t
                    × Handles dev
                        (settle (perform_all (step_until dev (perform_all new cs) limit).1 ds))
                        (step_until dev
                          (perform_all (step_until dev (perform_all new cs) limit).1 ds)
                          bound).1
                        u))))
  unfolding perform
  perform_all_keeps_time cs ds limit bound first second =
      let n = perform_all new cs in
      let m = (step_until dev n limit).1 in
      let l = perform_all m ds in
      let begun : Running n = (perform_all-Onward cs new (new-Running S A D)).1 in
      let (t, (soon, one)) = step_until-Handles dev n limit begun first in
      let onward = perform-Onward n (steps_until limit) begun in
      let between = perform_all-Onward ds m onward.1 in
      let (u, (late, other)) = step_until-Handles dev l bound between.1 second in
      let at_first = Handles-Held dev (settle n) m t (settle-Held n.now n begun) one in
      let at_last =
        Handles-Held dev (settle l) (step_until dev l bound).1 u (settle-Held l.now l between.1)
          other in
      (
        (omega (arith, onward.0, between.0), between.1),
        (t, (u, (omega (arith, at_first.1.0, between.0, at_last.0), (one, other)))),
      )
