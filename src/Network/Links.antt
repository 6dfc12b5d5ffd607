-- ===== src/Network/Links.antt =====
-- Links and devices of src/core/network.ts: the calls of a device's context, and cables and devices
-- that come and go.
use Prim.Native.Nat.{bit_xor}
use net_sim.Prelude.{
  nat_eq, text_key, ℕ, suc, ◌+◌, ◌*◌, ◌/◌, ◌%◌, ◌^◌, Bool, true, false, not, ◌&&◌, ◌||◌, Option,
  none, some, List, [], ◌∷◌, ◌++◌, Text, codes, text_eq, ltb, if◌then◌else◌, get, put, delete,
  adjust, adjust_all, has, add, is_some, length, zero,
}
use net_sim.Addr.{decimal}
use net_sim.Packet.{EthernetFrame}
use net_sim.Scheduler.{push}
use net_sim.Network.State.{
  Endpoint, endpoint_key, Link, Transmission, Command, send, timer, cancel, NodeContext, Outcome,
  Devices, Timer, deliver, fire, action, Network,
}

-- one round of the generator of `random`, on a word of 32 bits
unfoldable pub xorshift : ℕ → ℕ
xorshift x =
    let y = bit_xor x (x * 2 ^ 13 % 2 ^ 32) in
    let z = bit_xor y (y / 2 ^ 17) in bit_xor z (z * 2 ^ 5 % 2 ^ 32)

-- what `slice` leaves from an index on
abbrev pub drop : ℕ → List ℕ → List ℕ
drop zero xs = xs
drop (suc n) [] = []
drop (suc n) (x ∷ xs) = drop n xs

abbrev pub lose : Transmission → Transmission
lose tx = record tx { lost = true }

abbrev pub cancelled_timer : {D : Type 0} → Timer D → Timer D
cancelled_timer t = record t { cancelled = true }

module _ {S A D : Type 0} where
  abbrev pub context : Network S A D → Text → NodeContext
  context n id = record {
    now = n.now;
    connected = λ port. has n.port_map (record { node = id; port = port });
    packet_seq = n.packet_seq;
    timer_seq = n.timer_seq;
  }

  -- a frame that leaves by the cable `link`, which the cable loses or brings to `to`
  unfoldable pub put_on :
      Network S A D → ℕ → Link → Endpoint → Endpoint → EthernetFrame → Network S A D
  put_on n ref link from to frame =
      let id = suc n.tx_seq in
      let arrive_at = n.now + link.latency in
      let next = if not link.drop_next && ltb 0 link.loss then xorshift n.rng else n.rng in
      let lost = link.drop_next || (ltb 0 link.loss && ltb next link.loss) in
      record n {
        tx_seq = id;
        rng = next;
        transmissions = n.transmissions ++ id ∷ [];
        tx_store = put n.tx_store id (record {
          link_id = link.id;
          from = from;
          to = to;
          depart_at = n.now;
          arrive_at = arrive_at;
          frame = frame;
          lost = lost;
          graceful = false;
        });
        link_store =
            if lost then put n.link_store ref (record link { drop_next = false }) else n.link_store;
        sched = if lost then n.sched else (push n.sched arrive_at (deliver id) 0).1;
      }

  unfoldable pub send_frame : Network S A D → Text → ℕ → EthernetFrame → Network S A D
  send_frame n id port frame = elim (get n.port_map (record { node = id; port = port })) [
    | none ↦ n
    | some (ref, other) ↦ elim (get n.link_store ref) [
      | none ↦ n
      | some link ↦ put_on n ref link (record { node = id; port = port }) other frame
    ]
  ]

  unfoldable pub start_timer : Network S A D → Text → ℕ → D → Bool → Network S A D
  start_timer n id delay data_of background =
      let ref = suc n.timer_seq in
      let known : List ℕ = elim (get n.timers_of id) [ none ↦ [] | some refs ↦ refs ] in
      record n {
        timer_seq = ref;
        timer_store =
            put n.timer_store ref (record { node = id; data_of = data_of; cancelled = false });
        timers_of = put n.timers_of id (add known ref);
        sched = if background then n.sched else (push n.sched (n.now + delay) (fire ref) 0).1;
        bg = if background then (push n.bg (n.now + delay) (fire ref) 0).1 else n.bg;
      }

  unfoldable pub run_command : Text → Network S A D → Command D → Network S A D
  run_command id n (send port frame) = send_frame n id port frame
  run_command id n (timer delay data_of background) = start_timer n id delay data_of background
  run_command id n (cancel ref) = record n {
    timer_store = adjust cancelled_timer n.timer_store ref;
  }

  unfoldable pub run_commands : Text → Network S A D → List (Command D) → Network S A D
  run_commands id n [] = n
  run_commands id n (c ∷ cs) = run_commands id (run_command id n c) cs

  -- a handler of the device `id`, if there is one
  unfoldable pub visit : Network S A D → Text → (S → NodeContext → Outcome S D) → Network S A D
  visit n id handler = elim (get n.nodes id) [
    | none ↦ n
    | some s ↦
        let o = handler s (context n id) in
        run_commands id (record n { nodes = put n.nodes id o.node; packet_seq = o.packets })
          o.commands
  ]

  unfoldable pub add_node : Network S A D → Text → S → Option (Network S A D)
  add_node n id s = if has n.nodes id then none else some (record n { nodes = put n.nodes id s })

module _ {S A D : Type 0} (dev : Devices S A D) where
  -- the device is there, has the port, and nothing is plugged in
  unfoldable pub is_pluggable : Network S A D → Endpoint → Bool
  is_pluggable n ep = elim (get n.nodes ep.node) [
    | none ↦ false
    | some s ↦ ltb ep.port (dev.port_count s) && not (has n.port_map ep)
  ]

  abbrev pub tell_link : Bool → Network S A D → Endpoint → Network S A D
  tell_link up n ep = visit n ep.node (λ s ctx. dev.on_link s ctx ep.port up)

  unfoldable pub connect :
      Network S A D → Endpoint → Endpoint → ℕ → Option Text → Option (Network S A D)
  connect n a b latency name =
      if not (is_pluggable n a) || not (is_pluggable n b)
      then none
      else let seq = if is_some name then n.link_seq else suc n.link_seq in
        let id : Text = elim name [ none ↦ codes "link" ++ decimal seq | some x ↦ x ] in
        let ref = suc n.link_ref in
        let link : Link = record {
          id = id;
          a = a;
          b = b;
          latency = latency;
          loss = 0;
          drop_next = false;
        } in
        let n1 = record n {
          link_seq = seq;
          link_ref = ref;
          links = put n.links id ref;
          link_store = put n.link_store ref link;
          port_map = put (put n.port_map a (ref, b)) b (ref, a);
        } in
        some (tell_link true (tell_link true n1 a) b)

  -- a frame that is on the cable as it is pulled out
  abbrev pub cut : Text → ℕ → Transmission → Transmission
  cut id now tx =
      if text_eq tx.link_id id && not tx.lost && not tx.graceful && ltb now tx.arrive_at
      then lose tx
      else tx

  abbrev pub survive : Transmission → Transmission
  survive tx = record tx { graceful = true }

  -- the cable `link` is out: its frames are lost, and what its ends send at once survives
  unfoldable pub pull_out : Network S A D → Text → Link → Network S A D
  pull_out n id link =
      let n1 = record n {
        links = delete n.links id;
        port_map = delete (delete n.port_map link.a) link.b;
        tx_store = adjust_all (cut id n.now) n.tx_store n.transmissions;
      } in
      let n2 = tell_link false (tell_link false n1 link.a) link.b in
      record n2 {
        tx_store = adjust_all survive n2.tx_store (drop (length n1.transmissions) n2.transmissions);
      }

  unfoldable pub disconnect : Network S A D → Text → Network S A D
  disconnect n id = elim (get n.links id) [
    | none ↦ n
    | some ref ↦ elim (get n.link_store ref) [ none ↦ n | some link ↦ pull_out n id link ]
  ]

  -- the cables of a device, one after the other
  unfoldable pub unplug : Text → Network S A D → List (Text × ℕ) → Network S A D
  unplug id n [] = n
  unplug id n ((key, ref) ∷ rest) = elim (get n.link_store ref) [
    | none ↦ unplug id n rest
    | some link ↦
        unplug id
          (if text_eq link.a.node id || text_eq link.b.node id then disconnect n link.id else n)
          rest
  ]

  abbrev pub survive_from : Text → Transmission → Transmission
  survive_from id tx = if text_eq tx.from.node id then survive tx else tx

  unfoldable pub remove_node : Network S A D → Text → Network S A D
  remove_node n id =
      if not (has n.nodes id)
      then n
      else let refs : List ℕ = elim (get n.timers_of id) [ none ↦ [] | some refs ↦ refs ] in
        let n1 = record n {
          timer_store = adjust_all cancelled_timer n.timer_store refs;
          timers_of = delete n.timers_of id;
        } in
        let n2 = visit n1 id dev.on_remove in
        let n3 = record n2 {
          tx_store =
              adjust_all (survive_from id) n2.tx_store
                (drop (length n1.transmissions) n2.transmissions);
        } in
        let n4 = unplug id n3 n3.links in record n4 { nodes = delete n4.nodes id }

module _ {S A D : Type 0} where
  -- a change of the cable of that name
  unfoldable pub change_link : (Link → Link) → Network S A D → Text → Network S A D
  change_link f n id = elim (get n.links id) [
    | none ↦ n
    | some ref ↦ record n { link_store = adjust f n.link_store ref }
  ]

  abbrev pub set_link_loss : Network S A D → Text → ℕ → Network S A D
  set_link_loss n id loss =
      change_link (λ l. record l { loss = if ltb (2 ^ 32) loss then 2 ^ 32 else loss }) n id

  abbrev pub drop_next_on : Network S A D → Text → Network S A D
  drop_next_on n id = change_link (λ l. record l { drop_next = true }) n id

  unfoldable pub schedule_action : Network S A D → ℕ → Text → A → Option (Network S A D)
  schedule_action n time id a =
      if ltb time n.now
      then none
      else some (record n {
        actions = n.actions ++ (time, (id, a)) ∷ [];
        sched = (push n.sched time (action id a) 1).1;
      })

  -- the transmissions from the first that arrives no earlier than a time on
  unfoldable pub prune_from : Network S A D → ℕ → List ℕ → List ℕ
  prune_from n before [] = []
  prune_from n before (id ∷ ids) =
      let rest = prune_from n before ids in
      elim (get n.tx_store id) [
        | none ↦ id ∷ ids
        | some tx ↦ if ltb tx.arrive_at before then rest else id ∷ ids
      ]

  abbrev pub prune_transmissions : Network S A D → ℕ → Network S A D
  prune_transmissions n before = record n { transmissions = prune_from n before n.transmissions }
