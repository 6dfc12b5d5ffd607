-- ===== src/Ha/Roles.antt =====
-- The private methods of `Ha`: priorities, advertisements, timers, and becoming and ceasing to be
-- the master.
use net_sim.Prelude.{
  nat_eq, ℕ, suc, ◌+◌, Bool, true, false, ◌&&◌, Option, none, some, List, [], ◌∷◌, ◌++◌, codes, ltb,
  ◌==◌, if◌then◌else◌,
}
use net_sim.Addr.{Ip, ip_to_int, ◌>>=◌}
use net_sim.Packet.{Mac}
use net_sim.Ha.{
  HaConfig, master_down, advert_interval, backup, master, is_master, virtual_mac, skew_ms,
  VrrpPacket, HaHost, token, advert, watch, Effect, sends, sets_vip, resigns, starts_timer,
  cancels_timer, Ha, vips_from, all_up, has_any, is_on,
}

-- the wait that was set before, if any, is cancelled
abbrev pub cancel_old : Option ℕ → List Effect
cancel_old none = []
cancel_old (some t) = cancels_timer t ∷ []

-- the wait to become the master, in place of an older one
unfoldable pub arm : ℕ → Ha → List Effect × Ha
arm ms h =
    let n = suc h.timer_token in
    let old = cancel_old h.armed_timer in
    (
      old ++ starts_timer ms (token n) ∷ [],
      record h { timer_token = n; armed = some n; armed_timer = some n },
    )

unfoldable pub schedule_advert : Ha → List Effect × Ha
schedule_advert h =
    let n = suc h.timer_token in
    if is_on h.config.advert
    then (
      starts_timer advert_interval (advert n) ∷ [],
      record h { timer_token = n; advertising = some n },
    )
    else ([], h)

unfoldable pub take_vips : ℕ → List (ℕ × Ip) → List Effect
take_vips vrid [] = []
take_vips vrid ((i, v) ∷ vs) =
    sets_vip i (some (record { ip = v; mac = virtual_mac vrid })) ∷ take_vips vrid vs

unfoldable pub drop_vips : List (ℕ × Ip) → List Effect
drop_vips [] = []
drop_vips ((i, v) ∷ vs) = sets_vip i none ∷ drop_vips vs

-- `count` is how many interfaces the box has.
module _ (count : ℕ) where
  -- `vipIfaces`, each with its address
  abbrev pub vip_ifaces : HaConfig → List (ℕ × Ip)
  vip_ifaces c = vips_from count c.vips 0

  -- 0 where one of the interfaces is not ready
  unfoldable pub effective_priority : HaHost → HaConfig → ℕ
  effective_priority host c =
      if c.enabled && has_any (vip_ifaces c) && all_up host (vip_ifaces c) then c.priority else 0

  unfoldable pub first_address : HaHost → List (ℕ × Ip) → Ip
  first_address host [] = codes "0.0.0.0"
  first_address host ((i, v) ∷ vs) = elim (host.iface_ip i) [
    | none ↦ codes "0.0.0.0"
    | some ip ↦ ip
  ]

  -- the address that tells boxes of one priority apart
  abbrev pub rid : HaHost → HaConfig → Ip
  rid host c = first_address host (vip_ifaces c)

  -- whether the sender comes before this box
  unfoldable pub outranks : HaHost → HaConfig → VrrpPacket → ℕ → Option Bool
  outranks host c msg mine =
      let tie : Option Bool = (do
        x ← ip_to_int msg.rid
        y ← ip_to_int (rid host c)
        some (ltb y x)) in
      if ltb mine msg.priority then some true else if msg.priority == mine then tie else some false

  unfoldable pub advert_to : HaHost → Ha → ℕ → Bool → List (ℕ × Ip) → List Effect
  advert_to host h priority candidate [] = []
  advert_to host h priority candidate ((i, v) ∷ vs) =
      let rest = advert_to host h priority candidate vs in
      let mac : Option Mac =
        if is_master h.state && ltb 0 priority then some (virtual_mac h.config.vrid) else none in
      let msg : VrrpPacket = record {
        vrid = h.config.vrid;
        priority = priority;
        vip = v;
        rid = rid host h.config;
        candidate = candidate;
      } in
      elim (host.iface_ip i) [
        | none ↦ rest
        | some src ↦ if host.link_up i then sends i src msg mac ∷ rest else rest
      ]

  abbrev pub advertise : HaHost → Ha → ℕ → Bool → List Effect
  advertise host h priority candidate = advert_to host h priority candidate (vip_ifaces h.config)

  unfoldable pub watch_master : HaHost → Ha → List Effect × Ha
  watch_master host h =
      let n = suc h.timer_token in
      if is_on h.config.advert
      then (
        starts_timer (master_down + skew_ms (effective_priority host h.config)) (watch n) ∷ [],
        record h { timer_token = n; watching = some n },
      )
      else ([], h)

  unfoldable pub start : HaHost → Ha → List Effect × Ha
  start host h =
      let p = effective_priority host h.config in
      let h1 = record h { last_priority = p; state = backup } in
      let (es, h2) = arm (master_down + skew_ms p) h1 in
      if p == 0 then ([], h1) else (advertise host h1 p true ++ es, h2)

  unfoldable pub become_master : HaHost → Ha → List Effect × Ha
  become_master host h =
      let h1 = record h { state = master; master_ip = none; watching = none } in
      let (es, h2) = schedule_advert h1 in
      (
        take_vips h.config.vrid (vip_ifaces h.config)
            ++ advertise host h1 h.config.priority false
            ++ es,
        h2,
      )

  unfoldable pub resign : HaHost → Ha → List Effect × Ha
  resign host h =
      let h1 = record h { state = backup; advertising = none } in
      let (es, h2) = watch_master host h1 in
      if is_master h.state
      then (drop_vips (vip_ifaces h.config) ++ resigns ∷ advertise host h1 0 false ++ es, h2)
      else ([], h)
