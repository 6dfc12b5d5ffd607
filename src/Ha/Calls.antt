-- ===== src/Ha/Calls.antt =====
-- The operations of `Ha`: configuration, timers, links and messages, and sequences of calls.
use net_sim.Prelude.{
  nat_eq, ℕ, Bool, true, false, not, ◌&&◌, ◌||◌, Option, none, some, List, [], ◌∷◌, ◌++◌, text_eq,
  ltb, ◌==◌, if◌then◌else◌, is_some,
}
use net_sim.Addr.{Ip, ◌>>=◌}
use net_sim.Ha.{
  HaConfig, init, is_master, skew_ms, VrrpPacket, HaHost, TimerData, token, advert, watch, Effect,
  sees_backup, hands_over, Ha,
}
use net_sim.Ha.Roles.{
  cancel_old, effective_priority, outranks, advertise, arm, schedule_advert, watch_master, start,
  become_master, resign,
}

unfoldable pub vips_eq : List (Option Ip) → List (Option Ip) → Bool
vips_eq [] [] = true
vips_eq [] (b ∷ bs) = false
vips_eq (a ∷ as_) [] = false
vips_eq (none ∷ as_) (none ∷ bs) = vips_eq as_ bs
vips_eq (none ∷ as_) (some b ∷ bs) = false
vips_eq (some a ∷ as_) (none ∷ bs) = false
vips_eq (some a ∷ as_) (some b ∷ bs) = text_eq a b && vips_eq as_ bs

unfoldable pub flag_eq : Option Bool → Option Bool → Bool
flag_eq none none = true
flag_eq none (some b) = false
flag_eq (some a) none = false
flag_eq (some a) (some b) = if a then b else not b

-- the comparisons by `JSON.stringify`, without and with `advert`
unfoldable pub rest_eq : HaConfig → HaConfig → Bool
rest_eq a b =
    (if a.enabled then b.enabled else not b.enabled)
    && a.vrid == b.vrid
    && a.priority == b.priority
    && vips_eq a.vips b.vips
    && flag_eq a.sync b.sync

unfoldable pub config_eq : HaConfig → HaConfig → Bool
config_eq a b = rest_eq a b && flag_eq a.advert b.advert

abbrev pub option_eq : ℕ → Option ℕ → Bool
option_eq n none = false
option_eq n (some m) = n == m

-- effects before those of a call
abbrev pub before : List Effect → List Effect × Ha → List Effect × Ha
before es (fs, h) = (es ++ fs, h)

module _ (count : ℕ) where
  -- only the periodic advertisement changes
  unfoldable pub set_advert : HaHost → Ha → HaConfig → List Effect × Ha
  set_advert host h cfg =
      let h1 = record h { config = cfg; advertising = none; watching = none } in
      if is_master h.state
      then schedule_advert h1
      else if is_some h.master_ip
      then watch_master count host h1
      else ([], h1)

  unfoldable pub restart : HaHost → Ha → HaConfig → List Effect × Ha
  restart host h cfg =
      let (es, h1) = resign count host h in
      let h2 = record h1 {
        config = cfg;
        state = init;
        master_ip = none;
        advertising = none;
        watching = none;
      } in
      if cfg.enabled then before es (start count host h2) else (es, h2)

  unfoldable pub set_config : HaHost → Ha → HaConfig → List Effect × Ha
  set_config host h cfg =
      if config_eq cfg h.config
      then ([], h)
      else if not cfg.enabled && not h.config.enabled
      then ([], record h { config = cfg })
      else if h.config.enabled && rest_eq cfg h.config
      then set_advert host h cfg
      else restart host h cfg

  unfoldable pub poke : HaHost → Ha → List Effect × Ha
  poke host h =
      if h.config.enabled && is_master h.state
      then (advertise count host h h.config.priority false, h)
      else ([], h)

  unfoldable pub on_timer : HaHost → Ha → TimerData → List Effect × Ha
  on_timer host h (advert n) =
      let h1 = record h { advertising = none } in
      if not (option_eq n h.advertising)
      then ([], h)
      else if not h.config.enabled || not (is_master h.state)
      then ([], h1)
      else before (advertise count host h1 h.config.priority false) (schedule_advert h1)
  on_timer host h (watch n) =
      let h1 = record h { watching = none } in
      if not (option_eq n h.watching)
      then ([], h)
      else if not h.config.enabled
          || is_master h.state
          || is_some h.armed
          || effective_priority count host h.config == 0
      then ([], h1)
      else become_master count host h1
  on_timer host h (token n) =
      let h1 = record h { armed = none } in
      if not (option_eq n h.armed)
      then ([], h)
      else if not h.config.enabled
          || is_master h.state
          || effective_priority count host h.config == 0
      then ([], h1)
      else become_master count host h1

  unfoldable pub on_links : HaHost → Ha → List Effect × Ha
  on_links host h =
      let p = effective_priority count host h.config in
      let h1 = record h { last_priority = p } in
      if not h.config.enabled
      then ([], h)
      else if is_master h.state && p == 0
      then resign count host h1
      else if not (is_master h.state) && ltb 0 p && h.last_priority == 0
      then start count host h1
      else ([], h1)

  -- a master hears an advertisement
  unfoldable pub hear_as_master : HaHost → Ha → Ip → VrrpPacket → Option (List Effect × Ha)
  hear_as_master host h src msg =
      let told = advertise count host h h.config.priority false in
      if msg.priority == 0 then some (told, h) else do
        higher ← outranks count host h.config msg (effective_priority count host h.config)
        some (
            if higher
            then before ((if msg.candidate then sees_backup else hands_over) ∷ [])
                (resign count host (record h { master_ip = some src }))
            else (told ++ (if msg.candidate then sees_backup ∷ [] else []), h))

  -- a master that comes before this box: the wait ends, and the watch starts again
  unfoldable pub follow : HaHost → Ha → Ip → List Effect × Ha
  follow host h src =
      before (cancel_old h.armed_timer)
        (watch_master count host (record h { armed = none; master_ip = some src }))

  -- another box hears an advertisement
  unfoldable pub hear_as_backup : HaHost → Ha → Ip → VrrpPacket → Option (List Effect × Ha)
  hear_as_backup host h src msg =
      let mine = effective_priority count host h.config in
      if msg.priority == 0
      then some (if mine == 0 then ([], h) else arm (skew_ms mine) (record h { master_ip = none }))
      else do
        higher ← outranks count host h.config msg mine
        some (
            if higher
            then if msg.candidate then ([], h) else follow host h src
            else before (advertise count host h mine true) (arm (skew_ms mine) h))

  unfoldable pub handle : HaHost → Ha → Ip → VrrpPacket → Option (List Effect × Ha)
  handle host h src msg =
      let as_master = hear_as_master host h src msg in
      if not h.config.enabled || not (msg.vrid == h.config.vrid)
      then some ([], h)
      else if is_master h.state
      then as_master
      else hear_as_backup host h src msg

  unfoldable pub shutdown : HaHost → Ha → List Effect × Ha
  shutdown host h = if h.config.enabled then resign count host h else ([], h)

-- a call of the box, with what it told of its interfaces then; one that throws changes nothing
pub data Call : Type 0 where
  configures : HaConfig → Call
  pokes : Call
  fires : TimerData → Call
  changes_links : Call
  hears : Ip → VrrpPacket → Call
  shuts_down : Call

abbrev pub or_nothing : Ha → Option (List Effect × Ha) → List Effect × Ha
or_nothing h none = ([], h)
or_nothing h (some r) = r

module _ (count : ℕ) where
  unfoldable pub step : Ha → HaHost × Call → List Effect × Ha
  step h (host, configures cfg) = set_config count host h cfg
  step h (host, pokes) = poke count host h
  step h (host, fires data_of) = on_timer count host h data_of
  step h (host, changes_links) = on_links count host h
  step h (host, hears src msg) = or_nothing h (handle count host h src msg)
  step h (host, shuts_down) = shutdown count host h

  unfoldable pub run : Ha → List (HaHost × Call) → List Effect × Ha
  run h [] = ([], h)
  run h (c ∷ cs) = let (es, h1) = step h c in let (fs, h2) = run h1 cs in (es ++ fs, h2)
