-- ===== src/Ha/Holding.antt =====
-- The virtual addresses of src/core/nodes/ha.ts under every operation: the master alone holds them.
use net_sim.Prelude.{
  nat_eq, ℕ, ◌≡◌, refl, sym, ap, ◌∙◌, Bool, true, false, not, ◌&&◌, ◌||◌, Option, none, some, List,
  [], ◌∷◌, ◌++◌, arith, text_eq, text_eq_iff, ltb, ◌==◌, if◌then◌else◌, is_some, Option-cases,
  Bool-cases, inl, inr,
}
use mathlib.Core.Path.{subst}
use net_sim.Addr.{Ip}
use net_sim.Ha.{
  HaConfig, is_master, VrrpPacket, HaHost, TimerData, token, advert, watch, Vip, Effect,
  sees_backup, hands_over, Ha, new, skew_ms, vips_from,
}
use net_sim.Ha.Roles.{
  cancel_old, vip_ifaces, effective_priority, outranks, advertise, arm, schedule_advert,
  watch_master, start, become_master, resign,
}
use net_sim.Ha.Calls.{
  before, vips_eq, rest_eq, config_eq, option_eq, set_advert, restart, set_config, poke, on_timer,
  on_links, hear_as_master, follow, hear_as_backup, handle, shutdown, Call, configures, pokes,
  fires, changes_links, hears, shuts_down, or_nothing, step, run,
}
use net_sim.Ha.Held.{
  held, held-++, owned, held-advert_to, Holds, Fits, Fits-if, Fits-before, Fits-quiet, idle-Holds,
  idle-none, arm-Fits, schedule_advert-Fits, watch_master-Fits, start-Fits, become_master-Fits,
  resign-Fits, restart-Fits,
}

vips_eq-same : (as_ bs : List (Option Ip)) → vips_eq as_ bs ≡ true → as_ ≡ bs
unfolding vips_eq
vips_eq-same [] [] e = refl
vips_eq-same [] (b ∷ bs) e = absurd (cc)
vips_eq-same (a ∷ as_) [] e = absurd (cc)
vips_eq-same (none ∷ as_) (none ∷ bs) e = ap (λ xs. none ∷ xs) (vips_eq-same as_ bs e)
vips_eq-same (none ∷ as_) (some b ∷ bs) e = absurd (cc)
vips_eq-same (some a ∷ as_) (none ∷ bs) e = absurd (cc)
vips_eq-same (some a ∷ as_) (some b ∷ bs) e =
    let same : text_eq a b ≡ true = ground (arith, e) in
    let rest = vips_eq-same as_ bs (ground (arith, e)) in
    let first : a ≡ b = (text_eq_iff a b).0 same in cc

rest_eq-same :
    (a b : HaConfig)
    → rest_eq a b ≡ true
    → (a.vips ≡ b.vips) × ((a.vrid ≡ b.vrid) × (b.enabled ≡ true → a.enabled ≡ true))
unfolding rest_eq
rest_eq-same a b e = (
  vips_eq-same a.vips b.vips (ground (arith, e)),
  (ground (arith, e), λ on. ground (arith, e, on)),
)

held-cancel : (j : ℕ) (t : Option ℕ) (o : Option Vip) → held j o (cancel_old t) ≡ o
unfolding held
held-cancel j none o = refl
held-cancel j (some t) o = refl

held-one :
    (j : ℕ) (b : Bool) (o : Option Vip)
    → held j o ((if b then sees_backup else hands_over) ∷ []) ≡ o
unfolding held
held-one j true o = refl
held-one j false o = refl

held-seen : (j : ℕ) (b : Bool) (o : Option Vip) → held j o (if b then sees_backup ∷ [] else []) ≡ o
unfolding held
held-seen j true o = refl
held-seen j false o = refl

module _ (count : ℕ) (j : ℕ) (host : HaHost) where
  set_advert-Fits :
      (h : Ha) (cfg : HaConfig) (o : Option Vip)
      → rest_eq cfg h.config ≡ true
      → Holds count j h o
      → Fits count j o (set_advert count host h cfg)
  unfolding set_advert held
  set_advert-Fits h cfg o e v =
      let (vips, (vrid, on)) = rest_eq-same cfg h.config e in
      let h1 = record h { config = cfg; advertising = none; watching = none } in
      let w : Holds count j h1 o = (
        v.0
            ∙ ap (λ x. if is_master h.state then owned x j (vip_ifaces count h.config) else none)
                (sym vrid)
            ∙ ap (λ x. if is_master h.state then owned cfg.vrid j (vips_from count x 0) else none)
                (sym vips),
        λ m. on (v.1 m),
      ) in
      Fits-if count j (is_master h.state) o (schedule_advert h1)
        (if is_some h.master_ip then watch_master count host h1 else ([], h1))
        (λ m. schedule_advert-Fits count j h1 o w)
        (λ m.
          Fits-if count j (is_some h.master_ip) o (watch_master count host h1) ([], h1)
            (λ s. watch_master-Fits count j host h1 o w) (λ s. w))

  set_config-Fits :
      (h : Ha) (cfg : HaConfig) (o : Option Vip)
      → Holds count j h o
      → Fits count j o (set_config count host h cfg)
  unfolding set_config held
  set_config-Fits h cfg o v =
      Fits-if count j (config_eq cfg h.config) o ([], h)
        (if not cfg.enabled && not h.config.enabled
          then ([], record h { config = cfg })
          else if h.config.enabled && rest_eq cfg h.config
          then set_advert count host h cfg
          else restart count host h cfg)
        (λ same. v)
        (λ other.
          Fits-if count j (not cfg.enabled && not h.config.enabled) o
            ([], record h { config = cfg })
            (if h.config.enabled && rest_eq cfg h.config
              then set_advert count host h cfg
              else restart count host h cfg)
            (λ off.
              let idle : is_master h.state ≡ false = ground (arith, off, v.1) in
              idle-Holds count j (record h { config = cfg }) o idle (idle-none count j h o idle v))
            (λ some_on.
              Fits-if count j (h.config.enabled && rest_eq cfg h.config) o
                (set_advert count host h cfg) (restart count host h cfg)
                (λ e. set_advert-Fits h cfg o (ground (arith, e)) v)
                (λ e. restart-Fits count j host h cfg o v)))

  promote-Fits :
      (h : Ha) (o : Option Vip) (b : Bool)
      → (b ≡ false → (h.config.enabled ≡ true) × (is_master h.state ≡ false))
      → Holds count j h o
      → Fits count j o (if b then ([], h) else become_master count host h)
  promote-Fits h o true f v = unfold held in v
  promote-Fits h o false f v =
      let (on, idle) = f refl in
      subst (λ x. Fits count j x (become_master count host h)) (sym (idle-none count j h o idle v))
        (become_master-Fits count j host h on)

  on_timer-Fits :
      (h : Ha) (d : TimerData) (o : Option Vip)
      → Holds count j h o
      → Fits count j o (on_timer count host h d)
  unfolding on_timer held
  on_timer-Fits h (advert n) o v =
      let h1 = record h { advertising = none } in
      let told = advertise count host h1 h.config.priority false in
      Fits-if count j (not (option_eq n h.advertising)) o ([], h)
        (if not h.config.enabled || not (is_master h.state)
          then ([], h1)
          else before told (schedule_advert h1))
        (λ e. v)
        (λ e.
          Fits-if count j (not h.config.enabled || not (is_master h.state)) o ([], h1)
            (before told (schedule_advert h1)) (λ f. v)
            (λ f.
              Fits-quiet count j o told (schedule_advert h1)
                (held-advert_to count host h1 h.config.priority false j o
                  (vip_ifaces count h.config))
                (schedule_advert-Fits count j h1 o v)))
  on_timer-Fits h (watch n) o v =
      let h1 = record h { watching = none } in
      let stays =
        not h.config.enabled
        || is_master h.state
        || is_some h.armed
        || effective_priority count host h.config == 0 in
      Fits-if count j (not (option_eq n h.watching)) o ([], h)
        (if stays then ([], h1) else become_master count host h1) (λ e. v)
        (λ e. promote-Fits h1 o stays (λ f. (ground (arith, f), ground (arith, f))) v)
  on_timer-Fits h (token n) o v =
      let h1 = record h { armed = none } in
      let stays =
        not h.config.enabled || is_master h.state || effective_priority count host h.config == 0 in
      Fits-if count j (not (option_eq n h.armed)) o ([], h)
        (if stays then ([], h1) else become_master count host h1) (λ e. v)
        (λ e. promote-Fits h1 o stays (λ f. (ground (arith, f), ground (arith, f))) v)

  on_links-Fits :
      (h : Ha) (o : Option Vip) → Holds count j h o → Fits count j o (on_links count host h)
  unfolding on_links held
  on_links-Fits h o v =
      let p = effective_priority count host h.config in
      let h1 = record h { last_priority = p } in
      let starts = not (is_master h.state) && ltb 0 p && h.last_priority == 0 in
      Fits-if count j (not h.config.enabled) o ([], h)
        (if is_master h.state && p == 0
          then resign count host h1
          else if starts
          then start count host h1
          else ([], h1))
        (λ e. v)
        (λ e.
          Fits-if count j (is_master h.state && p == 0) o (resign count host h1)
            (if starts then start count host h1 else ([], h1))
            (λ f. resign-Fits count j host h1 o v)
            (λ f.
              Fits-if count j starts o (start count host h1) ([], h1)
                (λ s.
                  subst (λ x. Fits count j x (start count host h1))
                    (sym (idle-none count j h o (ground (arith, s)) v))
                    (start-Fits count j host h1))
                (λ s. v)))

  hear_as_master-Fits :
      (h : Ha) (src : Ip) (msg : VrrpPacket) (o : Option Vip)
      → Holds count j h o
      → Fits count j o (or_nothing h (hear_as_master count host h src msg))
  unfolding hear_as_master held
  hear_as_master-Fits h src msg o v =
      let told = advertise count host h h.config.priority false in
      let quiet =
        held-advert_to count host h h.config.priority false j o (vip_ifaces count h.config) in
      elim (Bool-cases (msg.priority == 0)) [
        | inl e ↦ rw (e, hear_as_master) (quiet ∙ v.0, v.1)
        | inr e ↦
            elim (Option-cases
              (outranks count host h.config msg (effective_priority count host h.config))) [
                | inl f ↦ rw (e, f, hear_as_master) v
                | inr (higher, f) ↦
                    let seen : List Effect =
                      (if msg.candidate then sees_backup else hands_over) ∷ [] in
                    let gone = record h { master_ip = some src } in
                    rw (e, f, hear_as_master)
                      (Fits-if count j higher o (before seen (resign count host gone))
                        (told ++ (if msg.candidate then sees_backup ∷ [] else []), h)
                        (λ t.
                          Fits-quiet count j o seen (resign count host gone)
                            (held-one j msg.candidate o) (resign-Fits count j host gone o v))
                        (λ t. (
                          held-++ j o told (if msg.candidate then sees_backup ∷ [] else [])
                              ∙ held-seen j msg.candidate (held j o told)
                              ∙ quiet
                              ∙ v.0,
                          v.1,
                        )))
              ]
      ]

  follow-Fits :
      (h : Ha) (src : Ip) (o : Option Vip)
      → Holds count j h o
      → Fits count j o (follow count host h src)
  unfolding follow held
  follow-Fits h src o v =
      let h1 = record h { armed = none; master_ip = some src } in
      Fits-quiet count j o (cancel_old h.armed_timer) (watch_master count host h1)
        (held-cancel j h.armed_timer o) (watch_master-Fits count j host h1 o v)

  hear_as_backup-Fits :
      (h : Ha) (src : Ip) (msg : VrrpPacket) (o : Option Vip)
      → Holds count j h o
      → Fits count j o (or_nothing h (hear_as_backup count host h src msg))
  unfolding hear_as_backup follow held
  hear_as_backup-Fits h src msg o v =
      let mine = effective_priority count host h.config in
      let told = advertise count host h mine true in
      let quiet = held-advert_to count host h mine true j o (vip_ifaces count h.config) in
      elim (Bool-cases (msg.priority == 0)) [
        | inl e ↦
            rw (e, hear_as_backup)
              (Fits-if count j (mine == 0) o ([], h)
                (arm (skew_ms mine) (record h { master_ip = none })) (λ z. v)
                (λ z. arm-Fits count j (skew_ms mine) (record h { master_ip = none }) o v))
        | inr e ↦ elim (Option-cases (outranks count host h.config msg mine)) [
          | inl f ↦ rw (e, f, hear_as_backup) v
          | inr (higher, f) ↦
              rw (e, f, hear_as_backup)
                (Fits-if count j higher o
                  (if msg.candidate then ([], h) else follow count host h src)
                  (before told (arm (skew_ms mine) h))
                  (λ t.
                    Fits-if count j msg.candidate o ([], h) (follow count host h src) (λ c. v)
                      (λ c. follow-Fits h src o v))
                  (λ t.
                    Fits-quiet count j o told (arm (skew_ms mine) h) quiet
                      (arm-Fits count j (skew_ms mine) h o v)))
        ]
      ]

  step-Fits :
      (h : Ha) (c : Call) (o : Option Vip)
      → Holds count j h o
      → Fits count j o (step count h (host, c))
  unfolding step poke shutdown handle held
  step-Fits h (configures cfg) o v = set_config-Fits h cfg o v
  step-Fits h pokes o v =
      Fits-if count j (h.config.enabled && is_master h.state) o
        (advertise count host h h.config.priority false, h) ([], h)
        (λ e. (
          held-advert_to count host h h.config.priority false j o (vip_ifaces count h.config) ∙ v.0,
          v.1,
        ))
        (λ e. v)
  step-Fits h (fires d) o v = on_timer-Fits h d o v
  step-Fits h changes_links o v = on_links-Fits h o v
  step-Fits h (hears src msg) o v =
      elim (Bool-cases (not h.config.enabled || not (msg.vrid == h.config.vrid))) [
        | inl e ↦ rw (e, handle) v
        | inr e ↦ elim (Bool-cases (is_master h.state)) [
          | inl m ↦ rw (e, m, handle) (hear_as_master-Fits h src msg o v)
          | inr m ↦ rw (e, m, handle) (hear_as_backup-Fits h src msg o v)
        ]
      ]
  step-Fits h shuts_down o v =
      Fits-if count j h.config.enabled o (resign count host h) ([], h)
        (λ e. resign-Fits count j host h o v) (λ e. v)

run_from-Fits :
    (count j : ℕ) (cs : List (HaHost × Call)) (h : Ha) (o : Option Vip)
    → Holds count j h o
    → Fits count j o (run count h cs)
unfolding run held
run_from-Fits count j [] h o v = v
run_from-Fits count j ((host, c) ∷ cs) h o v =
    Fits-before count j o (step count h (host, c)).0 (run count (step count h (host, c)).1 cs) (
      run_from-Fits count j cs (step count h (host, c)).1 (held j o (step count h (host, c)).0)
        (step-Fits count j host h c o v))

-- After any calls of a new box, whatever its links and the other box do, each of its interfaces
-- has the virtual address that the configuration gives it, with the group's MAC, if the box is the
-- master, and none if it is not; and a master is on.
pub run-Fits :
    (count : ℕ) (cs : List (HaHost × Call)) (j : ℕ) → Fits count j none (run count new cs)
unfolding is_master
run-Fits count cs j = run_from-Fits count j cs new none (refl, λ m. absurd (cc))
