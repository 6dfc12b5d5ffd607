-- ===== src/Ha/Held.antt =====
-- The virtual addresses of src/core/nodes/ha.ts: who holds them.
use net_sim.Prelude.{
  nat_eq, ℕ, ◌+◌, ◌≡◌, refl, sym, ap, ◌∙◌, Bool, true, false, Option, none, some, List, [], ◌∷◌,
  ◌++◌, ◌==◌, if◌then◌else◌, Option-cases, Bool-cases, inl, inr,
}
use mathlib.Core.Path.{subst}
use net_sim.Addr.{Ip}
use net_sim.Ha.{
  HaConfig, init, backup, master, is_master, virtual_mac, HaHost, Vip, Effect, sends, sets_vip,
  sees_backup, hands_over, resigns, starts_timer, cancels_timer, Ha, is_on, master_down, skew_ms,
}
use net_sim.Ha.Roles.{
  vip_ifaces, effective_priority, advert_to, advertise, arm, schedule_advert, watch_master, start,
  take_vips, drop_vips, become_master, resign,
}
use net_sim.Ha.Election.{resign-backup}
use net_sim.Ha.Calls.{before, restart}

-- the virtual address of the interface `j` after some effects
unfoldable pub held : ℕ → Option Vip → List Effect → Option Vip
held j old [] = old
held j old (sets_vip i v ∷ es) = held j (if j == i then v else old) es
held j old (sends i src msg mac ∷ es) = held j old es
held j old (sees_backup ∷ es) = held j old es
held j old (hands_over ∷ es) = held j old es
held j old (resigns ∷ es) = held j old es
held j old (starts_timer ms d ∷ es) = held j old es
held j old (cancels_timer n ∷ es) = held j old es

pub held-++ :
    (j : ℕ) (old : Option Vip) (xs ys : List Effect)
    → held j old (xs ++ ys) ≡ held j (held j old xs) ys
unfolding held
held-++ j old [] ys = refl
held-++ j old (sets_vip i v ∷ xs) ys = held-++ j (if j == i then v else old) xs ys
held-++ j old (sends i src msg mac ∷ xs) ys = held-++ j old xs ys
held-++ j old (sees_backup ∷ xs) ys = held-++ j old xs ys
held-++ j old (hands_over ∷ xs) ys = held-++ j old xs ys
held-++ j old (resigns ∷ xs) ys = held-++ j old xs ys
held-++ j old (starts_timer ms d ∷ xs) ys = held-++ j old xs ys
held-++ j old (cancels_timer n ∷ xs) ys = held-++ j old xs ys

-- the virtual address that the configuration gives the interface `j`
unfoldable pub owned : ℕ → ℕ → List (ℕ × Ip) → Option Vip
owned vrid j [] = none
owned vrid j ((i, v) ∷ vs) = elim (owned vrid j vs) [
  | none ↦ if j == i then some (record { ip = v; mac = virtual_mac vrid }) else none
  | some w ↦ some w
]

abbrev over : Option Vip → Option Vip → Option Vip
over none old = old
over (some w) old = some w

held-take :
    (j vrid : ℕ) (old : Option Vip) (vs : List (ℕ × Ip))
    → held j old (take_vips vrid vs) ≡ over (owned vrid j vs) old
unfolding held owned take_vips
held-take j vrid old [] = refl
held-take j vrid old ((i, v) ∷ vs) = elim (Option-cases (owned vrid j vs)) [
  | inl e ↦ elim (Bool-cases (j == i)) [
    | inl same ↦
        rw (e, same, owned, held)
          (held-take j vrid (some (record { ip = v; mac = virtual_mac vrid })) vs ∙ rw e refl)
    | inr other ↦ rw (e, other, owned, held) (held-take j vrid old vs ∙ rw e refl)
  ]
  | inr (w, e) ↦ rw (e, owned) (held-take j vrid _ vs ∙ rw e refl)
]

held-drop_none : (j : ℕ) (vs : List (ℕ × Ip)) → held j none (drop_vips vs) ≡ none
unfolding held drop_vips
held-drop_none j [] = refl
held-drop_none j ((i, v) ∷ vs) = elim (Bool-cases (j == i)) [
  | inl same ↦ rw (same, held) (held-drop_none j vs)
  | inr other ↦ rw (other, held) (held-drop_none j vs)
]

-- Dropping the addresses of a configuration drops all that it gave.
held-drop : (j vrid : ℕ) (vs : List (ℕ × Ip)) → held j (owned vrid j vs) (drop_vips vs) ≡ none
unfolding held owned drop_vips
held-drop j vrid [] = refl
held-drop j vrid ((i, v) ∷ vs) = elim (Bool-cases (j == i)) [
  | inl same ↦ rw (same, held) (held-drop_none j vs)
  | inr other ↦ elim (Option-cases (owned vrid j vs)) [
    | inl e ↦ rw (other, held, e, owned, other) (held-drop_none j vs)
    | inr (w, e) ↦
        rw (other, held, e, owned) (ap (λ o. held j o (drop_vips vs)) (sym e) ∙ held-drop j vrid vs)
  ]
]

pub held-advert_to :
    (count : ℕ) (host : HaHost) (h : Ha) (p : ℕ) (c : Bool) (j : ℕ) (old : Option Vip)
    (vs : List (ℕ × Ip))
    → held j old (advert_to count host h p c vs) ≡ old
unfolding held advert_to
held-advert_to count host h p c j old [] = refl
held-advert_to count host h p c j old ((i, v) ∷ vs) = elim (Option-cases (host.iface_ip i)) [
  | inl e ↦ rw (e, advert_to) (held-advert_to count host h p c j old vs)
  | inr (src, e) ↦ elim (Bool-cases (host.link_up i)) [
    | inl up ↦ rw (e, up, advert_to) (held-advert_to count host h p c j old vs)
    | inr down ↦ rw (e, down, advert_to) (held-advert_to count host h p c j old vs)
  ]
]

over-none : (o : Option Vip) → over o none ≡ o
over-none none = refl
over-none (some w) = refl

module _ (count : ℕ) (j : ℕ) where
  -- the interface `j` has its virtual address if the box is the master, which is on then
  abbrev pub Holds : Ha → Option Vip → Type 0
  Holds h o =
      (o ≡ (if is_master h.state then owned h.config.vrid j (vip_ifaces count h.config) else none))
      × (is_master h.state ≡ true → h.config.enabled ≡ true)

  abbrev pub Fits : Option Vip → List Effect × Ha → Type 0
  Fits o r = Holds r.1 (held j o r.0)

  pub Fits-if :
      (b : Bool) (o : Option Vip) (r q : List Effect × Ha)
      → (b ≡ true → Fits o r)
      → (b ≡ false → Fits o q)
      → Fits o (if b then r else q)
  Fits-if true o r q f g = f refl
  Fits-if false o r q f g = g refl

  pub Fits-before :
      (o : Option Vip) (es : List Effect) (r : List Effect × Ha)
      → Fits (held j o es) r
      → Fits o (before es r)
  Fits-before o es (fs, h) v = (held-++ j o es fs ∙ v.0, v.1)

  pub Fits-quiet :
      (o : Option Vip) (es : List Effect) (r : List Effect × Ha)
      → held j o es ≡ o
      → Fits o r
      → Fits o (before es r)
  Fits-quiet o es r q v = Fits-before o es r (subst (λ x. Fits x r) (sym q) v)

  pub idle-Holds : (h : Ha) (o : Option Vip) → is_master h.state ≡ false → o ≡ none → Holds h o
  idle-Holds h o f e = (e ∙ rw f refl, λ m. absurd (cc))

  pub idle-none : (h : Ha) (o : Option Vip) → is_master h.state ≡ false → Holds h o → o ≡ none
  idle-none h o f v = v.0 ∙ rw f refl

  pub arm-Fits : (ms : ℕ) (h : Ha) (o : Option Vip) → Holds h o → Fits o (arm ms h)
  unfolding arm held
  arm-Fits ms h o v = elim (Option-cases h.armed_timer) [
    | inl e ↦ rw (e, arm) v
    | inr (t, e) ↦ rw (e, arm) v
  ]

  pub schedule_advert-Fits : (h : Ha) (o : Option Vip) → Holds h o → Fits o (schedule_advert h)
  unfolding schedule_advert held
  schedule_advert-Fits h o v = elim (Bool-cases (is_on h.config.advert)) [
    | inl e ↦ rw (e, schedule_advert) v
    | inr e ↦ rw (e, schedule_advert) v
  ]

  pub watch_master-Fits :
      (host : HaHost) (h : Ha) (o : Option Vip) → Holds h o → Fits o (watch_master count host h)
  unfolding watch_master held
  watch_master-Fits host h o v = elim (Bool-cases (is_on h.config.advert)) [
    | inl e ↦ rw (e, watch_master) v
    | inr e ↦ rw (e, watch_master) v
  ]

  watch_quiet :
      (host : HaHost) (h : Ha) (o : Option Vip) → held j o (watch_master count host h).0 ≡ o
  unfolding watch_master held
  watch_quiet host h o = elim (Bool-cases (is_on h.config.advert)) [
    | inl e ↦ rw (e, watch_master) refl
    | inr e ↦ rw (e, watch_master) refl
  ]

  pub start-Fits : (host : HaHost) (h : Ha) → Fits none (start count host h)
  unfolding start is_master
  start-Fits host h =
      let p = effective_priority count host h.config in
      let h1 = record h { last_priority = p; state = backup } in
      let v : Holds h1 none = (refl, λ m. absurd (cc)) in
      Fits-if (p == 0) none ([], h1)
        (before (advertise count host h1 p true) (arm (master_down + skew_ms p) h1))
        (λ e. unfold held in v)
        (λ e.
          Fits-quiet none (advertise count host h1 p true) (arm (master_down + skew_ms p) h1)
            (held-advert_to count host h1 p true j none (vip_ifaces count h1.config))
            (arm-Fits (master_down + skew_ms p) h1 none v))

  pub become_master-Fits :
      (host : HaHost) (h : Ha) → h.config.enabled ≡ true → Fits none (become_master count host h)
  unfolding become_master is_master
  become_master-Fits host h on =
      let h1 = record h { state = master; master_ip = none; watching = none } in
      let vs = vip_ifaces count h.config in
      let o = owned h.config.vrid j vs in
      let adv = advertise count host h1 h.config.priority false in
      let taken = take_vips h.config.vrid vs in
      let took : held j none (taken ++ adv) ≡ o =
        held-++ j none taken adv
        ∙ held-advert_to count host h1 h.config.priority false j (held j none taken) vs
        ∙ held-take j h.config.vrid none vs
        ∙ over-none o in
      Fits-before none (taken ++ adv) (schedule_advert h1) (
        subst (λ x. Fits x (schedule_advert h1)) (sym took)
          (schedule_advert-Fits h1 o (refl, λ m. on)))

  resign-none :
      (host : HaHost) (h : Ha) (o : Option Vip)
      → Holds h o
      → (held j o (resign count host h).0 ≡ none)
        × (is_master (resign count host h).1.state ≡ false)
  unfolding resign
  resign-none host h o v = elim (Bool-cases (is_master h.state)) [
    | inr f ↦ rw (f, resign) (unfold held in idle-none h o f v, f)
    | inl m ↦
        let h1 = record h { state = backup; advertising = none } in
        let vs = vip_ifaces count h.config in
        let here : o ≡ owned h.config.vrid j vs = v.0 ∙ rw m refl in
        let adv = advertise count host h1 0 false in
        let es = (watch_master count host h1).0 in
        let freed : held j o (drop_vips vs ++ resigns ∷ adv) ≡ none =
          held-++ j o (drop_vips vs) (resigns ∷ adv)
          ∙ unfold held in
            held-advert_to count host h1 0 false j (held j o (drop_vips vs)) vs
            ∙ ap (λ x. held j x (drop_vips vs)) here
            ∙ held-drop j h.config.vrid vs in
        (
          rw (m, resign)
              (held-++ j o (drop_vips vs ++ resigns ∷ adv) es
                ∙ ap (λ x. held j x es) freed
                ∙ watch_quiet host h1 none),
          resign-backup count host h m,
        )
  ]

  pub resign-Fits :
      (host : HaHost) (h : Ha) (o : Option Vip) → Holds h o → Fits o (resign count host h)
  resign-Fits host h o v =
      let (freed, idle) = resign-none host h o v in
      idle-Holds (resign count host h).1 (held j o (resign count host h).0) idle freed

  pub restart-Fits :
      (host : HaHost) (h : Ha) (cfg : HaConfig) (o : Option Vip)
      → Holds h o
      → Fits o (restart count host h cfg)
  unfolding restart is_master
  restart-Fits host h cfg o v =
      let (freed, idle) = resign-none host h o v in
      let es = (resign count host h).0 in
      let h2 = record (resign count host h).1 {
        config = cfg;
        state = init;
        master_ip = none;
        advertising = none;
        watching = none;
      } in
      Fits-if cfg.enabled o (before es (start count host h2)) (es, h2)
        (λ on.
          Fits-before o es (start count host h2)
            (subst (λ x. Fits x (start count host h2)) (sym freed) (start-Fits host h2)))
        (λ off. (freed, λ m. absurd (cc)))
