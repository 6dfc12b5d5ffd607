-- ===== src/Rip/Fresh.antt =====
-- After `update` of src/core/nodes/rip.ts every route of the table can be used.
use net_sim.Prelude.{
  nat_eq, ◌≡◌, refl, sym, ap, ◌∙◌, Bool, true, false, not, ◌&&◌, some, [], ◌∷◌, arith, keep, ltb,
  leb, if◌then◌else◌, Dict, All, All-keep_test, All-weaken, Bool-cases, inl, inr,
}
use net_sim.Addr.Total.{Gives, Gives-bind, Gives-if}
use net_sim.Rip.{RipConfig, RipRoute, rip_infinity, RouteKey, RipHost, Rip, usable}
use net_sim.Rip.Update.{poisoned, check_route, check_routes, checked, advertise, update}
use net_sim.Rip.Valid.{Proper, Sound, Valid, usable-Gives, own_networks-Gives}

-- a route that is lost, or can be used
abbrev Fresh : RipHost → Rip → RouteKey × RipRoute → Type 0
Fresh h s x = ltb x.1.metric 16 ≡ true → usable h s x.1 ≡ some true

check_route-Fresh :
    (h : RipHost) (s : Rip) (k : RouteKey) (r : RipRoute)
    → Proper h
    → Sound (k, r)
    → Gives (λ x. Fresh h s (k, x.0)) (check_route h s r)
unfolding check_route
check_route-Fresh h s k r proper sound = elim (Bool-cases (leb rip_infinity r.metric)) [
  | inl far ↦ rw far ((r, false), refl, λ near. absurd (ground (arith, far, near)))
  | inr near ↦
      let (u, e, t) = usable-Gives h s r proper sound.hop in
      rw near
        (Gives-bind (λ v. usable h s r ≡ some v) _ _ _ (u, e, e) λ v ev. (_, refl, by_use v ev))
]
  where
    by_use :
        (v : Bool)
        → usable h s r ≡ some v
        → Fresh h s (k, (if◌then◌else◌ {A = RipRoute × Bool} v (r, false) (poisoned r, true)).0)
    by_use true e = λ near. e
    by_use false e = λ near. absurd (cc)

check_routes-Fresh :
    (h : RipHost) (s : Rip) (routes : Dict RouteKey RipRoute)
    → Proper h
    → All Sound routes
    → Gives (λ x. All (Fresh h s) x.0) (check_routes h s routes)
unfolding check_routes
check_routes-Fresh h s [] proper all = (_, refl, tt)
check_routes-Fresh h s ((k, r) ∷ routes) proper all =
    Gives-bind _ _ _ _ (check_route-Fresh h s k r proper all.0) λ one fresh.
      Gives-bind _ _ _ _ (check_routes-Fresh h s routes proper all.1)
        λ rest all_fresh. (_, refl, (fresh, all_fresh))

-- the settings are those before, and where they are on the routes are fresh
abbrev Checked : RipHost → Rip → Rip → Type 0
Checked h s t = (t.config ≡ s.config) × (s.config.enabled ≡ true → All (Fresh h s) t.routes)

checked-Fresh : (h : RipHost) (s : Rip) → Proper h → Valid s → Gives (Checked h s) (checked h s)
unfolding checked
checked-Fresh h s proper v =
    Gives-if (Checked h s) (not s.config.enabled) (some s) _
      (λ off. (s, refl, (refl, λ on. absurd (cc (off, on)))))
      (λ on.
        Gives-bind _ _ _ _ (check_routes-Fresh h s s.routes proper v)
          λ now fresh. (_, refl, (refl, λ on. fresh)))

none_kept :
    (P : RouteKey × RipRoute → Type 0) (test : RouteKey × RipRoute → Bool)
    (routes : Dict RouteKey RipRoute)
    → All P (keep (λ x. test x && false) routes)
none_kept P test [] = tt
none_kept P test (x ∷ routes) = elim (Bool-cases (test x)) [
  | inl good ↦ rw good (none_kept P test routes)
  | inr bad ↦ rw bad (none_kept P test routes)
]

-- what the table keeps is reachable, and was fresh before
kept_usable :
    (h : RipHost) (s : Rip) (on : Bool) (routes : Dict RouteKey RipRoute)
    → (on ≡ true → All (Fresh h s) routes)
    → All
        (λ x. usable h s x.1 ≡ some true)
        (keep (λ (x : RouteKey × RipRoute). ltb x.1.metric rip_infinity && on) routes)
kept_usable h s true routes fresh =
    All-weaken _ _ (λ x (f, near). f (ground (arith, near))) _
      (All-keep_test (Fresh h s) _ routes (fresh refl))
kept_usable h s false routes fresh = none_kept _ (λ x. ltb x.1.metric rip_infinity) routes

usable-config :
    (h : RipHost) (s t : Rip) (r : RipRoute) → t.config ≡ s.config → usable h t r ≡ usable h s r
unfolding usable
usable-config h s t r e = ap (λ (c : RipConfig). usable h (record s { config = c }) r) e

-- Where the addresses of the interfaces parse and the table is in order, an update ends, and every
-- route that it leaves in the table can be used.
pub update-usable :
    (h : RipHost) (s : Rip)
    → Proper h
    → Valid s
    → Gives (λ r. All (λ x. usable h r.0 x.1 ≡ some true) r.0.routes) (update h s)
unfolding update advertise
update-usable h s proper v = Gives-bind _ _ _ _ (checked-Fresh h s proper v) λ s1 (same, fresh).
    Gives-bind _ _ _ _ (own_networks-Gives h s1 proper) λ own t. (
      _,
      refl,
      All-weaken _ _ (λ x good. usable-config h s (advertise h s1 own).0 x.1 same ∙ good) _
          (kept_usable h s s1.config.enabled s1.routes
            (λ on. fresh (ap (λ (c : RipConfig). c.enabled) (sym same) ∙ on))),
    )
