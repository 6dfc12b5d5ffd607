-- ===== src/Rip/History.antt =====
-- The routing table after any calls, and after an update.
use net_sim.Prelude.{
  nat_eq, ℕ, refl, Bool, true, false, not, ◌&&◌, ◌||◌, Option, some, List, [], ◌∷◌, ◌++◌, any,
  contains, remove, arith, map, leb, if◌then◌else◌, Dict, All, All-keep, All-map, Bool-cases,
  Option-cases, inl, inr,
}
use net_sim.Addr.{Ip, ◌>>=◌}
use net_sim.Addr.Total.{Gives, Gives-bind, Gives-if, Parses}
use net_sim.Rip.{
  RipConfig, RipRoute, RipMessage, rip_infinity, RouteKey, RipHost, Rip, new, Effect, kick,
}
use net_sim.Rip.Update.{
  withdraw_all, respond, poisoned, check_route, check_routes, checked, advertise, update, on_timer,
}
use net_sim.Rip.Learn.{handle}
use net_sim.Rip.Calls.{bool_eq, set_config, leads_to, poison_if, retire, moved_route, remap}
use net_sim.Rip.Valid.{Proper, Sound, Valid, kick-Valid, usable-Gives, own_networks-Gives}
use net_sim.Rip.Learning.{Spoken, handle-Valid}

-- a call of the router; the host as it is then
pub data Call : Type 0 where
  configured : RipConfig → Call
  timed : RipHost → Call
  heard : RipHost → ℕ → Ip → RipMessage → Call
  retired : RipHost → ℕ → Call
  remapped : (ℕ → Option ℕ) → Call

unfoldable pub step : Rip → Call → Option Rip
step s (configured cfg) = some (set_config s cfg).0
step s (timed h) = do r ← on_timer h s; some r.0
step s (heard h i src msg) = do r ← handle h s i src msg; some r.0
step s (retired h i) = some (retire h s i).0
step s (remapped f) = some (remap s f)

unfoldable pub run : Rip → List Call → Option Rip
run s [] = some s
run s (c ∷ cs) = do now ← step s c; run now cs

-- the addresses that come with a call parse
abbrev pub Sane : Call → Type 0
Sane (configured cfg) = Unit {0}
Sane (timed h) = Proper h
Sane (heard h i src msg) = Proper h × Parses src × Spoken msg
Sane (retired h i) = Unit {0}
Sane (remapped f) = Unit {0}

poisoned-Sound : (k : RouteKey) (r : RipRoute) → Sound (k, r) → Sound (k, poisoned r)
poisoned-Sound k r s = record {
  bounded = omega arith;
  hop = s.hop;
  same_dest = s.same_dest;
  same_prefix = s.same_prefix;
}

check_route-Sound :
    (h : RipHost) (s : Rip) (k : RouteKey) (r : RipRoute)
    → Proper h
    → Sound (k, r)
    → Gives (λ x. Sound (k, x.0)) (check_route h s r)
unfolding check_route
check_route-Sound h s k r proper sound = elim (Bool-cases (leb rip_infinity r.metric)) [
  | inl far ↦ rw far ((r, false), refl, sound)
  | inr near ↦
      rw near (Gives-bind _ _ _ _ (usable-Gives h s r proper sound.hop) λ u t. (_, refl, by_use u))
]
  where
    by_use :
        (u : Bool)
        → Sound (k, (if◌then◌else◌ {A = RipRoute × Bool} u (r, false) (poisoned r, true)).0)
    by_use true = sound
    by_use false = poisoned-Sound k r sound

check_routes-Sound :
    (h : RipHost) (s : Rip) (routes : Dict RouteKey RipRoute)
    → Proper h
    → All Sound routes
    → Gives (λ x. All Sound x.0) (check_routes h s routes)
unfolding check_routes
check_routes-Sound h s [] proper all = (_, refl, tt)
check_routes-Sound h s ((k, r) ∷ routes) proper all =
    Gives-bind _ _ _ _ (check_route-Sound h s k r proper all.0) λ one sound.
      Gives-bind _ _ _ _ (check_routes-Sound h s routes proper all.1)
        λ rest sounds. (_, refl, (sound, sounds))

checked-Valid : (h : RipHost) (s : Rip) → Proper h → Valid s → Gives Valid (checked h s)
unfolding checked
checked-Valid h s proper v =
    Gives-if Valid (not s.config.enabled) (some s) _ (λ off. (s, refl, v))
      (λ on.
        Gives-bind _ _ _ _ (check_routes-Sound h s s.routes proper v)
          λ now sounds. (_, refl, sounds))

advertise-Valid :
    (h : RipHost) (s : Rip) (own : Dict RouteKey ℕ) → Valid s → Valid (advertise h s own).0
unfolding advertise
advertise-Valid h s own v = All-keep Sound _ s.routes v

update-Valid : (h : RipHost) (s : Rip) → Proper h → Valid s → Gives (λ r. Valid r.0) (update h s)
unfolding update
update-Valid h s proper v = Gives-bind _ _ _ _ (checked-Valid h s proper v) λ s1 v1.
    Gives-bind _ _ _ _ (own_networks-Gives h s1 proper)
      λ own t. (_, refl, advertise-Valid h s1 own v1)

if-Valid :
    (b : Bool) (x y : Rip × List Effect) → Valid x.0 → Valid y.0 → Valid (if b then x else y).0
if-Valid true x y vx vy = vx
if-Valid false x y vx vy = vy

poison_if-Sound :
    (test : RouteKey × RipRoute → Bool) (k : RouteKey) (r : RipRoute)
    → Sound (k, r)
    → Sound (poison_if test (k, r))
poison_if-Sound test k r sound = elim (Bool-cases (test (k, r))) [
  | inl yes_it ↦ rw yes_it (poisoned-Sound k r sound)
  | inr no_it ↦ rw no_it sound
]

set_config-Valid : (s : Rip) (cfg : RipConfig) → Valid s → Valid (set_config s cfg).0
unfolding set_config
set_config-Valid s cfg v =
    if-Valid
      (bool_eq cfg.enabled s.config.enabled && bool_eq cfg.default_route s.config.default_route)
      (s, []) (kick (record s { config = cfg })) v (kick-Valid (record s { config = cfg }) v)

retire-Valid : (h : RipHost) (s : Rip) (i : ℕ) → Valid s → Valid (retire h s i).0
unfolding retire
retire-Valid h s i v =
    let s1 = record s {
      active = remove s.active i;
      routes = map (poison_if (leads_to i)) s.routes;
      lost = s.lost || any (leads_to i) s.routes;
    } in
    if-Valid (not s.config.enabled || not (contains s.active i) || not (h.participates i)) (s, [])
      ((kick s1).0, respond i (withdraw_all s) ++ (kick s1).1) v
      (kick-Valid s1 (
        All-map Sound (poison_if (leads_to i)) Sound
          (λ x sound. poison_if-Sound (leads_to i) x.0 x.1 sound) s.routes v))

moved_route-Sound :
    (f : ℕ → Option ℕ) (k : RouteKey) (r : RipRoute) → Sound (k, r) → Sound (k, moved_route f r)
unfolding moved_route
moved_route-Sound f k r sound = elim (Option-cases (f r.out)) [
  | inl gone ↦ rw (gone, moved_route) (poisoned-Sound k r sound)
  | inr (n, e) ↦
      rw (e, moved_route)
        (record {
          bounded = sound.bounded;
          hop = sound.hop;
          same_dest = sound.same_dest;
          same_prefix = sound.same_prefix;
        })
]

remap-Valid : (s : Rip) (f : ℕ → Option ℕ) → Valid s → Valid (remap s f)
unfolding remap
remap-Valid s f v = All-map Sound _ Sound (λ x sound. moved_route-Sound f x.0 x.1 sound) s.routes v

step-Valid : (s : Rip) (c : Call) → Sane c → Valid s → Gives Valid (step s c)
unfolding step on_timer
step-Valid s (configured cfg) sane v = (_, refl, set_config-Valid s cfg v)
step-Valid s (timed h) sane v =
    Gives-bind _ _ _ _ (update-Valid h (record s { pending = false }) sane v) λ r v1. (_, refl, v1)
step-Valid s (heard h i src msg) (proper, from, spoken) v =
    Gives-bind _ _ _ _ (handle-Valid h s i src msg proper from spoken v) λ r v1. (_, refl, v1)
step-Valid s (retired h i) sane v = (_, refl, retire-Valid h s i v)
step-Valid s (remapped f) sane v = (_, refl, remap-Valid s f v)

run-Valid_from : (s : Rip) (cs : List Call) → All Sane cs → Valid s → Gives Valid (run s cs)
unfolding run
run-Valid_from s [] sane v = (s, refl, v)
run-Valid_from s (c ∷ cs) sane v =
    Gives-bind _ _ _ _ (step-Valid s c sane.0 v) λ now v1. run-Valid_from now cs sane.1 v1

-- Any calls of a new router, in which the addresses of its interfaces, of the senders and in the
-- messages parse, end without a thrown error, and leave only routes of at most 16 hops, each under
-- its own key and over an address that parses.
pub run-Valid : (cs : List Call) → All Sane cs → Gives Valid (run new cs)
run-Valid cs sane = run-Valid_from new cs sane tt
