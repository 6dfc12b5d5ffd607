-- ===== src/Rip/Calls.antt =====
-- The other operations of src/core/nodes/rip.ts: settings, interfaces that change, and the end.
use net_sim.Prelude.{
  nat_eq, ℕ, Bool, false, not, ◌&&◌, ◌||◌, Option, none, some, List, [], ◌∷◌, ◌++◌, map, ltb, ◌==◌,
  if◌then◌else◌, any, contains, add, remove,
}
use net_sim.Rip.{RipConfig, RipRoute, rip_infinity, RouteKey, RipHost, Rip, Effect, kick}
use net_sim.Rip.Update.{poisoned, withdraw_all, respond}

abbrev pub bool_eq : Bool → Bool → Bool
bool_eq a b = (a && b) || (not a && not b)

unfoldable pub set_config : Rip → RipConfig → Rip × List Effect
set_config s cfg =
    if bool_eq cfg.enabled s.config.enabled && bool_eq cfg.default_route s.config.default_route
    then (s, [])
    else kick (record s { config = cfg })

-- a route that still counts as reachable and leads to the interface
abbrev pub leads_to : ℕ → RouteKey × RipRoute → Bool
leads_to i (k, r) = r.out == i && ltb r.metric rip_infinity

abbrev pub poison_if : (RouteKey × RipRoute → Bool) → RouteKey × RipRoute → RouteKey × RipRoute
poison_if test (k, r) = (k, if test (k, r) then poisoned r else r)

unfoldable pub retire : RipHost → Rip → ℕ → Rip × List Effect
retire h s i =
    if not s.config.enabled || not (contains s.active i) || not (h.participates i)
    then (s, [])
    else let (s1, timer) = kick (record s {
      active = remove s.active i;
      routes = map (poison_if (leads_to i)) s.routes;
      lost = s.lost || any (leads_to i) s.routes;
    }) in
      (s1, respond i (withdraw_all s) ++ timer)

-- one route of `remap`
unfoldable pub moved_route : (ℕ → Option ℕ) → RipRoute → RipRoute
moved_route f r = elim (f r.out) [ none ↦ poisoned r | some n ↦ record r { out = n } ]

abbrev pub loses : (ℕ → Option ℕ) → RouteKey × RipRoute → Bool
loses f (k, r) = elim (f r.out) [ none ↦ ltb r.metric rip_infinity | some n ↦ false ]

unfoldable pub moved_active : (ℕ → Option ℕ) → List ℕ → List ℕ → List ℕ
moved_active f [] out = out
moved_active f (i ∷ is) out = moved_active f is (elim (f i) [ none ↦ out | some n ↦ add out n ])

unfoldable pub remap : Rip → (ℕ → Option ℕ) → Rip
remap s f = record s {
  routes = map (λ (x : RouteKey × RipRoute). (x.0, moved_route f x.1)) s.routes;
  lost = s.lost || any (loses f) s.routes;
  active = moved_active f s.active [];
}

unfoldable pub shutdown_on : RipHost → Rip → List ℕ → List Effect
shutdown_on h s [] = []
shutdown_on h s (i ∷ is) =
    let rest = shutdown_on h s is in
    if h.participates i then respond i (withdraw_all s) ++ rest else rest

unfoldable pub shutdown : RipHost → Rip → List Effect
shutdown h s = if s.config.enabled then shutdown_on h s s.active else []
