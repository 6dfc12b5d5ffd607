-- ===== src/Rip/Update.antt =====
-- `update` of src/core/nodes/rip.ts, the triggered update: routes that cannot be used any more are
-- lost, and each interface gets what it is to hear.
use net_sim.Prelude.{
  nat_eq, ℕ, suc, Bool, true, false, not, ◌&&◌, ◌||◌, Option, none, some, List, [], ◌∷◌, ◌++◌, map,
  ltb, leb, ◌==◌, if◌then◌else◌, keep, Dict, has, contains, upto,
}
use net_sim.Addr.{Ip, ◌>>=◌}
use net_sim.Rip.{
  RipRoute, RipEntry, request, response, rip_infinity, RouteKey, route_key, RipHost, Rip, Effect,
  sent, present, usable, own_networks,
}

-- a route that is withdrawn
abbrev pub poisoned : RipRoute → RipRoute
poisoned r = record r { metric = rip_infinity }

-- one round over the routes: a route that has become unusable is lost
unfoldable pub check_route : RipHost → Rip → RipRoute → Option (RipRoute × Bool)
check_route h s r =
    if leb rip_infinity r.metric
    then some (r, false)
    else do u ← usable h s r; some (if u then (r, false) else (poisoned r, true))

unfoldable pub check_routes :
    RipHost → Rip → Dict RouteKey RipRoute → Option (Dict RouteKey RipRoute × Bool)
check_routes h s [] = some ([], false)
check_routes h s ((k, r) ∷ routes) = do
  one ← check_route h s r
  rest ← check_routes h s routes
  some ((k, one.0) ∷ rest.0, one.1 || rest.1)

-- the interfaces that take part
abbrev pub participating : RipHost → List ℕ
participating h = keep h.participates (upto h.iface_count 0)

abbrev pub withdrawn_entry : RouteKey → RipEntry
withdrawn_entry k = record {
  dest = k.dest;
  prefix = k.prefix;
  metric = rip_infinity;
  next_hop = none;
}

-- how an own network behind `iface` is told on the interface `i`; a subnet not on its own interface
abbrev pub own_entry : ℕ → RouteKey × ℕ → RipEntry
own_entry i (k, iface) = record {
  dest = k.dest;
  prefix = k.prefix;
  metric = if k.prefix == 0 && iface == i then rip_infinity else 1;
  next_hop = none;
}

abbrev pub is_told : ℕ → RouteKey × ℕ → Bool
is_told i (k, iface) = not (iface == i && ltb 0 k.prefix)

-- a learned route is told with one hop more, and as unreachable on the interface it leads to
unfoldable pub told_metric : ℕ → RipRoute → ℕ
told_metric i r =
    if leb rip_infinity r.metric || r.out == i
    then rip_infinity
    else if ltb rip_infinity (suc r.metric)
    then rip_infinity
    else suc r.metric

abbrev pub route_entry : ℕ → RouteKey × RipRoute → RipEntry
route_entry i (k, r) = record {
  dest = r.dest;
  prefix = r.prefix;
  metric = told_metric i r;
  next_hop = none;
}

-- a virtual address as the next hop of what is reachable
abbrev pub with_hop : Ip → RipEntry → RipEntry
with_hop nh e = if ltb e.metric rip_infinity then record e { next_hop = some nh } else e

unfoldable pub entries_for : RipHost → Rip → ℕ → Dict RouteKey ℕ → List RouteKey → List RipEntry
entries_for h s i own withdrawn =
    let out =
      map (own_entry i) (keep (is_told i) own)
      ++ (map withdrawn_entry withdrawn
          ++ map (route_entry i)
              (keep (λ (x : RouteKey × RipRoute). not (has own x.0)) s.routes)) in
    elim (present (h.advertised_next_hop i)) [ none ↦ out | some nh ↦ map (with_hop nh) out ]

unfoldable pub withdraw_all : Rip → List RipEntry
withdraw_all s =
    map withdrawn_entry s.advertised
    ++ map
        (λ (x : RouteKey × RipRoute).
          withdrawn_entry (record { dest = x.1.dest; prefix = x.1.prefix }))
        s.routes

-- a response is sent only with entries
abbrev pub respond : ℕ → List RipEntry → List Effect
respond i [] = []
respond i (e ∷ es) = sent i (response (e ∷ es)) ∷ []

-- what one interface gets; `ask` after a loss, when every interface is asked for other routes
unfoldable pub update_on : RipHost → Rip → Dict RouteKey ℕ → List RouteKey → Bool → ℕ → List Effect
update_on h s own withdrawn ask i =
    if s.config.enabled
    then (if not (contains s.active i) || ask then sent i request ∷ [] else [])
      ++ respond i (entries_for h s i own withdrawn)
    else respond i (withdraw_all s)

unfoldable pub update_all :
    RipHost → Rip → Dict RouteKey ℕ → List RouteKey → Bool → List ℕ → List Effect
update_all h s own withdrawn ask [] = []
update_all h s own withdrawn ask (i ∷ is) =
    update_on h s own withdrawn ask i ++ update_all h s own withdrawn ask is

-- the routes that `update` begins with
unfoldable pub checked : RipHost → Rip → Option Rip
checked h s = if not s.config.enabled then some s else do
  now ← check_routes h s s.routes
  some (record s { routes = now.0; lost = s.lost || now.1 })

abbrev is_kept : Rip → RouteKey × RipRoute → Bool
is_kept s (k, r) = ltb r.metric rip_infinity && s.config.enabled

-- the rest of `update`, with the own networks
unfoldable pub advertise : RipHost → Rip → Dict RouteKey ℕ → Rip × List Effect
advertise h s own =
    let withdrawn = keep (λ k. not (has own k)) s.advertised in
    let send_on = if s.config.enabled then participating h else keep h.participates s.active in
    (
      record s {
        routes = keep (is_kept s) s.routes;
        advertised = map (λ (x : RouteKey × ℕ). x.0) own;
        active = if s.config.enabled then participating h else [];
        lost = false;
      },
      update_all h s own withdrawn s.lost send_on,
    )

unfoldable pub update : RipHost → Rip → Option (Rip × List Effect)
update h s = do s1 ← checked h s; own ← own_networks h s1; some (advertise h s1 own)

unfoldable pub on_timer : RipHost → Rip → Option (Rip × List Effect)
on_timer h s = update h (record s { pending = false })
