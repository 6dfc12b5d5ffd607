-- ===== src/Rip/Learn.antt =====
-- `handle` of src/core/nodes/rip.ts: a message of a neighbour.
use net_sim.Prelude.{
  nat_eq, ℕ, Bool, true, false, not, ◌&&◌, ◌||◌, Option, none, some, List, [], ◌∷◌, text_eq, ltb,
  leb, ◌==◌, if◌then◌else◌, Dict, get, put, has,
}
use net_sim.Addr.{Ip, network_of, same_subnet, ◌>>=◌}
use net_sim.Rip.{
  RipRoute, RipEntry, RipMessage, request, response, rip_infinity, RouteKey, route_key, RipHost,
  Rip, Effect, present, kick, usable, own_networks,
}

abbrev pub entry_key : RipEntry → RouteKey
entry_key e = record { dest = e.dest; prefix = e.prefix }

-- `Math.min(e.metric, RIP_INFINITY)`
abbrev pub heard_metric : RipEntry → ℕ
heard_metric e = if ltb rip_infinity e.metric then rip_infinity else e.metric

-- the next hop that the entry names, where it is in the interface's subnet, else the sender
unfoldable pub hop_of : RipHost → ℕ → Ip → RipEntry → Option Ip
hop_of h i src e = elim (present e.next_hop) [
  | none ↦ some src
  | some nh ↦ elim (present (h.iface_ip i)) [
    | none ↦ some src
    | some ip ↦ do near ← same_subnet nh ip (h.iface_prefix i); some (if near then nh else src)
  ]
]

-- `cur.from ?? cur.nextHop`
abbrev pub teacher : RipRoute → Ip
teacher r = elim r.via [ none ↦ r.next_hop | some ip ↦ ip ]

-- the route of the neighbour that tells of it again, and whether it has changed
unfoldable pub refresh : Rip → RouteKey → RipRoute → Ip → ℕ → Rip × Bool
refresh s k cur hop metric =
    let moved = ltb metric rip_infinity && not (text_eq hop cur.next_hop) in
    let cur1 = if moved then record cur { next_hop = hop } else cur in
    if metric == cur.metric then (record s { routes = put s.routes k cur1 }, moved) else (
      record s {
        routes = put s.routes k (record cur1 { metric = metric });
        lost = s.lost || leb rip_infinity metric;
      },
      true,
    )

-- a route over the neighbour `src`
abbrev pub learned_route : RipEntry → Ip → ℕ → Ip → RipRoute
learned_route e hop i src = record {
  dest = e.dest;
  prefix = e.prefix;
  next_hop = hop;
  out = i;
  metric = heard_metric e;
  via = if text_eq hop src then none else some src;
}

unfoldable pub adopt : Rip → ℕ → Ip → RipEntry → Ip → Rip × Bool
adopt s i src e hop =
    (record s { routes = put s.routes (entry_key e) (learned_route e hop i src) }, true)

-- an entry about a route of another neighbour: taken where it is better
unfoldable pub compare_route :
    RipHost → Rip → ℕ → Ip → RipEntry → Ip → RipRoute → Option (Rip × Bool)
compare_route h s i src e hop cur =
    if leb rip_infinity (heard_metric e) then some (s, false) else do
      u ← usable h s cur
      some (if not u || ltb (heard_metric e) cur.metric then adopt s i src e hop else (s, false))

unfoldable pub learn_with : RipHost → Rip → ℕ → Ip → RipEntry → Ip → Option (Rip × Bool)
learn_with h s i src e hop = elim (get s.routes (entry_key e)) [
  | none ↦ some (if leb rip_infinity (heard_metric e) then (s, false) else adopt s i src e hop)
  | some cur ↦
      if text_eq (teacher cur) src && cur.out == i
      then some (refresh s (entry_key e) cur hop (heard_metric e))
      else compare_route h s i src e hop cur
]

-- one round of the loop over the entries, and whether it changed a route
unfoldable pub learn_entry :
    RipHost → Dict RouteKey ℕ → ℕ → Ip → Rip → RipEntry → Option (Rip × Bool)
learn_entry h own i src s e =
    if has own (entry_key e)
    then some (s, false)
    else do hop ← hop_of h i src e; learn_with h s i src e hop

unfoldable pub learn_all :
    RipHost → Dict RouteKey ℕ → ℕ → Ip → Rip → List RipEntry → Option (Rip × Bool)
learn_all h own i src s [] = some (s, false)
learn_all h own i src s (e ∷ es) = do
  now ← learn_entry h own i src s e
  rest ← learn_all h own i src now.0 es
  some (rest.0, now.1 || rest.1)

-- a message from a neighbour in the interface's subnet
unfoldable pub take_message : RipHost → Rip → ℕ → Ip → RipMessage → Option (Rip × List Effect)
take_message h s i src request = some (kick s)
take_message h s i src (response es) = do
  own ← own_networks h s
  now ← learn_all h own i src s es
  some (if now.1 then kick now.0 else (now.0, []))

-- the sender is another address of the interface's subnet
unfoldable pub is_near : Ip → Ip → ℕ → Option Bool
is_near src my_ip prefix = if text_eq src my_ip then some false else same_subnet src my_ip prefix

-- The log line of a message that is ignored prints the interface's network.
unfoldable pub ignore : Rip → Ip → ℕ → Option (Rip × List Effect)
ignore s my_ip prefix = do net ← network_of my_ip prefix; some (s, [])

unfoldable pub handle : RipHost → Rip → ℕ → Ip → RipMessage → Option (Rip × List Effect)
handle h s i src msg = if not s.config.enabled || not (h.participates i) then some (s, []) else do
  my_ip ← h.iface_ip i
  near ← is_near src my_ip (h.iface_prefix i)
  (if near then take_message h s i src msg else ignore s my_ip (h.iface_prefix i))
