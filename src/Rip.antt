-- ===== src/Rip.antt =====
-- src/core/nodes/rip.ts: the distance vector protocol of a router, cut down from RIPv2. What the
-- router tells of its interfaces (`RipHost`) is the record `RipHost`; sent messages and the timer
-- are values of `Effect`. `none` is a thrown error, from an address that does not parse. The key
-- "dest/prefix" of a route is the pair of its parts. Log lines are left out.
pub mod Update
pub mod Learn
pub mod Calls
pub mod Valid
pub mod Learning
pub mod History
pub mod Horizon
pub mod Offers
pub mod Fresh
mod Tests
use net_sim.Prelude.{
  nat_eq, ℕ, ◌≡◌, ◌↔◌, Bool, true, false, not, ◌&&◌, ◌||◌, Option, none, some, List, [], ◌∷◌, arith,
  text_eq, text_eq_iff, codes, ltb, leb, ◌==◌, if◌then◌else◌, Eq, Dict, put, upto,
}
use net_sim.Addr.{Ip, network_of, same_subnet, ◌>>=◌}

pub record RipConfig : Type 0 where
  pub enabled : Bool
  pub default_route : Bool

-- a route that was learned; `via` is the source's `from`
pub record RipRoute : Type 0 where
  pub dest : Ip
  pub prefix : ℕ
  pub next_hop : Ip
  pub out : ℕ
  pub metric : ℕ
  pub via : Option Ip

pub record RipEntry : Type 0 where
  pub dest : Ip
  pub prefix : ℕ
  pub metric : ℕ
  pub next_hop : Option Ip

pub data RipMessage : Type 0 where
  request : RipMessage
  response : List RipEntry → RipMessage

abbrev pub rip_infinity : ℕ
rip_infinity = 16

pub record RouteKey : Type 0 where
  pub dest : Ip
  pub prefix : ℕ

unfoldable pub route_key_eq : RouteKey → RouteKey → Bool
route_key_eq a b = text_eq a.dest b.dest && a.prefix == b.prefix

pub route_key_eq_iff : (a b : RouteKey) → (route_key_eq a b ≡ true) ↔ (a ≡ b)
unfolding route_key_eq
route_key_eq_iff a b = ground (arith, text_eq_iff a.dest b.dest)

instance abbrev pub route_key : Eq RouteKey
route_key = record { beq = route_key_eq; beq_iff = route_key_eq_iff }

-- what the router tells of its interfaces
pub record RipHost : Type 0 where
  pub iface_count : ℕ
  pub iface_ip : ℕ → Option Ip
  pub iface_prefix : ℕ → ℕ
  pub participates : ℕ → Bool
  pub static_default_out : Option ℕ
  pub advertised_next_hop : ℕ → Option Ip

pub record Rip : Type 0 where
  pub config : RipConfig
  pub routes : Dict RouteKey RipRoute
  pub advertised : List RouteKey
  pub active : List ℕ
  pub pending : Bool
  pub lost : Bool

-- a router as it is built
abbrev pub new : Rip
new = record {
  config = record { enabled = false; default_route = false };
  routes = [];
  advertised = [];
  active = [];
  pending = false;
  lost = false;
}

-- a message that leaves by an interface, or the timer of `kick`
pub data Effect : Type 0 where
  sent : ℕ → RipMessage → Effect
  start_timer : Effect

-- a text that is there and, for JavaScript's truth, not empty
abbrev pub present : Option Ip → Option Ip
present none = none
present (some []) = none
present (some (c ∷ s)) = some (c ∷ s)

abbrev pub is_empty {ℓ} : {A : Type ℓ} → List A → Bool
is_empty [] = true
is_empty (x ∷ xs) = false

unfoldable pub kick : Rip → Rip × List Effect
kick s =
    if s.pending || (not s.config.enabled && is_empty s.active)
    then (s, [])
    else (record s { pending = true }, start_timer ∷ [])

-- a route that is not lost leads to an interface that takes part, with the next hop in its subnet
unfoldable pub usable : RipHost → Rip → RipRoute → Option Bool
usable h s r =
    if not s.config.enabled || leb rip_infinity r.metric || not (h.participates r.out)
    then some false
    else elim (h.iface_ip r.out) [
      | none ↦ some false
      | some ip ↦ same_subnet r.next_hop ip (h.iface_prefix r.out)
    ]

-- one round of `ownNetworks`: the subnet of the interface `i`
unfoldable pub own_network : RipHost → ℕ → Dict RouteKey ℕ → Option (Dict RouteKey ℕ)
own_network h i own = if not (h.participates i) then some own else elim (present (h.iface_ip i)) [
  | none ↦ some own
  | some ip ↦ do
    dest ← network_of ip (h.iface_prefix i)
    some (put own (record { dest = dest; prefix = h.iface_prefix i }) i)
]

unfoldable pub own_subnets : RipHost → List ℕ → Dict RouteKey ℕ → Option (Dict RouteKey ℕ)
own_subnets h [] own = some own
own_subnets h (i ∷ is) own = do now ← own_network h i own; own_subnets h is now

abbrev pub default_key : RouteKey
default_key = record { dest = codes "0.0.0.0"; prefix = 0 }

-- the default route, where it is to be advertised and there is one
unfoldable pub with_default : RipHost → Rip → Dict RouteKey ℕ → Dict RouteKey ℕ
with_default h s own =
    if s.config.default_route
    then elim h.static_default_out [ none ↦ own | some out ↦ put own default_key out ]
    else own

-- the router's own networks, each with the interface that it is behind
unfoldable pub own_networks : RipHost → Rip → Option (Dict RouteKey ℕ)
own_networks h s =
    if not s.config.enabled
    then some []
    else do own ← own_subnets h (upto h.iface_count 0) []; some (with_default h s own)
