-- ===== src/Rip/Valid.antt =====
-- A routing table in order, and what parses on the way to it.
use net_sim.Prelude.{
  nat_eq, ℕ, ◌≤◌, ◌≡◌, refl, Bool, true, false, not, ◌&&◌, ◌||◌, Option, none, some, List, [], ◌∷◌,
  leb, if◌then◌else◌, Dict, All, Bool-cases, Option-cases, inl, inr,
}
use net_sim.Addr.{Ip}
use net_sim.Addr.Total.{Gives, Gives-bind, Parses, network_of-Gives, same_subnet-Gives}
use net_sim.Rip.{
  RipRoute, RipEntry, RouteKey, route_key, RipHost, Rip, rip_infinity, present, is_empty, kick,
  usable, own_network, own_subnets, own_networks,
}
use net_sim.Rip.Learn.{hop_of}

-- the addresses of the interfaces parse, and those that take part have one
pub record Proper (h : RipHost) : Type 0 where
  pub address : (i : ℕ) (ip : Ip) → h.iface_ip i ≡ some ip → Parses ip
  pub subnet : (i : ℕ) → h.iface_prefix i ≤ 32
  pub ready : (i : ℕ) → h.participates i ≡ true → (ip : Ip) × (h.iface_ip i ≡ some ip)

-- a route under its own key, of at most 16 hops, over an address
pub record Sound (x : RouteKey × RipRoute) : Type 0 where
  pub bounded : x.1.metric ≤ 16
  pub hop : Parses x.1.next_hop
  pub same_dest : x.1.dest ≡ x.0.dest
  pub same_prefix : x.1.prefix ≡ x.0.prefix

abbrev pub Valid : Rip → Type 0
Valid s = All Sound s.routes

-- the next hop that the entry names, if any, is an address
abbrev pub Named : RipEntry → Type 0
Named e = (ip : Ip) → present e.next_hop ≡ some ip → Parses ip

pub kick-Valid : (s : Rip) → Valid s → Valid (kick s).0
unfolding kick
kick-Valid s v = elim (Bool-cases (s.pending || (not s.config.enabled && is_empty s.active))) [
  | inl stay ↦ rw stay v
  | inr go ↦ rw go v
]

present-some : (o : Option Ip) (ip : Ip) → present o ≡ some ip → o ≡ some ip
present-some none ip e = absurd (cc)
present-some (some []) ip e = absurd (cc)
present-some (some (c ∷ s)) ip e = e

pub usable-Gives :
    (h : RipHost) (s : Rip) (r : RipRoute)
    → Proper h
    → Parses r.next_hop
    → Gives (λ u. Unit {0}) (usable h s r)
unfolding usable
usable-Gives h s r proper parses =
    elim (Bool-cases
      (not s.config.enabled || leb rip_infinity r.metric || not (h.participates r.out))) [
        | inl no_use ↦ rw no_use (false, refl, tt)
        | inr asked ↦ rw asked (elim (Option-cases (h.iface_ip r.out)) [
          | inl missing ↦ rw missing (false, refl, tt)
          | inr (ip, e) ↦ rw e (
              same_subnet-Gives r.next_hop ip (h.iface_prefix r.out) parses
                (proper.address r.out ip e) (proper.subnet r.out))
        ])
      ]

own_network-Gives :
    (h : RipHost) (i : ℕ) (own : Dict RouteKey ℕ)
    → Proper h
    → Gives (λ o. Unit {0}) (own_network h i own)
unfolding own_network
own_network-Gives h i own proper = elim (Bool-cases (h.participates i)) [
  | inl part ↦ rw part (elim (Option-cases (present (h.iface_ip i))) [
    | inl missing ↦ rw missing (own, refl, tt)
    | inr (ip, e) ↦ rw e (
        Gives-bind _ _ _ _
          (network_of-Gives ip (h.iface_prefix i)
            (proper.address i ip (present-some (h.iface_ip i) ip e)) (proper.subnet i))
          λ net u. (_, refl, tt))
  ])
  | inr aside ↦ rw aside (own, refl, tt)
]

own_subnets-Gives :
    (h : RipHost) (is : List ℕ) (own : Dict RouteKey ℕ)
    → Proper h
    → Gives (λ o. Unit {0}) (own_subnets h is own)
unfolding own_subnets
own_subnets-Gives h [] own proper = (own, refl, tt)
own_subnets-Gives h (i ∷ is) own proper =
    Gives-bind _ _ _ _ (own_network-Gives h i own proper) λ now u. own_subnets-Gives h is now proper

pub own_networks-Gives :
    (h : RipHost) (s : Rip) → Proper h → Gives (λ o. Unit {0}) (own_networks h s)
unfolding own_networks
own_networks-Gives h s proper = elim (Bool-cases s.config.enabled) [
  | inl on ↦ rw on (Gives-bind _ _ _ _ (own_subnets-Gives h _ [] proper) λ own u. (_, refl, tt))
  | inr off ↦ rw off ([], refl, tt)
]

pub hop_of-Gives :
    (h : RipHost) (i : ℕ) (src : Ip) (e : RipEntry)
    → Proper h
    → Parses src
    → Named e
    → Gives Parses (hop_of h i src e)
unfolding hop_of
hop_of-Gives h i src e proper from named = elim (Option-cases (present e.next_hop)) [
  | inl missing ↦ rw (missing, hop_of) (src, refl, from)
  | inr (nh, en) ↦
      rw (en, hop_of)
        (elim (Option-cases (present (h.iface_ip i))) [
          | inl missing ↦ rw (missing, hop_of) (src, refl, from)
          | inr (ip, ei) ↦
              rw (ei, hop_of)
                (Gives-bind _ _ _ _
                  (same_subnet-Gives nh ip (h.iface_prefix i) (named nh en)
                    (proper.address i ip (present-some (h.iface_ip i) ip ei)) (proper.subnet i))
                  λ near u. (_, refl, if-Parses near nh src (named nh en) from))
        ])
]
  where
    if-Parses : (b : Bool) (x y : Ip) → Parses x → Parses y → Parses (if b then x else y)
    if-Parses true x y px py = px
    if-Parses false x y px py = py
