-- ===== src/Rip/Learning.antt =====
-- Learning keeps the routing table in order.
use net_sim.Prelude.{
  nat_eq, ℕ, ◌≤◌, refl, Bool, true, false, not, ◌&&◌, ◌||◌, Option, List, [], ◌∷◌, arith, text_eq,
  ltb, leb, ◌==◌, if◌then◌else◌, Dict, get, has, All, All-put, All-get, Bool-cases, Option-cases,
  inl, inr,
}
use net_sim.Addr.{Ip}
use net_sim.Addr.Total.{Gives, Gives-bind, Parses, network_of-Gives, same_subnet-Gives}
use net_sim.Rip.{
  RipRoute, RipEntry, RipMessage, request, response, RouteKey, route_key, RipHost, Rip,
  rip_infinity, kick,
}
use net_sim.Rip.Learn.{
  entry_key, heard_metric, teacher, refresh, adopt, compare_route, learn_with, learn_entry,
  learn_all, take_message, is_near, ignore, handle,
}
use net_sim.Rip.Valid.{
  Proper, Sound, Valid, Named, kick-Valid, usable-Gives, own_networks-Gives, hop_of-Gives,
}

rehopped :
    (b : Bool) (k : RouteKey) (cur : RipRoute) (hop : Ip)
    → Sound (k, cur)
    → Parses hop
    → Sound (k, if b then record cur { next_hop = hop } else cur)
rehopped true k cur hop s p = record {
  bounded = s.bounded;
  hop = p;
  same_dest = s.same_dest;
  same_prefix = s.same_prefix;
}
rehopped false k cur hop s p = s

refresh-Valid :
    (s : Rip) (k : RouteKey) (cur : RipRoute) (hop : Ip) (metric : ℕ)
    → Valid s
    → Sound (k, cur)
    → Parses hop
    → metric ≤ 16
    → Valid (refresh s k cur hop metric).0
unfolding refresh
refresh-Valid s k cur hop metric v sound p le = elim (Bool-cases (metric == cur.metric)) [
  | inl same ↦ rw same (All-put Sound s.routes k _ (rehopped _ k cur hop sound p) v)
  | inr other ↦
      let moved =
        rehopped (ltb metric rip_infinity && not (text_eq hop cur.next_hop)) k cur hop sound p in
      rw other (
        All-put Sound s.routes k _
          (record {
            bounded = le;
            hop = moved.hop;
            same_dest = moved.same_dest;
            same_prefix = moved.same_prefix;
          })
          v)
]

pub heard_metric-le : (e : RipEntry) → heard_metric e ≤ 16
heard_metric-le e = ground arith

adopt-Valid :
    (s : Rip) (i : ℕ) (src : Ip) (e : RipEntry) (hop : Ip)
    → Valid s
    → Parses hop
    → Valid (adopt s i src e hop).0
unfolding adopt
adopt-Valid s i src e hop v p =
    All-put Sound s.routes (entry_key e) _
      (record { bounded = heard_metric-le e; hop = p; same_dest = refl; same_prefix = refl }) v

if-Valid : (b : Bool) (x y : Rip × Bool) → Valid x.0 → Valid y.0 → Valid (if b then x else y).0
if-Valid true x y vx vy = vx
if-Valid false x y vx vy = vy

-- what a computation over the table gives: a table in order
abbrev pub Keeps : Option (Rip × Bool) → Type 0
Keeps = Gives (λ r. Valid r.0)

compare_route-Valid :
    (h : RipHost) (s : Rip) (i : ℕ) (src : Ip) (e : RipEntry) (hop : Ip) (cur : RipRoute)
    → Proper h
    → Valid s
    → Sound (entry_key e, cur)
    → Parses hop
    → Keeps (compare_route h s i src e hop cur)
unfolding compare_route
compare_route-Valid h s i src e hop cur proper v sound p =
    elim (Bool-cases (leb rip_infinity (heard_metric e))) [
      | inl far ↦ rw far ((s, false), refl, v)
      | inr near ↦ rw near (
          Gives-bind _ _ _ _ (usable-Gives h s cur proper sound.hop) λ u t. (
            _,
            refl,
            if-Valid (not u || ltb (heard_metric e) cur.metric) (adopt s i src e hop) (s, false)
                (adopt-Valid s i src e hop v p) v,
          ))
    ]

learn_with-Valid :
    (h : RipHost) (s : Rip) (i : ℕ) (src : Ip) (e : RipEntry) (hop : Ip)
    → Proper h
    → Valid s
    → Parses hop
    → Keeps (learn_with h s i src e hop)
unfolding learn_with
learn_with-Valid h s i src e hop proper v p = elim (Option-cases (get s.routes (entry_key e))) [
  | inl missing ↦
      rw (missing, learn_with)
        (
          _,
          refl,
          if-Valid (leb rip_infinity (heard_metric e)) (s, false) (adopt s i src e hop) v
              (adopt-Valid s i src e hop v p),
        )
  | inr (cur, found) ↦
      let sound = All-get Sound s.routes (entry_key e) cur v found in
      rw (found, learn_with)
        (elim (Bool-cases (text_eq (teacher cur) src && cur.out == i)) [
          | inl taught ↦ rw taught (
            _,
            refl,
            refresh-Valid s (entry_key e) cur hop (heard_metric e) v sound p (heard_metric-le e),
          )
          | inr other ↦ rw other (compare_route-Valid h s i src e hop cur proper v sound p)
        ])
]

pub learn_entry-Valid :
    (h : RipHost) (own : Dict RouteKey ℕ) (i : ℕ) (src : Ip) (s : Rip) (e : RipEntry)
    → Proper h
    → Parses src
    → Named e
    → Valid s
    → Keeps (learn_entry h own i src s e)
unfolding learn_entry
learn_entry-Valid h own i src s e proper from named v = elim (Bool-cases (has own (entry_key e))) [
  | inl mine ↦ rw mine ((s, false), refl, v)
  | inr other ↦ rw other (
      Gives-bind _ _ _ _ (hop_of-Gives h i src e proper from named)
        λ hop p. learn_with-Valid h s i src e hop proper v p)
]

learn_all-Valid :
    (h : RipHost) (own : Dict RouteKey ℕ) (i : ℕ) (src : Ip) (s : Rip) (es : List RipEntry)
    → Proper h
    → Parses src
    → All Named es
    → Valid s
    → Keeps (learn_all h own i src s es)
unfolding learn_all
learn_all-Valid h own i src s [] proper from named v = ((s, false), refl, v)
learn_all-Valid h own i src s (e ∷ es) proper from named v =
    Gives-bind _ _ _ _ (learn_entry-Valid h own i src s e proper from named.0 v) λ now v1.
      Gives-bind _ _ _ _ (learn_all-Valid h own i src now.0 es proper from named.1 v1)
        λ rest v2. (_, refl, v2)

-- the addresses that a message names parse
abbrev pub Spoken : RipMessage → Type 0
Spoken request = Unit {0}
Spoken (response es) = All Named es

if-kick-Valid : (b : Bool) (s : Rip) → Valid s → Valid (if b then kick s else (s, [])).0
if-kick-Valid true s v = kick-Valid s v
if-kick-Valid false s v = v

take_message-Valid :
    (h : RipHost) (s : Rip) (i : ℕ) (src : Ip) (msg : RipMessage)
    → Proper h
    → Parses src
    → Spoken msg
    → Valid s
    → Gives (λ r. Valid r.0) (take_message h s i src msg)
unfolding take_message
take_message-Valid h s i src request proper from spoken v = (_, refl, kick-Valid s v)
take_message-Valid h s i src (response es) proper from spoken v =
    Gives-bind _ _ _ _ (own_networks-Gives h s proper) λ own t.
      Gives-bind _ _ _ _ (learn_all-Valid h own i src s es proper from spoken v)
        λ now v1. (_, refl, if-kick-Valid now.1 now.0 v1)

is_near-Gives :
    (src ip : Ip) (p : ℕ)
    → Parses src
    → Parses ip
    → p ≤ 32
    → Gives (λ b. Unit {0}) (is_near src ip p)
unfolding is_near
is_near-Gives src ip p from parses le = elim (Bool-cases (text_eq src ip)) [
  | inl same ↦ rw same (false, refl, tt)
  | inr other ↦ rw other (same_subnet-Gives src ip p from parses le)
]

-- Where the addresses of the interfaces, of the sender and in the message parse, a message is
-- always handled, and leaves the table in order.
pub handle-Valid :
    (h : RipHost) (s : Rip) (i : ℕ) (src : Ip) (msg : RipMessage)
    → Proper h
    → Parses src
    → Spoken msg
    → Valid s
    → Gives (λ r. Valid r.0) (handle h s i src msg)
unfolding handle ignore
handle-Valid h s i src msg proper from spoken v =
    elim (Bool-cases (not s.config.enabled || not (h.participates i))) [
      | inl aside ↦ rw aside ((s, []), refl, v)
      | inr part ↦
          let (ip, e) = proper.ready i (ground (arith, part)) in
          let good = proper.address i ip e in
          rw (part, e)
            (Gives-bind _ _ _ _
              (is_near-Gives src ip (h.iface_prefix i) from good (proper.subnet i))
              λ near t. answered near ip good)
    ]
  where
    answered :
        (near : Bool) (ip : Ip)
        → Parses ip
        → Gives
            (λ r. Valid r.0)
            (if near then take_message h s i src msg else ignore s ip (h.iface_prefix i))
    answered true ip good = take_message-Valid h s i src msg proper from spoken v
    answered false ip good =
        Gives-bind _ _ _ _ (network_of-Gives ip (h.iface_prefix i) good (proper.subnet i))
          λ net t. (_, refl, v)
