-- ===== src/Rip/Offers.antt =====
-- What `handle` of src/core/nodes/rip.ts makes of an entry: the rule of a distance vector.
use mathlib.Core.Path.{subst}
use net_sim.Prelude.{
  nat_eq, ℕ, ◌≤◌, ◌<◌, ◌≡◌, refl, sym, ◌∙◌, Bool, true, false, not, ◌&&◌, ◌||◌, Option, none, some,
  arith, text_eq, ltb, leb, ◌==◌, ==_iff, if◌then◌else◌, Dict, get, put, has, get-put_same, All-get,
  Bool-cases, Option-cases, inl, inr,
}
use net_sim.Addr.{Ip}
use net_sim.Addr.Total.{Gives, Gives-bind, Parses}
use net_sim.Rip.{RipRoute, RipEntry, rip_infinity, RouteKey, route_key, RipHost, Rip}
use net_sim.Rip.Learn.{
  entry_key, heard_metric, teacher, refresh, adopt, learned_route, compare_route, learn_with,
  learn_entry,
}
use net_sim.Rip.Valid.{Proper, Sound, Valid, Named, usable-Gives, hop_of-Gives}

-- The route for the entry's network after the entry was heard: none only if it is unreachable, no
-- longer than what the entry offers, and exactly so long where the sender is its teacher.
abbrev pub Offered : RipEntry → ℕ → Ip → Option RipRoute → Type 0
Offered e i src none = heard_metric e ≡ 16
Offered e i src (some r) =
    (heard_metric e < 16 → r.metric ≤ heard_metric e)
    × ((text_eq (teacher r) src && r.out == i) ≡ true → r.metric ≡ heard_metric e)

rehopped-metric :
    (b : Bool) (cur : RipRoute) (hop : Ip)
    → (if b then record cur { next_hop = hop } else cur).metric ≡ cur.metric
rehopped-metric true cur hop = refl
rehopped-metric false cur hop = refl

kept : (u : Bool) (new old : ℕ) → (not u || ltb new old) ≡ false → old ≤ new
kept u new old h = ground arith

module _ (i : ℕ) (src : Ip) (e : RipEntry) where
  abbrev After : Rip × Bool → Type 0
  After r = Offered e i src (get r.0.routes (entry_key e))

  put-Offered :
      (m : Dict RouteKey RipRoute) (r : RipRoute)
      → r.metric ≡ heard_metric e
      → Offered e i src (get (put m (entry_key e) r) (entry_key e))
  put-Offered m r same =
      subst (Offered e i src) (sym (get-put_same m (entry_key e) r))
        (λ h. omega (arith, same), λ h. same)

  refresh-Offered :
      (s : Rip) (cur : RipRoute) (hop : Ip)
      → After (refresh s (entry_key e) cur hop (heard_metric e))
  unfolding refresh
  refresh-Offered s cur hop = elim (Bool-cases (heard_metric e == cur.metric)) [
    | inl same ↦ rw same (
        put-Offered s.routes _ (
          rehopped-metric (ltb (heard_metric e) rip_infinity && not (text_eq hop cur.next_hop)) cur
            hop
          ∙ omega (arith, (==_iff (heard_metric e) cur.metric).0 same)))
    | inr other ↦ rw other (put-Offered s.routes _ refl)
  ]

  adopt-Offered : (s : Rip) (hop : Ip) → After (adopt s i src e hop)
  unfolding adopt
  adopt-Offered s hop = put-Offered s.routes (learned_route e hop i src) refl

  if-After :
      (b : Bool) (x y : Rip × Bool)
      → (b ≡ true → After x)
      → (b ≡ false → After y)
      → After (if b then x else y)
  if-After true x y ax ay = ax refl
  if-After false x y ax ay = ay refl

  compare_route-Offered :
      (h : RipHost) (s : Rip) (hop : Ip) (cur : RipRoute)
      → Proper h
      → Parses cur.next_hop
      → get s.routes (entry_key e) ≡ some cur
      → (text_eq (teacher cur) src && cur.out == i) ≡ false
      → Gives After (compare_route h s i src e hop cur)
  unfolding compare_route
  compare_route-Offered h s hop cur proper parses found other =
      elim (Bool-cases (leb rip_infinity (heard_metric e))) [
        | inl far ↦ rw far (
          (s, false),
          refl,
          subst (Offered e i src) (sym found)
              (λ near. ground (arith, far, near), λ taught. absurd (cc (taught, other))),
        )
        | inr near ↦ rw near (
            Gives-bind _ _ _ _ (usable-Gives h s cur proper parses) λ u t. (
              _,
              refl,
              if-After (not u || ltb (heard_metric e) cur.metric) (adopt s i src e hop) (s, false)
                  (λ better. adopt-Offered s hop)
                  (λ worse. subst (Offered e i src) (sym found) (
                    λ low. kept u (heard_metric e) cur.metric worse,
                    λ taught. absurd (cc (taught, other)),
                  )),
            ))
      ]

  learn_with-Offered :
      (h : RipHost) (s : Rip) (hop : Ip)
      → Proper h
      → Valid s
      → Gives After (learn_with h s i src e hop)
  unfolding learn_with
  learn_with-Offered h s hop proper v = elim (Option-cases (get s.routes (entry_key e))) [
    | inl missing ↦
        rw (missing, learn_with)
          (
            _,
            refl,
            if-After (leb rip_infinity (heard_metric e)) (s, false) (adopt s i src e hop)
                (λ far. subst (Offered e i src) (sym missing) (ground (arith, far)))
                (λ near. adopt-Offered s hop),
          )
    | inr (cur, found) ↦
        let sound = All-get Sound s.routes (entry_key e) cur v found in
        rw (found, learn_with)
          (elim (Bool-cases (text_eq (teacher cur) src && cur.out == i)) [
            | inl taught ↦ rw taught (_, refl, refresh-Offered s cur hop)
            | inr other ↦ rw other (compare_route-Offered h s hop cur proper sound.hop found other)
          ])
  ]

  -- Where the addresses of the interfaces, of the sender and of the entry parse and the table is in
  -- order, an entry about a network that is not the router's own is always taken in. Afterwards the
  -- network has a route no longer than the entry offers (none only where it offers none), and
  -- exactly so long where the sender is the teacher of the route.
  pub learn_entry-Offered :
      (h : RipHost) (own : Dict RouteKey ℕ) (s : Rip)
      → Proper h
      → Parses src
      → Named e
      → Valid s
      → has own (entry_key e) ≡ false
      → Gives (λ r. Offered e i src (get r.0.routes (entry_key e))) (learn_entry h own i src s e)
  unfolding learn_entry
  learn_entry-Offered h own s proper from named v other = rw other (
      Gives-bind _ _ _ _ (hop_of-Gives h i src e proper from named)
        λ hop p. learn_with-Offered h s hop proper v)
