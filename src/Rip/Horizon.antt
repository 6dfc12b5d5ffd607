-- ===== src/Rip/Horizon.antt =====
-- What an update of src/core/nodes/rip.ts tells on an interface: split horizon with poison reverse.
use mathlib.Core.List.{Memᴰ}
use net_sim.Prelude.{
  nat_eq, ℕ, suc, ◌≡◌, ◌⊎◌, inl, inr, refl, Bool, true, false, not, ◌||◌, List, [], ◌∷◌, ◌++◌,
  arith, map, keep, ltb, leb, ◌==◌, if◌then◌else◌, Dict, has, contains, All, All-map, All-if,
  All-++, All-keep_test, All-Memᴰ, Bool-cases, Option-cases,
}
use net_sim.Addr.{Ip}
use net_sim.Rip.{
  RipRoute, RipEntry, request, response, rip_infinity, RouteKey, route_key, RipHost, Rip, Effect,
  sent, start_timer, present,
}
use net_sim.Rip.Update.{
  own_entry, is_told, told_metric, route_entry, withdrawn_entry, with_hop, entries_for,
  withdraw_all, respond, update_on, update_all, participating, advertise,
}

-- An entry that says how far an own network, or a learned route, is for a neighbour on `i`: neither
-- leads back by `i`.
abbrev pub Told : Rip → Dict RouteKey ℕ → ℕ → RipEntry → Type 0
Told s own i e =
    (e.metric ≡ rip_infinity)
    ⊎ ((e.metric ≡ 1)
        × ((x : RouteKey × ℕ) × Memᴰ x own
            × ((x.1 == i) ≡ false)
            × (e.dest ≡ x.0.dest)
            × (e.prefix ≡ x.0.prefix)))
    ⊎ ((x : RouteKey × RipRoute) × Memᴰ x s.routes
        × ((x.1.out == i) ≡ false)
        × (has own x.0 ≡ false)
        × (e.metric ≡ suc x.1.metric)
        × (e.dest ≡ x.1.dest)
        × (e.prefix ≡ x.1.prefix))

not-true : (b : Bool) → not b ≡ true → b ≡ false
not-true true h = cc
not-true false h = refl

module _ (s : Rip) (own : Dict RouteKey ℕ) (i : ℕ) where
  own_entry-Told :
      (x : RouteKey × ℕ) → Memᴰ x own × (is_told i x ≡ true) → Told s own i (own_entry i x)
  own_entry-Told (k, iface) (m, told) = elim (Bool-cases (iface == i)) [
    | inl here ↦ inl (ground (arith, here, told))
    | inr away ↦ inr (inl (ground (arith, away), ((k, iface), m, away, refl, refl)))
  ]

  told_metric-cases :
      (r : RipRoute)
      → (told_metric i r ≡ rip_infinity)
        ⊎ (((r.out == i) ≡ false) × (told_metric i r ≡ suc r.metric))
  unfolding told_metric
  told_metric-cases r = elim (Bool-cases (leb rip_infinity r.metric || r.out == i)) [
    | inl far ↦ inl (rw (far, told_metric) refl)
    | inr near ↦ inr (ground (arith, near), ground (arith, near))
  ]

  route_entry-Told :
      (x : RouteKey × RipRoute)
      → Memᴰ x s.routes × (not (has own x.0) ≡ true)
      → Told s own i (route_entry i x)
  route_entry-Told (k, r) (m, other) = elim (told_metric-cases r) [
    | inl far ↦ inl far
    | inr (away, e) ↦ inr (inr ((k, r), m, away, not-true (has own k) other, e, refl, refl))
  ]

  with_hop-Told : (nh : Ip) (e : RipEntry) → Told s own i e → Told s own i (with_hop nh e)
  with_hop-Told nh e t = elim (Bool-cases (ltb e.metric rip_infinity)) [
    | inl near ↦ rw near t
    | inr far ↦ rw far t
  ]

  infinite :
      {A : Type 0} (f : A → RipEntry)
      → ((a : A) → (f a).metric ≡ rip_infinity)
      → (xs : List A) → All (Told s own i) (map f xs)
  infinite f far xs =
      All-map (Told s own i) f (λ x. Memᴰ x xs) (λ x m. inl (far x)) xs (All-Memᴰ xs)

  All-entries :
      (withdrawn : List RouteKey)
      → All (Told s own i) (
          map (own_entry i) (keep (is_told i) own)
          ++ (map withdrawn_entry withdrawn
              ++ map
                  (route_entry i)
                  (keep (λ (x : RouteKey × RipRoute). not (has own x.0)) s.routes)))
  All-entries withdrawn =
      All-++ (Told s own i) _ _
        (All-map (Told s own i) (own_entry i) _ own_entry-Told _
          (All-keep_test (λ x. Memᴰ x own) (is_told i) own (All-Memᴰ own)))
        (All-++ (Told s own i) _ _ (infinite withdrawn_entry (λ k. refl) withdrawn) (
          All-map (Told s own i) (route_entry i) _ route_entry-Told _ (
            All-keep_test (λ x. Memᴰ x s.routes) (λ (x : RouteKey × RipRoute). not (has own x.0))
              s.routes (All-Memᴰ s.routes))))

  entries_for-Told :
      (h : RipHost) (withdrawn : List RouteKey)
      → All (Told s own i) (entries_for h s i own withdrawn)
  unfolding entries_for
  entries_for-Told h withdrawn = elim (Option-cases (present (h.advertised_next_hop i))) [
    | inl no_hop ↦ rw (no_hop, entries_for) (All-entries withdrawn)
    | inr (nh, e) ↦
        rw (e, entries_for)
          (All-map (Told s own i) (with_hop nh) (Told s own i) (with_hop-Told nh) _
            (All-entries withdrawn))
  ]

  withdraw_all-Told : All (Told s own i) (withdraw_all s)
  unfolding withdraw_all
  withdraw_all-Told =
      All-++ (Told s own i) _ _ (infinite withdrawn_entry (λ k. refl) s.advertised) (
        infinite
          (λ (x : RouteKey × RipRoute).
            withdrawn_entry (record { dest = x.1.dest; prefix = x.1.prefix }))
          (λ k. refl) s.routes)

-- what a message on an interface may say
abbrev pub Fair : Rip → Dict RouteKey ℕ → Effect → Type 0
Fair s own (sent i request) = Unit {0}
Fair s own (sent i (response es)) = All (Told s own i) es
Fair s own start_timer = Unit {0}

module _ (s : Rip) (own : Dict RouteKey ℕ) where
  respond-Fair :
      (i : ℕ) (es : List RipEntry) → All (Told s own i) es → All (Fair s own) (respond i es)
  respond-Fair i [] all = tt
  respond-Fair i (e ∷ es) all = (all, tt)

  update_on-Fair :
      (h : RipHost) (withdrawn : List RouteKey) (ask : Bool) (i : ℕ)
      → All (Fair s own) (update_on h s own withdrawn ask i)
  unfolding update_on
  update_on-Fair h withdrawn ask i =
      All-if (Fair s own) s.config.enabled _ _
        (All-++ (Fair s own) _ _
          (All-if (Fair s own) (not (contains s.active i) || ask) (sent i request ∷ []) [] (tt, tt)
            tt)
          (respond-Fair i _ (entries_for-Told s own i h withdrawn)))
        (respond-Fair i _ (withdraw_all-Told s own i))

  update_all-Fair :
      (h : RipHost) (withdrawn : List RouteKey) (ask : Bool) (is : List ℕ)
      → All (Fair s own) (update_all h s own withdrawn ask is)
  unfolding update_all
  update_all-Fair h withdrawn ask [] = tt
  update_all-Fair h withdrawn ask (i ∷ is) =
      All-++ (Fair s own) _ _ (update_on-Fair h withdrawn ask i)
        (update_all-Fair h withdrawn ask is)

  -- Each entry of the responses that an update sends on an interface is a withdrawal, or is an own
  -- network that is not behind that interface, at one hop, or is a learned route that does not lead
  -- there, nor to an own network, at one hop more than it has.
  pub advertise-Fair : (h : RipHost) → All (Fair s own) (advertise h s own).1
  unfolding advertise
  advertise-Fair h =
      update_all-Fair h (keep (λ k. not (has own k)) s.advertised) s.lost
        (if s.config.enabled then participating h else keep h.participates s.active)
