-- ===== src/Lan/Stp/Election.antt =====
-- `recompute` elects the best root that is known.
use mathlib.Core.Path.{subst}
use mathlib.Core.Option.{some-injective}
use net_sim.Prelude.{
  nat_eq, ℕ, zero, suc, ◌+◌, ◌<◌, ◌≤◌, ◌≡◌, ◌⊎◌, inl, inr, refl, sym, ap, ◌∙◌, true, false, not,
  ◌||◌, none, some, List, [], ◌∷◌, arith, ◌==◌, upto, get, Bool-cases, Option-cases,
}
use net_sim.Packet.{BpduPacket}
use net_sim.Lan.Stp.Order.{Vector, cmp_id, cmp_vec, is_lower, is_higher}
use net_sim.Lan.Stp.Ranking.{
  cmp_id-flip, cmp_id_refl, cmp_vec_refl, cmp_vec-flip, not_lower_trans, not_lower_root,
  id_not_higher_trans,
}
use net_sim.Lan.Stp.Root.{
  Stp, Ports, me, stp_port_cost, key_vector, Best, improves, consider, consider_all, best_root,
  elect,
}

-- the best root through what a port has heard
abbrev pub chosen : ℕ → BpduPacket → Best
chosen p h = record {
  root = h.root;
  cost = h.cost + stp_port_cost;
  via = some p;
  age = suc h.age;
  best_key = some (key_vector h);
}

abbrev pub start : Stp → Best
start s = record { root = me s; cost = 0; via = none; age = 0; best_key = none }

module _ (s : Stp) (ports : Ports) where
  -- what a connected port has heard of a root that is lower than this bridge
  record Candidate (p : ℕ) (h : BpduPacket) : Type 0 where
    told : get s.heard p ≡ some h
    up : ports.connected p ≡ true
    lower_root : is_higher (cmp_id (me s) h.root) ≡ true

  -- `b` is this bridge itself, or what a candidate tells
  data Sound (b : Best) : Type 0 where
    self : b ≡ start s → Sound b
    through : (p : ℕ) (h : BpduPacket) → Candidate p h → b ≡ chosen p h → Sound b

  -- no candidate `h` is better than `b`
  abbrev Beaten : Best → BpduPacket → Type 0
  Beaten b h = (k : Vector) × (b.best_key ≡ some k) × (is_lower (cmp_vec (key_vector h) k) ≡ false)

  consider-Sound : (b : Best) (p : ℕ) → Sound b → Sound (consider s ports b p)
  unfolding consider
  consider-Sound b p v = elim (Option-cases (get s.heard p)) [
    | inl silent ↦ rw (silent, consider) v
    | inr (h, told) ↦
        elim (Bool-cases (not (ports.connected p) || not (is_higher (cmp_id (me s) h.root)))) [
          | inl skip ↦ rw (told, skip, consider) v
          | inr kept ↦ elim (Bool-cases (improves b p (key_vector h))) [
            | inr worse ↦ rw (told, kept, worse, consider) v
            | inl better ↦
                rw (told, kept, better, consider)
                  (through p h
                    (record { told = told; up = ground arith; lower_root = ground arith }) refl)
          ]
        ]
  ]

  improves-refused :
      (b : Best) (p : ℕ) (key : Vector)
      → improves b p key ≡ false
      → (k : Vector) × (b.best_key ≡ some k) × (is_lower (cmp_vec key k) ≡ false)
  unfolding improves
  improves-refused b p key h = elim (Option-cases b.best_key) [
    | inl first ↦ absurd (ground arith)
    | inr (k, e) ↦ (k, e, ground arith)
  ]

  improves-taken :
      (b : Best) (p : ℕ) (key k : Vector)
      → b.best_key ≡ some k
      → improves b p key ≡ true
      → is_lower (cmp_vec k key) ≡ false
  unfolding improves
  improves-taken b p key k e h = ground (arith, cmp_vec-flip key k)

  consider-Beaten_new :
      (b : Best) (p : ℕ) (h : BpduPacket) → Candidate p h → Beaten (consider s ports b p) h
  unfolding consider
  consider-Beaten_new b p h c = elim (Bool-cases (improves b p (key_vector h))) [
    | inl better ↦
        rw (c.told, c.up, c.lower_root, better, consider)
          (key_vector h, refl, ap is_lower (cmp_vec_refl (key_vector h)))
    | inr worse ↦
        rw (c.told, c.up, c.lower_root, worse, consider) (improves-refused b p (key_vector h) worse)
  ]

  consider-Beaten_old :
      (b : Best) (p : ℕ) (h : BpduPacket) → Beaten b h → Beaten (consider s ports b p) h
  unfolding consider
  consider-Beaten_old b p h (k, e, v) = elim (Option-cases (get s.heard p)) [
    | inl silent ↦ rw (silent, consider) (k, e, v)
    | inr (g, told) ↦
        elim (Bool-cases (not (ports.connected p) || not (is_higher (cmp_id (me s) g.root)))) [
          | inl skip ↦ rw (told, skip, consider) (k, e, v)
          | inr kept ↦ elim (Bool-cases (improves b p (key_vector g))) [
            | inr worse ↦ rw (told, kept, worse, consider) (k, e, v)
            | inl better ↦
                rw (told, kept, better, consider)
                  (
                    key_vector g,
                    refl,
                    not_lower_trans (key_vector g) k (key_vector h)
                        (improves-taken b p (key_vector g) k e better) v,
                  )
          ]
        ]
  ]

  consider_all-Sound : (ps : List ℕ) (b : Best) → Sound b → Sound (consider_all s ports b ps)
  unfolding consider_all
  consider_all-Sound [] b v = v
  consider_all-Sound (p ∷ ps) b v =
      consider_all-Sound ps (consider s ports b p) (consider-Sound b p v)

  consider_all-Beaten_old :
      (ps : List ℕ) (b : Best) (h : BpduPacket) → Beaten b h → Beaten (consider_all s ports b ps) h
  unfolding consider_all
  consider_all-Beaten_old [] b h v = v
  consider_all-Beaten_old (p ∷ ps) b h v =
      consider_all-Beaten_old ps (consider s ports b p) h (consider-Beaten_old b p h v)

  -- ports `i` to `i + n - 1`
  consider_all-Beaten :
      (n i p : ℕ) (b : Best) (h : BpduPacket)
      → i ≤ p
      → p < i + n
      → Candidate p h
      → Beaten (consider_all s ports b (upto n i)) h
  unfolding consider_all
  consider_all-Beaten zero i p b h lo hi c = absurd (omega arith)
  consider_all-Beaten (suc n) i p b h lo hi c = elim (Bool-cases (i == p)) [
    | inl here ↦
        let e : i ≡ p = ground arith in
        consider_all-Beaten_old (upto n (suc i)) (consider s ports b i) h
          (subst (λ q. Beaten (consider s ports b q) h) (sym e) (consider-Beaten_new b p h c))
    | inr later ↦
        consider_all-Beaten n (suc i) p (consider s ports b i) h (ground arith) (omega arith) c
  ]

  best_root-Sound : Sound (best_root s ports)
  unfolding best_root
  best_root-Sound = consider_all-Sound (upto ports.port_count 0) (start s) (self refl)

  best_root-Beaten :
      (p : ℕ) (h : BpduPacket) → p < ports.port_count → Candidate p h → Beaten (best_root s ports) h
  unfolding best_root
  best_root-Beaten p h lt c =
      consider_all-Beaten ports.port_count 0 p (start s) h (omega arith) (omega arith) c

  -- the elected root is this bridge or lower
  Sound-me : (b : Best) → Sound b → is_higher (cmp_id b.root (me s)) ≡ false
  Sound-me b (self e) =
      ap (λ (x : Best). is_higher (cmp_id x.root (me s))) e ∙ ap is_higher (cmp_id_refl (me s))
  Sound-me b (through p h c e) =
      let low = c.lower_root in
      ap (λ (x : Best). is_higher (cmp_id x.root (me s))) e
      ∙ ground (arith, cmp_id-flip (me s) h.root)

  Beaten-root :
      (b : Best) (h : BpduPacket) → Sound b → Beaten b h → is_higher (cmp_id b.root h.root) ≡ false
  Beaten-root b h (self e) (k, found, w) = absurd (cc (ap (λ (x : Best). x.best_key) e, found))
  Beaten-root b h (through p g c e) (k, found, w) =
      let same : key_vector g ≡ k =
        some-injective (key_vector g) k (sym (ap (λ (x : Best). x.best_key) e) ∙ found) in
      let low : is_lower (cmp_id h.root g.root) ≡ false =
        not_lower_root (key_vector h) (key_vector g)
          (subst (λ z. is_lower (cmp_vec (key_vector h) z) ≡ false) (sym same) w) in
      ap (λ (x : Best). is_higher (cmp_id x.root h.root)) e
      ∙ ground (arith, cmp_id-flip h.root g.root)

  best_root-lowest :
      (p : ℕ) (h : BpduPacket)
      → p < ports.port_count
      → ports.connected p ≡ true
      → get s.heard p ≡ some h
      → is_higher (cmp_id (best_root s ports).root h.root) ≡ false
  best_root-lowest p h lt up told = elim (Bool-cases (is_higher (cmp_id (me s) h.root))) [
    | inl lower_root ↦
        Beaten-root (best_root s ports) h best_root-Sound
          (best_root-Beaten p h lt (record { told = told; up = up; lower_root = lower_root }))
    | inr own ↦
        id_not_higher_trans (best_root s ports).root (me s) h.root
          (Sound-me (best_root s ports) best_root-Sound) own
  ]

  -- The elected root is no higher than this bridge, nor than any root that a connected port of the
  -- switch has heard of.
  pub elect-lowest :
      (p : ℕ) (h : BpduPacket)
      → p < ports.port_count
      → ports.connected p ≡ true
      → get s.heard p ≡ some h
      → (is_higher (cmp_id (elect s ports).root (me s)) ≡ false)
        × (is_higher (cmp_id (elect s ports).root h.root) ≡ false)
  unfolding elect
  elect-lowest p h lt up told =
      (Sound-me (best_root s ports) best_root-Sound, best_root-lowest p h lt up told)

  -- The elected root is this bridge, at cost 0 and without a root port; or it is what the root port
  -- has heard of, at the cost heard and that of the link, and the root port is connected.
  pub elect-source :
      ((elect s ports).root ≡ me s)
        × ((elect s ports).root_cost ≡ 0)
        × ((elect s ports).root_port_no ≡ none)
      ⊎ ((p : ℕ) × (h : BpduPacket) × (get s.heard p ≡ some h)
          × (ports.connected p ≡ true)
          × ((elect s ports).root ≡ h.root)
          × ((elect s ports).root_cost ≡ h.cost + 4)
          × ((elect s ports).root_port_no ≡ some p))
  unfolding elect
  elect-source = from best_root-Sound
    where
      from :
          Sound (best_root s ports)
          → ((best_root s ports).root ≡ me s)
              × ((best_root s ports).cost ≡ 0)
              × ((best_root s ports).via ≡ none)
            ⊎ ((p : ℕ) × (h : BpduPacket) × (get s.heard p ≡ some h)
                × (ports.connected p ≡ true)
                × ((best_root s ports).root ≡ h.root)
                × ((best_root s ports).cost ≡ h.cost + 4)
                × ((best_root s ports).via ≡ some p))
      from (self e) =
          inl (ap (λ (x : Best). x.root) e, ap (λ (x : Best). x.cost) e, ap (λ (x : Best). x.via) e)
      from (through p h c e) = inr (
        p,
        h,
        c.told,
        c.up,
        ap (λ (x : Best). x.root) e,
        ap (λ (x : Best). x.cost) e,
        ap (λ (x : Best). x.via) e,
      )
