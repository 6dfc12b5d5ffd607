-- ===== src/Ha/Election.antt =====
-- The election of src/core/nodes/ha.ts: two masters that hear each other.
use net_sim.Prelude.{
  nat_eq, ℕ, ◌<◌, ◌≡◌, refl, sym, ap, ◌∙◌, Bool, true, false, not, ◌&&◌, ◌||◌, some, arith, ltb,
  ◌==◌, if◌then◌else◌, Bool-cases, inl, inr,
}
use net_sim.Addr.{Ip, ip_to_int}
use net_sim.Ha.{HaConfig, is_master, VrrpPacket, HaHost, Ha, is_on}
use net_sim.Ha.Roles.{effective_priority, rid, outranks, watch_master, resign}
use net_sim.Ha.Calls.{handle, hear_as_master, or_nothing}

-- by priority, then by the address
unfoldable pub comes_first : ℕ → ℕ → ℕ → ℕ → Bool
comes_first p x q y = if ltb q p then true else if p == q then ltb y x else false

comes_first_total :
    (p x q y : ℕ) → (p == q && x == y) ≡ false → comes_first p x q y ≡ not (comes_first q y p x)
unfolding comes_first
comes_first_total p x q y e = ground arith

module _ (count : ℕ) (host : HaHost) where
  outranks-comes_first :
      (c : HaConfig) (msg : VrrpPacket) (mine x y : ℕ)
      → ip_to_int msg.rid ≡ some x
      → ip_to_int (rid count host c) ≡ some y
      → outranks count host c msg mine ≡ some (comes_first msg.priority x mine y)
  unfolding outranks comes_first
  outranks-comes_first c msg mine x y e f = elim (Bool-cases (ltb mine msg.priority)) [
    | inl more ↦ rw (more, outranks, comes_first) refl
    | inr less ↦ elim (Bool-cases (msg.priority == mine)) [
      | inl same ↦ rw (less, same, outranks, comes_first, e, f) refl
      | inr other ↦ rw (less, other, outranks, comes_first) refl
    ]
  ]

  pub resign-backup :
      (h : Ha) → is_master h.state ≡ true → is_master (resign count host h).1.state ≡ false
  unfolding resign watch_master is_master
  resign-backup h e = elim (Bool-cases (is_on h.config.advert)) [
    | inl on ↦ rw (e, resign, on, watch_master) refl
    | inr off ↦ rw (e, resign, off, watch_master) refl
  ]

  handle-master :
      (h : Ha) (src : Ip) (msg : VrrpPacket) (higher : Bool)
      → is_master h.state ≡ true
      → (not h.config.enabled || not (msg.vrid == h.config.vrid)) ≡ false
      → (msg.priority == 0) ≡ false
      → outranks count host h.config msg (effective_priority count host h.config) ≡ some higher
      → is_master (or_nothing h (handle count host h src msg)).1.state ≡ not higher
  unfolding handle hear_as_master
  handle-master h src msg true m on p o =
      rw (on, m, handle, p, hear_as_master, o) (resign-backup (record h { master_ip = some src }) m)
  handle-master h src msg false m on p o = rw (on, m, handle, p, hear_as_master, o) m

-- what a master advertises on an interface with that virtual address
abbrev pub advert_of : ℕ → HaHost → HaConfig → Ip → VrrpPacket
advert_of count host c vip = record {
  vrid = c.vrid;
  priority = c.priority;
  vip = vip;
  rid = rid count host c;
  candidate = false;
}

-- a master whose interfaces are all ready, and whose address parses to a word
abbrev pub Working : ℕ → HaHost → Ha → ℕ → Type 0
Working count host h x =
    (is_master h.state ≡ true)
    × ((h.config.enabled ≡ true)
        × ((effective_priority count host h.config ≡ h.config.priority)
            × ((0 < h.config.priority) × (ip_to_int (rid count host h.config) ≡ some x))))

heard :
    (n m : ℕ) (ha hb : HaHost) (a b : Ha) (x y : ℕ) (src vip : Ip)
    → Working n ha a x
    → Working m hb b y
    → a.config.vrid ≡ b.config.vrid
    → is_master (or_nothing b (handle m hb b src (advert_of n ha a.config vip))).1.state
      ≡ not (comes_first a.config.priority x b.config.priority y)
heard n m ha hb a b x y src vip (ma, (ea, (pa, (za, ra)))) (mb, (eb, (pb, (zb, rb)))) g =
    handle-master m hb b src (advert_of n ha a.config vip)
      (comes_first a.config.priority x b.config.priority y) mb (ground (arith, eb, g))
      (ground (arith, za))
      (ap (outranks m hb b.config (advert_of n ha a.config vip)) pb
        ∙ outranks-comes_first m hb b.config (advert_of n ha a.config vip) b.config.priority x y ra
            rb)

-- Of two working masters of one group that hear each other's advertisements, which differ in
-- priority or address, exactly one is the master afterwards.
pub masters_settle :
    (n m : ℕ) (ha hb : HaHost) (a b : Ha) (x y : ℕ) (src dst vip wip : Ip)
    → Working n ha a x
    → Working m hb b y
    → a.config.vrid ≡ b.config.vrid
    → (a.config.priority == b.config.priority && x == y) ≡ false
    → is_master (or_nothing b (handle m hb b src (advert_of n ha a.config vip))).1.state
      ≡ not (is_master (or_nothing a (handle n ha a dst (advert_of m hb b.config wip))).1.state)
masters_settle n m ha hb a b x y src dst vip wip v w g d =
    heard n m ha hb a b x y src vip v w g
    ∙ ap not (comes_first_total a.config.priority x b.config.priority y d)
    ∙ ap not (sym (heard m n hb ha b a y x dst wip w v (sym g)))
