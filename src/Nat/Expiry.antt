-- ===== src/Nat/Expiry.antt =====
-- `expire` removes the closed mappings whose time is up, and no other.
use mathlib.Core.Path.{subst}
use net_sim.Prelude.{
  ℕ, ◌+◌, ◌≡◌, refl, false, ltb, leb, sym, ap, ◌∙◌, Option, none, some, [], ◌∷◌, arith,
  if◌then◌else◌, Dict, get, delete, get-delete, Distinct, Distinct-delete, Bool-cases, Option-cases,
  inl, inr, ◌⊎◌,
}
use net_sim.Nat.Keys.{NatKey, InnerKey, nat_key, inner_key, nat_key_eq, nat_key_eq_iff}
use net_sim.Nat.Table.{
  NatEntry, NatTable, inner_key_of, is_stale, drop_inner, expire_one, expire_all, expire,
}
use net_sim.Nat.Pairing.{Paired, Paired-remove, Paired-absent}

-- What `expire` leaves of a lookup: `copy` is what the copy of the entries holds.
abbrev survive : ℕ → Option NatEntry → Option NatEntry → Option NatEntry
survive now none found = found
survive now (some e) found = if is_stale now e then none else found

get-expire_one :
    (now : ℕ) (t : NatTable) (key j : NatKey) (e : NatEntry)
    → get (expire_one now t key e).entries j
      ≡ (if nat_key_eq key j then survive now (some e) (get t.entries j) else get t.entries j)
unfolding expire_one
get-expire_one now t key j e = ground (arith, get-delete t.entries key j)

get-expire_all :
    (now : ℕ) (copy : Dict NatKey NatEntry) (t : NatTable) (j : NatKey)
    → Distinct copy
    → get (expire_all now t copy).entries j ≡ survive now (get copy j) (get t.entries j)
unfolding expire_all
get-expire_all now [] t j d = unfold get in refl
get-expire_all now ((key, e) ∷ rest) t j (fresh, d) =
    get-expire_all now rest (expire_one now t key e) j d
    ∙ ap (survive now (get rest j)) (get-expire_one now t key j e)
    ∙ last
  where
    last :
        survive now
          (get rest j)
          (if nat_key_eq key j then survive now (some e) (get t.entries j) else get t.entries j)
        ≡ survive now (get ((key, e) ∷ rest) j) (get t.entries j)
    last = unfold get in ground (arith, nat_key_eq_iff key j)

-- a mapping is there until 2 seconds have passed since it was closed
abbrev pub until_over : ℕ → Option NatEntry → Option NatEntry
until_over now none = none
until_over now (some e) = elim e.closed_at [
  | none ↦ some e
  | some closed ↦ if ltb now (closed + 2000) then some e else none
]

over-if :
    (now : ℕ) (e : NatEntry) (c : Option ℕ)
    → (if elim c [ none ↦ false | some x ↦ leb (x + 2000) now ] then none else some e)
      ≡ elim c [ none ↦ some e | some x ↦ if ltb now (x + 2000) then some e else none ]
over-if now e none = refl
over-if now e (some x) = ground arith

survive-until_over : (now : ℕ) (o : Option NatEntry) → survive now o o ≡ until_over now o
unfolding is_stale
survive-until_over now none = refl
survive-until_over now (some e) = over-if now e e.closed_at

-- In a table that has each public id once, a lookup after `expire` finds what it found before,
-- unless that mapping was closed at least 2 seconds ago: then it finds nothing.
pub get-expire :
    (t : NatTable) (now : ℕ) (j : NatKey)
    → Distinct t.entries
    → get (expire t now).entries j ≡ until_over now (get t.entries j)
unfolding expire
get-expire t now j d = get-expire_all now t.entries t j d ∙ survive-until_over now (get t.entries j)

module _ (t : NatTable) (key : NatKey) (e : NatEntry) (p : Paired t.entries t.by_inner) where
  drop_inner-found :
      get t.entries key ≡ some e → drop_inner t.by_inner e key ≡ delete t.by_inner (inner_key_of e)
  drop_inner-found h = ground (arith, p.back key e, nat_key_eq_iff key key)

  drop_inner-gone : get t.entries key ≡ none → drop_inner t.by_inner e key ≡ t.by_inner
  drop_inner-gone h = elim (Option-cases (get t.by_inner (inner_key_of e))) [
    | inl missing ↦ ground arith
    | inr (k, found) ↦ ground (arith, p.forth (inner_key_of e) k, nat_key_eq_iff k key)
  ]

  dropped-Paired :
      (get t.entries key ≡ some e) ⊎ (get t.entries key ≡ none)
      → Paired (delete t.entries key) (drop_inner t.by_inner e key)
  dropped-Paired (inl found) =
      subst (λ b. Paired (delete t.entries key) b) (sym (drop_inner-found found))
        (Paired-remove p key e found)
  dropped-Paired (inr gone) =
      Paired-absent p key gone (drop_inner t.by_inner e key)
        (λ k. ap (λ (b : Dict InnerKey NatKey). get b k) (drop_inner-gone gone))

  expire_one-Paired :
      (now : ℕ)
      → (get t.entries key ≡ some e) ⊎ (get t.entries key ≡ none)
      → Paired (expire_one now t key e).entries (expire_one now t key e).by_inner
  unfolding expire_one
  expire_one-Paired now here = elim (Bool-cases (is_stale now e)) [
    | inr young ↦ rw young p
    | inl stale ↦ rw stale (dropped-Paired here)
  ]

abbrev Consistent : Dict NatKey NatEntry → NatTable → Type 0
Consistent copy t =
    (j : NatKey) (e : NatEntry)
    → get copy j ≡ some e
    → (get t.entries j ≡ some e) ⊎ (get t.entries j ≡ none)

-- `expire` keeps the two maps mirrored.
expire_all-Paired :
    (now : ℕ) (copy : Dict NatKey NatEntry) (t : NatTable)
    → Distinct copy
    → Consistent copy t
    → Paired t.entries t.by_inner
    → Paired (expire_all now t copy).entries (expire_all now t copy).by_inner
unfolding expire_all
expire_all-Paired now [] t d c p = p
expire_all-Paired now ((key, e) ∷ rest) t (fresh, d) c p =
    expire_all-Paired now rest (expire_one now t key e) d later
      (expire_one-Paired t key e p now here)
  where
    here : (get t.entries key ≡ some e) ⊎ (get t.entries key ≡ none)
    here = c key e (unfold get in rw ((nat_key_eq_iff key key).1 refl))

    later :
        (j : NatKey) (e' : NatEntry)
        → get rest j ≡ some e'
        → (get (expire_one now t key e).entries j ≡ some e')
          ⊎ (get (expire_one now t key e).entries j ≡ none)
    later j e' h = ground (
      arith,
      get-expire_one now t key j e,
      nat_key_eq_iff key j,
      c j e' (unfold get in ground (arith, nat_key_eq_iff key j)),
    )

pub expire-Paired :
    (t : NatTable) (now : ℕ)
    → Distinct t.entries
    → Paired t.entries t.by_inner
    → Paired (expire t now).entries (expire t now).by_inner
unfolding expire
expire-Paired t now d p = expire_all-Paired now t.entries t d (λ j e h. inl h) p

expire_one-frame :
    (now : ℕ) (t : NatTable) (key : NatKey) (e : NatEntry)
    → Distinct t.entries
    → Distinct (expire_one now t key e).entries
      × ((expire_one now t key e).kind ≡ t.kind)
      × ((expire_one now t key e).reserved ≡ t.reserved)
      × ((expire_one now t key e).forwards ≡ t.forwards)
unfolding expire_one
expire_one-frame now t key e d = elim (Bool-cases (is_stale now e)) [
  | inr young ↦ rw young (d, refl, refl, refl)
  | inl stale ↦ rw stale (Distinct-delete t.entries key d, refl, refl, refl)
]

expire_all-frame :
    (now : ℕ) (copy : Dict NatKey NatEntry) (t : NatTable)
    → Distinct t.entries
    → Distinct (expire_all now t copy).entries
      × ((expire_all now t copy).kind ≡ t.kind)
      × ((expire_all now t copy).reserved ≡ t.reserved)
      × ((expire_all now t copy).forwards ≡ t.forwards)
unfolding expire_all
expire_all-frame now [] t d = (d, refl, refl, refl)
expire_all-frame now ((key, e) ∷ rest) t d =
    let (d1, k1, r1, f1) = expire_one-frame now t key e d in
    let (d2, k2, r2, f2) = expire_all-frame now rest (expire_one now t key e) d1 in
    (d2, k2 ∙ k1, r2 ∙ r1, f2 ∙ f1)

-- `expire` touches the two maps only.
pub expire-frame :
    (t : NatTable) (now : ℕ)
    → Distinct t.entries
    → Distinct (expire t now).entries
      × ((expire t now).kind ≡ t.kind)
      × ((expire t now).reserved ≡ t.reserved)
      × ((expire t now).forwards ≡ t.forwards)
unfolding expire
expire-frame t now d = expire_all-frame now t.entries t d
