-- ===== src/Nat/Pairing.antt =====
-- The table's two maps mirror each other.
use net_sim.Prelude.{
  ℕ, ◌≡◌, refl, sym, ◌∙◌, inl, inr, Option-cases, false, Option, none, some, [], arith, Dict, get,
  put, delete, get-put, get-delete,
}
use net_sim.Nat.Keys.{
  NatKey, InnerKey, nat_key, inner_key, nat_key_eq, nat_key_eq_iff, inner_key_eq_iff,
}
use net_sim.Nat.Table.{
  NatEntry, inner_key_of, nat_key_of, NatTable, Imported, imported_entry, forget_inner,
  forget_public, import_entry,
}

abbrev pub owner : Option NatEntry → Option InnerKey
owner none = none
owner (some e) = some (inner_key_of e)

-- Each inner key leads to the mapping that it belongs to, and each mapping is found both by its
-- public id and by its inner key.
pub record Paired (m : Dict NatKey NatEntry) (b : Dict InnerKey NatKey) : Type 0 where
  pub forth : (k : InnerKey) (n : NatKey) → get b k ≡ some n → owner (get m n) ≡ some k
  pub back : (n : NatKey) (e : NatEntry) → get m n ≡ some e → get b (inner_key_of e) ≡ some n
  pub keyed : (n : NatKey) (e : NatEntry) → get m n ≡ some e → nat_key_of e ≡ n

pub Paired-nil : Paired [] []
unfolding get
Paired-nil = record { forth = λ k n h. cc; back = λ n e h. cc; keyed = λ n e h. cc }

module _ {m : Dict NatKey NatEntry} {b : Dict InnerKey NatKey} (p : Paired m b) where
  -- A mapping is added under a free public id and a free inner key.
  pub Paired-add :
      (n : NatKey) (e : NatEntry)
      → get m n ≡ none
      → get b (inner_key_of e) ≡ none
      → nat_key_of e ≡ n
      → Paired (put m n e) (put b (inner_key_of e) n)
  Paired-add n e hm hb hn = record {
    forth = λ k n' h. ground (
      arith,
      get-put b (inner_key_of e) k n,
      get-put m n n' e,
      inner_key_eq_iff (inner_key_of e) k,
      nat_key_eq_iff n n',
      p.forth k n',
    );
    back = λ n' e' h. ground (
      arith,
      get-put b (inner_key_of e) (inner_key_of e') n,
      get-put m n n' e,
      inner_key_eq_iff (inner_key_of e) (inner_key_of e'),
      nat_key_eq_iff n n',
      p.back n' e',
    );
    keyed = λ n' e' h. ground (arith, get-put m n n' e, nat_key_eq_iff n n', p.keyed n' e');
  }

  -- A mapping is rewritten, its keys kept.
  pub Paired-update :
      (n : NatKey) (e e' : NatEntry)
      → get m n ≡ some e
      → inner_key_of e' ≡ inner_key_of e
      → nat_key_of e' ≡ nat_key_of e
      → Paired (put m n e') b
  Paired-update n e e' hm hi hn = record {
    forth = λ k n' h. ground (arith, get-put m n n' e', nat_key_eq_iff n n', p.forth k n');
    back = λ n' e'' h.
        ground (arith, get-put m n n' e', nat_key_eq_iff n n', p.back n e, p.back n' e'');
    keyed = λ n' e'' h.
        ground (arith, get-put m n n' e', nat_key_eq_iff n n', p.keyed n e, p.keyed n' e'');
  }

  -- A mapping is removed from both maps.
  pub Paired-remove :
      (n : NatKey) (e : NatEntry)
      → get m n ≡ some e
      → Paired (delete m n) (delete b (inner_key_of e))
  Paired-remove n e hm = record {
    forth = λ k n' h. ground (
      arith,
      get-delete b (inner_key_of e) k,
      get-delete m n n',
      inner_key_eq_iff (inner_key_of e) k,
      nat_key_eq_iff n n',
      p.forth k n',
    );
    back = λ n' e' h. ground (
      arith,
      get-delete b (inner_key_of e) (inner_key_of e'),
      get-delete m n n',
      inner_key_eq_iff (inner_key_of e) (inner_key_of e'),
      nat_key_eq_iff n n',
      p.back n e,
      p.back n' e',
    );
    keyed = λ n' e' h. ground (arith, get-delete m n n', nat_key_eq_iff n n', p.keyed n' e');
  }

-- Only what the maps return matters.
Paired-ext :
    {m m' : Dict NatKey NatEntry} {b b' : Dict InnerKey NatKey}
    → Paired m b
    → ((n : NatKey) → get m' n ≡ get m n)
    → ((k : InnerKey) → get b' k ≡ get b k)
    → Paired m' b'
Paired-ext p hm hb = record {
  forth = λ k n h. rw hm (p.forth k n (sym (hb k) ∙ h));
  back = λ n e h. hb (inner_key_of e) ∙ p.back n e (sym (hm n) ∙ h);
  keyed = λ n e h. p.keyed n e (sym (hm n) ∙ h);
}

-- Removing a public id that is not there changes nothing that matters.
pub Paired-absent :
    {m : Dict NatKey NatEntry} {b : Dict InnerKey NatKey}
    → Paired m b
    → (n : NatKey) → get m n ≡ none
    → (b' : Dict InnerKey NatKey) → ((k : InnerKey) → get b' k ≡ get b k)
    → Paired (delete m n) b'
Paired-absent {m} p n h b' same =
    Paired-ext p (λ j. ground (arith, get-delete m n j, nat_key_eq_iff n j)) same

forget_inner-Paired :
    {m : Dict NatKey NatEntry} {b : Dict InnerKey NatKey} (n : NatKey)
    → Paired m b
    → Paired (delete m n) (forget_inner b (get m n))
unfolding forget_inner
forget_inner-Paired {m} {b} n p = elim (Option-cases (get m n)) [
  | inl e ↦
      rw e (Paired-ext p (λ j. ground (arith, get-delete m n j, nat_key_eq_iff n j)) (λ k. refl))
  | inr (old, e) ↦ rw e (Paired-remove p n old e)
]

pub owner-some :
    (o : Option NatEntry) (k : InnerKey)
    → owner o ≡ some k
    → (e : NatEntry) × (o ≡ some e) × (inner_key_of e ≡ k)
owner-some none k h = absurd (cc)
owner-some (some e) k h = (e, refl, cc)

-- After the inner key's old mapping is dropped, the key leads nowhere.
forget_public-Paired :
    {m : Dict NatKey NatEntry} {b : Dict InnerKey NatKey} (n : NatKey) (k : InnerKey)
    → get m n ≡ none
    → Paired m b
    → Paired (forget_public m n (get b k)) (delete b k)
unfolding forget_public
forget_public-Paired {m} {b} n k free p = elim (Option-cases (get b k)) [
  | inl e ↦
      rw e (Paired-ext p (λ j. refl) (λ j. ground (arith, get-delete b k j, inner_key_eq_iff k j)))
  | inr (prev, e) ↦
      let (old, found, same) = owner-some (get m prev) k (p.forth k prev e) in
      let other : nat_key_eq prev n ≡ false = ground (arith, nat_key_eq_iff prev n) in
      rw (e, other, ← same) (Paired-remove p prev old found)
]

module _ (m : Dict NatKey NatEntry) (n : NatKey) where
  get-forget_public-none : (o : Option NatKey) → get m n ≡ none → get (forget_public m n o) n ≡ none
  unfolding forget_public
  get-forget_public-none none h = h
  get-forget_public-none (some prev) h = ground (arith, get-delete m prev n)

  put-forget_public :
      (o : Option NatKey) (v : NatEntry) (j : NatKey)
      → get (put (forget_public m n o) n v) j ≡ get (put (forget_public (delete m n) n o) n v) j
  unfolding forget_public
  put-forget_public none v j =
      ground (arith, get-put m n j v, get-put (delete m n) n j v, get-delete m n j)
  put-forget_public (some prev) v j = ground (
    arith,
    get-put m n j v,
    get-put (delete m n) n j v,
    get-delete m n j,
    get-put (delete m prev) n j v,
    get-put (delete (delete m n) prev) n j v,
    get-delete m prev j,
    get-delete (delete m n) prev j,
  )

-- Importing a mapping into two maps that mirror each other keeps them so, whatever it displaces.
pub import_entry-Paired :
    (t : NatTable) (e : Imported) (now : ℕ)
    → Paired t.entries t.by_inner
    → Paired (import_entry t e now).entries (import_entry t e now).by_inner
unfolding import_entry
import_entry-Paired t e now p =
    let fresh = imported_entry e now in
    let n = nat_key_of fresh in
    let k = inner_key_of fresh in
    let b = forget_inner t.by_inner (get t.entries n) in
    let free : get (delete t.entries n) n ≡ none =
      ground (arith, get-delete t.entries n n, nat_key_eq_iff n n) in
    let unused : get (delete b k) k ≡ none =
      ground (arith, get-delete b k k, inner_key_eq_iff k k) in
    let q = forget_public-Paired n k free (forget_inner-Paired n p) in
    let r =
      Paired-add q n fresh (get-forget_public-none (delete t.entries n) n (get b k) free) unused
        refl in
    Paired-ext r (put-forget_public t.entries n (get b k) fresh)
      (λ j. ground (arith, get-put b k j n, get-put (delete b k) k j n, get-delete b k j))
