-- ===== src/Prelude/Dicts.antt =====
-- The source's `Map` and `Set`: entries in insertion order, `set` on a known key keeps its place.
use Prim.Native.Nat.{ℕ, suc, ◌+◌, ◌≤◌}
use mathlib.Core.Path.{◌≡◌, refl, sym, subst, ◌∙◌, ap}
use mathlib.Core.Logic.{inl, inr}
use mathlib.Core.Bool.{Bool, true, false, not, ◌&&◌, ◌||◌}
use mathlib.Core.Option.{Option, none, some, some-injective}
use mathlib.Core.List.{List, [], ◌∷◌}
use native.Mathlib.Omega.{arith}
use net_sim.Prelude.Tests.{Eq, ltb, if◌then◌else◌, is_some, Bool-cases}
use net_sim.Prelude.Lists.{length, All}

abbrev pub Dict {ℓ κ} : Type ℓ → Type κ → Type (ℓ ⊔ κ)
Dict K V = List (K × V)

module _ {ℓ κ} {K : Type ℓ} {V : Type κ} ⦃e : Eq K⦄ where
  unfoldable pub get : Dict K V → K → Option V
  get [] k = none
  get ((j, v) ∷ m) k = let rest = get m k in if e.beq j k then some v else rest

  unfoldable pub put : Dict K V → K → V → Dict K V
  put [] k v = (k, v) ∷ []
  put ((j, w) ∷ m) k v = let rest = put m k v in if e.beq j k then (j, v) ∷ m else (j, w) ∷ rest

  unfoldable pub delete : Dict K V → K → Dict K V
  delete [] k = []
  delete ((j, w) ∷ m) k = let rest = delete m k in if e.beq j k then rest else (j, w) ∷ rest

  -- A change of the value under a key that is present.
  unfoldable pub adjust : (V → V) → Dict K V → K → Dict K V
  adjust f m k = elim (get m k) [ none ↦ m | some v ↦ put m k (f v) ]

  unfoldable pub adjust_all : (V → V) → Dict K V → List K → Dict K V
  adjust_all f m [] = m
  adjust_all f m (k ∷ ks) = adjust_all f (adjust f m k) ks

  -- A key that is present.
  abbrev pub has : Dict K V → K → Bool
  has m k = is_some (get m k)

  pub get-put :
      (m : Dict K V) (k j : K) (v : V) → get (put m k v) j ≡ (if e.beq k j then some v else get m j)
  unfolding get put
  get-put [] k j v = refl
  get-put ((i, w) ∷ m) k j v =
      ground (arith, e.beq_iff k j, e.beq_iff i k, e.beq_iff i j, get-put m k j v)

  pub get-put_same : (m : Dict K V) (k : K) (v : V) → get (put m k v) k ≡ some v
  get-put_same m k v = ground (arith, get-put m k k v, e.beq_iff k k)

  pub get-delete :
      (m : Dict K V) (k j : K) → get (delete m k) j ≡ (if e.beq k j then none else get m j)
  unfolding get delete
  get-delete [] k j = ground arith
  get-delete ((i, w) ∷ m) k j =
      ground (arith, e.beq_iff k j, e.beq_iff i k, e.beq_iff i j, get-delete m k j)

  pub length-put : (m : Dict K V) (k : K) (v : V) → length (put m k v) ≤ length m + 1
  unfolding put
  length-put [] k v = omega arith
  length-put ((i, w) ∷ m) k v = ground (arith, length-put m k v)

  -- The map without its oldest entry, as `delete(keys().next().value)` leaves it.
  unfoldable pub drop_oldest : Dict K V → Dict K V
  unfolding delete
  drop_oldest [] = []
  drop_oldest ((j, w) ∷ m) = delete ((j, w) ∷ m) j

module _ {ℓ} {A : Type ℓ} ⦃e : Eq A⦄ where
  unfoldable pub contains : List A → A → Bool
  contains [] a = false
  contains (b ∷ s) a = e.beq b a || contains s a

  unfoldable pub add : List A → A → List A
  add [] a = a ∷ []
  add (b ∷ s) a = let rest = add s a in if e.beq b a then b ∷ s else b ∷ rest

  unfoldable pub remove : List A → A → List A
  remove [] a = []
  remove (b ∷ s) a = let rest = remove s a in if e.beq b a then rest else b ∷ rest

  pub contains-add : (s : List A) (a b : A) → contains (add s a) b ≡ (e.beq a b || contains s b)
  unfolding contains add
  contains-add [] a b = refl
  contains-add (c ∷ s) a b =
      ground (arith, e.beq_iff c a, e.beq_iff c b, e.beq_iff a b, contains-add s a b)

  pub contains-remove :
      (s : List A) (a b : A) → contains (remove s a) b ≡ (not (e.beq a b) && contains s b)
  unfolding contains remove
  contains-remove [] a b = ground arith
  contains-remove (c ∷ s) a b =
      ground (arith, e.beq_iff c a, e.beq_iff c b, e.beq_iff a b, contains-remove s a b)

  -- A set of at most `cap` keys: adding one more drops the oldest.
  unfoldable pub add_capped : ℕ → List A → A → List A
  add_capped cap s a =
      let s' = add s a in
      if ltb cap (length s') then elim s' [ [] ↦ [] | b ∷ r ↦ remove (b ∷ r) b ] else s'

module _ {ℓ} {A : Type ℓ} ⦃e : Eq A⦄ where
  length-add : (s : List A) (a : A) → length (add s a) ≤ length s + 1
  unfolding add
  length-add [] a = omega arith
  length-add (b ∷ s) a = ground (arith, length-add s a)

  length-remove : (s : List A) (a : A) → length (remove s a) ≤ length s
  unfolding remove
  length-remove [] a = omega arith
  length-remove (b ∷ s) a = ground (arith, length-remove s a)

  length-remove_first : (b : A) (s : List A) → length (remove (b ∷ s) b) ≤ length s
  unfolding remove
  length-remove_first b s = ground (arith, e.beq_iff b b, length-remove s b)

  -- what `add_capped` does once the key is added
  abbrev shortened : ℕ → List A → List A
  shortened cap s = if ltb cap (length s) then elim s [ [] ↦ [] | b ∷ r ↦ remove (b ∷ r) b ] else s

  length-shortened : (cap : ℕ) (s : List A) → length s ≤ cap + 1 → length (shortened cap s) ≤ cap
  length-shortened cap [] le = ground arith
  length-shortened cap (b ∷ r) le = ground (arith, length-remove_first b r)

  shortened-same : (cap : ℕ) (s : List A) → length s ≤ cap → shortened cap s ≡ s
  shortened-same cap s le = ground arith

  contains-shortened :
      (cap : ℕ) (b a : A) (r : List A)
      → e.beq b a ≡ false
      → contains r a ≡ true
      → contains (shortened cap (b ∷ r)) a ≡ true
  unfolding contains
  contains-shortened cap b a r other there = ground (arith, contains-remove (b ∷ r) b a)

  -- A set of at most `cap` keys stays one.
  pub length-add_capped :
      (cap : ℕ) (s : List A) (a : A) → length s ≤ cap → length (add_capped cap s a) ≤ cap
  unfolding add_capped
  length-add_capped cap s a le = length-shortened cap (add s a) (omega (arith, length-add s a))

  -- The key that was added last is there.
  pub contains-add_capped :
      (cap : ℕ) (s : List A) (a : A)
      → length s ≤ suc cap
      → contains (add_capped (suc cap) s a) a ≡ true
  unfolding add_capped add
  contains-add_capped cap [] a le = ground (arith, contains-add [] a a, e.beq_iff a a)
  contains-add_capped cap (b ∷ r) a le = elim (Bool-cases (e.beq b a)) [
    | inl same ↦ rw same (
        ap (λ s. contains s a) (shortened-same (suc cap) (b ∷ r) le)
        ∙ unfold contains in ground (arith, same))
    | inr other ↦ rw other (
        contains-shortened (suc cap) b a (add r a) other
          (ground (contains-add r a a, e.beq_iff a a, arith)))
  ]

-- A map has each key once.
module _ {ℓ κ} {K : Type ℓ} {V : Type κ} ⦃e : Eq K⦄ where
  abbrev pub Distinct : Dict K V → Type κ
  Distinct [] = Unit
  Distinct ((k, v) ∷ m) = (get m k ≡ none) × Distinct m

  pub Distinct-put : (m : Dict K V) (k : K) (v : V) → Distinct m → Distinct (put m k v)
  unfolding put
  Distinct-put [] k v d = (unfold get in refl, tt)
  Distinct-put ((j, w) ∷ m) k v (h, d) = elim (Bool-cases (e.beq j k)) [
    | inl same ↦ rw same (h, d)
    | inr other ↦
        rw other
          (ground (arith, get-put m k j v, e.beq_iff k j, e.beq_iff j k), Distinct-put m k v d)
  ]

  pub Distinct-delete : (m : Dict K V) (k : K) → Distinct m → Distinct (delete m k)
  unfolding delete
  Distinct-delete [] k d = tt
  Distinct-delete ((j, w) ∷ m) k (h, d) = elim (Bool-cases (e.beq j k)) [
    | inl same ↦ rw same (Distinct-delete m k d)
    | inr other ↦ rw other (ground (arith, get-delete m k j), Distinct-delete m k d)
  ]

module _ {ℓ κ μ} {K : Type ℓ} {V : Type κ} ⦃e : Eq K⦄ (P : K × V → Type μ) where
  pub All-put : (m : Dict K V) (k : K) (v : V) → P (k, v) → All P m → All P (put m k v)
  unfolding put
  All-put [] k v p all = (p, tt)
  All-put ((j, w) ∷ m) k v p all = elim (Bool-cases (e.beq j k)) [
    | inl same ↦ rw same (subst (λ i. P (i, v)) (sym ((e.beq_iff j k).0 same)) p, all.1)
    | inr other ↦ rw other (all.0, All-put m k v p all.1)
  ]

  pub All-get : (m : Dict K V) (k : K) (v : V) → All P m → get m k ≡ some v → P (k, v)
  unfolding get
  All-get [] k v all found = absurd (cc)
  All-get ((j, w) ∷ m) k v all found = elim (Bool-cases (e.beq j k)) [
    | inl same ↦
        let seen : (if e.beq j k then some w else get m k) ≡ some w = rw same refl in
        let here : w ≡ v = some-injective w v (sym seen ∙ found) in
        subst (λ i. P (i, v)) ((e.beq_iff j k).0 same) (subst (λ u. P (j, u)) here all.0)
    | inr other ↦
        let seen : (if e.beq j k then some w else get m k) ≡ get m k = rw other refl in
        All-get m k v all.1 (sym seen ∙ found)
  ]
