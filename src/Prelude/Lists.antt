-- ===== src/Prelude/Lists.antt =====
-- Lists measured and indexed by native numbers, and predicates on all or some of their items.
use Prim.Native.Nat.{ℕ, zero, suc}
use mathlib.Core.Path.{◌≡◌, refl}
use mathlib.Core.Bool.{Bool, true, false, ◌||◌}
use mathlib.Core.List.{List, [], ◌∷◌, ◌++◌, map, Memᴰ}
use mathlib.Core.Logic.{inl, inr}
use mathlib.Core.Option.{Option, none, some}
use net_sim.Prelude.Tests.{if◌then◌else◌, Bool-cases}

module _ {ℓ} {A : Type ℓ} where
  abbrev pub length : List A → ℕ
  length [] = 0
  length (x ∷ xs) = suc (length xs)

  abbrev pub get_elem? : List A → ℕ → Option A
  get_elem? [] i = none
  get_elem? (x ∷ xs) zero = some x
  get_elem? (x ∷ xs) (suc i) = get_elem? xs i

  -- A write out of bounds changes nothing.
  abbrev pub set : List A → ℕ → A → List A
  set [] i v = []
  set (x ∷ xs) zero v = v ∷ xs
  set (x ∷ xs) (suc i) v = x ∷ set xs i v

  abbrev pub any : (A → Bool) → List A → Bool
  any p [] = false
  any p (x ∷ xs) = p x || any p xs

  -- `filter` of the source, on a Boolean test.
  abbrev pub keep : (A → Bool) → List A → List A
  keep p [] = []
  keep p (x ∷ xs) = let rest = keep p xs in if p x then x ∷ rest else rest

  -- `find` of the source.
  abbrev pub find : (A → Bool) → List A → Option A
  find p [] = none
  find p (x ∷ xs) = let rest = find p xs in if p x then some x else rest

module _ {ℓ κ} {A : Type ℓ} where
  abbrev pub All : (A → Type κ) → List A → Type κ
  All P [] = Unit
  All P (x ∷ xs) = P x × All P xs

  pub All-keep : (P : A → Type κ) (test : A → Bool) (xs : List A) → All P xs → All P (keep test xs)
  All-keep P test [] all = tt
  All-keep P test (x ∷ xs) all = elim (Bool-cases (test x)) [
    | inl kept ↦ rw kept (all.0, All-keep P test xs all.1)
    | inr gone ↦ rw gone (All-keep P test xs all.1)
  ]

  pub All-if :
      (P : A → Type κ) (b : Bool) (xs ys : List A)
      → All P xs
      → All P ys
      → All P (if b then xs else ys)
  All-if P true xs ys l r = l
  All-if P false xs ys l r = r

  pub All-++ : (P : A → Type κ) (xs ys : List A) → All P xs → All P ys → All P (xs ++ ys)
  All-++ P [] ys l r = r
  All-++ P (x ∷ xs) ys l r = (l.0, All-++ P xs ys l.1 r)

module _ {ℓ κ μ} {A : Type ℓ} where
  pub All-weaken :
      (P : A → Type κ) (Q : A → Type μ)
      → ((a : A) → P a → Q a)
      → (xs : List A) → All P xs
      → All Q xs
  All-weaken P Q f [] all = tt
  All-weaken P Q f (x ∷ xs) all = (f x all.0, All-weaken P Q f xs all.1)

-- What is kept satisfies the test.
pub All-keep_test {ℓ κ} :
    {A : Type ℓ} (P : A → Type κ) (test : A → Bool) (xs : List A)
    → All P xs
    → All (λ x. P x × (test x ≡ true)) (keep test xs)
All-keep_test P test [] all = tt
All-keep_test P test (x ∷ xs) all = elim (Bool-cases (test x)) [
  | inl kept ↦ rw kept ((all.0, kept), All-keep_test P test xs all.1)
  | inr gone ↦ rw gone (All-keep_test P test xs all.1)
]

-- Each item of a list is in it.
pub All-Memᴰ {ℓ} : {A : Type ℓ} (xs : List A) → All (λ x. Memᴰ x xs) xs
All-Memᴰ [] = tt
All-Memᴰ (x ∷ xs) = (
  Memᴰ.head refl,
  All-weaken (λ y. Memᴰ y xs) (λ y. Memᴰ y (x ∷ xs)) (λ y m. Memᴰ.tail m) xs (All-Memᴰ xs),
)

module _ {ℓ κ μ} {A : Type ℓ} {B : Type κ} where
  -- What holds of the images holds of the list of them.
  pub All-map :
      (P : B → Type μ) (f : A → B) (Q : A → Type μ)
      → ((a : A) → Q a → P (f a))
      → (xs : List A) → All Q xs
      → All P (map f xs)
  All-map P f Q step [] all = tt
  All-map P f Q step (x ∷ xs) all = (step x all.0, All-map P f Q step xs all.1)

-- The indices of a counted loop `for (let p = 0; p < n; p++)`, from `p` up.
abbrev pub upto : ℕ → ℕ → List ℕ
upto zero p = []
upto (suc n) p = p ∷ upto n (suc p)
