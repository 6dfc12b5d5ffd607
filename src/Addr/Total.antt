-- ===== src/Addr/Total.antt =====
-- Addresses that parse: on them the operations of src/core/addr.ts throw no error.
use mathlib.Core.Path.{subst}
use mathlib.Core.Option.{some-injective}
use net_sim.Prelude.{
  Bool, false, if◌then◌else◌, ℕ, ◌≤◌, ◌≡◌, refl, sym, true, Option, none, some, is_some,
}
use net_sim.Addr.{Ip, ip_to_int, network_of, same_subnet, ◌>>=◌}
use net_sim.Addr.Subnet.{network_of-first}

-- the computation throws no error, and its result satisfies the predicate
abbrev pub Gives {ℓ κ} : {A : Type ℓ} → (A → Type κ) → Option A → Type (ℓ ⊔ κ)
Gives P o = (a : _) × (o ≡ some a) × P a

pub Gives-bind {ℓ κ μ ν} :
    {A : Type ℓ} {B : Type μ} (P : A → Type κ) (Q : B → Type ν) (o : Option A) (f : A → Option B)
    → Gives P o
    → ((a : A) → P a → Gives Q (f a))
    → Gives Q (o >>= f)
Gives-bind P Q none f (a, e, p) next = absurd (cc)
Gives-bind P Q (some b) f (a, e, p) next = next b (subst P (sym (some-injective b a e)) p)

pub Gives-if {ℓ κ} :
    {A : Type ℓ} (P : A → Type κ) (b : Bool) (x y : Option A)
    → (b ≡ true → Gives P x)
    → (b ≡ false → Gives P y)
    → Gives P (if b then x else y)
Gives-if P true x y gx gy = gx refl
Gives-if P false x y gx gy = gy refl

abbrev pub Parses : Ip → Type 0
Parses ip = is_some (ip_to_int ip) ≡ true

parsed {ℓ} : {A : Type ℓ} (o : Option A) → is_some o ≡ true → (a : A) × (o ≡ some a)
parsed none h = absurd (cc)
parsed (some a) h = (a, refl)

pub network_of-Gives :
    (ip : Ip) (p : ℕ) → Parses ip → p ≤ 32 → Gives (λ net. Unit {0}) (network_of ip p)
network_of-Gives ip p parses le =
    let (n, e) = parsed (ip_to_int ip) parses in (_, network_of-first p le ip n e, tt)

pub same_subnet-Gives :
    (a b : Ip) (p : ℕ) → Parses a → Parses b → p ≤ 32 → Gives (λ near. Unit {0}) (same_subnet a b p)
unfolding same_subnet
same_subnet-Gives a b p pa pb le =
    Gives-bind _ _ _ _ (network_of-Gives a p pa le)
      λ x u. Gives-bind _ _ _ _ (network_of-Gives b p pb le) λ y v. (_, refl, tt)
