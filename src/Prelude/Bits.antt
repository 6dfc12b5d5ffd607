-- ===== src/Prelude/Bits.antt =====
-- Masks: what `&` and `|` do with a run of ones, low or high.
use Prim.Native.Nat.{min, max, bit_and, bit_or, digits, bit_and-bitwise, bit_or-bitwise}
use native.Mathlib.Nat.{two-pow-succ, one-le-pow, div-div-eq-div-mul}
use net_sim.Prelude.{ℕ, zero, suc, ◌+◌, ◌-◌, ◌*◌, ◌/◌, ◌%◌, ◌^◌, ◌≤◌, ◌<◌, ◌≡◌, refl, ap, arith}

-- One digit of a digitwise operation, whose value on an exhausted first number obeys `law`.
module _ (z : ℕ → ℕ) (f : ℕ → ℕ → ℕ) (law : (b : ℕ) → z b ≡ z (b / 2) * 2 + f 0 (b % 2)) where
  fuel_enough : (n m a b : ℕ) → a ≤ n → a ≤ m → digits z f n a b ≡ digits z f m a b
  fuel_enough zero zero a b hn hm = refl
  fuel_enough zero (suc m) zero b hn hm = refl
  fuel_enough zero (suc m) (suc a) b hn hm = absurd (omega arith)
  fuel_enough (suc n) m zero b hn hm = from_zero m
    where
      from_zero : (k : ℕ) → z b ≡ digits z f k zero b
      from_zero zero = refl
      from_zero (suc k) = refl
  fuel_enough (suc n) zero (suc a) b hn hm = absurd (omega arith)
  fuel_enough (suc n) (suc m) (suc a) b hn hm =
      omega (arith, fuel_enough n m (suc a / 2) (b / 2) (omega arith) (omega arith))

  pub lowest_digit :
      (a b : ℕ) → digits z f a a b ≡ digits z f (a / 2) (a / 2) (b / 2) * 2 + f (a % 2) (b % 2)
  lowest_digit zero b = law b
  lowest_digit (suc a) b =
      omega (arith, fuel_enough a (suc a / 2) (suc a / 2) (b / 2) (omega arith) (omega arith))

pub bit_and_step : (a b : ℕ) → bit_and a b ≡ bit_and (a / 2) (b / 2) * 2 + min (a % 2) (b % 2)
bit_and_step a b =
    rw (bit_and-bitwise a b, bit_and-bitwise (a / 2) (b / 2))
      (lowest_digit (λ _. 0) min (λ b. omega arith) a b)

pub bit_or_step : (a b : ℕ) → bit_or a b ≡ bit_or (a / 2) (b / 2) * 2 + max (a % 2) (b % 2)
bit_or_step a b =
    rw (bit_or-bitwise a b, bit_or-bitwise (a / 2) (b / 2))
      (lowest_digit (λ b. b) max (λ b. omega arith) a b)

zero_digits : (n a : ℕ) → digits (λ _. 0) min n a 0 ≡ 0
zero_digits zero a = refl
zero_digits (suc n) zero = refl
zero_digits (suc n) (suc a) = omega (arith, zero_digits n (suc a / 2))

bit_and-zero : (a : ℕ) → bit_and a 0 ≡ 0
bit_and-zero a = rw (bit_and-bitwise a 0) (zero_digits a a)

or_digits : (n a : ℕ) → a ≤ n → digits (λ b. b) max n a 0 ≡ a
or_digits zero a h = omega arith
or_digits (suc n) zero h = refl
or_digits (suc n) (suc a) h = omega (arith, or_digits n (suc a / 2) (omega arith))

bit_or-zero : (a : ℕ) → bit_or a 0 ≡ a
bit_or-zero a = rw (bit_or-bitwise a 0) (or_digits a a (omega arith))

mod_double : (p a : ℕ) → 0 < p → a % (p + p) ≡ a / 2 % p * 2 + a % 2
mod_double p a h = grind arith

pub pow_pos : (j : ℕ) → 0 < 2 ^ j
pow_pos j = one-le-pow j 2 (omega arith)

halve_ones : (j : ℕ) → (2 ^ suc j - 1) / 2 ≡ 2 ^ j - 1
halve_ones j = omega (arith, two-pow-succ j, pow_pos j)

-- `&` with a mask of `j` low ones.
pub bit_and-ones : (j a : ℕ) → bit_and a (2 ^ j - 1) ≡ a % 2 ^ j
bit_and-ones zero a = omega (arith, bit_and-zero a)
bit_and-ones (suc j) a = omega (
  arith,
  bit_and_step a (2 ^ suc j - 1),
  ap (bit_and (a / 2)) (halve_ones j),
  bit_and-ones j (a / 2),
  two-pow-succ j,
  pow_pos j,
  mod_double (2 ^ j) a (pow_pos j),
  ap (λ (t : ℕ). a % t) (two-pow-succ j),
)

div_double : (p a : ℕ) → a / (p + p) ≡ a / 2 / p
div_double p a = rw (div-div-eq-div-mul a 2 p) (ap (λ (t : ℕ). a / t) (omega arith))

-- `|` with a mask of `k` low ones.
pub bit_or-ones : (k a : ℕ) → bit_or a (2 ^ k - 1) ≡ a / 2 ^ k * 2 ^ k + (2 ^ k - 1)
bit_or-ones zero a = omega (arith, bit_or-zero a)
bit_or-ones (suc k) a = omega (
  arith,
  bit_or_step a (2 ^ suc k - 1),
  ap (bit_or (a / 2)) (halve_ones k),
  bit_or-ones k (a / 2),
  two-pow-succ k,
  pow_pos k,
  ap (λ (t : ℕ). a / t * 2 ^ suc k) (two-pow-succ k),
  ap (λ (t : ℕ). t * 2 ^ suc k) (div_double (2 ^ k) a),
  ap (λ (t : ℕ). a / 2 / 2 ^ k * t) (two-pow-succ k),
)

halve_shifted : (m k : ℕ) → m * 2 ^ suc k / 2 ≡ m * 2 ^ k
halve_shifted m k = omega (arith, ap (λ (t : ℕ). m * t) (two-pow-succ k))

-- `&` with a mask whose `k` low digits are zero.
pub bit_and_shifted : (k a m : ℕ) → bit_and a (m * 2 ^ k) ≡ bit_and (a / 2 ^ k) m * 2 ^ k
bit_and_shifted zero a m =
    let e : m * 1 ≡ m = omega arith in
    let d : a / 1 ≡ a = omega arith in
    omega (arith, ap (bit_and a) e, ap (λ (t : ℕ). bit_and t m) d)
bit_and_shifted (suc k) a m = omega (
  arith,
  bit_and_step a (m * 2 ^ suc k),
  ap (bit_and (a / 2)) (halve_shifted m k),
  bit_and_shifted k (a / 2) m,
  ap (λ (t : ℕ). m * t) (two-pow-succ k),
  ap (λ (t : ℕ). bit_and (a / 2 / 2 ^ k) m * t) (two-pow-succ k),
  ap (λ (t : ℕ). bit_and t m * 2 ^ suc k) (div_double (2 ^ k) a),
  ap (λ (t : ℕ). bit_and (a / t) m * 2 ^ suc k) (two-pow-succ k),
)
