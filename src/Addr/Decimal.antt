-- ===== src/Addr/Decimal.antt =====
-- Printing a number and reading it back, and printing an address and reading it back.
use net_sim.Prelude.{
  ℕ, zero, suc, ◌+◌, ◌-◌, ◌*◌, ◌/◌, ◌%◌, ◌^◌, ◌<◌, ◌≡◌, refl, ap, ◌∙◌, inl, inr, true, some, [],
  ◌∷◌, ◌++◌, Text, arith, ltb, Bool-cases,
}
use net_sim.Addr.{
  dot, split, all_digits, number_from, is_number, octet, octets_from, ip_to_int, decimal_fuel,
  decimal, int_to_ip,
}

number_from-append :
    (n : ℕ) (s : Text) (d : ℕ) → number_from n (s ++ d ∷ []) ≡ number_from n s * 10 + (d - b'0')
unfolding number_from
number_from-append n [] d = refl
number_from-append n (c ∷ s) d = number_from-append (n * 10 + (c - b'0')) s d

all_digits-append :
    (s : Text) (d : ℕ) → all_digits s ≡ true → d < 10 → all_digits (s ++ (b'0' + d) ∷ []) ≡ true
unfolding all_digits
all_digits-append [] d h k = ground arith
all_digits-append (c ∷ s) d h k = ground (arith, all_digits-append s d)

is_number-append :
    (s : Text) (d : ℕ) → all_digits (s ++ d ∷ []) ≡ true → is_number (s ++ d ∷ []) ≡ true
unfolding is_number
is_number-append [] d h = h
is_number-append (c ∷ s) d h = h

all_digits-decimal_fuel : (f n : ℕ) → all_digits (decimal_fuel f n) ≡ true
unfolding decimal_fuel
all_digits-decimal_fuel zero n = unfold all_digits in refl
all_digits-decimal_fuel (suc f) n = elim (Bool-cases (ltb n 10)) [
  | inl small ↦ rw small (all_digits-append [] n (unfold all_digits in refl) (ground arith))
  | inr large ↦ rw large (
      all_digits-append (decimal_fuel f (n / 10)) (n % 10) (all_digits-decimal_fuel f (n / 10))
        (omega arith))
]

is_number-decimal_fuel : (f n : ℕ) → is_number (decimal_fuel (suc f) n) ≡ true
unfolding decimal_fuel
is_number-decimal_fuel f n = elim (Bool-cases (ltb n 10)) [
  | inl small ↦ rw small (is_number-append [] (b'0' + n) (unfold all_digits in ground arith))
  | inr large ↦ rw large (
      is_number-append (decimal_fuel f (n / 10)) (b'0' + n % 10) (
        all_digits-append (decimal_fuel f (n / 10)) (n % 10) (all_digits-decimal_fuel f (n / 10))
          (omega arith)))
]

-- Enough rounds print every digit.
number_from-decimal_fuel : (f n : ℕ) → n < f → number_from 0 (decimal_fuel f n) ≡ n
unfolding decimal_fuel
number_from-decimal_fuel zero n h = elim h [ ]
number_from-decimal_fuel (suc f) n h = elim (Bool-cases (ltb n 10)) [
  | inl small ↦ rw small (unfold number_from in omega arith)
  | inr large ↦ rw large (
      omega (
        arith,
        number_from-append 0 (decimal_fuel f (n / 10)) (b'0' + n % 10),
        number_from-decimal_fuel f (n / 10) (ground arith),
      ))
]

-- Reading back a printed number gives the number.
pub number_from-decimal : (n : ℕ) → number_from 0 (decimal n) ≡ n
unfolding decimal
number_from-decimal n = number_from-decimal_fuel (suc n) n (omega arith)

is_number-decimal : (n : ℕ) → is_number (decimal n) ≡ true
unfolding decimal
is_number-decimal n = is_number-decimal_fuel n n

all_digits-decimal : (n : ℕ) → all_digits (decimal n) ≡ true
unfolding decimal
all_digits-decimal n = all_digits-decimal_fuel (suc n) n

octet-decimal : (v : ℕ) → v < 256 → octet (decimal v) ≡ some v
unfolding octet
octet-decimal v h = rw (is_number-decimal v, number_from-decimal v) (ground arith)

module _ (s : Text) where
  split-digits : (p : Text) → all_digits p ≡ true → split dot (p ++ dot ∷ s) ≡ p ∷ split dot s
  unfolding all_digits split
  split-digits [] h = refl
  split-digits (c ∷ p) h = ground (arith, split-digits p)

split-last : (p : Text) → all_digits p ≡ true → split dot p ≡ p ∷ []
unfolding all_digits split
split-last [] h = refl
split-last (c ∷ p) h = ground (arith, split-last p)

split-decimal : (v : ℕ) (s : Text) → split dot (decimal v ++ dot ∷ s) ≡ decimal v ∷ split dot s
split-decimal v s = split-digits s (decimal v) (all_digits-decimal v)

split_last-decimal : (v : ℕ) → split dot (decimal v) ≡ decimal v ∷ []
split_last-decimal v = split-last (decimal v) (all_digits-decimal v)

split-int_to_ip :
    (n : ℕ)
    → split dot (int_to_ip n)
      ≡ decimal (n / 2 ^ 24 % 256)
        ∷ decimal (n / 2 ^ 16 % 256)
        ∷ decimal (n / 2 ^ 8 % 256)
        ∷ decimal (n % 256)
        ∷ []
unfolding int_to_ip
split-int_to_ip n = rw (
  split-decimal (n / 2 ^ 24 % 256),
  split-decimal (n / 2 ^ 16 % 256),
  split-decimal (n / 2 ^ 8 % 256),
  split_last-decimal (n % 256),
)

-- Four bytes, read in order.
octets_from-four :
    (a b c d : ℕ)
    → a < 256
    → b < 256
    → c < 256
    → d < 256
    → octets_from 0 (decimal a ∷ decimal b ∷ decimal c ∷ decimal d ∷ [])
      ≡ some ((((0 * 256 + a) * 256 + b) * 256 + c) * 256 + d)
unfolding octets_from
octets_from-four a b c d ha hb hc hd =
    rw (octet-decimal a ha, octet-decimal b hb, octet-decimal c hc, octet-decimal d hd)

bytes_of_word :
    (n : ℕ)
    → n < 2 ^ 32
    → (((0 * 256 + n / 2 ^ 24 % 256) * 256 + n / 2 ^ 16 % 256) * 256 + n / 2 ^ 8 % 256) * 256
        + n % 256
      ≡ n
bytes_of_word n h = omega arith

-- The printed form of a 32-bit word parses back to that word.
pub ip_to_int-int_to_ip : (n : ℕ) → n < 2 ^ 32 → ip_to_int (int_to_ip n) ≡ some n
unfolding ip_to_int
ip_to_int-int_to_ip n h = rw (split-int_to_ip n) (
    octets_from-four _ _ _ _ (omega arith) (omega arith) (omega arith) (omega arith)
    ∙ ap some (bytes_of_word n h))

-- Distinct words print as distinct texts.
pub int_to_ip-injective : (n m : ℕ) → n < 2 ^ 32 → m < 2 ^ 32 → int_to_ip n ≡ int_to_ip m → n ≡ m
int_to_ip-injective n m hn hm e =
    cc (ip_to_int-int_to_ip n hn, ip_to_int-int_to_ip m hm, ap ip_to_int e)
