-- ===== src/Addr6/Prefix.antt =====
-- Words and prefixes of IPv6 addresses (src/core/addr6.ts).
use Prim.Native.Nat.{bit_and}
use native.Mathlib.Nat.{div-lt_iff_lt-mul, mod-eq_of_lt, mul-div_cancel}
use mathlib.Core.Path.{subst}
use mathlib.Core.Option.{some-injective}
use net_sim.Prelude.Bits.{bit_and-ones, bit_and_shifted, pow_pos}
use net_sim.Addr.Word.{holds_to, holds_to-le}
use net_sim.Prelude.{
  ℕ, zero, suc, ◌+◌, ◌-◌, ◌*◌, ◌/◌, ◌^◌, ◌≤◌, ◌<◌, ◌≡◌, ◌↔◌, refl, sym, ap, ◌∙◌, Bool, true, false,
  not, ◌&&◌, ◌||◌, Option, none, some, List, [], ◌∷◌, ◌++◌, Text, arith, ltb, ◌==◌, ==_iff,
  contains, nat_eq, if◌then◌else◌, length, any, All, All-++,
}
use net_sim.Addr.{Ip, hex_digit, to_lower_case}
use net_sim.Addr6.{
  trim, split_pairs, colon, is_foreign, mask6, mask6_word, same_subnet6, is_bad, values, hex_number,
  zeros, join_words, groups, parse_halves, parse_ip6,
}

digit-lt : (c : ℕ) → elim (hex_digit c) [ none ↦ 0 | some d ↦ d ] < 16
unfolding hex_digit
digit-lt c = ground arith

-- a group of at most four digits
hex_number-lt : (g : Text) → length g ≤ 4 → hex_number 0 g < 2 ^ 16
unfolding hex_number
hex_number-lt [] le = omega arith
hex_number-lt (a ∷ []) le = omega (arith, digit-lt a)
hex_number-lt (a ∷ b ∷ []) le = omega (arith, digit-lt a, digit-lt b)
hex_number-lt (a ∷ b ∷ c ∷ []) le = omega (arith, digit-lt a, digit-lt b, digit-lt c)
hex_number-lt (a ∷ b ∷ c ∷ d ∷ []) le =
    omega (arith, digit-lt a, digit-lt b, digit-lt c, digit-lt d)
hex_number-lt (a ∷ b ∷ c ∷ d ∷ e ∷ s) le = absurd (omega arith)

abbrev IsWord : ℕ → Type 0
IsWord w = w < 2 ^ 16

abbrev IsShort : ℕ → Type 0
IsShort n = n < 2 ^ 128

-- 2 ^ 16 for each of `n` words
scale : ℕ → ℕ
scale zero = 1
scale (suc n) = 2 ^ 16 * scale n

join_words-lt :
    (n : ℕ) (ws : List ℕ) → All IsWord ws → join_words n ws < (n + 1) * scale (length ws)
unfolding join_words scale
join_words-lt n [] all = omega arith
join_words-lt n (w ∷ ws) all = grind (arith, join_words-lt (n * 2 ^ 16 + w) ws all.1, all.0)

eight_words : (ws : List ℕ) → length ws ≡ 8 → All IsWord ws → join_words 0 ws < 2 ^ 128
unfolding scale
eight_words ws n all =
    let top : scale (length ws) ≡ 2 ^ 128 = ap scale n in omega (arith, join_words-lt 0 ws all, top)

length-values : (gs : List Text) → length (values gs) ≡ length gs
length-values [] = refl
length-values (g ∷ gs) = omega (arith, length-values gs)

length-zeros : (n : ℕ) → length (zeros n) ≡ n
unfolding zeros
length-zeros zero = refl
length-zeros (suc n) = omega (arith, length-zeros n)

length-++ {ℓ} : {A : Type ℓ} (xs ys : List A) → length (xs ++ ys) ≡ length xs + length ys
length-++ [] ys = omega arith
length-++ (x ∷ xs) ys = omega (arith, length-++ xs ys)

values-IsWord : (gs : List Text) → any is_bad gs ≡ false → All IsWord (values gs)
values-IsWord [] good = tt
values-IsWord (g ∷ gs) good =
    (hex_number-lt g (ground (arith, good)), values-IsWord gs (ground (arith, good)))

zeros-IsWord : (n : ℕ) → All IsWord (zeros n)
unfolding zeros
zeros-IsWord zero = tt
zeros-IsWord (suc n) = (omega arith, zeros-IsWord n)

any-++ :
    (gs hs : List Text)
    → any is_bad (gs ++ hs) ≡ false
    → (any is_bad gs ≡ false) × (any is_bad hs ≡ false)
any-++ [] hs good = (refl, good)
any-++ (g ∷ gs) hs good =
    let rest = any-++ gs hs (ground (arith, good)) in (ground (arith, good, rest.0), rest.1)

if-none : (b : Bool) (x n : ℕ) → (if b then none else some x) ≡ some n → (b ≡ false) × (x ≡ n)
if-none true x n e = absurd (cc (e))
if-none false x n e = (refl, some-injective x n e)

parse_halves-lt : (halves : List Text) (n : ℕ) → parse_halves halves ≡ some n → n < 2 ^ 128
unfolding parse_halves
parse_halves-lt [] n e = absurd (cc (e))
parse_halves-lt (a ∷ []) n e =
    let (ok, same) =
      if-none (any is_bad (groups a) || not (length (groups a) == 8))
        (join_words 0 (values (groups a))) n e in
    subst IsShort same (
      eight_words (values (groups a)) (ground (arith, ok, length-values (groups a)))
        (values-IsWord (groups a) (ground (arith, ok))))
parse_halves-lt (a ∷ b ∷ []) n e =
    let all = groups a ++ groups b in
    let words = values (groups a) ++ (zeros (8 - length all) ++ values (groups b)) in
    let (ok, same) = if-none (any is_bad all || ltb 7 (length all)) (join_words 0 words) n e in
    let (good_a, good_b) = any-++ (groups a) (groups b) (ground (arith, ok)) in
    let short : length all ≤ 7 = ground (arith, ok) in
    subst IsShort same (
      eight_words words
        (omega (
          arith,
          short,
          length-++ (groups a) (groups b),
          length-++ (values (groups a)) (zeros (8 - length all) ++ values (groups b)),
          length-++ (zeros (8 - length all)) (values (groups b)),
          length-values (groups a),
          length-values (groups b),
          length-zeros (8 - length all),
        ))
        (All-++ IsWord _ _ (values-IsWord (groups a) good_a)
          (All-++ IsWord _ _ (zeros-IsWord (8 - length all)) (values-IsWord (groups b) good_b))))
parse_halves-lt (a ∷ b ∷ c ∷ rest) n e = absurd (cc (e))

if-pass : (b : Bool) (o : Option ℕ) (n : ℕ) → (if b then none else o) ≡ some n → o ≡ some n
if-pass true o n e = absurd (cc (e))
if-pass false o n e = e

-- A text that parses as an IPv6 address denotes a 128-bit word.
pub parse_ip6-lt : (s : Text) (n : ℕ) → parse_ip6 s ≡ some n → n < 2 ^ 128
unfolding parse_ip6
parse_ip6-lt s n e =
    let t = to_lower_case (trim s) in
    parse_halves-lt (split_pairs false t) n (
      if-pass (not (contains t colon) || any is_foreign t) (parse_halves (split_pairs false t)) n e)

good_prefix : ℕ → Bool
unfolding mask6_word
good_prefix p = (mask6_word p == (2 ^ p - 1) * 2 ^ (128 - p)) && (2 ^ p * 2 ^ (128 - p) == 2 ^ 128)

prefix_table : holds_to good_prefix 128 ≡ true
unfolding holds_to mask6_word good_prefix
prefix_table = refl

module _ (p : ℕ) (h : p ≤ 128) where
  mask6_word-shape :
      (mask6_word p ≡ (2 ^ p - 1) * 2 ^ (128 - p)) × (2 ^ p * 2 ^ (128 - p) ≡ 2 ^ 128)
  unfolding mask6_word good_prefix
  mask6_word-shape =
      let t : good_prefix p ≡ true = holds_to-le good_prefix p 128 h prefix_table in ground arith

  -- Masking a word rounds it down to a multiple of the block.
  bit_and-mask6_word :
      (n : ℕ) → n < 2 ^ 128 → bit_and n (mask6_word p) ≡ n / 2 ^ (128 - p) * 2 ^ (128 - p)
  bit_and-mask6_word n k =
      ap (bit_and n) mask6_word-shape.0
      ∙ bit_and_shifted (128 - p) n (2 ^ p - 1)
      ∙ ap (λ (t : ℕ). t * 2 ^ (128 - p))
          (bit_and-ones p (n / 2 ^ (128 - p))
            ∙ mod-eq_of_lt
                ((div-lt_iff_lt-mul (pow_pos (128 - p))).1 (omega (arith, mask6_word-shape.1))))

  mask6-le : mask6 p ≡ some (mask6_word p)
  unfolding mask6
  mask6-le = ground (arith, h)

  same_subnet6-parsed :
      (a b : Ip) (x y : ℕ)
      → parse_ip6 a ≡ some x
      → parse_ip6 b ≡ some y
      → same_subnet6 a b p ≡ (bit_and x (mask6_word p) == bit_and y (mask6_word p))
  unfolding same_subnet6
  same_subnet6-parsed a b x y ea eb = rw (ea, same_subnet6) (rw eb (rw mask6-le refl))

  -- For a prefix of at most 128 and two addresses that parse, they are in one subnet exactly when
  -- their words have the same quotient by the size of the block.
  pub same_subnet6_iff :
      (a b : Ip) (x y : ℕ)
      → parse_ip6 a ≡ some x
      → parse_ip6 b ≡ some y
      → (same_subnet6 a b p ≡ true) ↔ (x / 2 ^ (128 - p) ≡ y / 2 ^ (128 - p))
  same_subnet6_iff a b x y ea eb = rw (same_subnet6-parsed a b x y ea eb) (to, from)
    where
      mx : bit_and x (mask6_word p) ≡ x / 2 ^ (128 - p) * 2 ^ (128 - p)
      mx = bit_and-mask6_word x (parse_ip6-lt a x ea)

      my : bit_and y (mask6_word p) ≡ y / 2 ^ (128 - p) * 2 ^ (128 - p)
      my = bit_and-mask6_word y (parse_ip6-lt b y eb)

      to :
          (bit_and x (mask6_word p) == bit_and y (mask6_word p)) ≡ true
          → x / 2 ^ (128 - p) ≡ y / 2 ^ (128 - p)
      to e =
          sym (mul-div_cancel (x / 2 ^ (128 - p)) (pow_pos (128 - p)))
          ∙ ap (λ (t : ℕ). t / 2 ^ (128 - p)) (sym mx ∙ (==_iff _ _).0 e ∙ my)
          ∙ mul-div_cancel (y / 2 ^ (128 - p)) (pow_pos (128 - p))

      from :
          x / 2 ^ (128 - p) ≡ y / 2 ^ (128 - p)
          → (bit_and x (mask6_word p) == bit_and y (mask6_word p)) ≡ true
      from e = (==_iff _ _).1 (mx ∙ ap (λ (t : ℕ). t * 2 ^ (128 - p)) e ∙ sym my)
