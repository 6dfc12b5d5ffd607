-- ===== src/Addr/Word.antt =====
-- The words behind addresses, and the masks of prefixes.
use Prim.Native.Nat.{bit_and, bit_or}
use native.Mathlib.Nat.{div-lt_iff_lt-mul, mod-eq_of_lt}
use net_sim.Prelude.{
  ℕ, zero, suc, ◌+◌, ◌-◌, ◌*◌, ◌/◌, ◌^◌, ◌≤◌, ◌<◌, ◌≡◌, refl, ap, ◌∙◌, Bool, true, ◌&&◌, none, some,
  List, [], ◌∷◌, Text, arith, ◌==◌, if◌then◌else◌, length,
}
use net_sim.Prelude.Bits.{bit_and-ones, bit_or-ones, bit_and_shifted, pow_pos}
use net_sim.Addr.{octet, octets_from, ip_to_int, mask_word, Ip, split, dot}

four_octets :
    (parts : List Text) (n : ℕ)
    → (if length parts == 4 then octets_from 0 parts else none) ≡ some n
    → n < 2 ^ 32
unfolding octets_from octet
four_octets [] n h = cc
four_octets (a ∷ []) n h = cc
four_octets (a ∷ b ∷ []) n h = cc
four_octets (a ∷ b ∷ c ∷ []) n h = cc
four_octets (a ∷ b ∷ c ∷ d ∷ []) n h = ground arith
four_octets (a ∷ b ∷ c ∷ d ∷ e ∷ ps) n h = ground arith

-- A text that parses as an address denotes a 32-bit word.
pub ip_to_int-lt : (ip : Ip) (n : ℕ) → ip_to_int ip ≡ some n → n < 2 ^ 32
unfolding ip_to_int
ip_to_int-lt ip n h = four_octets (split dot ip) n h

-- Every prefix, checked by evaluation.
unfoldable pub holds_to : (ℕ → Bool) → ℕ → Bool
holds_to test zero = test zero
holds_to test (suc last) = holds_to test last && test (suc last)

pub holds_to-le :
    (test : ℕ → Bool) (x last : ℕ) → x ≤ last → holds_to test last ≡ true → test x ≡ true
unfolding holds_to
holds_to-le test x zero le all = ground arith
holds_to-le test x (suc last) le all = ground (arith, holds_to-le test x last)

abbrev good_prefix : ℕ → Bool
unfolding mask_word
good_prefix p =
    (mask_word p == (2 ^ p - 1) * 2 ^ (32 - p))
    && (2 ^ p * 2 ^ (32 - p) == 2 ^ 32)
    && (2 ^ 32 - 1 - mask_word p == 2 ^ (32 - p) - 1)

prefix_table : holds_to good_prefix 32 ≡ true
unfolding holds_to mask_word
prefix_table = refl

-- The number of addresses under a prefix.
abbrev pub block : ℕ → ℕ
block p = 2 ^ (32 - p)

module _ (p : ℕ) (h : p ≤ 32) where
  mask_word-shape :
      (mask_word p ≡ (2 ^ p - 1) * block p)
      × (2 ^ p * block p ≡ 2 ^ 32)
      × (2 ^ 32 - 1 - mask_word p ≡ block p - 1)
  unfolding mask_word
  mask_word-shape =
      let t : good_prefix p ≡ true = holds_to-le good_prefix p 32 h prefix_table in ground arith

  blocks-lt : (n : ℕ) → n < 2 ^ 32 → n / block p < 2 ^ p
  blocks-lt n k = (div-lt_iff_lt-mul (pow_pos (32 - p))).1 (omega (arith, mask_word-shape.1))

  -- A block lies within the 32-bit words.
  pub block_end-lt : (n : ℕ) → n < 2 ^ 32 → n / block p * block p + (block p - 1) < 2 ^ 32
  block_end-lt n k = grind (arith, blocks-lt n k, mask_word-shape.1, pow_pos (32 - p))

  -- Masking a word rounds it down to a multiple of the block.
  pub bit_and-mask_word : (n : ℕ) → n < 2 ^ 32 → bit_and n (mask_word p) ≡ n / block p * block p
  bit_and-mask_word n k =
      ap (bit_and n) mask_word-shape.0
      ∙ bit_and_shifted (32 - p) n (2 ^ p - 1)
      ∙ ap (λ (t : ℕ). t * block p) (bit_and-ones p (n / block p) ∙ mod-eq_of_lt (blocks-lt n k))

  -- Filling the host part rounds it up to the end of the block.
  pub bit_or-mask_word :
      (n : ℕ) → bit_or n (2 ^ 32 - 1 - mask_word p) ≡ n / block p * block p + (block p - 1)
  bit_or-mask_word n = ap (bit_or n) mask_word-shape.2 ∙ bit_or-ones (32 - p) n
