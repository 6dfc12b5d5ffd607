-- ===== src/Addr/Subnet.antt =====
-- Subnets, in terms of the words behind the addresses.
use native.Mathlib.Nat.{mul-div_cancel, div-mul-le_self}
use net_sim.Prelude.{
  ℕ, ◌+◌, ◌-◌, ◌*◌, ◌/◌, ◌^◌, ◌≤◌, ◌<◌, ◌≡◌, ◌↔◌, sym, ap, ◌∙◌, true, some, Option-cases, is_some,
  inl, inr, text_eq, text_eq_iff, arith,
}
use net_sim.Prelude.Bits.{pow_pos}
use net_sim.Addr.{
  Ip, ip_to_int, int_to_ip, mask_word, prefix_to_mask, network_of, broadcast_of, same_subnet,
}
use net_sim.Addr.Decimal.{ip_to_int-int_to_ip, int_to_ip-injective}
use net_sim.Addr.Word.{block, ip_to_int-lt, bit_and-mask_word, bit_or-mask_word, block_end-lt}

prefix_to_mask-le : (p : ℕ) → p ≤ 32 → prefix_to_mask p ≡ some (mask_word p)
unfolding prefix_to_mask
prefix_to_mask-le p h = ground arith

block_iff : (k x y : ℕ) → 0 < k → (x / k ≡ y / k) ↔ ((x / k * k ≤ y) × (y ≤ x / k * k + (k - 1)))
block_iff k x y h = grind arith

iff_trans {ℓ} : {A B C : Type ℓ} → A ↔ B → B ↔ C → A ↔ C
iff_trans f g = (λ a. g.0 (f.0 a), λ c. f.1 (g.1 c))

-- The first word of the block that holds `n`.
abbrev pub first : ℕ → ℕ → ℕ
first n p = n / block p * block p

module _ (p : ℕ) (h : p ≤ 32) where
  first-le : (n : ℕ) → first n p ≤ n
  first-le n = div-mul-le_self n (block p)

  -- The network of an address is the first address of its block.
  pub network_of-first :
      (ip : Ip) (n : ℕ) → ip_to_int ip ≡ some n → network_of ip p ≡ some (int_to_ip (first n p))
  unfolding network_of
  network_of-first ip n e =
      rw (e, prefix_to_mask-le p h, bit_and-mask_word p h n (ip_to_int-lt ip n e))

  -- The broadcast address is the last address of the block.
  pub broadcast_of-last :
      (ip : Ip) (n : ℕ)
      → ip_to_int ip ≡ some n
      → broadcast_of ip p ≡ some (int_to_ip (first n p + (block p - 1)))
  unfolding broadcast_of
  broadcast_of-last ip n e = rw (e, prefix_to_mask-le p h, bit_or-mask_word p h n)

  first-first : (n : ℕ) → first (first n p) p ≡ first n p
  first-first n = ap (λ (t : ℕ). t * block p) (mul-div_cancel (n / block p) (pow_pos (32 - p)))

  first-lt : (n : ℕ) → n < 2 ^ 32 → first n p < 2 ^ 32
  first-lt n k = omega (arith, first-le n)

  same_first : (x y : ℕ) → first x p ≡ first y p → x / block p ≡ y / block p
  same_first x y e =
      sym (mul-div_cancel (x / block p) (pow_pos (32 - p)))
      ∙ ap (λ (t : ℕ). t / block p) e
      ∙ mul-div_cancel (y / block p) (pow_pos (32 - p))

  -- Two addresses are in one subnet exactly when their words lie in one block.
  pub same_subnet_iff :
      (a b : Ip) (x y : ℕ)
      → ip_to_int a ≡ some x
      → ip_to_int b ≡ some y
      → (same_subnet a b p ≡ some true) ↔ (x / block p ≡ y / block p)
  unfolding same_subnet
  same_subnet_iff a b x y ea eb = rw (network_of-first a x ea, network_of-first b y eb) (to, from)
    where
      hx : first x p < 2 ^ 32
      hx = first-lt x (ip_to_int-lt a x ea)

      hy : first y p < 2 ^ 32
      hy = first-lt y (ip_to_int-lt b y eb)

      to :
          some (text_eq (int_to_ip (first x p)) (int_to_ip (first y p))) ≡ some true
          → x / block p ≡ y / block p
      to e = same_first x y (int_to_ip-injective _ _ hx hy ((text_eq_iff _ _).0 (cc)))

      from :
          x / block p ≡ y / block p
          → some (text_eq (int_to_ip (first x p)) (int_to_ip (first y p))) ≡ some true
      from e = ap some ((text_eq_iff _ _).1 (ap (λ (t : ℕ). int_to_ip (t * block p)) e))

  network_of-parses : (ip net : Ip) → network_of ip p ≡ some net → is_some (ip_to_int ip) ≡ true
  unfolding network_of
  network_of-parses ip net e = ground arith

  -- For a prefix of at most 32, the network of a network is that network.
  pub network_of_idempotent :
      (ip net : Ip) → network_of ip p ≡ some net → network_of net p ≡ some net
  network_of_idempotent ip net e = elim (Option-cases (ip_to_int ip)) [
    | inl missing ↦ absurd (cc (missing, network_of-parses ip net e))
    | inr (n, parsed) ↦ fixed n parsed (cc (network_of-first ip n parsed))
  ]
    where
      fixed :
          (n : ℕ)
          → ip_to_int ip ≡ some n
          → int_to_ip (first n p) ≡ net
          → network_of net p ≡ some net
      fixed n parsed same =
          network_of-first net (first n p)
            (rw (← same) (ip_to_int-int_to_ip _ (first-lt n (ip_to_int-lt ip n parsed))))
          ∙ ap (λ (t : ℕ). some (int_to_ip t)) (first-first n)
          ∙ ap some same

  same_block_iff :
      (x y : ℕ) → (x / block p ≡ y / block p) ↔ ((first x p ≤ y) × (y ≤ first x p + (block p - 1)))
  same_block_iff x y = block_iff (block p) x y (pow_pos (32 - p))

  -- For a prefix `p` of at most 32 and two addresses that parse, the network and broadcast
  -- addresses of the first are words `l` and `u` that bound a block of 2 ^ (32 - p) words, and the
  -- second is in the same subnet exactly when its word is in between.
  pub subnet_range :
      (a b : Ip) (x y : ℕ)
      → ip_to_int a ≡ some x
      → ip_to_int b ≡ some y
      → (lo : Ip) × (hi : Ip) × (l : ℕ) × (u : ℕ) × (network_of a p ≡ some lo)
        × (broadcast_of a p ≡ some hi)
        × (ip_to_int lo ≡ some l)
        × (ip_to_int hi ≡ some u)
        × (u + 1 ≡ l + block p)
        × ((same_subnet a b p ≡ some true) ↔ ((l ≤ y) × (y ≤ u)))
  subnet_range a b x y ea eb = (
    int_to_ip (first x p),
    int_to_ip (first x p + (block p - 1)),
    first x p,
    first x p + (block p - 1),
    network_of-first a x ea,
    broadcast_of-last a x ea,
    ip_to_int-int_to_ip _ (first-lt x (ip_to_int-lt a x ea)),
    ip_to_int-int_to_ip _ (block_end-lt p h x (ip_to_int-lt a x ea)),
    omega (arith, pow_pos (32 - p)),
    iff_trans (same_subnet_iff a b x y ea eb) (same_block_iff x y),
  )
