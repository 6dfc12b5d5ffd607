-- ===== src/Addr/Private.antt =====
-- The addresses that are not routed on the internet, as a list of subnets.
use net_sim.Prelude.{ℕ, ◌/◌, ◌^◌, ◌≡◌, ◌↔◌, refl, ◌⊎◌, true, some, List, [], ◌∷◌, codes, arith}
use net_sim.Addr.{
  Ip, split, all_digits, number_from, is_number, octet, octets_from, ip_to_int, same_subnet,
  is_private_word, is_private_ip,
}
use net_sim.Addr.Subnet.{same_subnet_iff}

abbrev InBlock : ℕ → Type 0
InBlock n =
    (n / 2 ^ 24 ≡ 10)
    ⊎ (n / 2 ^ 20 ≡ 2753)
    ⊎ (n / 2 ^ 16 ≡ 49320)
    ⊎ (n / 2 ^ 16 ≡ 43518)
    ⊎ (n / 2 ^ 24 ≡ 127)
    ⊎ (n / 2 ^ 22 ≡ 401)

block-is_private_word : (n : ℕ) → InBlock n → is_private_word n ≡ true
unfolding is_private_word
block-is_private_word n h = ground arith

is_private_word-block : (n : ℕ) → is_private_word n ≡ true → InBlock n
unfolding is_private_word
is_private_word-block n h = ground arith

-- The subnets of RFC 1918, link-local, loopback and RFC 6598, as "address/prefix".
abbrev pub cidrs : List (Ip × ℕ)
cidrs =
    (codes "10.0.0.0", 8)
    ∷ (codes "172.16.0.0", 12)
    ∷ (codes "192.168.0.0", 16)
    ∷ (codes "169.254.0.0", 16)
    ∷ (codes "127.0.0.0", 8)
    ∷ (codes "100.64.0.0", 10)
    ∷ []

abbrev pub Within : Ip → List (Ip × ℕ) → Type 0
Within ip [] = ⊥
Within ip ((base, p) ∷ rest) = (same_subnet ip base p ≡ some true) ⊎ Within ip rest

base_words :
    (ip_to_int (codes "10.0.0.0") ≡ some 167772160)
    × (ip_to_int (codes "172.16.0.0") ≡ some 2886729728)
    × (ip_to_int (codes "192.168.0.0") ≡ some 3232235520)
    × (ip_to_int (codes "169.254.0.0") ≡ some 2851995648)
    × (ip_to_int (codes "127.0.0.0") ≡ some 2130706432)
    × (ip_to_int (codes "100.64.0.0") ≡ some 1681915904)
unfolding ip_to_int octets_from octet is_number all_digits number_from split
base_words = (refl, refl, refl, refl, refl, refl)

-- An address that parses is private exactly when it lies in one of the six subnets.
pub is_private_ip_iff :
    (ip : Ip) (n : ℕ) → ip_to_int ip ≡ some n → (is_private_ip ip ≡ some true) ↔ Within ip cidrs
unfolding is_private_ip
is_private_ip_iff ip n e =
    let a = same_subnet_iff 8 (omega arith) ip (codes "10.0.0.0") n 167772160 e base_words.0 in
    let b = same_subnet_iff 12 (omega arith) ip (codes "172.16.0.0") n 2886729728 e base_words.1 in
    let c = same_subnet_iff 16 (omega arith) ip (codes "192.168.0.0") n 3232235520 e base_words.2 in
    let d = same_subnet_iff 16 (omega arith) ip (codes "169.254.0.0") n 2851995648 e base_words.3 in
    let f = same_subnet_iff 8 (omega arith) ip (codes "127.0.0.0") n 2130706432 e base_words.4 in
    let g = same_subnet_iff 10 (omega arith) ip (codes "100.64.0.0") n 1681915904 e base_words.5 in
    rw e (ground (arith, a, b, c, d, f, g, block-is_private_word n, is_private_word-block n))
