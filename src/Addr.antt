-- ===== src/Addr.antt =====
-- src/core/addr.ts: IPv4 addresses as text, and subnets.
-- An address is the text that the program holds. A 32-bit word is a number below 2 ^ 32, with the
-- shifts and masks of the source written out; `>>>` and `& 255` are `/` and `%` by a power of two.
-- `none` is a thrown error.
pub mod Decimal
pub mod Word
pub mod Total
pub mod Subnet
pub mod Private
mod Tests
use Prim.Native.Nat.{bit_and, bit_or}
use net_sim.Prelude.{
  ℕ, zero, suc, ◌+◌, ◌-◌, ◌*◌, ◌/◌, ◌%◌, ◌^◌, Bool, true, false, not, ◌&&◌, ◌||◌, Option, none,
  some, List, [], ◌∷◌, ◌++◌, Text, codes, text_eq, ltb, leb, ◌==◌, if◌then◌else◌, length,
}

infixl 5 ◌>>=◌
abbrev pub ◌>>=◌ {ℓ κ} : {A : Type ℓ} {B : Type κ} → Option A → (A → Option B) → Option B
none >>= f = none
some a >>= f = f a

abbrev pub Ip : Type 0
Ip = Text

abbrev pub dot : ℕ
dot = b'.'

-- `split(sep)` for a separator of one character.
abbrev cons_head : ℕ → List Text → List Text
cons_head c [] = (c ∷ []) ∷ []
cons_head c (p ∷ ps) = (c ∷ p) ∷ ps

unfoldable pub split : ℕ → Text → List Text
split sep [] = [] ∷ []
split sep (c ∷ s) = let r = split sep s in if c == sep then [] ∷ r else cons_head c r

-- `/^\d+$/` and the value of such a text.
abbrev is_digit : ℕ → Bool
is_digit c = leb b'0' c && leb c b'9'

unfoldable pub all_digits : Text → Bool
all_digits [] = true
all_digits (c ∷ s) = is_digit c && all_digits s

unfoldable pub number_from : ℕ → Text → ℕ
number_from n [] = n
number_from n (c ∷ s) = number_from (n * 10 + (c - b'0')) s

unfoldable pub is_number : Text → Bool
is_number [] = false
is_number (c ∷ s) = all_digits (c ∷ s)

unfoldable pub octet : Text → Option ℕ
octet p =
    if is_number p
    then (if ltb 255 (number_from 0 p) then none else some (number_from 0 p))
    else none

-- the loop of `ipToInt`
unfoldable pub octets_from : ℕ → List Text → Option ℕ
octets_from n [] = some n
octets_from n (p ∷ ps) = do v ← octet p; octets_from (n * 256 + v) ps

unfoldable pub ip_to_int : Ip → Option ℕ
ip_to_int ip = let parts = split dot ip in if length parts == 4 then octets_from 0 parts else none

-- A number as JavaScript prints it: `decimal_fuel` has the rounds left, one for each digit.
unfoldable pub decimal_fuel : ℕ → ℕ → Text
decimal_fuel zero n = []
decimal_fuel (suc f) n =
    let front = decimal_fuel f (n / 10) in
    if ltb n 10 then (b'0' + n) ∷ [] else front ++ (b'0' + n % 10) ∷ []

unfoldable pub decimal : ℕ → Text
decimal n = decimal_fuel (suc n) n

unfoldable pub int_to_ip : ℕ → Ip
int_to_ip n =
    decimal (n / 2 ^ 24 % 256)
    ++ (dot ∷ decimal (n / 2 ^ 16 % 256)
        ++ (dot ∷ decimal (n / 2 ^ 8 % 256) ++ (dot ∷ decimal (n % 256))))

-- the mask that `prefixToMask` returns for a prefix in range
unfoldable pub mask_word : ℕ → ℕ
mask_word prefix = if prefix == 0 then 0 else 0xffff_ffff * 2 ^ (32 - prefix) % 2 ^ 32

unfoldable pub prefix_to_mask : ℕ → Option ℕ
prefix_to_mask prefix = if ltb 32 prefix then none else some (mask_word prefix)

unfoldable pub network_of : Ip → ℕ → Option Ip
network_of ip prefix = do
  n ← ip_to_int ip
  m ← prefix_to_mask prefix
  some (int_to_ip (bit_and n m))

unfoldable pub broadcast_of : Ip → ℕ → Option Ip
broadcast_of ip prefix = do
  m ← prefix_to_mask prefix
  n ← ip_to_int ip
  some (int_to_ip (bit_or n (2 ^ 32 - 1 - m)))

unfoldable pub same_subnet : Ip → Ip → ℕ → Option Bool
same_subnet a b prefix = do x ← network_of a prefix; y ← network_of b prefix; some (text_eq x y)

-- the test of `isPrivateIp` on the word of the address
unfoldable pub is_private_word : ℕ → Bool
is_private_word n =
    let a = n / 2 ^ 24 in
    let b = n / 2 ^ 16 % 256 in
    a == 10
    || (a == 172 && leb 16 b && leb b 31)
    || (a == 192 && b == 168)
    || (a == 169 && b == 254)
    || a == 127
    || (a == 100 && leb 64 b && leb b 127)

unfoldable pub is_private_ip : Ip → Option Bool
is_private_ip ip = do n ← ip_to_int ip; some (is_private_word n)

abbrev pub Mac : Type 0
Mac = Text

abbrev pub broadcast_mac : Mac
broadcast_mac = codes "ff:ff:ff:ff:ff:ff"

-- `toLowerCase` on the letters of a MAC
abbrev pub lower_case : ℕ → ℕ
lower_case c = if leb b'A' c && leb c b'Z' then c + 32 else c

unfoldable pub to_lower_case : Text → Text
to_lower_case [] = []
to_lower_case (c ∷ s) = lower_case c ∷ to_lower_case s

unfoldable pub is_broadcast_mac : Mac → Bool
is_broadcast_mac mac = text_eq (to_lower_case mac) broadcast_mac

-- the value of a hexadecimal digit
unfoldable pub hex_digit : ℕ → Option ℕ
hex_digit c =
    if leb b'0' c && leb c b'9'
    then some (c - b'0')
    else if leb b'a' (lower_case c) && leb (lower_case c) b'f'
    then some (lower_case c - b'a' + 10)
    else none

-- the lowest bit of `parseInt(mac.slice(0, 2), 16)`: that of the last of its digits, at most two;
-- 0 where there is none (`NaN & 1`)
unfoldable pub group_bit : Mac → ℕ
group_bit [] = 0
group_bit (a ∷ s) = elim (hex_digit a) [
  | none ↦ 0
  | some x ↦ elim s [ [] ↦ x % 2 | b ∷ t ↦ elim (hex_digit b) [ none ↦ x % 2 | some y ↦ y % 2 ] ]
]

unfoldable pub is_multicast_mac : Mac → Bool
is_multicast_mac mac = not (is_broadcast_mac mac) && group_bit mac == 1
