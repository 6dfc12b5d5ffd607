-- ===== src/Addr6.antt =====
-- src/core/addr6.ts: IPv6 addresses as text, and their 128-bit words as numbers below 2 ^ 128, with
-- the shifts and masks of the source written out. `none` is `undefined`, or a thrown error.
pub mod Prefix
mod Tests
use Prim.Native.Nat.{bit_and, bit_or}
use net_sim.Prelude.{
  nat_eq, ℕ, zero, suc, ◌+◌, ◌-◌, ◌*◌, ◌/◌, ◌%◌, ◌^◌, Bool, true, false, not, ◌&&◌, ◌||◌, Option,
  none, some, List, [], ◌∷◌, ◌++◌, map, Text, codes, ltb, leb, ◌==◌, if◌then◌else◌, length, any,
  contains, is_some,
}
use net_sim.Addr.{Ip, split, to_lower_case, hex_digit, ◌>>=◌}

abbrev pub colon : ℕ
colon = b':'

-- what `trim` takes away
abbrev pub is_space : ℕ → Bool
is_space c =
    (leb 9 c && leb c 13)
    || c == 32
    || c == 160
    || c == 0x1680
    || (leb 0x2000 c && leb c 0x200a)
    || c == 0x2028
    || c == 0x2029
    || c == 0x202f
    || c == 0x205f
    || c == 0x3000
    || c == 0xfeff

unfoldable pub trim_start : Text → Text
trim_start [] = []
trim_start (c ∷ s) = let rest = trim_start s in if is_space c then rest else c ∷ s

-- without the blanks at the end
unfoldable pub trim_end : Text → Text
trim_end [] = []
trim_end (c ∷ s) = elim (trim_end s) [ [] ↦ if is_space c then [] else c ∷ [] | d ∷ t ↦ c ∷ d ∷ t ]

abbrev pub trim : Text → Text
trim s = trim_end (trim_start s)

-- `split("::")`: `skip` is whether the next character is the second of a pair
abbrev cons_head : ℕ → List Text → List Text
cons_head c [] = (c ∷ []) ∷ []
cons_head c (p ∷ ps) = (c ∷ p) ∷ ps

abbrev starts_colon : Text → Bool
starts_colon [] = false
starts_colon (d ∷ s) = d == colon

unfoldable pub split_pairs : Bool → Text → List Text
split_pairs skip [] = [] ∷ []
split_pairs true (c ∷ s) = split_pairs false s
split_pairs false (c ∷ s) =
    let after = split_pairs true s in
    let same = split_pairs false s in
    if c == colon && starts_colon s then [] ∷ after else cons_head c same

-- the groups of one half
abbrev pub groups : Text → List Text
groups [] = []
groups (c ∷ s) = split colon (c ∷ s)

-- `parseInt(w, 16)` of a group, whose characters are digits
unfoldable pub hex_number : ℕ → Text → ℕ
hex_number n [] = n
hex_number n (c ∷ s) = hex_number (n * 16 + elim (hex_digit c) [ none ↦ 0 | some d ↦ d ]) s

abbrev pub is_foreign : ℕ → Bool
is_foreign c = not (is_some (hex_digit c)) && not (c == colon)

abbrev pub is_bad : Text → Bool
is_bad g = length g == 0 || ltb 4 (length g)

unfoldable pub zeros : ℕ → List ℕ
zeros zero = []
zeros (suc n) = 0 ∷ zeros n

unfoldable pub join_words : ℕ → List ℕ → ℕ
join_words n [] = n
join_words n (w ∷ ws) = join_words (n * 2 ^ 16 + w) ws

abbrev pub values : List Text → List ℕ
values gs = map (hex_number 0) gs

-- the halves beside "::", or the whole address
unfoldable pub parse_halves : List Text → Option ℕ
parse_halves [] = none
parse_halves (a ∷ []) =
    if any is_bad (groups a) || not (length (groups a) == 8)
    then none
    else some (join_words 0 (values (groups a)))
parse_halves (a ∷ b ∷ []) =
    let all = groups a ++ groups b in
    if any is_bad all || ltb 7 (length all)
    then none
    else some (join_words 0 (values (groups a) ++ (zeros (8 - length all) ++ values (groups b))))
parse_halves (a ∷ b ∷ c ∷ rest) = none

unfoldable pub parse_ip6 : Text → Option ℕ
parse_ip6 s =
    let t = to_lower_case (trim s) in
    if not (contains t colon) || any is_foreign t then none else parse_halves (split_pairs false t)

-- `toString(16)`, with one round for each digit at most
unfoldable pub hex_fuel : ℕ → ℕ → Text
hex_fuel zero n = []
hex_fuel (suc f) n =
    let front = hex_fuel f (n / 16) in
    let d = n % 16 in
    let last = (if ltb d 10 then b'0' + d else b'a' + (d - 10)) ∷ [] in
    if ltb n 16 then last else front ++ last

unfoldable pub hex : ℕ → Text
hex n = hex_fuel (suc n) n

-- the eight words of an address, the highest first
unfoldable pub words_of : ℕ → ℕ → List ℕ
words_of zero n = []
words_of (suc i) n = n / 2 ^ (i * 16) % 2 ^ 16 ∷ words_of i n

unfoldable pub leading_zeros : List ℕ → ℕ
leading_zeros [] = 0
leading_zeros (w ∷ ws) = let rest = leading_zeros ws in if w == 0 then suc rest else 0

-- `bestStart` and `bestLen`; `run` is how many words of the present run are still to come
unfoldable pub best_run : List ℕ → ℕ → ℕ → ℕ × ℕ → ℕ × ℕ
best_run [] i run best = best
best_run (w ∷ ws) i (suc run) best = best_run ws (suc i) run best
best_run (w ∷ ws) i zero best =
    let n = leading_zeros (w ∷ ws) in
    best_run ws (suc i) (n - 1) (if ltb best.1 n then (i, n) else best)

unfoldable pub join : List ℕ → Text
join [] = []
join (w ∷ ws) = elim ws [ [] ↦ hex w | v ∷ vs ↦ hex w ++ (colon ∷ join ws) ]

abbrev take : ℕ → List ℕ → List ℕ
take zero ws = []
take (suc n) [] = []
take (suc n) (w ∷ ws) = w ∷ take n ws

abbrev drop : ℕ → List ℕ → List ℕ
drop zero ws = ws
drop (suc n) [] = []
drop (suc n) (w ∷ ws) = drop n ws

unfoldable pub format_words : List ℕ → Text
format_words ws =
    let (start, len) = best_run ws 0 0 (0, 0) in
    if ltb len 2
    then join ws
    else join (take start ws) ++ (colon ∷ colon ∷ join (drop (start + len) ws))

unfoldable pub format_ip6 : ℕ → Ip
format_ip6 n = format_words (words_of 8 n)

unfoldable pub canon_ip6 : Text → Option Ip
canon_ip6 s = do n ← parse_ip6 s; some (format_ip6 n)

unfoldable pub is_ipv6 : Text → Bool
is_ipv6 s = is_some (parse_ip6 s)

-- the mask that `mask` returns for a prefix in range
unfoldable pub mask6_word : ℕ → ℕ
mask6_word prefix = if prefix == 0 then 0 else (2 ^ 128 - 1) * 2 ^ (128 - prefix) % 2 ^ 128

unfoldable pub mask6 : ℕ → Option ℕ
mask6 prefix = if ltb 128 prefix then none else some (mask6_word prefix)

unfoldable pub network6 : Ip → ℕ → Option Ip
network6 ip prefix = do n ← parse_ip6 ip; m ← mask6 prefix; some (format_ip6 (bit_and n m))

unfoldable pub same_subnet6 : Ip → Ip → ℕ → Bool
same_subnet6 a b prefix = elim (parse_ip6 a) [
  | none ↦ false
  | some x ↦ elim (parse_ip6 b) [
    | none ↦ false
    | some y ↦ elim (mask6 prefix) [ none ↦ false | some m ↦ bit_and x m == bit_and y m ]
  ]
]

unfoldable pub solicited_node : Ip → Option Ip
solicited_node ip = do
  n ← parse_ip6 ip
  some (format_ip6 (bit_or (0xff02 * 2 ^ 112) (bit_or 0x1_ff00_0000 (n % 2 ^ 24))))

unfoldable pub is_link_local6 : Ip → Bool
is_link_local6 ip = elim (parse_ip6 ip) [ none ↦ false | some n ↦ n / 2 ^ 118 == 0x3fa ]

unfoldable pub is_ula6 : Ip → Bool
is_ula6 ip = elim (parse_ip6 ip) [ none ↦ false | some n ↦ n / 2 ^ 121 == 0x7e ]

unfoldable pub is_global6 : Ip → Bool
is_global6 ip = elim (parse_ip6 ip) [ none ↦ false | some n ↦ n / 2 ^ 125 == 1 ]

unfoldable pub is_multicast6 : Ip → Bool
is_multicast6 [] = false
is_multicast6 (c ∷ s) = c == b'f' && elim s [ [] ↦ false | d ∷ t ↦ d == b'f' ]
