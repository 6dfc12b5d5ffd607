-- ===== src/Lan/Stp/Order.antt =====
-- The priority vectors, and their comparison. A number that the source only compares with 0 is one
-- of three signs.
use Prim.Native.Nat.{compare, Ordering}
use net_sim.Prelude.{ℕ, Bool, true, false, [], ◌∷◌, Text}
use net_sim.Packet.{BridgeId}

pub data Sign : Type 0 where
  lower same higher : Sign

-- `a - b`
abbrev pub cmp_nat : ℕ → ℕ → Sign
cmp_nat a b = elim (compare a b) [ Ordering.lt ↦ lower | Ordering.eq ↦ same | Ordering.gt ↦ higher ]

-- `x || y`
abbrev pub or_else : Sign → Sign → Sign
or_else lower y = lower
or_else same y = y
or_else higher y = higher

-- `a < b ? -1 : a > b ? 1 : 0` on texts
unfoldable pub cmp_text : Text → Text → Sign
cmp_text [] [] = same
cmp_text [] (d ∷ t) = lower
cmp_text (c ∷ s) [] = higher
cmp_text (c ∷ s) (d ∷ t) = or_else (cmp_nat c d) (cmp_text s t)

pub record Vector : Type 0 where
  pub root : BridgeId
  pub cost : ℕ
  pub bridge : BridgeId
  pub port : ℕ

unfoldable pub cmp_id : BridgeId → BridgeId → Sign
cmp_id a b = or_else (cmp_nat a.prio b.prio) (cmp_text a.mac b.mac)

unfoldable pub cmp_vec : Vector → Vector → Sign
cmp_vec a b =
    or_else (cmp_id a.root b.root)
      (or_else (cmp_nat a.cost b.cost) (or_else (cmp_id a.bridge b.bridge) (cmp_nat a.port b.port)))

-- `< 0`, `=== 0`, `> 0`
abbrev pub is_lower : Sign → Bool
is_lower lower = true
is_lower same = false
is_lower higher = false

abbrev pub is_same : Sign → Bool
is_same lower = false
is_same same = true
is_same higher = false

abbrev pub is_higher : Sign → Bool
is_higher lower = false
is_higher same = false
is_higher higher = true
