-- ===== src/Lan/Loop.antt =====
-- src/core/nodes/switch.ts, `guardLoop`: the guard against loops, which hubs share.
use net_sim.Prelude.{
  ℕ, suc, ◌≤◌, ◌≡◌, ◌↔◌, Bool, true, false, not, ◌&&◌, Option, none, some, [], ◌∷◌, arith, Text,
  text_eq, text_eq_iff, ltb, leb, ◌==◌, if◌then◌else◌, Eq, Dict, get, put, delete, has, drop_oldest,
  length, get-put, get-delete, length-put,
}
use net_sim.Packet.{EthernetFrame, max_l2_hops}

-- "id" of a hub, "id:scope" of a switch
pub record SeenKey : Type 0 where
  pub id : ℕ
  pub scope : Option Text

unfoldable pub scope_eq : Option Text → Option Text → Bool
scope_eq none none = true
scope_eq (some a) (some b) = text_eq a b
scope_eq none (some b) = false
scope_eq (some a) none = false

scope_eq_iff : (a b : Option Text) → (scope_eq a b ≡ true) ↔ (a ≡ b)
unfolding scope_eq
scope_eq_iff none none = ground arith
scope_eq_iff (some a) (some b) = ground (arith, text_eq_iff a b)
scope_eq_iff none (some b) = ground arith
scope_eq_iff (some a) none = ground arith

unfoldable pub seen_key_eq : SeenKey → SeenKey → Bool
seen_key_eq a b = a.id == b.id && scope_eq a.scope b.scope

pub seen_key_eq_iff : (a b : SeenKey) → (seen_key_eq a b ≡ true) ↔ (a ≡ b)
unfolding seen_key_eq
seen_key_eq_iff a b = ground (arith, scope_eq_iff a.scope b.scope)

instance abbrev pub seen_key : Eq SeenKey
seen_key = record { beq = seen_key_eq; beq_iff = seen_key_eq_iff }

abbrev pub hops_of : EthernetFrame → ℕ
hops_of frame = elim frame.hops [ none ↦ 0 | some n ↦ n ]

abbrev pub key_of : EthernetFrame → Option Text → SeenKey
key_of frame scope = record { id = frame.id; scope = scope }

-- Whether the frame may pass, and what has been seen after it: at most 512 keys.
unfoldable pub guard_loop : Dict SeenKey ℕ → ℕ → EthernetFrame → Option Text → Bool × Dict SeenKey ℕ
guard_loop seen port frame scope =
    if leb max_l2_hops (hops_of frame)
    then (false, seen)
    else elim (get seen (key_of frame scope)) [
      | some prev ↦ (false, seen)
      | none ↦
          let seen' = put seen (key_of frame scope) port in
          (true, if ltb 512 (length seen') then drop_oldest seen' else seen')
    ]

-- what the guard looks at
abbrev pub is_fresh : Dict SeenKey ℕ → EthernetFrame → Option Text → Bool
is_fresh seen frame scope = ltb (hops_of frame) max_l2_hops && not (has seen (key_of frame scope))

pub guard_loop-passes :
    (seen : Dict SeenKey ℕ) (port : ℕ) (frame : EthernetFrame) (scope : Option Text)
    → (guard_loop seen port frame scope).0 ≡ is_fresh seen frame scope
unfolding guard_loop
guard_loop-passes seen port frame scope = ground arith

module _ {V : Type 0} where
  length-delete : (m : Dict SeenKey V) (k : SeenKey) → length (delete m k) ≤ length m
  unfolding delete
  length-delete [] k = omega arith
  length-delete ((j, w) ∷ m) k = ground (arith, length-delete m k)

  length-drop_oldest : (m : Dict SeenKey V) (n : ℕ) → length m ≤ suc n → length (drop_oldest m) ≤ n
  unfolding drop_oldest delete
  length-drop_oldest [] n h = omega arith
  length-drop_oldest ((j, w) ∷ m) n h = ground (arith, length-delete m j, seen_key_eq_iff j j)

  -- A new key of a map that is not empty is not the oldest one.
  get-drop_oldest :
      (m : Dict SeenKey V) (k : SeenKey) (v : V)
      → get m k ≡ none
      → 2 ≤ length (put m k v)
      → get (drop_oldest (put m k v)) k ≡ some v
  unfolding get put drop_oldest
  get-drop_oldest [] k v h long = absurd (omega arith)
  get-drop_oldest ((j, w) ∷ m) k v h long = ground (
    arith,
    get-delete ((j, w) ∷ put m k v) j k,
    get-put m k k v,
    seen_key_eq_iff j k,
    seen_key_eq_iff k k,
  )

-- The guard remembers at most 512 frames.
pub guard_loop-bound :
    (seen : Dict SeenKey ℕ) (port : ℕ) (frame : EthernetFrame) (scope : Option Text)
    → length seen ≤ 512
    → length (guard_loop seen port frame scope).1 ≤ 512
unfolding guard_loop
guard_loop-bound seen port frame scope h = ground (
  arith,
  length-put seen (key_of frame scope) port,
  length-drop_oldest (put seen (key_of frame scope) port) 512,
)

-- A frame that passed is known.
pub get-guard_loop :
    (seen : Dict SeenKey ℕ) (port : ℕ) (frame : EthernetFrame) (scope : Option Text)
    → (guard_loop seen port frame scope).0 ≡ true
    → get (guard_loop seen port frame scope).1 (key_of frame scope) ≡ some port
unfolding guard_loop
get-guard_loop seen port frame scope h = ground (
  arith,
  get-put seen (key_of frame scope) (key_of frame scope) port,
  get-drop_oldest seen (key_of frame scope) port,
  seen_key_eq_iff (key_of frame scope) (key_of frame scope),
)
