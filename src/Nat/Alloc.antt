-- ===== src/Nat/Alloc.antt =====
-- The search for a free public id ends, and ends at a free one.
use net_sim.Prelude.{
  ℕ, zero, suc, ◌+◌, ◌≤◌, ◌≡◌, ◌≢◌, ◌⊎◌, refl, false, none, List, [], ◌∷◌, arith, ◌==◌, any, All,
  Dict, get, Bool-cases, inl, inr,
}
use net_sim.Nat.Keys.{NatProto, icmp, tcp, udp, proto_eq, NatKey, nat_key, nat_key_eq_iff}
use net_sim.Nat.Table.{
  NatEntry, NatTable, PortForward, is_forwarded, is_taken, alloc_from, alloc_public_id, ceiling,
  ceiling_forwards,
}

get_above : (m : Dict NatKey NatEntry) (k : NatKey) → ceiling m ≤ k.public_id → get m k ≡ none
unfolding get ceiling
get_above [] k h = refl
get_above ((j, e) ∷ m) k h = ground (arith, nat_key_eq_iff j k, get_above m k)

any_above :
    (rs : List PortForward) (id : ℕ)
    → ceiling_forwards rs ≤ id
    → any (λ r. r.public_port == id) rs ≡ false
unfolding ceiling_forwards
any_above [] id h = refl
any_above (r ∷ rs) id h = ground (arith, any_above rs id)

ports-le-ceiling : (m : Dict NatKey NatEntry) → 65536 ≤ ceiling m
unfolding ceiling
ports-le-ceiling [] = omega arith
ports-le-ceiling ((k, e) ∷ m) = omega (arith, ports-le-ceiling m)

abbrev bound : NatTable → ℕ
bound t = ceiling t.entries + ceiling_forwards t.forwards

module _ (t : NatTable) (limits : (j : ℕ) → 65536 ≤ j → t.reserved j ≡ false)
    (proto : NatProto) where
  untaken_above : (id : ℕ) → bound t ≤ id → is_taken t proto id ≡ false
  unfolding is_taken is_forwarded
  untaken_above id h = ground (
    arith,
    limits id,
    ports-le-ceiling t.entries,
    any_above t.forwards id,
    get_above t.entries (record { proto = proto; public_id = id }),
  )

  alloc_from-untaken :
      (fuel id : ℕ) → bound t ≤ id + fuel → is_taken t proto (alloc_from fuel t proto id) ≡ false
  unfolding alloc_from
  alloc_from-untaken zero id h = untaken_above id (omega arith)
  alloc_from-untaken (suc fuel) id h = elim (Bool-cases (is_taken t proto id)) [
    | inl taken ↦ rw taken (alloc_from-untaken fuel (suc id) (omega arith))
    | inr free ↦ rw free free
  ]

alloc_from-ge :
    (fuel : ℕ) (t : NatTable) (proto : NatProto) (id : ℕ) → id ≤ alloc_from fuel t proto id
unfolding alloc_from
alloc_from-ge zero t proto id = omega arith
alloc_from-ge (suc fuel) t proto id = ground (arith, alloc_from-ge fuel t proto (suc id))

alloc_public_id-untaken :
    (t : NatTable) (proto : NatProto)
    → ((j : ℕ) → 65536 ≤ j → t.reserved j ≡ false)
    → is_taken t proto (alloc_public_id t proto).0 ≡ false
unfolding alloc_public_id
alloc_public_id-untaken t proto limits =
    alloc_from-untaken t limits proto (bound t) t.seq (omega arith)

get-untaken :
    (t : NatTable) (proto : NatProto) (id : ℕ)
    → is_taken t proto id ≡ false
    → get t.entries (record { proto = proto; public_id = id }) ≡ none
unfolding is_taken
get-untaken t proto id h = ground arith

pub get-alloc_public_id :
    (t : NatTable) (proto : NatProto)
    → ((j : ℕ) → 65536 ≤ j → t.reserved j ≡ false)
    → get t.entries (record { proto = proto; public_id = (alloc_public_id t proto).0 }) ≡ none
get-alloc_public_id t proto limits =
    get-untaken t proto (alloc_public_id t proto).0 (alloc_public_id-untaken t proto limits)

-- no forwarding rule has the public port
abbrev pub Unforwarded : ℕ → List PortForward → Type 0
Unforwarded id = All (λ r. r.public_port ≢ id)

none_forwarded :
    (rs : List PortForward) (id : ℕ) → any (λ r. r.public_port == id) rs ≡ false → Unforwarded id rs
none_forwarded [] id h = tt
none_forwarded (r ∷ rs) id h =
    ((λ e. ground (arith, h, e)), none_forwarded rs id (ground (arith, h)))

untaken-free :
    (t : NatTable) (proto : NatProto) (id : ℕ)
    → is_taken t proto id ≡ false
    → (proto ≡ icmp) ⊎ (Unforwarded id t.forwards × (t.reserved id ≡ false))
unfolding is_taken is_forwarded proto_eq
untaken-free t icmp id h = inl refl
untaken-free t tcp id h = inr (none_forwarded t.forwards id (ground (arith, h)), ground (arith, h))
untaken-free t udp id h = inr (none_forwarded t.forwards id (ground (arith, h)), ground (arith, h))

-- Ports are 16 bits wide: where nothing above them is reserved, the id that the search ends at has
-- no mapping of its protocol, and except for ICMP no forwarding rule has it and it is not reserved;
-- it is not below the sequence, and the sequence moves past it and nothing else changes.
pub alloc_public_id_free :
    (t : NatTable) (proto : NatProto)
    → ((j : ℕ) → 65536 ≤ j → t.reserved j ≡ false)
    → (get t.entries (record { proto = proto; public_id = (alloc_public_id t proto).0 }) ≡ none)
      × ((proto ≡ icmp)
          ⊎ (Unforwarded (alloc_public_id t proto).0 t.forwards
              × (t.reserved (alloc_public_id t proto).0 ≡ false)))
      × (t.seq ≤ (alloc_public_id t proto).0)
      × ((alloc_public_id t proto).1 ≡ record t { seq = suc (alloc_public_id t proto).0 })
unfolding alloc_public_id
alloc_public_id_free t proto limits = (
  get-alloc_public_id t proto limits,
  untaken-free t proto (alloc_public_id t proto).0 (alloc_public_id-untaken t proto limits),
  alloc_from-ge (bound t) t proto t.seq,
  refl,
)
