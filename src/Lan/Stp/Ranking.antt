-- ===== src/Lan/Stp/Ranking.antt =====
-- Bridge ids and vectors are in a strict total order.
use net_sim.Prelude.{◌≡◌, refl, ap, ◌∙◌, false, [], ◌∷◌, arith, Text}
use net_sim.Packet.{BridgeId}
use net_sim.Lan.Stp.Order.{
  Sign, lower, same, higher, cmp_text, Vector, cmp_id, cmp_vec, is_lower, is_higher,
}

abbrev pub flip : Sign → Sign
flip lower = higher
flip same = same
flip higher = lower

cmp_text-flip : (a b : Text) → cmp_text b a ≡ flip (cmp_text a b)
unfolding cmp_text
cmp_text-flip [] [] = refl
cmp_text-flip [] (d ∷ t) = refl
cmp_text-flip (c ∷ s) [] = refl
cmp_text-flip (c ∷ s) (d ∷ t) = ground (arith, cmp_text-flip s t)

cmp_text-same : (a b : Text) → cmp_text a b ≡ same → a ≡ b
unfolding cmp_text
cmp_text-same [] [] h = refl
cmp_text-same [] (d ∷ t) h = absurd (cc)
cmp_text-same (c ∷ s) [] h = absurd (cc)
cmp_text-same (c ∷ s) (d ∷ t) h = ground (arith, cmp_text-same s t)

cmp_text_refl : (a : Text) → cmp_text a a ≡ same
unfolding cmp_text
cmp_text_refl [] = refl
cmp_text_refl (c ∷ s) = ground (arith, cmp_text_refl s)

cmp_text_trans : (a b c : Text) → cmp_text a b ≡ lower → cmp_text b c ≡ lower → cmp_text a c ≡ lower
unfolding cmp_text
cmp_text_trans [] [] [] h k = h
cmp_text_trans [] (d ∷ t) [] h k = absurd (cc)
cmp_text_trans [] b (e ∷ u) h k = refl
cmp_text_trans (x ∷ s) [] c h k = absurd (cc)
cmp_text_trans (x ∷ s) (d ∷ t) [] h k = absurd (cc)
cmp_text_trans (x ∷ s) (d ∷ t) (e ∷ u) h k =
    ground (arith, cmp_text_trans s t u, cmp_text-same s t, cmp_text-same t u)

-- the three laws of a comparison
pub cmp_id-flip : (a b : BridgeId) → cmp_id b a ≡ flip (cmp_id a b)
unfolding cmp_id
cmp_id-flip a b = ground (arith, cmp_text-flip a.mac b.mac)

pub cmp_id-same : (a b : BridgeId) → cmp_id a b ≡ same → a ≡ b
unfolding cmp_id
cmp_id-same a b h = ground (arith, cmp_text-same a.mac b.mac)

pub cmp_id_refl : (a : BridgeId) → cmp_id a a ≡ same
unfolding cmp_id
cmp_id_refl a = ground (arith, cmp_text_refl a.mac)

pub cmp_id_trans : (a b c : BridgeId) → cmp_id a b ≡ lower → cmp_id b c ≡ lower → cmp_id a c ≡ lower
unfolding cmp_id
cmp_id_trans a b c h k =
    ground (
      arith,
      cmp_text_trans a.mac b.mac c.mac,
      cmp_text-same a.mac b.mac,
      cmp_text-same b.mac c.mac,
    )

pub cmp_vec-flip : (a b : Vector) → cmp_vec b a ≡ flip (cmp_vec a b)
unfolding cmp_vec
cmp_vec-flip a b = ground (arith, cmp_id-flip a.root b.root, cmp_id-flip a.bridge b.bridge)

pub cmp_vec-same : (a b : Vector) → cmp_vec a b ≡ same → a ≡ b
unfolding cmp_vec
cmp_vec-same a b h = ground (arith, cmp_id-same a.root b.root, cmp_id-same a.bridge b.bridge)

pub cmp_vec_refl : (a : Vector) → cmp_vec a a ≡ same
unfolding cmp_vec
cmp_vec_refl a = ground (arith, cmp_id_refl a.root, cmp_id_refl a.bridge)

pub cmp_vec_lower :
    (a b c : Vector) → cmp_vec a b ≡ lower → cmp_vec b c ≡ lower → cmp_vec a c ≡ lower
unfolding cmp_vec
cmp_vec_lower a b c h k = ground (
  arith,
  cmp_id_trans a.root b.root c.root,
  cmp_id-same a.root b.root,
  cmp_id-same b.root c.root,
  cmp_id_trans a.bridge b.bridge c.bridge,
  cmp_id-same a.bridge b.bridge,
  cmp_id-same b.bridge c.bridge,
)

-- Vectors are compared in a strict order: what is lower than a lower one is lower, and the other
-- way round it is higher.
pub cmp_vec_trans :
    (a b c : Vector)
    → cmp_vec a b ≡ lower
    → cmp_vec b c ≡ lower
    → (cmp_vec a c ≡ lower) × (cmp_vec c a ≡ higher)
cmp_vec_trans a b c h k =
    let first = cmp_vec_lower a b c h k in (first, cmp_vec-flip a c ∙ ap flip first)

-- What is not lower than one that is not lower.
pub not_lower_trans :
    (a b c : Vector)
    → is_lower (cmp_vec b a) ≡ false
    → is_lower (cmp_vec c b) ≡ false
    → is_lower (cmp_vec c a) ≡ false
not_lower_trans a b c h k = ground (
  arith,
  cmp_vec-flip a b,
  cmp_vec-flip b c,
  cmp_vec-flip a c,
  cmp_vec_lower a b c,
  cmp_vec-same a b,
  cmp_vec-same b c,
  cmp_vec_refl a,
)

-- A vector that is not lower has no lower root.
pub not_lower_root :
    (a b : Vector) → is_lower (cmp_vec a b) ≡ false → is_lower (cmp_id a.root b.root) ≡ false
unfolding cmp_vec
not_lower_root a b h = ground arith

pub id_not_higher_trans :
    (a b c : BridgeId)
    → is_higher (cmp_id a b) ≡ false
    → is_higher (cmp_id b c) ≡ false
    → is_higher (cmp_id a c) ≡ false
id_not_higher_trans a b c h k =
    ground (arith, cmp_id_trans a b c, cmp_id-same a b, cmp_id-same b c, cmp_id_refl a)
