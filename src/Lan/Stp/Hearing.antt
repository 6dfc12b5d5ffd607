-- ===== src/Lan/Stp/Hearing.antt =====
-- What a port remembers of the messages that it hears.
use net_sim.Prelude.{
  nat_eq, ℕ, ◌≡◌, refl, ap, ◌∙◌, Bool, true, false, not, ◌&&◌, Option, none, some, arith, ltb,
  text_eq, Text, [], ◌∷◌, ◌==◌, if◌then◌else◌, get, put, delete, get-put, get-delete, Bool-cases,
  inl, inr, contains,
}
use net_sim.Packet.{BpduPacket}
use net_sim.Lan.Stp.Order.{cmp_text, cmp_id, cmp_vec, is_lower, is_same}
use net_sim.Lan.Stp.Root.{vector_of, stp_max_age, Stp, Ports, schedule, recompute}
use net_sim.Lan.Stp.Protocol.{
  same_sender, is_worse, hear_change, hear, forget, accept, handle, on_link,
}
use net_sim.Lan.Stp.Roles.{View, view, schedule-view, recompute-view, elect-frame, settled}

heard-view : (a b : Stp) → view a ≡ view b → a.heard ≡ b.heard
unfolding view
heard-view a b e = ap (λ (v : View). v.heard) e

pub recompute-heard :
    (s : Stp) (ports : Ports) (force : Bool) → (recompute s ports force).0.heard ≡ s.heard
recompute-heard s ports force =
    heard-view (recompute s ports force).0 (settled s ports) (recompute-view s ports force)
    ∙ (elect-frame s ports).2

schedule-heard : (s : Stp) → (schedule s).0.heard ≡ s.heard
schedule-heard s = heard-view (schedule s).0 s (schedule-view s)

hear_change-heard : (s : Stp) (tc : Option ℕ) → (hear_change s tc).0.heard ≡ s.heard
unfolding hear_change
hear_change-heard s none = refl
hear_change-heard s (some tc) = elim (Bool-cases (contains s.tc_seen tc)) [
  | inl known ↦ rw known refl
  | inr new ↦ rw new (schedule-heard _)
]

abbrev told : Option BpduPacket → BpduPacket → Option BpduPacket
told prev bpdu =
    if ltb stp_max_age bpdu.age
    then (if same_sender prev bpdu then none else prev)
    else (if is_worse prev bpdu then prev else some bpdu)

get-hear :
    (s : Stp) (ports : Ports) (p q : ℕ) (bpdu : BpduPacket)
    → get (hear s ports p bpdu).0.heard q
      ≡ (if p == q then told (get s.heard p) bpdu else get s.heard q)
unfolding hear forget accept
get-hear s ports p q bpdu = ground (
  arith,
  get-put s.heard p q bpdu,
  get-delete s.heard p q,
  recompute-heard (record s { heard = put s.heard p bpdu }) ports false,
  recompute-heard (record s { heard = delete s.heard p }) ports false,
)

-- two messages of one port of one bridge
abbrev pub is_from : BpduPacket → BpduPacket → Bool
is_from a b =
    a.bridge.prio == b.bridge.prio && text_eq a.bridge.mac b.bridge.mac && a.port == b.port

-- What a port remembers after a message: the news of the same sender replace what it said, and are
-- forgotten with it once they are older than 20 hops; another sender is remembered instead only if
-- its message is not too old and strictly better.
abbrev pub remembered : Option BpduPacket → BpduPacket → Option BpduPacket
remembered none bpdu = if ltb 20 bpdu.age then none else some bpdu
remembered (some h) bpdu =
    if is_from h bpdu
    then (if ltb 20 bpdu.age then none else some bpdu)
    else if not (ltb 20 bpdu.age) && is_lower (cmp_vec (vector_of bpdu) (vector_of h))
    then some bpdu
    else some h

is_same-text_eq : (a b : Text) → is_same (cmp_text a b) ≡ text_eq a b
unfolding cmp_text text_eq
is_same-text_eq [] [] = refl
is_same-text_eq [] (d ∷ t) = refl
is_same-text_eq (c ∷ s) [] = refl
is_same-text_eq (c ∷ s) (d ∷ t) = ground (arith, is_same-text_eq s t)

same_sender-is_from : (h bpdu : BpduPacket) → same_sender (some h) bpdu ≡ is_from h bpdu
unfolding cmp_id
same_sender-is_from h bpdu = ground (arith, is_same-text_eq h.bridge.mac bpdu.bridge.mac)

told-remembered :
    (prev : Option BpduPacket) (bpdu : BpduPacket) → told prev bpdu ≡ remembered prev bpdu
told-remembered none bpdu = refl
told-remembered (some h) bpdu = ground (arith, same_sender-is_from h bpdu)

-- Where the spanning tree is on, a message touches only what its own port remembers. One from the
-- sender of that takes its place, or erases it if the message is older than 20 hops; one from
-- another sender takes its place if it is not older and strictly better, and is ignored otherwise.
-- A port that remembers nothing takes a message that is not older.
pub handle-heard :
    (s : Stp) (ports : Ports) (p q : ℕ) (bpdu : BpduPacket)
    → s.config.enabled ≡ true
    → get (handle s ports p bpdu).0.heard q
      ≡ (if p == q then remembered (get s.heard p) bpdu else get s.heard q)
unfolding handle
handle-heard s ports p q bpdu on = ground (
  arith,
  get-hear (hear_change s bpdu.tc).0 ports p q bpdu,
  hear_change-heard s bpdu.tc,
  told-remembered (get s.heard p) bpdu,
)

-- Where the spanning tree is on, a port whose link goes down forgets what it heard, and the others
-- and a link that comes up forget nothing.
pub on_link-heard :
    (s : Stp) (ports : Ports) (p q : ℕ) (up : Bool)
    → s.config.enabled ≡ true
    → get (on_link s ports p up).0.heard q ≡ (if not up && p == q then none else get s.heard q)
unfolding on_link
on_link-heard s ports p q up on = ground (
  arith,
  get-delete s.heard p q,
  recompute-heard (record s { heard = if up then s.heard else delete s.heard p }) ports up,
)
