-- ===== src/Nat/History.antt =====
-- The table after any sequence of calls.
use mathlib.Core.Path.{subst}
use mathlib.Core.Option.{some-injective}
use net_sim.Prelude.{
  sym, ◌∙◌, ℕ, ◌≡◌, refl, Option, none, some, List, [], ◌∷◌, get, put, Option-cases, Bool-cases,
  inl, inr, find, ◌&&◌, ◌==◌,
}
use net_sim.Addr.{Ip}
use net_sim.Packet.{error_of, IcmpError, Ipv4Packet}
use net_sim.Nat.Keys.{NatProto, NatKey, InnerKey, nat_key, inner_key}
use net_sim.Nat.Table.{
  NatType, NatEntry, PortForward, rule_for, NatTable, Imported, init, import_entry, open_pinhole,
  close_pinhole, set_forwards, set_type, type_eq, expire,
}
use net_sim.Nat.Translate.{
  Flow, flow_of, reply_rule, Translated, translate, admits, touch_in, restore_forward, restore_flow,
  restore_error, restore, is_icmp, remember_flow, quoted_proto, quoted_source,
}
use net_sim.Nat.Invariant.{
  Inv, init-Inv, expire-Inv, update_entry-Inv, touch_in-keys, import_entry-Inv, open_pinhole-Inv,
  close_pinhole-Inv,
}
use net_sim.Nat.RoundTrip.{translate_leaves}

translate-Inv :
    (t : NatTable) (pkt : Ipv4Packet) (public_ip : Ip) (now : ℕ)
    → Inv t
    → (r : Translated) × (translate t pkt public_ip now ≡ some r) × Inv r.table
unfolding translate
translate-Inv t pkt public_ip now v = elim (Option-cases (error_of pkt.payload)) [
  | inr (p, e) ↦ rw (e, translate) (_, refl, v)
  | inl e ↦ elim (Option-cases (flow_of pkt.payload)) [
    | inl h ↦ rw (e, translate, h) (_, refl, v)
    | inr (f, h) ↦ elim (Option-cases (reply_rule t pkt f)) [
      | inr (rule, k) ↦ rw (e, translate, h, k) (_, refl, v)
      | inl k ↦
          let (r, id, done, sent, w, owner) = translate_leaves t pkt f public_ip now v h k in
          (r, done, w)
    ]
  ]
]

-- a mapping touched by what comes in
touched-Inv :
    (t : NatTable) (key : NatKey) (e : NatEntry) (f : Flow) (now : ℕ)
    → Inv t
    → get t.entries key ≡ some e
    → Inv (record t { entries = put t.entries key (touch_in f now e) })
touched-Inv t key e f now v found =
    let (a, b) = touch_in-keys f now e in (update_entry-Inv t key e (touch_in f now) v found a b).1

restore_forward-Inv :
    (t : NatTable) (pkt : Ipv4Packet) (f : Flow) → Inv t → Inv (restore_forward t pkt f).1
unfolding restore_forward remember_flow
restore_forward-Inv t pkt f v = elim (Bool-cases (is_icmp f.proto)) [
  | inl ping ↦ rw ping v
  | inr ports ↦
      elim (Option-cases (find (λ r. r.public_port == f.to_id && rule_for r f.proto) t.forwards)) [
        | inl no_rule ↦ rw (ports, no_rule, restore_forward) v
        | inr (r, rule) ↦
            rw (ports, rule, restore_forward)
              (record { paired = v.paired; distinct = v.distinct; limits = v.limits })
      ]
]

restore_flow-Inv :
    (t : NatTable) (pkt : Ipv4Packet) (f : Flow) (now : ℕ)
    → Inv t
    → Inv (restore_flow t pkt f now).1
unfolding restore_flow
restore_flow-Inv t pkt f now v =
    elim (Option-cases (get t.entries (record { proto = f.proto; public_id = f.to_id }))) [
      | inl missing ↦ rw (missing, restore_flow) (restore_forward-Inv t pkt f v)
      | inr (e, found) ↦
          rw (found, restore_flow)
            (elim (Bool-cases (admits t.kind e pkt f)) [
              | inl ok ↦ rw ok (touched-Inv t _ e f now v found)
              | inr refused ↦ rw refused v
            ])
    ]

restore_error-Inv :
    (t : NatTable) (pkt : Ipv4Packet) (p : IcmpError) (now : ℕ)
    → Inv t
    → Inv (restore_error t pkt p now).1
unfolding restore_error
restore_error-Inv t pkt p now v =
    let l4 = p.original.l4 in
    let key : NatKey = record { proto = quoted_proto l4; public_id = quoted_source l4 } in
    elim (Option-cases (get t.entries key)) [
      | inr (e, found) ↦
          rw (found, restore_error)
            (update_entry-Inv t key e (λ x. record x { last_used = now }) v found refl refl).1
      | inl missing ↦
          rw (missing, restore_error)
            (elim (Bool-cases (is_icmp (quoted_proto l4))) [
              | inl ping ↦ rw ping v
              | inr ports ↦
                  elim (Option-cases (
                    find (λ r. r.public_port == quoted_source l4 && rule_for r (quoted_proto l4))
                      t.forwards)) [
                        | inl no_rule ↦ rw (ports, no_rule) v
                        | inr (r, rule) ↦ rw (ports, rule) v
                      ]
            ])
    ]

restore-Inv : (t : NatTable) (pkt : Ipv4Packet) (now : ℕ) → Inv t → Inv (restore t pkt now).1
unfolding restore
restore-Inv t pkt now v = elim (Option-cases (error_of pkt.payload)) [
  | inr (p, e) ↦ rw (e, restore) (restore_error-Inv t pkt p now v)
  | inl e ↦ elim (Option-cases (flow_of pkt.payload)) [
    | inl h ↦ rw (e, restore, h) v
    | inr (f, h) ↦ rw (e, restore, h) (restore_flow-Inv t pkt f now v)
  ]
]

-- A call of the table by its device, with what it hands over.
pub data Call : Type 0 where
  outgoing : Ipv4Packet → Ip → ℕ → Call
  incoming : Ipv4Packet → ℕ → Call
  imported : Imported → ℕ → Call
  opened : NatProto → Ip → ℕ → ℕ → Call
  closed : NatProto → ℕ → Call
  expired : ℕ → Call
  configured : List PortForward → Call
  retyped : NatType → Call

-- the table after a call (none: it throws)
unfoldable pub step : NatTable → Call → Option NatTable
step t (outgoing pkt public_ip now) = elim (translate t pkt public_ip now) [
  | none ↦ none
  | some r ↦ some r.table
]
step t (incoming pkt now) = some (restore t pkt now).1
step t (imported e now) = some (import_entry t e now)
step t (opened proto lan_ip inner now) = elim (open_pinhole t proto lan_ip inner now) [
  | none ↦ none
  | some r ↦ some r.1
]
step t (closed proto id) = some (close_pinhole t proto id).1
step t (expired now) = some (expire t now)
step t (configured rules) = some (set_forwards t rules)
step t (retyped kind) = some (set_type t kind).1

unfoldable pub run : NatTable → List Call → Option NatTable
run t [] = some t
run t (c ∷ cs) = elim (step t c) [ none ↦ none | some t' ↦ run t' cs ]

set_type-Inv : (t : NatTable) (kind : NatType) → Inv t → Inv (set_type t kind).1
unfolding set_type
set_type-Inv t kind v = elim (Bool-cases (type_eq kind t.kind)) [
  | inl same ↦ rw same v
  | inr other ↦ rw other (record { paired = v.paired; distinct = v.distinct; limits = v.limits })
]

-- Every call of a table in order succeeds and leaves it in order.
pub step-Inv : (t : NatTable) (c : Call) → Inv t → (t' : NatTable) × (step t c ≡ some t') × Inv t'
unfolding step
step-Inv t (outgoing pkt public_ip now) v =
    let (r, done, w) = translate-Inv t pkt public_ip now v in (r.table, rw (done, step) refl, w)
step-Inv t (incoming pkt now) v = (_, refl, restore-Inv t pkt now v)
step-Inv t (imported e now) v = (_, refl, import_entry-Inv t e now v)
step-Inv t (opened proto lan_ip inner now) v =
    let (e, t', done, w) = open_pinhole-Inv t proto lan_ip inner now v in
    (t', rw (done, step) refl, w)
step-Inv t (closed proto id) v = (_, refl, close_pinhole-Inv t proto id v)
step-Inv t (expired now) v = (_, refl, expire-Inv t now v)
step-Inv t (configured rules) v = (
  _,
  refl,
  unfold set_forwards in record { paired = v.paired; distinct = v.distinct; limits = v.limits },
)
step-Inv t (retyped kind) v = (_, refl, set_type-Inv t kind v)

pub run-Inv_from :
    (cs : List Call) (t : NatTable) → Inv t → (t' : NatTable) × (run t cs ≡ some t') × Inv t'
unfolding run
run-Inv_from [] t v = (t, refl, v)
run-Inv_from (c ∷ cs) t v =
    let (t1, done, w) = step-Inv t c v in
    let (t2, rest, kept) = run-Inv_from cs t1 w in (t2, rw (done, run) rest, kept)

-- Every sequence of calls of a new table runs to its end, none throws, and in the table that it
-- leaves the two maps agree: the owner of a public id is found under its inner key and the other
-- way round, and no public id is there twice.
pub run-Inv : (cs : List Call) → (t : NatTable) × (run init cs ≡ some t) × Inv t
run-Inv cs = run-Inv_from cs init init-Inv

-- After any sequence of calls of a new table, two inner keys that have the same public id of the
-- same protocol are equal: no public id is shared by two flows.
pub run_unshared :
    (cs : List Call) (t : NatTable) (a b : InnerKey) (n : NatKey)
    → run init cs ≡ some t
    → get t.by_inner a ≡ some n
    → get t.by_inner b ≡ some n
    → a ≡ b
run_unshared cs t a b n ran ga gb =
    let (t', ran', v') = run-Inv cs in
    let v = subst Inv (some-injective t' t (sym ran' ∙ ran)) v' in
    some-injective a b (sym (v.paired.forth a n ga) ∙ v.paired.forth b n gb)
