-- ===== src/Nat/Invariant.antt =====
-- The table's invariant, kept by every operation. Under it no operation meets a missing entry.
use net_sim.Prelude.{
  ℕ, suc, ◌≤◌, ◌≡◌, refl, ap, ◌∙◌, Bool, true, false, Option, none, some, arith, Dict, get, put,
  delete, get-put, Distinct, Distinct-put, Distinct-delete, Option-cases, Bool-cases, inl, inr,
}
use net_sim.Addr.{Ip}
use net_sim.Packet.{TcpSegment, Ipv4Packet}
use net_sim.Nat.Keys.{NatProto, NatKey, nat_key, inner_key, nat_key_eq, nat_key_eq_iff}
use net_sim.Nat.Table.{
  NatEntry, NatTable, Imported, imported_entry, init, inner_key_of, nat_key_of, alloc_public_id,
  forget_public, import_entry, update_entry, is_free, punch, open_pinhole, close_pinhole, note_tcp,
  expire,
}
use net_sim.Nat.Translate.{
  Flow, note_segment, note_peer, touch_out, touch_in, lookup_key, new_entry, find_or_create,
}
use net_sim.Nat.Alloc.{alloc_public_id_free, get-alloc_public_id}
use net_sim.Nat.Expiry.{expire-Paired, expire-frame}
use net_sim.Nat.Pairing.{
  Paired, Paired-nil, Paired-add, Paired-update, Paired-remove, import_entry-Paired, owner-some,
}

-- `limits` is what the devices promise of the ports that they reserve.
pub record Inv (t : NatTable) : Type 0 where
  pub paired : Paired t.entries t.by_inner
  pub distinct : Distinct t.entries
  pub limits : (j : ℕ) → 65536 ≤ j → t.reserved j ≡ false

pub init-Inv : Inv init
init-Inv = record { paired = Paired-nil; distinct = tt; limits = λ j h. refl }

pub expire-Inv : (t : NatTable) (now : ℕ) → Inv t → Inv (expire t now)
expire-Inv t now v =
    let (d, k, r, f) = expire-frame t now v.distinct in
    record {
      paired = expire-Paired t now v.distinct v.paired;
      distinct = d;
      limits = λ j h. ap (λ (p : ℕ → Bool). p j) r ∙ v.limits j h;
    }

note_tcp-keys :
    (e : NatEntry) (seg : TcpSegment) (outgoing : Bool) (now : ℕ)
    → (inner_key_of (note_tcp e seg outgoing now) ≡ inner_key_of e)
      × (nat_key_of (note_tcp e seg outgoing now) ≡ nat_key_of e)
      × ((note_tcp e seg outgoing now).peers ≡ e.peers)
unfolding note_tcp
note_tcp-keys e seg outgoing now = ground arith

note_segment-keys :
    (e : NatEntry) (seg : Option TcpSegment) (outgoing : Bool) (now : ℕ)
    → (inner_key_of (note_segment e seg outgoing now) ≡ inner_key_of e)
      × (nat_key_of (note_segment e seg outgoing now) ≡ nat_key_of e)
      × ((note_segment e seg outgoing now).peers ≡ e.peers)
unfolding note_segment
note_segment-keys e none outgoing now = (refl, refl, refl)
note_segment-keys e (some seg) outgoing now = note_tcp-keys e seg outgoing now

-- What an outgoing or incoming packet writes into a mapping leaves its keys alone.
pub touch_out-keys :
    (pkt : Ipv4Packet) (f : Flow) (now : ℕ) (e : NatEntry)
    → (inner_key_of (touch_out pkt f now e) ≡ inner_key_of e)
      × (nat_key_of (touch_out pkt f now e) ≡ nat_key_of e)
unfolding touch_out
touch_out-keys pkt f now e = let (a, b, c) = note_segment-keys _ f.segment true now in (a, b)

pub touch_out-peers :
    (pkt : Ipv4Packet) (f : Flow) (now : ℕ) (e : NatEntry)
    → (touch_out pkt f now e).peers ≡ note_peer e.peers f.proto pkt.dst f.to_id
unfolding touch_out
touch_out-peers pkt f now e = let (a, b, c) = note_segment-keys _ f.segment true now in c

pub touch_in-keys :
    (f : Flow) (now : ℕ) (e : NatEntry)
    → (inner_key_of (touch_in f now e) ≡ inner_key_of e)
      × (nat_key_of (touch_in f now e) ≡ nat_key_of e)
unfolding touch_in
touch_in-keys f now e = let (a, b, c) = note_segment-keys _ f.segment false now in (a, b)

-- A mapping under a key that is there is rewritten, its keys kept.
pub update_entry-Inv :
    (t : NatTable) (key : NatKey) (e : NatEntry) (w : NatEntry → NatEntry)
    → Inv t
    → get t.entries key ≡ some e
    → inner_key_of (w e) ≡ inner_key_of e
    → nat_key_of (w e) ≡ nat_key_of e
    → (update_entry t key w ≡ some (w e, record t { entries = put t.entries key (w e) }))
      × Inv (record t { entries = put t.entries key (w e) })
unfolding update_entry
update_entry-Inv t key e w v found same_inner same_public = (
  rw (found, update_entry),
  record {
    paired = Paired-update v.paired key e (w e) found same_inner same_public;
    distinct = Distinct-put t.entries key (w e) v.distinct;
    limits = v.limits;
  },
)

forget_public-Distinct :
    (m : Dict NatKey NatEntry) (n : NatKey) (o : Option NatKey)
    → Distinct m
    → Distinct (forget_public m n o)
unfolding forget_public
forget_public-Distinct m n none d = d
forget_public-Distinct m n (some prev) d = elim (Bool-cases (nat_key_eq prev n)) [
  | inl same ↦ rw same d
  | inr other ↦ rw other (Distinct-delete m prev d)
]

pub import_entry-Inv : (t : NatTable) (e : Imported) (now : ℕ) → Inv t → Inv (import_entry t e now)
import_entry-Inv t e now v = record {
  paired = import_entry-Paired t e now v.paired;
  distinct =
      unfold import_entry in Distinct-put _ _ _ (forget_public-Distinct t.entries _ _ v.distinct);
  limits = unfold import_entry in v.limits;
}

removed-Inv :
    (t : NatTable) (key : NatKey) (e : NatEntry)
    → Inv t
    → get t.entries key ≡ some e
    → Inv
        (record t { entries = delete t.entries key; by_inner = delete t.by_inner (inner_key_of e) })
removed-Inv t key e v found = record {
  paired = Paired-remove v.paired key e found;
  distinct = Distinct-delete t.entries key v.distinct;
  limits = v.limits;
}

pub close_pinhole-Inv :
    (t : NatTable) (proto : NatProto) (id : ℕ) → Inv t → Inv (close_pinhole t proto id).1
unfolding close_pinhole
close_pinhole-Inv t proto id v =
    let key : NatKey = record { proto = proto; public_id = id } in
    elim (Option-cases (get t.entries key)) [
      | inl missing ↦ rw (missing, close_pinhole) v
      | inr (e, found) ↦
          rw (found, close_pinhole)
            (elim (Bool-cases e.pinhole) [
              | inl open_now ↦ rw open_now (removed-Inv t key e v found)
              | inr other ↦ rw other v
            ])
    ]

-- A new mapping under an allocated id.
added-Inv :
    (t : NatTable) (pkt : Ipv4Packet) (f : Flow) (id now : ℕ)
    → Inv t
    → get t.by_inner (lookup_key t pkt f) ≡ none
    → get t.entries (record { proto = f.proto; public_id = id }) ≡ none
    → Inv (record t {
      seq = suc id;
      by_inner = put t.by_inner (lookup_key t pkt f) (record { proto = f.proto; public_id = id });
      entries =
          put t.entries (record { proto = f.proto; public_id = id }) (new_entry t pkt f id now);
    })
unfolding new_entry lookup_key
added-Inv t pkt f id now v fresh free = record {
  paired =
      Paired-add v.paired (record { proto = f.proto; public_id = id }) (new_entry t pkt f id now)
        free fresh refl;
  distinct = Distinct-put t.entries _ _ v.distinct;
  limits = v.limits;
}

inner_key_of-new_entry :
    (t : NatTable) (pkt : Ipv4Packet) (f : Flow) (id now : ℕ)
    → inner_key_of (new_entry t pkt f id now) ≡ lookup_key t pkt f
unfolding new_entry lookup_key
inner_key_of-new_entry t pkt f id now = refl

pub get-put_self :
    (m : Dict NatKey NatEntry) (k : NatKey) (e : NatEntry) → get (put m k e) k ≡ some e
get-put_self m k e = ground (arith, get-put m k k e, nat_key_eq_iff k k)

-- The mapping of a flow: after `find_or_create` it stands under its key, and belongs to the flow.
pub find_or_create-Inv :
    (t : NatTable) (pkt : Ipv4Packet) (f : Flow) (now : ℕ)
    → Inv t
    → (e : NatEntry) × (get (find_or_create t pkt f now).1.entries (find_or_create t pkt f now).0
        ≡ some e)
      × (inner_key_of e ≡ lookup_key t pkt f)
      × ((find_or_create t pkt f now).1.kind ≡ t.kind)
      × Inv (find_or_create t pkt f now).1
unfolding find_or_create
find_or_create-Inv t pkt f now v = elim (Option-cases (get t.by_inner (lookup_key t pkt f))) [
  | inr (key, known) ↦
      let (e, found, same) =
        owner-some (get t.entries key) (lookup_key t pkt f) (v.paired.forth _ key known) in
      rw (known, find_or_create) (e, found, same, refl, v)
  | inl fresh ↦
      let (free, rules, above, after) = alloc_public_id_free t f.proto v.limits in
      rw (fresh, find_or_create, after)
        (
          new_entry t pkt f (alloc_public_id t f.proto).0 now,
          get-put_self _ _ _,
          inner_key_of-new_entry t pkt f _ now,
          refl,
          added-Inv t pkt f _ now v fresh (get-alloc_public_id t f.proto v.limits),
        )
]

-- Importing a mapping and marking it as a pinhole meets no missing entry.
marked-Inv :
    (t : NatTable) (e : Imported) (seq now : ℕ)
    → Inv t
    → (e' : NatEntry) × (t' : NatTable) × (update_entry
          (record (import_entry t e now) { seq = seq })
          (record { proto = e.proto; public_id = e.public_id })
          (λ x. record x { pinhole = true })
        ≡ some (e', t'))
      × Inv t'
marked-Inv t e seq now v =
    let w = import_entry-Inv t e now v in
    let (done, kept) =
      update_entry-Inv (record (import_entry t e now) { seq = seq })
        (record { proto = e.proto; public_id = e.public_id }) (imported_entry e now)
        (λ x. record x { pinhole = true })
        (record { paired = w.paired; distinct = w.distinct; limits = w.limits })
        (unfold import_entry in get-put_self _ _ _) refl refl in
    (_, _, done, kept)

alloc_public_id-Inv : (t : NatTable) (proto : NatProto) → Inv t → Inv (alloc_public_id t proto).1
alloc_public_id-Inv t proto v =
    rw (alloc_public_id_free t proto v.limits).3
      (record { paired = v.paired; distinct = v.distinct; limits = v.limits })

punch-Inv :
    (t : NatTable) (proto : NatProto) (lan_ip : Ip) (inner now : ℕ)
    → Inv t
    → (e : NatEntry) × (t' : NatTable) × (punch t proto lan_ip inner now ≡ some (e, t')) × Inv t'
unfolding punch
punch-Inv t proto lan_ip inner now v = elim (Bool-cases (is_free t proto inner)) [
  | inl free ↦ rw free (marked-Inv t _ t.seq now v)
  | inr taken ↦
      rw taken (marked-Inv (alloc_public_id t proto).1 _ _ now (alloc_public_id-Inv t proto v))
]

-- In a table in order, opening a pinhole always succeeds, and leaves the table in order.
pub open_pinhole-Inv :
    (t : NatTable) (proto : NatProto) (lan_ip : Ip) (inner now : ℕ)
    → Inv t
    → (e : NatEntry) × (t' : NatTable) × (open_pinhole t proto lan_ip inner now ≡ some (e, t'))
      × Inv t'
unfolding open_pinhole
open_pinhole-Inv t proto lan_ip inner now v =
    elim (Option-cases
      (get t.by_inner (record { proto = proto; lan_ip = lan_ip; inner_id = inner; dest = none }))) [
        | inl fresh ↦ rw (fresh, open_pinhole) (punch-Inv t proto lan_ip inner now v)
        | inr (key, known) ↦
            let (e, found, same) = owner-some _ _ (v.paired.forth _ key known) in
            let (done, kept) =
              update_entry-Inv t key e (λ x. record x { peers = none }) v found refl refl in
            rw (known, open_pinhole) (_, _, done, kept)
      ]
