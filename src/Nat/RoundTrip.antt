-- ===== src/Nat/RoundTrip.antt =====
-- A translated packet and its answer.
use mathlib.Core.Path.{subst}
use mathlib.Core.Option.{some-injective}
use net_sim.Prelude.{
  ℕ, ◌≡◌, refl, sym, ap, ◌∙◌, Bool, true, Option, none, some, List, arith, if◌then◌else◌, get, put,
  contains, add, contains-add,
}
use net_sim.Addr.{Ip}
use net_sim.Packet.{error_of, IpPayload, error, esp, vrrp, pfsync, igmp, echo, Ipv4Packet}
use net_sim.Nat.Keys.{
  NatProto, icmp, tcp, udp, Peer, addr, addr_port, NatKey, InnerKey, nat_key, peer_key, peer_eq_iff,
}
use net_sim.Nat.Table.{
  NatType, full_cone, restricted, port_restricted, symmetric, NatEntry, NatTable, inner_key_of,
  nat_key_of, update_entry, expire,
}
use net_sim.Nat.Translate.{
  Flow, flow_of, peer_at, lookup_key, reply_rule, find_or_create, note_peer, touch_out,
  translate_flow, Translated, translate, with_source, leave, sender, is_symmetric, admits_peers,
  admits, enter, restore_flow, restore,
}
use net_sim.Nat.Invariant.{
  Inv, expire-Inv, find_or_create-Inv, update_entry-Inv, touch_out-keys, touch_out-peers,
  get-put_self,
}

two_peers :
    (ps : List Peer) (ip : Ip) (port : ℕ)
    → (contains (add (add ps (addr ip)) (addr_port ip port)) (addr ip) ≡ true)
      × (contains (add (add ps (addr ip)) (addr_port ip port)) (addr_port ip port) ≡ true)
two_peers ps ip port = ground (
  arith,
  contains-add (add ps (addr ip)) (addr_port ip port) (addr ip),
  contains-add (add ps (addr ip)) (addr_port ip port) (addr_port ip port),
  contains-add ps (addr ip) (addr ip),
  peer_eq_iff (addr ip) (addr ip),
  peer_eq_iff (addr_port ip port) (addr_port ip port),
)

-- The peers that a mapping remembers after a packet to `ip` at `port`.
contains-note_peer :
    (ps : List Peer) (proto : NatProto) (ip : Ip) (port : ℕ)
    → (qs : List Peer) × (note_peer (some ps) proto ip port ≡ some qs)
      × ((contains qs (addr ip) ≡ true) × (contains qs (peer_at proto ip port) ≡ true))
unfolding note_peer
contains-note_peer ps icmp ip port =
    let self : contains (add ps (addr ip)) (addr ip) ≡ true =
      ground (arith, contains-add ps (addr ip) (addr ip), peer_eq_iff (addr ip) (addr ip)) in
    (add ps (addr ip), refl, (self, self))
contains-note_peer ps tcp ip port =
    (add (add ps (addr ip)) (addr_port ip port), refl, two_peers ps ip port)
contains-note_peer ps udp ip port =
    (add (add ps (addr ip)) (addr_port ip port), refl, two_peers ps ip port)

module _ (kind : NatType) (e : NatEntry) (back : Ipv4Packet) (g : Flow) where
  admits-open : e.peers ≡ none → admits kind e back g ≡ true
  unfolding admits
  admits-open h = ground arith

  admits-some :
      (qs : List Peer)
      → e.peers ≡ some qs
      → admits kind e back g ≡ admits_peers kind e.dest qs back g
  unfolding admits
  admits-some qs h = ground arith

-- A symmetric NAT binds the mapping to its destination.
bound-dest :
    (t : NatTable) (pkt : Ipv4Packet) (f : Flow) (e : NatEntry)
    → inner_key_of e ≡ lookup_key t pkt f
    → is_symmetric t.kind ≡ true
    → e.dest ≡ some (peer_at f.proto pkt.dst f.to_id)
unfolding lookup_key
bound-dest t pkt f e same sym_kind =
    ap (λ (k : InnerKey). k.dest) same
    ∙ ap (λ (b : Bool). if b then some (peer_at f.proto pkt.dst f.to_id) else none) sym_kind

-- `back` is an answer: it comes from the address, and the port, that `pkt` went to.
module _ (pkt back : Ipv4Packet) (f g : Flow) (src : back.src ≡ pkt.dst)
    (peer : sender back g ≡ peer_at f.proto pkt.dst f.to_id) where
  admits_peers-answer :
      (kind : NatType) (dest : Option Peer) (ps : List Peer)
      → (is_symmetric kind ≡ true → dest ≡ some (peer_at f.proto pkt.dst f.to_id))
      → contains ps (addr pkt.dst) ≡ true
      → contains ps (peer_at f.proto pkt.dst f.to_id) ≡ true
      → admits_peers kind dest ps back g ≡ true
  unfolding admits_peers
  admits_peers-answer full_cone dest ps bound known known_port = refl
  admits_peers-answer restricted dest ps bound known known_port = rw src known
  admits_peers-answer port_restricted dest ps bound known known_port =
      subst (λ x. contains ps x ≡ true) (sym peer) known_port
  admits_peers-answer symmetric none ps bound known known_port = absurd (cc (bound refl))
  admits_peers-answer symmetric (some d) ps bound known known_port =
      (peer_eq_iff _ _).1 (cc (bound refl, peer))

  -- The filter lets the answer in, whatever the type of the NAT.
  admits-answer :
      (t : NatTable) (e : NatEntry)
      → inner_key_of e ≡ lookup_key t pkt f
      → (ps : Option (List Peer)) → e.peers ≡ note_peer ps f.proto pkt.dst f.to_id
      → admits t.kind e back g ≡ true
  unfolding note_peer
  admits-answer t e same none noted = admits-open t.kind e back g noted
  admits-answer t e same (some ps) noted =
      let (qs, shape, (known, known_port)) = contains-note_peer ps f.proto pkt.dst f.to_id in
      admits-some t.kind e back g qs (noted ∙ shape)
      ∙ admits_peers-answer t.kind e.dest qs (bound-dest t pkt f e same) known known_port

error_of-flow : (p : IpPayload) (f : Flow) → flow_of p ≡ some f → error_of p ≡ none
unfolding error_of flow_of
error_of-flow (error e) f h = absurd (cc)
error_of-flow _ f h = refl

-- A packet of a flow goes by the tables.
translate-flow :
    (t : NatTable) (pkt : Ipv4Packet) (f : Flow) (public_ip : Ip) (now : ℕ)
    → flow_of pkt.payload ≡ some f
    → reply_rule t pkt f ≡ none
    → translate t pkt public_ip now ≡ translate_flow t pkt f public_ip now
unfolding translate
translate-flow t pkt f public_ip now flow no_rule = ground (arith, error_of-flow pkt.payload f)

restore-flow :
    (t : NatTable) (back : Ipv4Packet) (g : Flow) (now : ℕ)
    → flow_of back.payload ≡ some g
    → restore t back now ≡ restore_flow t back g now
unfolding restore
restore-flow t back g now flow = ground (arith, error_of-flow back.payload g)

-- A mapping that admits a packet lets it in, to its own inner host.
restore_flow-admitted :
    (t : NatTable) (back : Ipv4Packet) (g : Flow) (now : ℕ) (e : NatEntry)
    → get t.entries (record { proto = g.proto; public_id = g.to_id }) ≡ some e
    → admits t.kind e back g ≡ true
    → (restore_flow t back g now).0 ≡ some (enter back e.lan_ip e.inner_id)
unfolding restore_flow
restore_flow-admitted t back g now e found ok = ground arith

translate_flow-done :
    (t : NatTable) (pkt : Ipv4Packet) (f : Flow) (public_ip : Ip) (now : ℕ) (e : NatEntry)
    (t' : NatTable)
    → update_entry
        (find_or_create (expire t now) pkt f now).1
        (find_or_create (expire t now) pkt f now).0
        (touch_out pkt f now)
      ≡ some (e, t')
    → translate_flow t pkt f public_ip now
      ≡ some (record {
        packet = some (leave pkt public_ip e.public_id);
        table = t';
        created = (find_or_create (expire t now) pkt f now).2;
      })
unfolding translate_flow
translate_flow-done t pkt f public_ip now e t' done = rw (done, translate_flow)

-- the key that an answer is looked up by
answer_key :
    (g f : Flow) (t : NatTable) (pkt : Ipv4Packet) (e e' : NatEntry)
    → inner_key_of e ≡ lookup_key t pkt f
    → inner_key_of e' ≡ inner_key_of e
    → nat_key_of e' ≡ nat_key_of e
    → g.proto ≡ f.proto
    → g.to_id ≡ e'.public_id
    → ◌≡◌ {A = NatKey} (record { proto = g.proto; public_id = g.to_id }) (nat_key_of e)
unfolding lookup_key
answer_key g f t pkt e e' same same_inner same_public proto id = ground arith

-- the host that an answer goes to
inner_host :
    (back : Ipv4Packet) (t : NatTable) (pkt : Ipv4Packet) (f : Flow) (e : NatEntry)
    → inner_key_of e ≡ lookup_key t pkt f
    → ◌≡◌ {A = Option Ipv4Packet}
        (some (enter back e.lan_ip e.inner_id))
        (some (enter back pkt.src f.from_id))
unfolding lookup_key
inner_host back t pkt f e same = ap (λ (k : InnerKey). some (enter back k.lan_ip k.inner_id)) same

pub translated :
    (t : NatTable) (pkt : Ipv4Packet) (f : Flow) (public_ip : Ip) (now : ℕ)
    → Inv t
    → flow_of pkt.payload ≡ some f
    → reply_rule t pkt f ≡ none
    → (r : Translated) × (id : ℕ) × (translate t pkt public_ip now ≡ some r)
      × (r.packet ≡ some (leave pkt public_ip id))
      × Inv r.table
      × ((e : NatEntry) × (get r.table.entries (record { proto = f.proto; public_id = id })
            ≡ some e)
          × (e.lan_ip ≡ pkt.src)
          × (e.inner_id ≡ f.from_id))
      × ((back : Ipv4Packet) (g : Flow) (later : ℕ)
          → flow_of back.payload ≡ some g
          → g.proto ≡ f.proto
          → g.to_id ≡ id
          → back.src ≡ pkt.dst
          → sender back g ≡ peer_at f.proto pkt.dst f.to_id
          → (restore r.table back later).0 ≡ some (enter back pkt.src f.from_id))
translated t pkt f public_ip now v flow no_rule =
    let t0 = expire t now in
    let w = expire-Inv t now v in
    let (e, found, same, kind, v1) = find_or_create-Inv t0 pkt f now w in
    let t1 = (find_or_create t0 pkt f now).1 in
    let key = (find_or_create t0 pkt f now).0 in
    let (same_inner, same_public) = touch_out-keys pkt f now e in
    let (done, v2) =
      update_entry-Inv t1 key e (touch_out pkt f now) v1 found same_inner same_public in
    (
      record {
        packet = some (leave pkt public_ip (touch_out pkt f now e).public_id);
        table = record t1 { entries = put t1.entries key (touch_out pkt f now e) };
        created = (find_or_create t0 pkt f now).2;
      },
      (touch_out pkt f now e).public_id,
      translate-flow t pkt f public_ip now flow no_rule
          ∙ translate_flow-done t pkt f public_ip now _ _ done,
      refl,
      v2,
      (
        touch_out pkt f now e,
        ap (get (put t1.entries key (touch_out pkt f now e))) (
              answer_key (record f { to_id = (touch_out pkt f now e).public_id }) f t0 pkt e
                (touch_out pkt f now e) same same_inner same_public refl refl
              ∙ v1.paired.keyed key e found)
            ∙ get-put_self t1.entries key _,
        unfold lookup_key in ap (λ (k : InnerKey). k.lan_ip) (same_inner ∙ same),
        unfold lookup_key in ap (λ (k : InnerKey). k.inner_id) (same_inner ∙ same),
      ),
      λ back g later flow' proto id src peer.
          ap (λ (x : Option Ipv4Packet × NatTable). x.0) (restore-flow _ back g later flow')
          ∙ restore_flow-admitted _ back g later (touch_out pkt f now e)
              (ap (get (put t1.entries key (touch_out pkt f now e))) (
                  answer_key g f t0 pkt e (touch_out pkt f now e) same same_inner same_public proto
                    id
                  ∙ v1.paired.keyed key e found)
                ∙ get-put_self t1.entries key _)
              (subst (λ k. admits k (touch_out pkt f now e) back g ≡ true) (sym kind)
                (admits-answer pkt back f g src peer t0 (touch_out pkt f now e) (same_inner ∙ same)
                  e.peers (touch_out-peers pkt f now e)))
          ∙ inner_host back t0 pkt f (touch_out pkt f now e) (same_inner ∙ same),
    )

-- In a table in order, a flow that no forwarding rule answers for is always translated: the
-- packet leaves from the public address and a public id whose mapping, in the table then, is to the
-- packet's inner host and the id or port that it came from, and the table stays in order.
pub translate_leaves :
    (t : NatTable) (pkt : Ipv4Packet) (f : Flow) (public_ip : Ip) (now : ℕ)
    → Inv t
    → flow_of pkt.payload ≡ some f
    → reply_rule t pkt f ≡ none
    → (r : Translated) × (id : ℕ) × (translate t pkt public_ip now ≡ some r)
      × (r.packet ≡ some (leave pkt public_ip id))
      × Inv r.table
      × ((e : NatEntry) × (get r.table.entries (record { proto = f.proto; public_id = id })
            ≡ some e)
          × (e.lan_ip ≡ pkt.src)
          × (e.inner_id ≡ f.from_id))
translate_leaves t pkt f public_ip now v flow no_rule =
    let (r, id, done, sent, w, owner, answers) = translated t pkt f public_ip now v flow no_rule in
    (r, id, done, sent, w, owner)

flow_of-with_source :
    (p : IpPayload) (id : ℕ) (f h : Flow)
    → flow_of p ≡ some f
    → flow_of (with_source p id) ≡ some h
    → h.from_id ≡ id
unfolding flow_of with_source
flow_of-with_source (error e) id f h flow out = absurd (cc)
flow_of-with_source (esp e) id f h flow out = absurd (cc)
flow_of-with_source (vrrp e) id f h flow out = absurd (cc)
flow_of-with_source (pfsync e) id f h flow out = absurd (cc)
flow_of-with_source (igmp e g) id f h flow out = absurd (cc)
flow_of-with_source (echo ty i seq) id f h flow out =
    sym (ap (λ (x : Flow). x.from_id) (some-injective _ h out))
flow_of-with_source (IpPayload.udp u) id f h flow out =
    sym (ap (λ (x : Flow). x.from_id) (some-injective _ h out))
flow_of-with_source (IpPayload.tcp u) id f h flow out =
    sym (ap (λ (x : Flow). x.from_id) (some-injective _ h out))

-- In a table in order, a packet that leaves by a mapping, not by a forwarding rule, is answered:
-- whatever the type of the NAT and whenever it comes, the next packet to come in, from the address
-- (and for TCP and UDP the port) that it went to, back to the id or port that it left from, is let
-- in, and goes to the inner host at its own id or port.
pub restore-translate :
    (t : NatTable) (pkt out back : Ipv4Packet) (f h g : Flow) (public_ip : Ip) (now later : ℕ)
    (r : Translated)
    → Inv t
    → flow_of pkt.payload ≡ some f
    → reply_rule t pkt f ≡ none
    → translate t pkt public_ip now ≡ some r
    → r.packet ≡ some out
    → flow_of out.payload ≡ some h
    → flow_of back.payload ≡ some g
    → g.proto ≡ f.proto
    → g.to_id ≡ h.from_id
    → back.src ≡ pkt.dst
    → sender back g ≡ peer_at f.proto pkt.dst f.to_id
    → (restore r.table back later).0 ≡ some (enter back pkt.src f.from_id)
restore-translate t pkt out back f h g public_ip now later r v flow no_rule done sent left flow'
      proto id src peer =
    let (r', id', done', sent', w, owner, answers) =
      translated t pkt f public_ip now v flow no_rule in
    let same : r' ≡ r = some-injective r' r (sym done' ∙ done) in
    let gone : leave pkt public_ip id' ≡ out =
      some-injective _ out (sym sent' ∙ ap (λ (x : Translated). x.packet) same ∙ sent) in
    let from : h.from_id ≡ id' =
      flow_of-with_source pkt.payload id' f h flow
        (ap (λ (x : Ipv4Packet). flow_of x.payload) gone ∙ left) in
    subst (λ (x : Translated). (restore x.table back later).0 ≡ some (enter back pkt.src f.from_id))
      same (answers back g later flow' proto (id ∙ from) src peer)
