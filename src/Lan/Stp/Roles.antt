-- ===== src/Lan/Stp/Roles.antt =====
-- What `recompute` leaves alone, and which ports forward after it.
use net_sim.Prelude.{
  nat_eq, ℕ, zero, suc, ◌+◌, ◌≡◌, refl, ap, ◌∙◌, Bool, true, false, ◌&&◌, ◌||◌, Option, none, some,
  List, [], map, arith, ltb, if◌then◌else◌, get_elem?, upto, Dict, get,
}
use net_sim.Packet.{Mac, BridgeId, BpduPacket}
use net_sim.Lan.Stp.Order.{cmp_vec, is_lower}
use net_sim.Lan.Stp.Root.{
  StpConfig, StpRole, Stp, Effect, Ports, my_vector, vector_of, is_forwarding_role, forwarding,
  opt_nat_eq, role_of, schedule, announce, elect, recompute,
}

-- the fields that decide on ports and messages
pub record View : Type 0 where
  pub config : StpConfig
  pub mac : Mac
  pub heard : Dict ℕ BpduPacket
  pub roles : List StpRole
  pub root : BridgeId
  pub root_cost : ℕ
  pub root_port_no : Option ℕ

unfoldable pub view : Stp → View
view s = record {
  config = s.config;
  mac = s.mac;
  heard = s.heard;
  roles = s.roles;
  root = s.root;
  root_cost = s.root_cost;
  root_port_no = s.root_port_no;
}

if-view :
    (b : Bool) (x y : Stp × List Effect) (v : View)
    → view x.0 ≡ v
    → view y.0 ≡ v
    → view (if b then x else y).0 ≡ v
if-view true x y v h k = h
if-view false x y v h k = k

pub schedule-view : (s : Stp) → view (schedule s).0 ≡ view s
unfolding schedule view
schedule-view s = if-view s.send_pending _ _ (view s) refl refl

announce-view : (s : Stp) → view (announce s).0 ≡ view s
unfolding announce view
announce-view s = refl

-- the state that the roles are computed in, and the roles
abbrev pub settled : Stp → Ports → Stp
settled s ports =
    let s1 = elect s ports in record s1 { roles = map (role_of s1 ports) (upto ports.port_count 0) }

abbrev maybe_announce : Bool → Stp → Stp × List Effect
maybe_announce topo s = if topo then announce s else (s, [])

abbrev maybe_schedule : Bool → Stp → Stp × List Effect
maybe_schedule b s = if b then schedule s else (s, [])

maybe-view :
    (b topo : Bool) (s : Stp) → view (maybe_schedule b (maybe_announce topo s).0).0 ≡ view s
maybe-view b topo s =
    if-view b _ _ (view (maybe_announce topo s).0) (schedule-view _) refl
    ∙ if-view topo _ _ (view s) (announce-view s) refl

pub recompute-view :
    (s : Stp) (ports : Ports) (force : Bool)
    → view (recompute s ports force).0 ≡ view (settled s ports)
unfolding recompute
recompute-view s ports force = maybe-view _ _ (settled s ports)

pub elect-frame :
    (s : Stp) (ports : Ports)
    → ((elect s ports).config ≡ s.config)
      × ((elect s ports).mac ≡ s.mac)
      × ((elect s ports).heard ≡ s.heard)
unfolding elect
elect-frame s ports = (refl, refl, refl)

pub get_elem?-map-upto :
    (f : ℕ → StpRole) (n i p : ℕ)
    → get_elem? (map f (upto n i)) p ≡ (if ltb p n then some (f (i + p)) else none)
get_elem?-map-upto f zero i p = ground arith
get_elem?-map-upto f (suc n) i zero = ground (arith)
get_elem?-map-upto f (suc n) i (suc p) = ground (arith, get_elem?-map-upto f n (suc i) p)

-- whether a role computed for `p` forwards: written out
abbrev pub should_forward : Stp → Ports → ℕ → Bool
should_forward s ports p =
    ports.connected p
    && (opt_nat_eq s.root_port_no (some p) || elim (get s.heard p) [
      | none ↦ true
      | some h ↦ is_lower (cmp_vec (my_vector s p) (vector_of h))
    ])

role_of-forwards :
    (s : Stp) (ports : Ports) (p : ℕ)
    → is_forwarding_role (some (role_of s ports p)) ≡ should_forward s ports p
unfolding role_of
role_of-forwards s ports p = ground arith

forwarding-view : (a b : Stp) (p : ℕ) → view a ≡ view b → forwarding a p ≡ forwarding b p
unfolding forwarding view
forwarding-view a b p e =
    ap (λ (v : View). if v.config.enabled then is_forwarding_role (get_elem? v.roles p) else true) e

-- Where the spanning tree is on, after `recompute` a port forwards exactly when it is a connected
-- port of the switch that is the root port, or that has heard nothing, or whose own vector (the
-- newly elected root, this bridge) is lower than what it has heard.
pub recompute-forwarding :
    (s : Stp) (ports : Ports) (force : Bool) (p : ℕ)
    → s.config.enabled ≡ true
    → forwarding (recompute s ports force).0 p
      ≡ (ltb p ports.port_count && should_forward (elect s ports) ports p)
unfolding forwarding
recompute-forwarding s ports force p on =
    forwarding-view (recompute s ports force).0 (settled s ports) p (recompute-view s ports force)
    ∙ settled-forwarding
  where
    settled-forwarding :
        forwarding (settled s ports) p
        ≡ (ltb p ports.port_count && should_forward (elect s ports) ports p)
    settled-forwarding =
        let role = role_of (elect s ports) ports in
        let roles = map role (upto ports.port_count 0) in
        ap (λ (c : StpConfig). if c.enabled then is_forwarding_role (get_elem? roles p) else true)
          (elect-frame s ports).0
        ∙ ap (λ b. if b then is_forwarding_role (get_elem? roles p) else true) on
        ∙ ap is_forwarding_role (get_elem?-map-upto role ports.port_count 0 p)
        ∙ ground (arith, role_of-forwards (elect s ports) ports p)
