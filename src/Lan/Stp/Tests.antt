-- ===== src/Lan/Stp/Tests.antt =====
-- A bridge of three ports: port 2 is not connected, port 0 leads to a lower bridge.
use net_sim.Prelude.{
  nat_eq, ℕ, ◌+◌, ◌≡◌, ◌⊎◌, refl, true, false, not, ◌&&◌, none, some, [], ◌∷◌, arith, codes,
  text_eq, ltb, ◌==◌, if◌then◌else◌, get, put, delete, contains, add, add_capped, remove,
}
use net_sim.Packet.{BridgeId, BpduPacket}
use net_sim.Lan.Stp.Order.{Vector, cmp_text, cmp_id, cmp_vec, is_higher}
use net_sim.Lan.Stp.Root.{
  StpConfig, root_port, designated, alternate, disabled, Stp, init, Ports, me, is_root, forwarding,
  hash_from, hash, improves, consider, consider_all, best_root, role_of, is_changed, is_lost,
  schedule, elect, announce, recompute,
}
use net_sim.Lan.Stp.Protocol.{
  withdrawal, withdraw_on, withdraw, set_config, bpdu_on, correct, hear_change, forget, accept,
  hear, handle, on_link, send_all, on_timer,
}
use net_sim.Lan.Stp.Election.{elect-lowest, elect-source}
use net_sim.Lan.Stp.Roles.{should_forward, recompute-forwarding}
use net_sim.Lan.Stp.Hearing.{remembered, handle-heard}

program : Unit {0}
unfolding text_eq get put delete contains add add_capped remove cmp_text cmp_id cmp_vec is_root
    forwarding hash_from hash improves consider consider_all best_root role_of is_changed is_lost
    schedule elect announce recompute withdrawal withdraw_on withdraw set_config bpdu_on correct
    hear_change forget accept hear handle on_link send_all on_timer
program = tt

abbrev ports : Ports
ports = record { port_count = 3; connected = λ p. not (p == 2) }

abbrev on : StpConfig
on = record { enabled = true; priority = 32768 }

abbrev alone : Stp
alone = (set_config init ports on (codes "02:00:00:00:00:05")).0

abbrev low : BridgeId
low = record { prio = 4096; mac = codes "02:00:00:00:00:09" }

abbrev told : BpduPacket
told = record { root = low; cost = 0; bridge = low; port = 3; age = 0; tc = none }

abbrev echoed : BpduPacket
echoed = record { root = low; cost = 0; bridge = low; port = 4; age = 0; tc = none }

abbrev joined : Stp
joined = (handle (handle alone ports 0 told).0 ports 1 echoed).0

-- Alone the bridge is the root. Two links to a lower bridge: the second is blocked.
stp_tests :
    (alone.roles ≡ designated ∷ designated ∷ disabled ∷ [])
    × (is_root alone ≡ true)
    × (joined.roles ≡ root_port ∷ alternate ∷ disabled ∷ [])
    × (joined.root ≡ low)
    × (joined.root_cost ≡ 4)
    × (forwarding joined 1 ≡ false)
    × ((handle joined ports 0 (record told { age = 21 })).0.roles
        ≡ designated ∷ root_port ∷ disabled ∷ [])
    × ((on_link joined ports 0 false).0.root ≡ low)
unfolding program
stp_tests = (refl, refl, refl, refl, refl, refl, refl, refl)

abbrev heard : Stp
heard = record alone { heard = (0, told) ∷ (1, echoed) ∷ [] }

abbrev mine : Vector
mine = record { root = me alone; cost = 0; bridge = me alone; port = 0 }

elect-lowest_example :
    (is_higher (cmp_id (elect heard ports).root (me heard)) ≡ false)
    × (is_higher (cmp_id (elect heard ports).root low) ≡ false)
unfolding program
elect-lowest_example = elect-lowest heard ports 1 echoed (omega arith) refl refl

elect-source_example :
    ((elect heard ports).root ≡ me heard)
      × ((elect heard ports).root_cost ≡ 0)
      × ((elect heard ports).root_port_no ≡ none)
    ⊎ ((p : ℕ) × (h : BpduPacket) × (get heard.heard p ≡ some h)
        × (ports.connected p ≡ true)
        × ((elect heard ports).root ≡ h.root)
        × ((elect heard ports).root_cost ≡ h.cost + 4)
        × ((elect heard ports).root_port_no ≡ some p))
elect-source_example = elect-source heard ports

recompute-forwarding_example :
    forwarding (recompute heard ports false).0 1
    ≡ (ltb 1 3 && should_forward (elect heard ports) ports 1)
unfolding program
recompute-forwarding_example = recompute-forwarding heard ports false 1 refl

handle-heard_example :
    get (handle heard ports 1 told).0.heard 1
    ≡ (if 1 == 1 then remembered (get heard.heard 1) told else get heard.heard 1)
unfolding program
handle-heard_example = handle-heard heard ports 1 1 told refl
