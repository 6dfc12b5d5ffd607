-- ===== src/Lan/Hub.antt =====
-- src/core/nodes/hub.ts: a repeater.
use net_sim.Prelude.{
  ℕ, suc, Bool, not, ◌&&◌, none, some, List, [], map, ◌==◌, if◌then◌else◌, Dict, keep, upto,
}
use net_sim.Packet.{EthernetFrame}
use net_sim.Lan.Loop.{SeenKey, guard_loop, hops_of}

pub record Hub : Type 0 where
  pub port_count : ℕ
  pub seen : Dict SeenKey ℕ

abbrev pub hop : EthernetFrame → EthernetFrame
hop frame = record frame { hops = some (suc (hops_of frame)) }

-- the ports that a frame is repeated to
unfoldable pub repeat_ports : (ℕ → Bool) → Hub → ℕ → List ℕ
repeat_ports connected h port = keep (λ p. not (p == port) && connected p) (upto h.port_count 0)

-- The frames sent, and the hub after it.
unfoldable pub receive : (ℕ → Bool) → Hub → ℕ → EthernetFrame → List (ℕ × EthernetFrame) × Hub
receive connected h port frame =
    let (ok, seen) = guard_loop h.seen port frame none in
    if ok
    then (map (λ p. (p, hop frame)) (repeat_ports connected h port), record h { seen = seen })
    else ([], record h { seen = seen })
