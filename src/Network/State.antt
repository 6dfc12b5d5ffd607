-- ===== src/Network/State.antt =====
-- The state of src/core/network.ts and the interface of devices (`SimNode` and `NodeContext` of
-- src/core/nodes/node.ts). What a device does is a parameter: a handler takes the device's state and
-- what the context tells, and returns the new state with the commands that it gave, in order.
-- Objects that the queue shares with the tables (transmissions, timers, links) are in stores by
-- number. A loss rate is the least number of 2 ^ -32 that is not below it. Traces, the frame log and
-- `lostAt`, which the display reads, are left out.
use net_sim.Prelude.{
  nat_eq, ℕ, ◌≡◌, ◌↔◌, Bool, true, ◌&&◌, List, [], ◌==◌, arith, Text, text_eq, text_eq_iff, Eq,
  Dict,
}
use net_sim.Packet.{EthernetFrame}
use net_sim.Scheduler.{Scheduler}

pub record Endpoint : Type 0 where
  pub node : Text
  pub port : ℕ

unfoldable pub endpoint_eq : Endpoint → Endpoint → Bool
endpoint_eq a b = text_eq a.node b.node && a.port == b.port

pub endpoint_eq_iff : (a b : Endpoint) → (endpoint_eq a b ≡ true) ↔ (a ≡ b)
unfolding endpoint_eq
endpoint_eq_iff a b = ground (arith, text_eq_iff a.node b.node)

instance abbrev pub endpoint_key : Eq Endpoint
endpoint_key = record { beq = endpoint_eq; beq_iff = endpoint_eq_iff }

pub record Link : Type 0 where
  pub id : Text
  pub a : Endpoint
  pub b : Endpoint
  pub latency : ℕ
  pub loss : ℕ
  pub drop_next : Bool

pub record Transmission : Type 0 where
  pub link_id : Text
  pub from : Endpoint
  pub to : Endpoint
  pub depart_at : ℕ
  pub arrive_at : ℕ
  pub frame : EthernetFrame
  pub lost : Bool
  pub graceful : Bool

-- what a device tells the simulator to do; a timer that is cancelled is named by its number
pub data Command (D : Type 0) : Type 0 where
  send : ℕ → EthernetFrame → Command D
  timer : ℕ → D → Bool → Command D
  cancel : ℕ → Command D

-- what the context tells a device: the numbers are those that the next packet and timer take
pub record NodeContext : Type 0 where
  pub now : ℕ
  pub connected : ℕ → Bool
  pub packet_seq : ℕ
  pub timer_seq : ℕ

-- a device after a handler, its commands, and the packet numbers then used up
pub record Outcome (S D : Type 0) : Type 0 where
  pub node : S
  pub commands : List (Command D)
  pub packets : ℕ

pub record Devices (S A D : Type 0) : Type 0 where
  pub port_count : S → ℕ
  pub receive : S → NodeContext → ℕ → EthernetFrame → Outcome S D
  pub on_timer : S → NodeContext → D → Outcome S D
  pub on_link : S → NodeContext → ℕ → Bool → Outcome S D
  pub on_remove : S → NodeContext → Outcome S D
  pub act : S → NodeContext → A → Outcome S D

pub record Timer (D : Type 0) : Type 0 where
  pub node : Text
  pub data_of : D
  pub cancelled : Bool

pub data SimEvent (A : Type 0) : Type 0 where
  deliver : ℕ → SimEvent A
  fire : ℕ → SimEvent A
  action : Text → A → SimEvent A

pub record Network (S A D : Type 0) : Type 0 where
  pub nodes : Dict Text S
  pub links : Dict Text ℕ
  pub link_store : Dict ℕ Link
  pub port_map : Dict Endpoint (ℕ × Endpoint)
  pub tx_store : Dict ℕ Transmission
  pub transmissions : List ℕ
  pub timer_store : Dict ℕ (Timer D)
  pub timers_of : Dict Text (List ℕ)
  pub actions : List (ℕ × (Text × A))
  pub sched : Scheduler (SimEvent A)
  pub bg : Scheduler (SimEvent A)
  pub now : ℕ
  pub event_count : ℕ
  pub packet_seq : ℕ
  pub tx_seq : ℕ
  pub link_seq : ℕ
  pub link_ref : ℕ
  pub timer_seq : ℕ
  pub rng : ℕ

module _ {S A D : Type 0} where
  abbrev pub new : Network S A D
  new = record {
    nodes = [];
    links = [];
    link_store = [];
    port_map = [];
    tx_store = [];
    transmissions = [];
    timer_store = [];
    timers_of = [];
    actions = [];
    sched = record { heap = []; seq = 0 };
    bg = record { heap = []; seq = 0 };
    now = 0;
    event_count = 0;
    packet_seq = 0;
    tx_seq = 0;
    link_seq = 0;
    link_ref = 0;
    timer_seq = 0;
    rng = 0x2545_f491;
  }
