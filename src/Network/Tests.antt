-- ===== src/Network/Tests.antt =====
-- Two devices on a cable: an action sends a frame and starts two timers, one of them in the
-- background, and a device counts the frames and the timers that reach it.
use net_sim.Prelude.{
  nat_eq, text_key, ℕ, suc, ◌≡◌, ◌≤◌, refl, true, false, not, ◌==◌, none, List, [], ◌∷◌, codes,
  text_eq, get, put, delete, adjust, adjust_all, add, remove,
}
use net_sim.Addr.{decimal, decimal_fuel}
use net_sim.Packet.{EthernetFrame, arp}
use net_sim.Scheduler.{
  push, pop, less_at, sift_up, sift_down, swap, less, least_child, refill, pop_heap,
}
use net_sim.Network.State.{send, timer, NodeContext, Outcome, Devices, Network, new, endpoint_eq}
use net_sim.Network.Links.{
  xorshift, put_on, send_frame, start_timer, run_command, run_commands, visit, add_node,
  is_pluggable, connect, disconnect, pull_out, unplug, remove_node, schedule_action,
}
use net_sim.Network.Loop.{
  skip, is_dead_timer, is_lost, is_void, peek_next_time, ring, arrive, dispatch, take_background,
  take_next, step_until, settle, step, run_steps, run_until, run_to_idle, pending_events,
}
use net_sim.Network.Steps.{Running, run_until-settles, After}
use net_sim.Network.Progress.{run_to_idle-idle}
use net_sim.Network.Handling.{Handles, step-progress}
use net_sim.Network.Calls.{
  Call, adds, connects, schedules, removes, perform, perform_all, perform_all-Onward,
  perform_all_keeps_time, Onward, new-Running,
}

abbrev hello : EthernetFrame
hello = record {
  id = 7;
  src = codes "02:00:00:00:00:01";
  dst = codes "ff:ff:ff:ff:ff:ff";
  payload = arp 0;
  hops = none;
  vlan = none;
}

abbrev counted : ℕ → NodeContext → Outcome ℕ ℕ
counted s ctx = record { node = suc s; commands = []; packets = ctx.packet_seq }

abbrev started : ℕ → NodeContext → ℕ → Outcome ℕ ℕ
started s ctx a = record {
  node = s;
  commands = send 0 hello ∷ timer 20 a false ∷ timer 5 a true ∷ [];
  packets = ctx.packet_seq;
}

abbrev devices : Devices ℕ ℕ ℕ
devices = record {
  port_count = λ s. 2;
  receive = λ s ctx port frame. counted s ctx;
  on_timer = λ s ctx d. counted s ctx;
  on_link = λ s ctx port up. record { node = s; commands = []; packets = ctx.packet_seq };
  on_remove = λ s ctx. record { node = s; commands = []; packets = ctx.packet_seq };
  act = started;
}

abbrev build : List (Call ℕ ℕ ℕ)
build =
    adds (codes "a") 0
    ∷ adds (codes "b") 0
    ∷ connects (record { node = codes "a"; port = 0 }) (record { node = codes "b"; port = 0 }) 10
        none
    ∷ schedules 3 (codes "a") 1
    ∷ []

abbrev built : Network ℕ ℕ ℕ
built = perform_all devices new build

built-Running : Running built
built-Running = (perform_all-Onward devices build new (new-Running ℕ ℕ ℕ)).1

program : Unit {0}
unfolding text_eq decimal decimal_fuel less_at get put delete adjust adjust_all add remove push pop
    sift_up sift_down swap less least_child refill pop_heap endpoint_eq xorshift put_on send_frame
    start_timer run_command run_commands visit add_node is_pluggable connect disconnect pull_out
    unplug remove_node schedule_action skip is_dead_timer is_lost is_void peek_next_time ring arrive
    dispatch take_background take_next step_until step run_steps run_until run_to_idle perform
    perform_all
program = tt

-- the frame at 13, the background timer at 8 and the ordinary one at 23
handled : (run_until devices built 30 100).0 ≡ true
unfolding program
handled = refl

handled_count : (run_until devices built 30 100).1.0 ≡ 4
unfolding program
handled_count = refl

run_until-settles_example :
    (0 ≤ (run_until devices built 30 100).1.1.now)
    × (Running (run_until devices built 30 100).1.1
        × ((run_until devices built 30 100).0 ≡ true
            → ((run_until devices built 30 100).1.1.now ≡ 30)
              × After 30 (run_until devices built 30 100).1.1))
unfolding program
run_until-settles_example = run_until-settles devices built 30 100 built-Running

step-progress_example :
    ((step devices built).0 ≡ not (pending_events built == 0))
    × ((step devices built).0 ≡ true
        → (t : ℕ) × Handles devices (settle built) (step devices built).1 t)
step-progress_example = step-progress devices built built-Running

-- the action at 3, and the background timer at 8
first_step : (step_until devices built 8).0 ≡ true
unfolding program
first_step = refl

abbrev between : List (Call ℕ ℕ ℕ)
between = removes (codes "b") ∷ schedules 9 (codes "a") 1 ∷ []

abbrev after_first : Network ℕ ℕ ℕ
after_first = perform_all devices (step_until devices built 8).1 between

second_step : (step_until devices after_first 30).0 ≡ true
unfolding program
second_step = refl

perform_all_keeps_time_example :
    Onward built after_first
    × ((t : ℕ) × ((u : ℕ) × ((t ≤ u)
            × (Handles devices (settle built) (step_until devices built 8).1 t
                × Handles devices (settle after_first) (step_until devices after_first 30).1 u))))
perform_all_keeps_time_example =
    perform_all_keeps_time devices build between 8 30 first_step second_step

idle : (run_to_idle devices 10 built 0).0 ≡ true
unfolding program
idle = refl

run_to_idle-idle_example : pending_events (run_to_idle devices 10 built 0).1.1 ≡ 0
run_to_idle-idle_example = run_to_idle-idle devices 10 built 0 idle
