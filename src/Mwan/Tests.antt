-- ===== src/Mwan/Tests.antt =====
-- A device that turns failover on with a track address, and whose WAN1 goes silent.
use net_sim.Prelude.{nat_eq, ◌≡◌, refl, true, false, none, some, List, [], ◌∷◌, codes, text_eq}
use net_sim.Addr.{Ip}
use net_sim.Mwan.{
  wan, wan2, wan_eq, Lookout, new, usable, track_eq, same_bool, switch_to, wanted, decide, arm,
  set_config,
}
use net_sim.Mwan.Calls.{
  on_line, on_reply, seen_line, answered_line, silent_line, judge, track_line, track_both, on_timer,
  Call, configures, lines, replies, fires, step, run,
}
use net_sim.Mwan.Sane.{Sane, run-Sane}
use net_sim.Mwan.Failover.{all_ready, rounds, tracking, pinged, silence-switches, answers-return}

program : Unit {0}
unfolding text_eq wan_eq usable track_eq same_bool switch_to wanted decide arm set_config on_line
    on_reply seen_line answered_line silent_line judge track_line track_both on_timer step run
program = tt

abbrev google : Ip
google = codes "8.8.8.8"

-- one line is out
abbrev one_down : Lookout
one_down = record { ready = λ w. wan_eq w wan2; waiting = λ w. false }

abbrev calls : List (Lookout × Call)
calls =
    (all_ready, configures true (some google) true)
    ∷ (all_ready, fires 1)
    ∷ (all_ready, replies wan2 2)
    ∷ (all_ready, fires 2)
    ∷ (all_ready, replies wan2 4)
    ∷ (all_ready, fires 3)
    ∷ (all_ready, replies wan2 6)
    ∷ (all_ready, fires 4)
    ∷ []

switched : (run new calls).active ≡ wan2
unfolding program
switched = refl

plugged_out :
    (run new ((all_ready, configures true none true) ∷ (one_down, lines wan) ∷ [])).active ≡ wan2
unfolding program
plugged_out = refl

run-Sane_example : Sane (run new calls)
run-Sane_example = run-Sane calls

silence-switches_example :
    (rounds wan2 3 (tracking new wan google (pinged true 0 1 1) (pinged true 0 1 2))).active ≡ wan2
silence-switches_example = silence-switches new wan google true true 0 1 1 0 1 2

answers-return_example :
    (rounds wan 2 (tracking new wan2 google (pinged false 3 0 7) (pinged true 0 4 8))).active ≡ wan
answers-return_example = answers-return new wan2 google false true 3 0 7 0 4 8
