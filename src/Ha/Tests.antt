-- ===== src/Ha/Tests.antt =====
-- Two boxes that share 10.0.0.1 on their first interface.
use net_sim.Prelude.{
  nat_eq, ℕ, ◌≡◌, ◌<◌, refl, true, not, none, some, [], ◌∷◌, ◌++◌, codes, text_eq, arith, false,
  List,
}
use net_sim.Addr.{Ip, ip_to_int, split, is_number, all_digits, number_from, octet, octets_from}
use net_sim.Addr6.{hex, hex_fuel}
use net_sim.Ha.{
  Effect, starts_timer, HaConfig, HaHost, Ha, new, master, is_master, skew_ms, two_digits,
  virtual_mac, vips_from, all_up, token,
}
use net_sim.Ha.Roles.{
  effective_priority, first_address, outranks, advert_to, arm, schedule_advert, watch_master, start,
  take_vips, drop_vips, become_master, resign,
}
use net_sim.Ha.Calls.{
  vips_eq, flag_eq, rest_eq, config_eq, set_advert, restart, set_config, on_timer, hear_as_master,
  handle, or_nothing, step, run, configures, fires, Call, changes_links,
}
use net_sim.Ha.Election.{Working, advert_of, masters_settle}
use net_sim.Ha.Held.{held, Fits}
use net_sim.Ha.Holding.{run-Fits}
use net_sim.Ha.Progress.{skew_ms-order, start-master}

program : Unit {0}
unfolding text_eq ip_to_int split is_number all_digits number_from octet octets_from hex hex_fuel
    is_master skew_ms two_digits virtual_mac vips_from all_up effective_priority first_address
    outranks advert_to arm schedule_advert watch_master start take_vips drop_vips become_master
    resign vips_eq flag_eq rest_eq config_eq set_advert restart set_config on_timer hear_as_master
    handle step run
program = tt

abbrev at : Ip → HaHost
at ip = record { iface_ip = λ i. some ip; link_up = λ i. true }

abbrev shared : ℕ → HaConfig
shared priority = record {
  enabled = true;
  vrid = 7;
  priority = priority;
  vips = some (codes "10.0.0.1") ∷ [];
  sync = none;
  advert = some true;
}

abbrev host_a : HaHost
host_a = at (codes "10.0.0.2")

abbrev host_b : HaHost
host_b = at (codes "10.0.0.3")

abbrev dark : HaHost
dark = record { iface_ip = λ i. none; link_up = λ i. false }

mac_test : virtual_mac 7 ≡ codes "00:00:5e:00:01:07"
unfolding program
mac_test = refl

-- a box that hears nothing after it was configured
abbrev alone : HaHost → ℕ → Ha
alone host priority =
    (run 1 new ((host, configures (shared priority)) ∷ (host, fires (token 1)) ∷ [])).1

alone_test : (alone host_a 100).state ≡ master
unfolding program
alone_test = refl

host_a-Working : Working 1 host_a (alone host_a 100) 167772162
unfolding program
host_a-Working = (refl, (refl, (refl, (omega arith, refl))))

host_b-Working : Working 1 host_b (alone host_b 100) 167772163
unfolding program
host_b-Working = (refl, (refl, (refl, (omega arith, refl))))

masters_settle_example :
    is_master
      (or_nothing (alone host_b 100) (
        handle 1 host_b
          (alone host_b 100)
          (codes "10.0.0.2")
          (advert_of 1 host_a (alone host_a 100).config (codes "10.0.0.1")))).1.state
    ≡ not (
        is_master
          (or_nothing (alone host_a 100) (
            handle 1 host_a
              (alone host_a 100)
              (codes "10.0.0.3")
              (advert_of 1 host_b (alone host_b 100).config (codes "10.0.0.1")))).1.state)
unfolding program
masters_settle_example =
    masters_settle 1 1 host_a host_b (alone host_a 100) (alone host_b 100) 167772162 167772163
      (codes "10.0.0.2") (codes "10.0.0.3") (codes "10.0.0.1") (codes "10.0.0.1") host_a-Working
      host_b-Working refl refl

skew_ms-order_example : skew_ms 200 < skew_ms 100
skew_ms-order_example = skew_ms-order 100 200 (omega arith) (omega arith)

abbrev waiting : Ha
waiting = record new { config = shared 100 }

start-master_example :
    ((es : List Effect) × ((start 1 host_a waiting).0 ≡ es ++ starts_timer 3609 (token 1) ∷ []))
    × (is_master (on_timer 1 host_a (start 1 host_a waiting).1 (token 1)).1.state ≡ true)
unfolding program
start-master_example = start-master 1 host_a waiting refl refl

-- configured, made the master, and then told that its links changed
abbrev calls : List (HaHost × Call)
calls = (host_a, configures (shared 100)) ∷ (host_a, fires (token 1)) ∷ (dark, changes_links) ∷ []

held_test :
    held 0 none (run 1 new ((host_a, configures (shared 100)) ∷ (host_a, fires (token 1)) ∷ [])).0
    ≡ some (record { ip = codes "10.0.0.1"; mac = codes "00:00:5e:00:01:07" })
unfolding program held
held_test = refl

run-Fits_example : Fits 1 0 none (run 1 new calls)
run-Fits_example = run-Fits 1 calls 0
