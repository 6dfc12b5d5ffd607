-- ===== src/Rip/Tests.antt =====
-- A router with two interfaces and a neighbour on each.
use mathlib.Core.Path.{subst}
use mathlib.Core.Option.{some-injective}
use net_sim.Addr.Total.{Gives, Parses}
use net_sim.Prelude.{
  zero, suc, arith, All, nat_eq, ℕ, ◌≡◌, refl, true, false, Option, none, some, List, [], ◌∷◌,
  codes, text_eq, ltb, Dict, get, put, delete, contains, add, remove,
}
use net_sim.Addr.{
  Ip, split, all_digits, number_from, is_number, octet, octets_from, ip_to_int, decimal_fuel,
  decimal, int_to_ip, mask_word, prefix_to_mask, network_of, same_subnet,
}
use net_sim.Rip.{
  RipRoute, RipEntry, RipMessage, response, RouteKey, route_key, route_key_eq, RipHost, Rip, new,
  Effect, kick, usable, own_network, own_subnets, with_default, own_networks,
}
use net_sim.Rip.Update.{
  check_route, check_routes, told_metric, entries_for, withdraw_all, update_on, update_all, checked,
  advertise, update, on_timer,
}
use net_sim.Rip.Learn.{
  hop_of, refresh, adopt, compare_route, learn_with, learn_entry, learn_all, take_message, is_near,
  ignore, handle,
}
use net_sim.Rip.Calls.{set_config}
use net_sim.Rip.Valid.{Proper, Valid}
use net_sim.Rip.History.{Call, configured, timed, heard, retired, remapped, run, run-Valid}
use net_sim.Rip.Fresh.{update-usable}
use net_sim.Rip.Horizon.{Fair, advertise-Fair}
use net_sim.Rip.Offers.{Offered, learn_entry-Offered}

program : Unit {0}
unfolding split all_digits number_from is_number octet octets_from ip_to_int decimal_fuel decimal
    int_to_ip mask_word prefix_to_mask network_of same_subnet text_eq get put delete contains add
    remove route_key_eq kick usable own_network own_subnets with_default own_networks check_route
    check_routes told_metric entries_for withdraw_all update_on update_all checked advertise update
    on_timer hop_of refresh adopt compare_route learn_with learn_entry learn_all take_message
    is_near ignore handle set_config
program = tt

abbrev left : Ip
left = codes "10.0.0.1"

abbrev right : Ip
right = codes "10.0.1.1"

abbrev neighbour : Ip
neighbour = codes "10.0.0.2"

abbrev address : ℕ → Option Ip
address zero = some left
address (suc zero) = some right
address (suc (suc i)) = none

abbrev host : RipHost
host = record {
  iface_count = 2;
  iface_ip = address;
  iface_prefix = λ i. 24;
  participates = λ i. ltb i 2;
  static_default_out = none;
  advertised_next_hop = λ i. none;
}

abbrev started : Rip
started = record new { config = record { enabled = true; default_route = false } }

abbrev far : RouteKey
far = record { dest = codes "10.9.0.0"; prefix = 24 }

abbrev told : ℕ → RipMessage
told metric =
    response
      (record { dest = far.dest; prefix = far.prefix; metric = metric; next_hop = none } ∷ [])

abbrev after : Option (Rip × List Effect) → Rip
after none = new
after (some (s, effects)) = s

abbrev knowing : Rip
knowing = after (handle host started 0 neighbour (told 2))

abbrev learned : ℕ → RipRoute
learned metric = record {
  dest = far.dest;
  prefix = far.prefix;
  next_hop = neighbour;
  out = 0;
  metric = metric;
  via = none;
}

rip_tests :
    (get knowing.routes far ≡ some (learned 2))
    × (knowing.pending ≡ true)
    × (get (after (handle host knowing 0 neighbour (told 30))).routes far ≡ some (learned 16))
    × ((after (handle host knowing 0 neighbour (told 16))).lost ≡ true)
    × ((after (on_timer host knowing)).pending ≡ false)
    × ((after (on_timer host (after (handle host knowing 0 neighbour (told 16))))).routes ≡ [])
unfolding program
rip_tests = (refl, refl, refl, refl, refl, refl)

address_parses : (i : ℕ) (ip : Ip) → host.iface_ip i ≡ some ip → Parses ip
unfolding program
address_parses zero ip e = subst Parses (some-injective left ip e) refl
address_parses (suc zero) ip e = subst Parses (some-injective right ip e) refl
address_parses (suc (suc i)) ip e = absurd (cc)

is_ready : (i : ℕ) → host.participates i ≡ true → (ip : Ip) × (host.iface_ip i ≡ some ip)
is_ready zero on = (left, refl)
is_ready (suc zero) on = (right, refl)
is_ready (suc (suc i)) on = absurd (ground (arith, on))

proper : Proper host
proper = record { address = address_parses; subnet = λ i. omega arith; ready = is_ready }

abbrev calls : List Call
calls =
    configured (record { enabled = true; default_route = false })
    ∷ timed host
    ∷ heard host 0 neighbour (told 2)
    ∷ retired host 1
    ∷ remapped (λ i. some i)
    ∷ []

run-Valid_example : Gives Valid (run new calls)
unfolding program
run-Valid_example =
    run-Valid calls (tt, (proper, ((proper, refl, ((λ ip e. absurd (cc)), tt)), (tt, (tt, tt)))))

-- the far network and another, whose next hop is not on a network of the router
abbrev lost_hop : RipRoute
lost_hop = record (learned 3) { dest = codes "10.8.0.0"; next_hop = codes "10.5.0.2" }

abbrev crowded : Rip
crowded = record knowing {
  routes = (far, learned 2) ∷ (record { dest = lost_hop.dest; prefix = 24 }, lost_hop) ∷ [];
}

crowded-Valid : Valid crowded
unfolding program
crowded-Valid = (
  record { bounded = omega arith; hop = refl; same_dest = refl; same_prefix = refl },
  (record { bounded = omega arith; hop = refl; same_dest = refl; same_prefix = refl }, tt),
)

crowded_test :
    (usable host crowded lost_hop ≡ some false)
    × ((after (update host crowded)).routes ≡ (far, learned 2) ∷ [])
unfolding program
crowded_test = (refl, refl)

update-usable_example :
    Gives (λ r. All (λ x. usable host r.0 x.1 ≡ some true) r.0.routes) (update host crowded)
update-usable_example = update-usable host crowded proper crowded-Valid

abbrev own : Dict RouteKey ℕ
own = (record { dest = codes "10.0.1.0"; prefix = 24 }, 1) ∷ []

advertise-Fair_example : All (Fair knowing own) (advertise host knowing own).1
advertise-Fair_example = advertise-Fair knowing own host

abbrev offer : ℕ → Option Ip → RipEntry
offer metric hop = record { dest = far.dest; prefix = far.prefix; metric = metric; next_hop = hop }

learn_entry-Offered_example :
    Gives
      (λ r. Offered (offer 3 none) 0 neighbour (get r.0.routes far))
      (learn_entry host own 0 neighbour started (offer 3 none))
unfolding program
learn_entry-Offered_example =
    learn_entry-Offered 0 neighbour (offer 3 none) host own started proper refl
      (λ ip e. absurd (cc)) tt refl

abbrev virtual : Ip
virtual = codes "10.0.0.9"
