-- ===== src/Ha.antt =====
-- src/core/nodes/ha.ts: two boxes that share virtual addresses, VRRP's way. What a box tells of its
-- interfaces at a call is the record `HaHost`; what it is to do is returned in order. `none` is a
-- thrown error, from an address that does not parse. A timer is named by its number. Priorities
-- are at most 256, and an empty virtual address is none. Names and log lines are left out.
pub mod Roles
pub mod Calls
pub mod Election
pub mod Progress
pub mod Held
pub mod Holding
mod Tests
use net_sim.Prelude.{
  nat_eq, ℕ, suc, ◌+◌, ◌-◌, ◌*◌, ◌/◌, ◌%◌, Bool, true, false, not, ◌&&◌, ◌||◌, Option, none, some,
  List, [], ◌∷◌, ◌++◌, Text, codes, text_eq, ltb, leb, ◌==◌, if◌then◌else◌, is_some,
}
use net_sim.Addr.{Ip, ip_to_int, ◌>>=◌}
use net_sim.Addr6.{hex}
use net_sim.Packet.{Mac}

pub record HaConfig : Type 0 where
  pub enabled : Bool
  pub vrid : ℕ
  pub priority : ℕ
  pub vips : List (Option Ip)
  pub sync : Option Bool
  pub advert : Option Bool

abbrev pub master_down : ℕ
master_down = 3000

abbrev pub advert_interval : ℕ
advert_interval = 1000

pub data HaState : Type 0 where
  init : HaState
  backup : HaState
  master : HaState

unfoldable pub is_master : HaState → Bool
is_master init = false
is_master backup = false
is_master master = true

-- two digits of a hexadecimal number below 256
unfoldable pub two_digits : ℕ → Text
two_digits n = if ltb n 16 then 48 ∷ hex n else hex n

unfoldable pub virtual_mac : ℕ → Mac
virtual_mac vrid = codes "00:00:5e:00:01:" ++ two_digits (vrid % 256)

-- (256 - priority) * 1000 / 256, to the nearest integer
unfoldable pub skew_ms : ℕ → ℕ
skew_ms priority = ((256 - priority) * 2000 + 256) / 512

pub record VrrpPacket : Type 0 where
  pub vrid : ℕ
  pub priority : ℕ
  pub vip : Ip
  pub rid : Ip
  pub candidate : Bool

pub record HaHost : Type 0 where
  pub iface_ip : ℕ → Option Ip
  pub link_up : ℕ → Bool

-- what a timer was set for
pub data TimerData : Type 0 where
  token : ℕ → TimerData
  advert : ℕ → TimerData
  watch : ℕ → TimerData

-- a virtual address and its MAC
pub record Vip : Type 0 where
  pub ip : Ip
  pub mac : Mac

pub data Effect : Type 0 where
  sends : ℕ → Ip → VrrpPacket → Option Mac → Effect
  sets_vip : ℕ → Option Vip → Effect
  sees_backup : Effect
  hands_over : Effect
  resigns : Effect
  starts_timer : ℕ → TimerData → Effect
  cancels_timer : ℕ → Effect

pub record Ha : Type 0 where
  pub config : HaConfig
  pub state : HaState
  pub master_ip : Option Ip
  pub timer_token : ℕ
  pub armed : Option ℕ
  pub armed_timer : Option ℕ
  pub advertising : Option ℕ
  pub watching : Option ℕ
  pub last_priority : ℕ

abbrev pub default_ha : HaConfig
default_ha = record {
  enabled = false;
  vrid = 1;
  priority = 100;
  vips = [];
  sync = none;
  advert = none;
}

abbrev pub new : Ha
new = record {
  config = default_ha;
  state = init;
  master_ip = none;
  timer_token = 0;
  armed = none;
  armed_timer = none;
  advertising = none;
  watching = none;
  last_priority = 0;
}

-- the interfaces with a virtual address, of those that the box has, from an index on
unfoldable pub vips_from : ℕ → List (Option Ip) → ℕ → List (ℕ × Ip)
vips_from count [] i = []
vips_from count (none ∷ vs) i = vips_from count vs (suc i)
vips_from count (some v ∷ vs) i =
    let rest = vips_from count vs (suc i) in if ltb i count then (i, v) ∷ rest else rest

-- whether every such interface has a link and an address
unfoldable pub all_up : HaHost → List (ℕ × Ip) → Bool
all_up host [] = true
all_up host ((i, v) ∷ vs) = host.link_up i && is_some (host.iface_ip i) && all_up host vs

abbrev pub has_any : List (ℕ × Ip) → Bool
has_any [] = false
has_any (v ∷ vs) = true

abbrev pub is_on : Option Bool → Bool
is_on none = false
is_on (some b) = b
