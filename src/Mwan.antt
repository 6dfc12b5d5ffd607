-- ===== src/Mwan.antt =====
-- src/core/nodes/mwan.ts: two lines to the internet, and which of them traffic leaves by. What the
-- device tells of its lines is an argument of each call, and what it is to do is returned in order.
-- Whether a `why` is told, what the display reads and the traces are left out.
pub mod Calls
pub mod Sane
pub mod Failover
mod Tests
use net_sim.Prelude.{
  nat_eq, ℕ, suc, ◌+◌, Bool, true, false, not, ◌&&◌, ◌||◌, Option, none, some, List, [], ◌∷◌, ◌++◌,
  map, Text, codes, text_eq, leb, ◌==◌, if◌then◌else◌, length, is_some,
}
use net_sim.Addr.{Ip, decimal, same_subnet, ◌>>=◌}

pub data WanName : Type 0 where
  wan : WanName
  wan2 : WanName

unfoldable pub wan_eq : WanName → WanName → Bool
wan_eq wan wan = true
wan_eq wan wan2 = false
wan_eq wan2 wan = false
wan_eq wan2 wan2 = true

abbrev pub mwan_interval : ℕ
mwan_interval = 5000

abbrev pub mwan_down : ℕ
mwan_down = 3

abbrev pub mwan_up : ℕ
mwan_up = 2

pub record MwanRule : Type 0 where
  pub ip : Ip
  pub prefix : ℕ
  pub line : WanName

abbrev pub wan_label : WanName → Text
wan_label wan = codes "WAN1"
wan_label wan2 = codes "WAN2"

-- `mwanRuleLabel`; the arrow is one character
abbrev pub mwan_rule_label : MwanRule → Text
mwan_rule_label r = r.ip ++ codes "/" ++ decimal r.prefix ++ 32 ∷ 8594 ∷ 32 ∷ wan_label r.line

pub record Probe : Type 0 where
  pub seq : ℕ
  pub answered : Bool

pub record LineState : Type 0 where
  pub online : Bool
  pub fails : ℕ
  pub oks : ℕ
  pub probe : Option Probe

abbrev pub fresh : Bool → LineState
fresh online = record { online = online; fails = 0; oks = 0; probe = none }

-- what the device tells of its lines at a call
pub record Lookout : Type 0 where
  pub ready : WanName → Bool
  pub waiting : WanName → Bool

-- what the device is to do: a tracking ping, a change of line, and the next timer
pub data Effect : Type 0 where
  probes : WanName → Ip → ℕ → Effect
  switches : WanName → WanName → Effect
  arms : ℕ → ℕ → Effect

pub record MultiWan : Type 0 where
  pub enabled : Bool
  pub track : Option Ip
  pub wan_line : LineState
  pub wan2_line : LineState
  pub active : WanName
  pub rules : List MwanRule
  pub hits : List ℕ
  pub wan2_member : Bool
  pub seq : ℕ
  pub tick : ℕ

abbrev pub new : MultiWan
new = record {
  enabled = false;
  track = none;
  wan_line = fresh false;
  wan2_line = fresh false;
  active = wan;
  rules = [];
  hits = [];
  wan2_member = true;
  seq = 0;
  tick = 0;
}

abbrev pub line_of : MultiWan → WanName → LineState
line_of m wan = m.wan_line
line_of m wan2 = m.wan2_line

abbrev pub set_line : MultiWan → WanName → LineState → MultiWan
set_line m wan l = record m { wan_line = l }
set_line m wan2 l = record m { wan2_line = l }

-- whether a line can be used for failover and for rules
unfoldable pub usable : MultiWan → WanName → Bool
usable m w = (line_of m w).online && (wan_eq w wan || m.wan2_member)

-- the first rule that a source meets, with its place; none where an address does not parse
unfoldable pub find_rule : List MwanRule → Ip → ℕ → Option (Option (MwanRule × ℕ))
find_rule [] src i = some none
find_rule (r ∷ rs) src i =
    let rest = find_rule rs src (suc i) in
    do met ← same_subnet src r.ip r.prefix; if met then some (some (r, i)) else rest

unfoldable pub rule_for : MultiWan → Ip → Option (Option (MwanRule × ℕ))
rule_for m src = if m.enabled then find_rule m.rules src 0 else some none

unfoldable pub same_bool : Bool → Bool → Bool
same_bool a b = if a then b else not b

unfoldable pub track_eq : Option Ip → Option Ip → Bool
track_eq none none = true
track_eq (some a) (some b) = text_eq a b
track_eq none (some b) = false
track_eq (some a) none = false

unfoldable pub switch_to : MultiWan → WanName → List Effect × MultiWan
switch_to m to =
    if wan_eq to m.active then ([], m) else (switches m.active to ∷ [], record m { active = to })

-- the first line that is alive, WAN1 before WAN2; WAN1 is waited for while it gets its address
unfoldable pub wanted : Lookout → MultiWan → WanName
wanted io m =
    if m.wan_line.online || (wan_eq m.active wan && io.waiting wan)
    then wan
    else if usable m wan2
    then wan2
    else wan

unfoldable pub decide : Lookout → MultiWan → List Effect × MultiWan
decide io m = if m.enabled then switch_to m (wanted io m) else ([], m)

-- a track address that is empty is none to the code
abbrev pub is_tracking : MultiWan → Bool
is_tracking m = m.enabled && is_some m.track

unfoldable pub arm : MultiWan → List Effect × MultiWan
arm m =
    if is_tracking m
    then (arms mwan_interval (suc m.tick) ∷ [], record m { tick = suc m.tick })
    else ([], m)

abbrev pub then_arm : List Effect × MultiWan → List Effect × MultiWan
then_arm (es, m) = let (fs, n) = arm m in (es ++ fs, n)

unfoldable pub set_config : Lookout → MultiWan → Bool → Option Ip → Bool → List Effect × MultiWan
set_config io m enabled track member =
    let n = record m {
      enabled = enabled;
      track = track;
      wan2_member = member;
      wan_line = fresh (io.ready wan);
      wan2_line = fresh (io.ready wan2);
    } in
    if same_bool enabled m.enabled && track_eq track m.track && same_bool member m.wan2_member
    then ([], m)
    else if not enabled
    then switch_to n wan
    else then_arm (decide io n)
