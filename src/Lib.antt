-- ===== src/Lib.antt =====
-- net-sim: a network simulator that runs in the browser. An event queue drives devices (hosts,
-- switches, routers, firewalls), which exchange Ethernet frames over links; each device keeps
-- tables (MAC addresses, address translations, routes) that packets read and change.
--
-- Prelude: tests on numbers, lists, texts as lists of character codes, and the maps and sets of
--   the source with their insertion order.
-- Addr (src/core/addr.ts): `ipToInt`, `intToIp`, `prefixToMask`, `networkOf`, `broadcastOf`,
--   `sameSubnet`, `isPrivateIp` are `ip_to_int` and so on. A 32-bit word is a number below
--   2 ^ 32; a thrown error is `none`.
-- Addr6 (src/core/addr6.ts): IPv6 addresses: `parseIp6`, `formatIp6`, prefixes and kinds; their
--   128-bit words are numbers, and `undefined` is `none`.
-- Packet (src/core/packet.ts): packets and ICMP errors, `icmpErrorFor`.
-- Nat (src/core/nodes/nat.ts): the translation table. `Nat/Table` has its state, the choice of
--   public ids, imports, pinholes and expiry; `Nat/Translate` has `translate` and `restore` with
--   their kin for ICMP errors; `Nat/History` runs sequences of calls.
-- Lan (src/core/nodes/hub.ts, igmp.ts, guardLoop of switch.ts): `Lan/Loop` has the guard against
--   loops, `Lan/Hub` a hub's `receive`, `Lan/Igmp` the snooping of groups. What the simulator
--   answers of links is a parameter; sent frames are a list of ports with frames.
-- Lan/Stp (src/core/nodes/stp.ts): the spanning tree of a bridge. `Lan/Stp/Root` has the state, the
--   order of vectors and the election (`recompute` up to the roles), `Lan/Stp/Protocol` the messages,
--   links and timer; what it asks of its switch is a list of effects.
-- Lan/Switch (src/core/nodes/switch.ts): the learning switch over the guard, the snooper and the
--   spanning tree: `receive`, `setVlans`, `setStp`, `setIgmp`, `onLink`, `onTimer`;
--   `Lan/Switch/History` runs sequences of calls.
-- Rip (src/core/nodes/rip.ts): the distance vector of a router. `Rip` has the state and the own
--   networks, `Rip/Update` the triggered update, `Rip/Learn` the handling of messages, `Rip/Calls`
--   settings and interfaces that change; the router's interfaces are the parameter `RipHost`.
-- Firewall (src/core/nodes/firewall.ts): rules, ranges and the flows that are remembered;
--   `Firewall/Cidr` has the ranges, `Firewall/Keys` the keys of flows, `Firewall/Flows` runs
--   sequences of calls. `check` returns whether the packet passes, the new
--   state, and the keys for the callback `onFlow`.
-- Scheduler (src/core/scheduler.ts): the event queue, a binary heap in a list: `less`, `sift_up`,
--   `sift_down`, `push` and `pop`. `Scheduler/Heap` has its order, `Scheduler/Earliest` runs calls.
--
-- Network (src/core/network.ts, the interface of src/core/nodes/node.ts): the event loop over the
--   scheduler. `Network/State` has the state and the interface `Devices` (what a device does is a
--   parameter of it all), `Network/Links` cables, devices and what a device tells its context,
--   `Network/Loop` the loop: `step`, `stepUntil`, `runUntil`, `runToIdle`; `Network/Handling` says
--   what handling an event is, and `Network/Calls` runs sequences of calls.
-- Mwan (src/core/nodes/mwan.ts): failover between two lines. `Mwan` has the state, `setConfig` and
--   the choice of the line, `Mwan/Calls` the other operations and sequences of calls; what the
--   device tells of its lines is the parameter `Lookout`.
-- Ha (src/core/nodes/ha.ts): virtual addresses that two boxes share. `Ha` has the state, `Ha/Roles`
--   the private methods, `Ha/Calls` the operations and sequences of calls; what the box tells of
--   its interfaces is the parameter `HaHost`.
--
-- An operation that changes state takes the state and returns the new one with its result. Log
-- lines are left out: nothing reads them back.
--
-- Fuel: the search for a free public id has `ceiling` and `ceiling_forwards` rounds: no id from
-- there on is a port, in use or forwarded. Printing a number has one round more than its value,
-- which is at least the number of its digits.
-- Printing a word in base 16 has one round more than its value too.
-- Sifting up from an index has as many rounds as the index, which each round at least halves;
-- sifting down has one for each item of the heap, since the index grows.
--
-- Skipping void events has a round for each queued event. `runUntil` and `runToIdle` throw after as
-- many events as the caller says: that number is the fuel, and running out is the thrown error.
--
-- Not modelled: texts for the log and the view, React components, the editor's model, and the
-- devices that compose the parts above.
pub mod Prelude
pub mod Addr
pub mod Packet
pub mod Nat
pub mod Lan
pub mod Scheduler
pub mod Addr6
pub mod Firewall
pub mod Network
pub mod Mwan
pub mod Ha
pub mod Rip
