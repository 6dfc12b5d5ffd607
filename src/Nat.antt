-- ===== src/Nat.antt =====
-- src/core/nodes/nat.ts: the address translation table of routers and NAT boxes.
-- A method returns the new table with its result. The keys, which the source writes as texts
-- "proto:address:id", ">peer" and "address:port", are the tuples of their parts (`Keys`): no IPv4
-- address holds ':' or '>', so the texts determine the parts. Log lines are left out, `now` is a
-- parameter, and `onNew`, the callback for a new mapping, is the entry `created` of the result.
pub mod Keys
pub mod Table
pub mod Translate
pub mod Alloc
pub mod Expiry
pub mod Invariant
pub mod Pairing
pub mod RoundTrip
pub mod History
mod Tests
