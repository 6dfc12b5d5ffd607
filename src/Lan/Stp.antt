-- ===== src/Lan/Stp.antt =====
-- src/core/nodes/stp.ts: the spanning tree. `Order` compares bridge ids and vectors, `Root` chooses
-- the root and the roles of the ports, `Protocol` handles messages, links and the configuration.
-- What the protocol asks of its switch (`send`, `topologyChanged`) and of the clock (`timer`) is a
-- list of effects, in their order. A frame that carries a BPDU is known by its port, source and BPDU.
pub mod Order
pub mod Root
pub mod Protocol
pub mod Ranking
pub mod Election
pub mod Roles
pub mod Hearing
mod Tests
