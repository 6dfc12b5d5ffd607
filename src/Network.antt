-- ===== src/Network.antt =====
-- src/core/network.ts: the event loop that drives devices over links, with the interface of devices
-- of src/core/nodes/node.ts.
pub mod State
pub mod Links
pub mod Loop
pub mod Queues
pub mod Clock
pub mod Steps
pub mod Progress
pub mod Handling
pub mod Calls
mod Tests
