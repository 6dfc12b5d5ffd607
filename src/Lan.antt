-- ===== src/Lan.antt =====
-- Devices of a local network. `isPortConnected`, which the simulator answers, is a parameter; the
-- frames that a device sends are a list of ports with their frames.
pub mod Loop
pub mod Hub
pub mod Igmp
pub mod Repeating
pub mod Stp
pub mod Switch
pub mod Members
pub mod Groups
mod Tests
