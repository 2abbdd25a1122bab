-- ===== src/Examples.antt =====
-- The theorems at concrete inputs, on the platform of Sim.
pub mod Transport
pub mod Keys
pub mod Datagrams
pub mod Handshakes
pub mod Table
pub mod Sockets
pub mod Links
pub mod Devices
pub mod Clients
pub mod Carried
pub mod Repeats
pub mod Races
pub mod Shells
pub mod Programs
