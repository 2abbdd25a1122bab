-- ===== src/Endpoint.antt =====
-- The stream sockets of the two programs.
pub mod Server
pub mod Client
pub mod Descriptors
pub mod Connections
pub mod Device
