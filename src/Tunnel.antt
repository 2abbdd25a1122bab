-- ===== src/Tunnel.antt =====
-- src/tunnel: the datagrams that carry tunnelled traffic, and what carries them.
pub mod Udp
pub mod Frame
pub mod Compress
pub mod Pipeline
