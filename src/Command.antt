-- ===== src/Command.antt =====
-- src/commands: the console environments of the server and of the client.
pub mod Shell
pub mod Server
pub mod Client
pub mod Idle
pub mod Logs
pub mod Carries
pub mod Entry
