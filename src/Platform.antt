-- ===== src/Platform.antt =====
-- What the program calls and does not implement: the operating system and libc, libsodium, zstd.
-- Each is a record of operations over the world `W`, and a record of the documented laws of these.
pub mod Os
pub mod Calls
pub mod Stdin
pub mod Sodium
pub mod Zstd
