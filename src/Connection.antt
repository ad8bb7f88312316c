-- ===== src/Connection.antt =====
-- src/connection.rs: one player's connection.
pub mod Telnet
pub mod Lines
pub mod Receive
pub mod Session
