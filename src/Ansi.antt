-- ===== src/Ansi.antt =====
-- src/ansicolors.rs: the colour codes of the texts for players.
pub mod Libraries
pub mod Colors
pub mod Code
pub mod Convert
