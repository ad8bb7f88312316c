-- ===== src/Tests.antt =====
-- Runs of the model on concrete inputs, and each theorem at an input that meets its hypotheses.
mod Samples
mod Bytes
mod Colors
mod Sessions
mod Running
mod Servers
mod Others
mod Typing
mod Channels
mod Programs
mod Bounded
mod Draining
mod Departing
