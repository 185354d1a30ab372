-- ===== src/Tests.antt =====
-- Runs at concrete inputs, with a simple library in place of libmikey.
pub mod SimpleMikey
pub mod Servers
pub mod Wires
pub mod Clients
mod Model1
mod Model2
mod Exchange
mod Measurements
mod Programs
pub mod Patches
