-- ===== src/Generator.antt =====
-- generator.py: the traffic generator and the relay of control decisions.
pub mod Inputs
pub mod Relay
pub mod Fleet
pub mod Entities
pub mod Traffic
pub mod Run
