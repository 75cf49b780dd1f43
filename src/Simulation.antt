-- ===== src/Simulation.antt =====
-- The control plane's simulation, services/control-plane/src/domain/simulation.mjs: rooms, invites,
-- join requests and sessions.
pub mod State
pub mod Invites
pub mod Requests
pub mod Run
pub mod Proofs
