-- ===== src/Simulation/Proofs.antt =====
-- What the control plane guarantees.
pub mod Cases
pub mod Sessions
pub mod Decisions
pub mod Issuing
pub mod Revocation
mod Tests
