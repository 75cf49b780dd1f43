-- ===== src/Relay.antt =====
-- The relay, services/relay/src/relay-simulation.mjs: host tunnels, friend streams that are opened
-- with a session, the bytes that pass, and the quotas that stop them.
pub mod State
pub mod Tunnels
pub mod Sessions
pub mod Streams
pub mod Transfers
pub mod Disconnect
pub mod Reports
pub mod Cases
pub mod Run
pub mod Proofs
