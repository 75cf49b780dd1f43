-- ===== src/HostRuntime.antt =====
-- The runtime of a host's room on the desktop: whether a room can be opened, what its plan is, and
-- the states of its server.
pub mod Paths
pub mod Input
pub mod Layout
pub mod Plan
pub mod Lifecycle
pub mod Approvals
pub mod Proofs
