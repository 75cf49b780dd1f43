-- ===== src/HostRuntime/Proofs.antt =====
-- What the host runtime guarantees.
pub mod Lifecycle
pub mod Approvals
pub mod Joining
pub mod Guards
pub mod Opening
pub mod Rooms
pub mod Shared
pub mod Placed
pub mod Apart
mod Tests
