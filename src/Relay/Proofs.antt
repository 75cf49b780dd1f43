-- ===== src/Relay/Proofs.antt =====
-- What the relay guarantees, one module for each guarantee.
pub mod Changes
pub mod Bytes
pub mod RoomSize
pub mod Admission
pub mod Loopback
pub mod Consumed
pub mod Replay
pub mod Closing
pub mod Opening
pub mod Transfers
pub mod Disconnect
mod Tests
