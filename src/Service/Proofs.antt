-- ===== src/Service/Proofs.antt =====
-- What the room service guarantees.
pub mod Sound
pub mod Rules
pub mod HostMoves
pub mod JoinMoves
pub mod Refines
pub mod Memory
pub mod Overlap
pub mod Limits
pub mod Tokens
mod Tests
