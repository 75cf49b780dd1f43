-- ===== src/Transport/Proofs.antt =====
-- What the exchange of transport candidates guarantees.
pub mod Choice
pub mod Rooms
pub mod Submission
mod Tests
