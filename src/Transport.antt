-- ===== src/Transport.antt =====
-- services/control-plane/src/transport/candidates.mjs: the exchange of transport candidates, which
-- decides how a friend reaches a room.
pub mod Exchange
pub mod Selection
pub mod Run
pub mod Proofs
