-- ===== src/Service.antt =====
-- services/control-plane/src/services/room-service.mjs and persistence/memory-store.mjs: the room
-- service, which works over a repository, and the repository that keeps its records in memory.
pub mod Records
pub mod Memory
pub mod Repository
pub mod Machine
pub mod Steps
pub mod Rooms
pub mod Joins
pub mod Overlap
pub mod Run
pub mod InMemory
pub mod Proofs
