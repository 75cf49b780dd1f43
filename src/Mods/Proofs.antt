-- ===== src/Mods/Proofs.antt =====
-- What holds of sets of mods.

pub mod Lists
pub mod Pack
pub mod Closure
pub mod Sides
pub mod Cover
mod Tests
