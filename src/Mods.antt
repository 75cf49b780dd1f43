-- ===== src/Mods.antt =====
-- The packages for mods: what a mod says of itself, whether a set of mods fits together, and the pack
-- that is made of it.
pub mod Entry
pub mod Metadata
pub mod Plan
pub mod Verdict
pub mod Catalog
pub mod Proofs
