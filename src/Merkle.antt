-- ===== src/Merkle.antt =====
-- internal/merkle: trees of hashes.
pub mod MountainRange
mod Tests
