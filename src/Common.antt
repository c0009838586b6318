-- ===== src/Common.antt =====
-- internal/common: helpers of the protocol.
pub mod Shuffling
mod Tests
