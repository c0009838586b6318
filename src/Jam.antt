-- ===== src/Jam.antt =====
-- pkg/serialization/codec/jam: the coding of natural numbers.
pub mod Fixed
pub mod General
pub mod RoundTrip
mod Tests
