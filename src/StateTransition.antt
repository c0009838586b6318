-- ===== src/StateTransition.antt =====
-- internal/statetransition/state_transition.go: how a block changes the state. A hash is the number that
-- its 32 bytes spell, the first byte highest, so that `bytes.Compare` is the order of the numbers; an
-- Ed25519 key of 32 bytes likewise, and a signature.
pub mod Errors
pub mod Constants
pub mod Disputes
pub mod Reports
pub mod Accumulation
pub mod Guarantees
pub mod Assurances
pub mod Authorizations
pub mod RecentBlocks
pub mod Preimages
pub mod Validation
pub mod Transfers
pub mod Statistics
mod Tests
