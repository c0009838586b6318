-- ===== src/Pvm.antt =====
-- internal/polkavm: the PolkaVM interpreter.
pub mod Errors
pub mod Opcode
pub mod Tables
pub mod Memory
pub mod Instance
pub mod Mutations
pub mod Step
pub mod Spec
mod Tests
