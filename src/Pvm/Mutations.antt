-- ===== src/Pvm/Mutations.antt =====
-- internal/polkavm/interpreter/mutations.go: one function for each instruction.
pub mod Values
pub mod Immediates
pub mod Access
pub mod Stores
pub mod Jumps
pub mod Bits
pub mod Immediate32
pub mod Immediate64
pub mod Word32
pub mod Word64
pub mod Logic
