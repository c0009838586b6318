-- ===== src/Pvm/Step.antt =====
-- internal/polkavm/interpreter/step.go: one step of the machine.
pub mod Decode
pub mod Exec
pub mod ExecRegisters
pub mod ExecImmediate
pub mod Run
pub mod Frame
pub mod ExecFrame
pub mod Gas
pub mod Landing
pub mod ExecLanding
pub mod Flow
pub mod Runs
pub mod Shields
pub mod ExecShields
pub mod Closed
