-- ===== src/Lib.antt =====
-- A model of the node's virtual machine, of the coding of numbers, of the Merkle mountain range, of the
-- shuffle and of the state transition, with the theorems about them.
--
-- The parts of the program, and the files that model them (paths from the repository's root):
--   internal/polkavm/interpreter/step.go         Pvm/Step: Decode reads the operands of each form,
--                                                 Exec, ExecRegisters and ExecImmediate are the inner
--                                                 switches, and Run is `step` itself
--   internal/polkavm/interpreter/mutations.go     Pvm/Mutations, one definition for each method
--   internal/polkavm/interpreter/instance.go      Pvm/Instance: the state, gas, `skip`, `load`, `store`,
--                                                 `branch` and `djump`
--   internal/polkavm/interpreter/invocations.go   Pvm/Step/Run: `invoke` is the loop of `Invoke`
--   internal/polkavm/common.go                    Pvm/Memory: segments, `Read`, `Write`, `Sbrk`, accesses
--   internal/polkavm/instruction_codes.go, instructions.go, program.go, exit_reason.go
--                                                 Pvm/Opcode, Pvm/Tables, Pvm/Instance (`Skip`), Pvm/Errors
--   pkg/serialization/codec/jam/trivial_natural.go  Jam/Fixed
--   pkg/serialization/codec/jam/general_natural.go, and `decodeUint` of decode.go
--                                                 Jam/General; Jam/RoundTrip has its proofs
--   internal/merkle/mountain_ranges/mmr.go        Merkle/MountainRange; its child Counter says what the
--                                                 peaks stand for
--   internal/common/shuffling.go                  Common/Shuffling; its child Permutes has the proofs
--   internal/statetransition/state_transition.go  StateTransition, with the types of internal/block,
--                                                 internal/state and internal/service that it reads:
--     `CalculateNewJudgements`                      Disputes: Checks, Process; Votes, Once and Offenders
--                                                   have the proofs
--     `CalculateWorkReportsAndAccumulate`, the queue, the history and what is accumulated
--                                                   Accumulation; Laws, Remains, Immediate and Slots
--                                                   have the proofs
--     `CalculateIntermediateCoreAssignmentsFromExtrinsics`  Disputes/Withdrawn
--     `ValidateExtrinsicGuarantees`                 Validation: Packages, Limits; Order, Fresh, Free
--                                                   and Accepted have the proofs
--     `PermuteAssignments`, `verifyGuaranteeCredentials`, `CalculateNewCoreAssignments`
--                                                   Guarantees: Credentials, Placement
--     `CalculateIntermediateCoreFromAssurances`     Assurances
--     `CalculateNewCoreAuthorizations`              Authorizations
--     `UpdateRecentBlocks`                          RecentBlocks
--     `CalculateIntermediateServiceState`           Preimages
--     `transfersForReceiver`                        Transfers
--     `CalculateNewValidatorStatistics`             Statistics
--
-- `Invoke` repeats `step` until an error comes. A step takes the length of the instruction from the
-- bitmask, takes its gas, decodes the operands and calls the mutator, which changes registers, memory
-- and the instruction counter. Loads and stores go through the memory, whose numbers are written and
-- read by the codec of fixed naturals.
--
-- A method that changes the instance is a function from the instance to an `Outcome`: the instance as
-- it is afterwards, with `nil` or with an error, or `crashed`, which stands for a run-time panic of Go
-- (an index or a slice out of range). Numbers are natural numbers below 2^w, and the wrap-around of
-- Go's operators is written out; a signed number is the pattern that it shares with its unsigned one.
-- The gas is such a pattern of 64 bits. Maps are lists of their keys.
--
-- The loop of `Invoke` runs on fuel, and gives `none` when the fuel is used up before the loop ends.
-- A positive amount of gas plus one is enough, and one is enough for any other amount.
--
-- The state transition takes a block and the state before it. Each of its parts is a function from
-- the extrinsic and the part of the state that it reads to the new part; a function that may return
-- an error gives a `Result`, whose third outcome `crash` is a run-time panic. `UpdateState` calls
-- the validation of guarantees, the withdrawal of reports, the assurances, the placement of
-- guarantees, the accumulation, the recent blocks, the judgements and the authorizers in this order;
-- the placement of guarantees starts from the cores that the assurances leave, and the recent blocks
-- append to the mountain range of Merkle/MountainRange. `accumulationPriority` calls itself, and
-- runs on fuel: two calls are enough for every queue.
--
-- Pvm/Spec holds the formulas of the Graypaper's appendix A, over integers and plain numbers, which
-- the instructions are compared with. Base holds the fixed-width integers, lists and tests.
--
-- Not modelled: the texts of error messages; `Instantiate`, `InvokeHostCall` and
-- `InvokeWholeProgram`, and the parsing of programs; the host calls; of the state transition the
-- Safrole step, `SuperPeak` and the calls of the machine; the other Merkle trees,
-- the network and the database; cryptography and erasure coding, which are calls of other libraries:
-- `ed25519.Verify`, the hashes and the encodings that are hashed are parameters.
pub mod Base
pub mod Common
pub mod Jam
pub mod Merkle
pub mod Pvm
pub mod StateTransition
