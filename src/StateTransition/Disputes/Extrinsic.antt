-- ===== src/StateTransition/Disputes/Extrinsic.antt =====
-- internal/block/dispute.go, and the judgements of internal/state/types.go.
use strawberry.Base.{
  contains, ℕ, suc, Bool, true, false, Option, List, [], ◌∷◌, ◌++◌, if◌then◌else◌,
}

-- The contexts that a signed hash stands behind.
pub data SignatureContext : Type 0 where
  guarantee valid invalid available : SignatureContext

-- `ed25519.Verify(key, context ++ hash, signature)`
abbrev pub Verify : Type 0
Verify = (key : ℕ) → SignatureContext → (hash signature : ℕ) → Bool

pub record Judgement : Type 0 where
  pub is_valid : Bool
  pub validator_index : ℕ
  pub signature : ℕ

-- The judgements are an array of 683, `ValidatorsSuperMajority`.
pub record Verdict : Type 0 where
  pub report_hash : ℕ
  pub epoch_index : ℕ
  pub judgements : List Judgement

pub record Culprit : Type 0 where
  pub report_hash : ℕ
  pub validator_key : ℕ
  pub signature : ℕ

pub record Fault : Type 0 where
  pub report_hash : ℕ
  pub is_valid : Bool
  pub validator_key : ℕ
  pub signature : ℕ

pub record Disputes : Type 0 where
  pub verdicts : List Verdict
  pub culprits : List Culprit
  pub faults : List Fault

pub record Judgements : Type 0 where
  pub bad_work_reports : List ℕ
  pub good_work_reports : List ℕ
  pub wonky_work_reports : List ℕ
  pub offending_validators : List ℕ

-- The Ed25519 keys of the current and of the archived validators; `none` is a nil pointer.
pub record ValidatorSets : Type 0 where
  pub current_validators : List (Option ℕ)
  pub archived_validators : List (Option ℕ)

unfoldable pub count_positive_judgements : List Judgement → ℕ
count_positive_judgements [] = 0
count_positive_judgements (j ∷ js) =
    let rest = count_positive_judgements js in if j.is_valid then suc rest else rest

-- A key that is not there yet is appended.
abbrev pub append_missing : List ℕ → ℕ → List ℕ
append_missing xs item = if contains xs item then xs else xs ++ (item ∷ [])

abbrev pub context_of : Bool → SignatureContext
context_of true = valid
context_of false = invalid
