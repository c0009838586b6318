-- ===== src/StateTransition/Reports.antt =====
-- internal/block/guarantee.go and assurance.go: work reports, guarantees and assurances.
use strawberry.Base.{ℕ, Option, List}

pub data WorkResultOutputOrError : Type 0 where
  output : List ℕ → WorkResultOutputOrError
  out_of_gas unexpected_termination code_not_available code_too_large : WorkResultOutputOrError

pub record WorkPackageSpecification : Type 0 where
  pub work_package_hash : ℕ
  pub auditable_work_bundle_length : ℕ
  pub erasure_root : ℕ
  pub segment_root : ℕ
  pub segment_count : ℕ

pub record RefinementContextAnchor : Type 0 where
  pub header_hash : ℕ
  pub posterior_state_root : ℕ
  pub posterior_beefy_root : ℕ

pub record RefinementContextLookupAnchor : Type 0 where
  pub header_hash : ℕ
  pub timeslot : ℕ

pub record RefinementContext : Type 0 where
  pub anchor : RefinementContextAnchor
  pub lookup_anchor : RefinementContextLookupAnchor
  pub prerequisite_work_package : List ℕ

pub record WorkResult : Type 0 where
  pub service_id : ℕ
  pub service_hash_code : ℕ
  pub payload_hash : ℕ
  pub gas_prioritization_ratio : ℕ
  pub output : WorkResultOutputOrError

-- The map `SegmentRootLookup` is a list of its keys and values, each key once.
pub record WorkReport : Type 0 where
  pub work_package_specification : WorkPackageSpecification
  pub refinement_context : RefinementContext
  pub core_index : ℕ
  pub authorizer_hash : ℕ
  pub output : List ℕ
  pub segment_root_lookup : List (ℕ × ℕ)
  pub work_results : List WorkResult

pub record CredentialSignature : Type 0 where
  pub validator_index : ℕ
  pub signature : ℕ

pub record Guarantee : Type 0 where
  pub work_report : WorkReport
  pub timeslot : ℕ
  pub credentials : List CredentialSignature

-- The bitfield is the list of its 43 bytes.
pub record Assurance : Type 0 where
  pub anchor : ℕ
  pub bitfield : List ℕ
  pub validator_index : ℕ
  pub signature : ℕ

-- `state.Assignment`; `none` is a nil report.
pub record Assignment : Type 0 where
  pub work_report : Option WorkReport
  pub time : ℕ

-- The work package that the report is about.
abbrev pub package_hash : WorkReport → ℕ
package_hash w = w.work_package_specification.work_package_hash
