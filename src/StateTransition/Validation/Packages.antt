-- ===== src/StateTransition/Validation/Packages.antt =====
-- The work packages of the guarantees: that they are new, and that what they depend on is there.
use strawberry.Base.{
  ℕ, Bool, true, false, not, ◌||◌, Option, none, some, List, [], ◌∷◌, ◌++◌, length, ◌==◌,
  if◌then◌else◌, contains,
}
use strawberry.StateTransition.Errors.{
  Result, ok, ◌>>◌, fail_if, for_each, duplicate_package, package_cardinality, past_package,
  segment_root_lookup_invalid, dependency_missing,
}
use strawberry.StateTransition.Reports.{WorkReport, Guarantee, package_hash}
use strawberry.StateTransition.Guarantees.Placement.{CoreAssignments}
use strawberry.StateTransition.Accumulation.{Waiting, segment_keys, concat}
use strawberry.StateTransition.RecentBlocks.{BlockState, put, build_work_package_mapping}
use strawberry.StateTransition.Preimages.{Services, find}

-- What the checks read of the state.
pub record Recorded : Type 0 where
  pub recent_blocks : List BlockState
  pub current_validators : List (Option ℕ)
  pub services : Services
  pub core_authorizers_pool : List (List ℕ)
  pub accumulation_queue : List (List Waiting)
  pub core_assignments : CoreAssignments

-- The packages of the recent blocks, `recentBlockPrerequisites`; a later entry overrides an earlier one.
abbrev pub put_all : List (ℕ × ℕ) → List (ℕ × ℕ) → List (ℕ × ℕ)
put_all mapping [] = mapping
put_all mapping ((key, value) ∷ rest) = put_all (put mapping key value) rest

abbrev pub recent_from : List BlockState → List (ℕ × ℕ) → List (ℕ × ℕ)
recent_from [] mapping = mapping
recent_from (b ∷ bs) mapping = recent_from bs (put_all mapping b.work_report_hashes)

abbrev pub recent_packages : Recorded → List (ℕ × ℕ)
recent_packages s = recent_from s.recent_blocks []

-- The first loop, with the packages seen so far.
unfoldable pub check_duplicates : Recorded → List Guarantee → List ℕ → Result (Unit {0})
check_duplicates s [] seen = ok tt
check_duplicates s (g ∷ gs) seen =
    fail_if
      (contains seen (package_hash g.work_report)
        || contains (segment_keys (recent_packages s)) (package_hash g.work_report))
      duplicate_package
    >> check_duplicates s gs (package_hash g.work_report ∷ seen)

unfoldable pub check_cardinality : List Guarantee → Result (Unit {0})
unfolding build_work_package_mapping
check_cardinality guarantees =
    fail_if (not (length (build_work_package_mapping guarantees) == length guarantees))
      package_cardinality

-- The comparison of the hashes of two reports.
abbrev pub same_hash : Option ℕ → Option ℕ → Bool
same_hash (some a) (some b) = a == b
same_hash _ _ = false

-- Whether a report of the queue is the report of the guarantee.
abbrev pub is_queued : (WorkReport → Option ℕ) → List Waiting → WorkReport → Bool
is_queued work_report_hash [] w = false
is_queued work_report_hash (wd ∷ rest) w =
    same_hash (work_report_hash wd.work_report) (work_report_hash w)
    || is_queued work_report_hash rest w

abbrev pub queued_prerequisites : (WorkReport → Option ℕ) → List Waiting → List Guarantee → List ℕ
queued_prerequisites work_report_hash queue [] = []
queued_prerequisites work_report_hash queue (g ∷ gs) =
    let rest = queued_prerequisites work_report_hash queue gs in
    if is_queued work_report_hash queue g.work_report
    then g.work_report.refinement_context.prerequisite_work_package ++ rest
    else rest

abbrev pub report_prerequisites : Option WorkReport → List ℕ
report_prerequisites none = []
report_prerequisites (some w) = w.refinement_context.prerequisite_work_package

abbrev pub assigned_prerequisites : CoreAssignments → List ℕ
assigned_prerequisites [] = []
assigned_prerequisites (none ∷ rest) = assigned_prerequisites rest
assigned_prerequisites (some a ∷ rest) =
    report_prerequisites a.work_report ++ assigned_prerequisites rest

abbrev pub is_nil {ℓ} : {A : Type ℓ} → List A → Bool
is_nil [] = true
is_nil (x ∷ xs) = false

-- `pastWorkPackages`, with what the loop over the guarantees adds to it.
abbrev pub past_packages : (WorkReport → Option ℕ) → Recorded → List Guarantee → List ℕ
past_packages work_report_hash s guarantees =
    segment_keys (recent_packages s)
    ++ (queued_prerequisites work_report_hash (concat s.accumulation_queue) guarantees
        ++ (if is_nil guarantees then [] else assigned_prerequisites s.core_assignments))

unfoldable pub check_past : (WorkReport → Option ℕ) → Recorded → List Guarantee → Result (Unit {0})
check_past work_report_hash s guarantees =
    for_each
      (λ (p : ℕ). fail_if (contains (past_packages work_report_hash s guarantees) p) past_package)
      (segment_keys (build_work_package_mapping guarantees))

-- `extrinsicAndRecentWorkPackages`
abbrev pub known_packages : Recorded → List Guarantee → List (ℕ × ℕ)
known_packages s guarantees = put_all (build_work_package_mapping guarantees) (recent_packages s)

-- The value at a key; a missing key gives the zero hash.
abbrev pub value_or_zero : Option ℕ → ℕ
value_or_zero none = 0
value_or_zero (some v) = v

unfoldable pub check_lookup_entries : List (ℕ × ℕ) → List (ℕ × ℕ) → Result (Unit {0})
check_lookup_entries known [] = ok tt
check_lookup_entries known ((key, value) ∷ rest) =
    fail_if (not (value_or_zero (find known key) == value)) segment_root_lookup_invalid
    >> check_lookup_entries known rest

unfoldable pub check_lookups : Recorded → List Guarantee → Guarantee → Result (Unit {0})
unfolding check_lookup_entries
check_lookups s guarantees g =
    check_lookup_entries (known_packages s guarantees) g.work_report.segment_root_lookup

-- `prerequisitePackageHashes`
abbrev pub prerequisites : List Guarantee → List ℕ
prerequisites [] = []
prerequisites (g ∷ gs) =
    segment_keys g.work_report.segment_root_lookup
    ++ (g.work_report.refinement_context.prerequisite_work_package ++ prerequisites gs)

unfoldable pub check_dependencies : Recorded → List Guarantee → Result (Unit {0})
check_dependencies s guarantees =
    for_each
      (λ (p : ℕ).
        fail_if (not (contains (segment_keys (known_packages s guarantees)) p)) dependency_missing)
      (prerequisites guarantees)
