-- ===== src/StateTransition/Tests/Queue.antt =====
-- The queue of accumulation, the recent blocks and the authorizers at concrete inputs.
use strawberry.Base.{
  ℕ, ◌%◌, min, true, false, ◌||◌, ◌≡◌, refl, arith, some, List, [], ◌∷◌, length, get_elem?, get_or,
  ◌==◌, contains, All, replicate,
}
use strawberry.Merkle.MountainRange.{Hash}
use strawberry.Merkle.MountainRange.Counter.{Represents}
use strawberry.StateTransition.Constants.{max_recent_blocks, pending_authorizers_queue_size}
use strawberry.StateTransition.Reports.{WorkReport, Guarantee}
use strawberry.StateTransition.Accumulation.{
  Waiting, concat, update_queue, accumulation_priority, accumulatable_work_reports,
  new_accumulation_queue,
}
use strawberry.StateTransition.Accumulation.Laws.{accumulation_priority_empty}
use strawberry.StateTransition.Accumulation.Remains.{update_all, Remains, update_all-Remains}
use strawberry.StateTransition.Accumulation.Immediate.{
  Independent, accumulatable_work_reports-immediate,
}
use strawberry.StateTransition.Accumulation.Slots.{new_accumulation_queue-lost}
use strawberry.StateTransition.Authorizations.{new_core_pool, calculate_new_core_authorizations}
use strawberry.StateTransition.Authorizations.Pools.{
  IsBounded, calculate_new_core_authorizations-IsBounded, new_core_pool-origin,
}
use strawberry.StateTransition.RecentBlocks.{last_block_mmr}
use strawberry.StateTransition.RecentBlocks.Chain.{
  Entry, add_blocks, roots, update_recent_blocks-chain,
}

-- A report on the package, which waits for the prerequisites.
abbrev pub report : ℕ → List ℕ → ℕ → WorkReport
report package_id prerequisites core = record {
  work_package_specification = record {
    work_package_hash = package_id;
    auditable_work_bundle_length = 100;
    erasure_root = 1;
    segment_root = 2;
    segment_count = 3;
  };
  refinement_context = record {
    anchor = record { header_hash = 4; posterior_state_root = 5; posterior_beefy_root = 6 };
    lookup_anchor = record { header_hash = 7; timeslot = 8 };
    prerequisite_work_package = prerequisites;
  };
  core_index = core;
  authorizer_hash = 9;
  output = [];
  segment_root_lookup = [];
  work_results = [];
}

abbrev waiting_example : List Waiting
waiting_example =
    record { work_report = report 21 (11 ∷ 12 ∷ []) 0; dependencies = 11 ∷ 12 ∷ [] }
    ∷ record { work_report = report 22 (12 ∷ []) 1; dependencies = 12 ∷ [] }
    ∷ []

run_update_queue :
    update_queue waiting_example (12 ∷ 22 ∷ [])
    ≡ record { work_report = report 21 (11 ∷ 12 ∷ []) 0; dependencies = 11 ∷ [] } ∷ []
unfolding update_queue
run_update_queue = refl

update_all-Remains_example :
    Remains
      (concat ((12 ∷ []) ∷ (22 ∷ []) ∷ []))
      waiting_example
      (update_all waiting_example ((12 ∷ []) ∷ (22 ∷ []) ∷ []))
update_all-Remains_example = update_all-Remains ((12 ∷ []) ∷ (22 ∷ []) ∷ []) waiting_example

accumulation_priority_empty_example : accumulation_priority 2 waiting_example ≡ some []
accumulation_priority_empty_example = accumulation_priority_empty 0 waiting_example

accumulatable_work_reports-immediate_example :
    (accumulated : List WorkReport) × (accumulatable_work_reports 2 1203
        (report 31 [] 0 ∷ report 32 (31 ∷ []) 1 ∷ [])
        (waiting_example ∷ [])
        []
      ≡ some accumulated)
    × Independent (report 31 [] 0 ∷ report 32 (31 ∷ []) 1 ∷ []) accumulated
accumulatable_work_reports-immediate_example =
    accumulatable_work_reports-immediate 0 1203 (report 31 [] 0 ∷ report 32 (31 ∷ []) 1 ∷ [])
      (waiting_example ∷ []) []

new_accumulation_queue-lost_example :
    get_elem?
      (new_accumulation_queue 1203 1203 1202
        (replicate 600 waiting_example)
        waiting_example
        (replicate 600 []))
      496
    ≡ some []
new_accumulation_queue-lost_example =
    new_accumulation_queue-lost 1203 1203 1202 (replicate 600 waiting_example) waiting_example
      (replicate 600 []) (omega arith)

abbrev pub guarantee_example : Guarantee
guarantee_example = record { work_report = report 41 [] 0; timeslot = 20; credentials = [] }

abbrev pools_example : List (List ℕ)
pools_example = (1 ∷ 9 ∷ 3 ∷ []) ∷ (1 ∷ 2 ∷ 3 ∷ 4 ∷ 5 ∷ 6 ∷ 7 ∷ 8 ∷ []) ∷ []

abbrev queues_example : List (List ℕ)
queues_example = (50 ∷ 51 ∷ []) ∷ (60 ∷ 61 ∷ []) ∷ []

run_authorizations :
    calculate_new_core_authorizations 81 (guarantee_example ∷ []) queues_example pools_example
    ≡ (1 ∷ 3 ∷ 51 ∷ []) ∷ (2 ∷ 3 ∷ 4 ∷ 5 ∷ 6 ∷ 7 ∷ 8 ∷ 61 ∷ []) ∷ []
unfolding calculate_new_core_authorizations
run_authorizations = refl

calculate_new_core_authorizations-IsBounded_example :
    All IsBounded
      (calculate_new_core_authorizations 81 (guarantee_example ∷ []) queues_example pools_example)
calculate_new_core_authorizations-IsBounded_example =
    calculate_new_core_authorizations-IsBounded 81 (guarantee_example ∷ []) queues_example
      pools_example (omega arith, (omega arith, tt))

new_core_pool-origin_example :
    ((h : ℕ)
      → contains (new_core_pool 81 0 (guarantee_example ∷ []) (50 ∷ 51 ∷ []) (1 ∷ 9 ∷ [])) h ≡ true
      → (contains (1 ∷ 9 ∷ []) h
          || get_or (50 ∷ 51 ∷ []) (81 % pending_authorizers_queue_size) 0 == h)
        ≡ true)
    × ((get_or (50 ∷ 51 ∷ []) (81 % pending_authorizers_queue_size) 0 == 0) ≡ false
        → contains
            (new_core_pool 81 0 (guarantee_example ∷ []) (50 ∷ 51 ∷ []) (1 ∷ 9 ∷ []))
            (get_or (50 ∷ 51 ∷ []) (81 % pending_authorizers_queue_size) 0)
          ≡ true)
new_core_pool-origin_example =
    new_core_pool-origin 81 0 (guarantee_example ∷ []) (50 ∷ 51 ∷ []) (1 ∷ 9 ∷ [])

-- A hash that keeps the first byte.
abbrev first_byte : Hash → Hash
first_byte [] = []
first_byte (b ∷ bs) = b ∷ []

abbrev entries_example : List Entry
entries_example =
    record { header_hash = 1; prior_state_root = 2; accumulation_root = 3 ∷ []; mapping = [] }
    ∷ record { header_hash = 4; prior_state_root = 5; accumulation_root = 6 ∷ []; mapping = [] }
    ∷ record { header_hash = 7; prior_state_root = 8; accumulation_root = 9 ∷ []; mapping = [] }
    ∷ []

update_recent_blocks-chain_example :
    (length (add_blocks first_byte entries_example []) ≡ min max_recent_blocks 3)
    × Represents first_byte 0
        (last_block_mmr (add_blocks first_byte entries_example []))
        (roots first_byte entries_example)
update_recent_blocks-chain_example = update_recent_blocks-chain first_byte entries_example
