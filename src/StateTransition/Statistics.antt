-- ===== src/StateTransition/Statistics.antt =====
-- `CalculateNewValidatorStatistics`. The reporters are a list of keys, each once.
pub mod Increments
use strawberry.Base.{
  ℕ, zero, suc, ◌/◌, Bool, true, false, Option, none, some, List, [], ◌∷◌, length, get_elem?,
  replicate, ◌==◌, if◌then◌else◌, add_w,
}
use strawberry.StateTransition.Constants.{number_of_validators, timeslots_per_epoch}
use strawberry.StateTransition.Reports.{Assurance}
use strawberry.StateTransition.Preimages.{Preimage}

pub record ValidatorStatistics : Type 0 where
  pub num_of_blocks : ℕ
  pub num_of_tickets : ℕ
  pub num_of_preimages : ℕ
  pub num_of_bytes_all_preimages : ℕ
  pub num_of_guaranteed_reports : ℕ
  pub num_of_availability_assurances : ℕ

-- `ValidatorStatisticsState`: the completed and the present statistics.
pub record StatisticsState : Type 0 where
  pub completed : List ValidatorStatistics
  pub present : List ValidatorStatistics

-- What the statistics read of a block and of the step: the number of the tickets stands for them.
pub record Activity : Type 0 where
  pub time_slot_index : ℕ
  pub block_author_index : ℕ
  pub num_of_ticket_proofs : ℕ
  pub preimages : List Preimage
  pub assurances : List Assurance
  pub reporters : List ℕ

abbrev pub zero_statistics : ValidatorStatistics
zero_statistics = record {
  num_of_blocks = 0;
  num_of_tickets = 0;
  num_of_preimages = 0;
  num_of_bytes_all_preimages = 0;
  num_of_guaranteed_reports = 0;
  num_of_availability_assurances = 0;
}

-- `Timeslot.ToEpoch`
abbrev pub to_epoch : ℕ → ℕ
to_epoch timeslot = timeslot / timeslots_per_epoch

unfoldable pub add_bytes : List Preimage → ℕ → ℕ
add_bytes [] n = n
add_bytes (p ∷ ps) n = add_bytes ps (add_w 64 n (length p.bytes))

-- The statistics of the author.
unfoldable pub add_authored : Activity → ValidatorStatistics → ValidatorStatistics
unfolding add_bytes
add_authored b s = record s {
  num_of_blocks = add_w 32 s.num_of_blocks 1;
  num_of_tickets = add_w 64 s.num_of_tickets b.num_of_ticket_proofs;
  num_of_preimages = add_w 64 s.num_of_preimages (length b.preimages);
  num_of_bytes_all_preimages = add_bytes b.preimages s.num_of_bytes_all_preimages;
}

abbrev pub is_reporter : Option (Option ℕ) → ℕ → Bool
is_reporter (some (some key)) reporter = key == reporter
is_reporter _ reporter = false

-- The loop over the reporters, by the key of the validator.
unfoldable pub add_reports : Option (Option ℕ) → List ℕ → ℕ → ℕ
add_reports key [] n = n
add_reports key (r ∷ rs) n = add_reports key rs (if is_reporter key r then add_w 64 n 1 else n)

-- The loop over the assurances, for the validator v.
unfoldable pub add_assurances : ℕ → List Assurance → ℕ → ℕ
add_assurances v [] n = n
add_assurances v (a ∷ rest) n =
    add_assurances v rest (if a.validator_index == v then add_w 64 n 1 else n)

-- One round of the loop over the validators.
unfoldable pub add_activity :
    Activity → List (Option ℕ) → ℕ → ValidatorStatistics → ValidatorStatistics
unfolding add_authored add_reports add_assurances
add_activity b validators v s =
    let authored = if v == b.block_author_index then add_authored b s else s in
    record authored {
      num_of_guaranteed_reports =
          add_reports (get_elem? validators v) b.reporters authored.num_of_guaranteed_reports;
      num_of_availability_assurances =
          add_assurances v b.assurances authored.num_of_availability_assurances;
    }

-- The validators from v on.
unfoldable pub add_activities :
    Activity → List (Option ℕ) → ℕ → List ValidatorStatistics → List ValidatorStatistics
unfolding add_activity
add_activities b validators v [] = []
add_activities b validators v (s ∷ rest) =
    add_activity b validators v s ∷ add_activities b validators (suc v) rest

-- The change of the epoch.
unfoldable pub rotated_statistics : ℕ → Activity → StatisticsState → StatisticsState
rotated_statistics timeslot b s =
    if to_epoch timeslot == to_epoch b.time_slot_index
    then s
    else record { completed = s.present; present = replicate number_of_validators zero_statistics }

unfoldable pub calculate_new_validator_statistics :
    Activity → ℕ → List (Option ℕ) → StatisticsState → StatisticsState
unfolding rotated_statistics add_activities
calculate_new_validator_statistics b timeslot validators s =
    let rotated = rotated_statistics timeslot b s in
    record rotated { present = add_activities b validators 0 rotated.present }
