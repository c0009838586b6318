-- ===== src/StateTransition/Constants.antt =====
-- internal/common/constants.go, internal/jamtime and internal/state/constants.go: the values of the
-- build without the tag `integration`.
use strawberry.Base.{ℕ, ◌+◌, ◌*◌, ◌/◌}

abbrev pub number_of_validators : ℕ
number_of_validators = 1023

abbrev pub total_number_of_cores : ℕ
total_number_of_cores = 341

abbrev pub availability_threshold : ℕ
availability_threshold = 2 * number_of_validators / 3

abbrev pub validators_super_majority : ℕ
validators_super_majority = 2 * number_of_validators / 3 + 1

abbrev pub work_report_timeout_period : ℕ
work_report_timeout_period = 5

abbrev pub validator_rotation_period : ℕ
validator_rotation_period = 10

abbrev pub timeslots_per_epoch : ℕ
timeslots_per_epoch = 600

abbrev pub ticket_submission_time_slots : ℕ
ticket_submission_time_slots = 500

abbrev pub max_recent_blocks : ℕ
max_recent_blocks = 8

abbrev pub max_authorizers_per_core : ℕ
max_authorizers_per_core = 8

abbrev pub pending_authorizers_queue_size : ℕ
pending_authorizers_queue_size = 80

abbrev pub max_timeslots_for_preimage : ℕ
max_timeslots_for_preimage = 14400

abbrev pub max_allocated_gas_accumulation : ℕ
max_allocated_gas_accumulation = 10000000

abbrev pub work_report_max_sum_of_dependencies : ℕ
work_report_max_sum_of_dependencies = 8

abbrev pub max_work_package_size_bytes : ℕ
max_work_package_size_bytes = 48 * 1024
