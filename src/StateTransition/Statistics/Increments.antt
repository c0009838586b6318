-- ===== src/StateTransition/Statistics/Increments.antt =====
-- What a block adds to the statistics of each validator.
use strawberry.Base.{
  ℕ, zero, suc, ◌+◌, ◌^◌, ◌<◌, ◌≡◌, refl, ap, ◌∙◌, inl, inr, arith, Option, none, some, List, [],
  ◌∷◌, get_elem?, length, ◌==◌, if◌then◌else◌, add_w, count, Bool-cases, ==_iff,
}
use strawberry.StateTransition.Preimages.Provided.{some-injective}
use strawberry.StateTransition.Reports.{Assurance}
use strawberry.StateTransition.Preimages.{Preimage}
use strawberry.StateTransition.Statistics.{
  add_bytes, ValidatorStatistics, StatisticsState, Activity, add_authored, add_reports,
  add_assurances, add_activity, add_activities, to_epoch, rotated_statistics,
  calculate_new_validator_statistics,
}

abbrev pub assurers : List Assurance → List ℕ
assurers [] = []
assurers (a ∷ rest) = a.validator_index ∷ assurers rest

abbrev pub count_key : ℕ → List ℕ → ℕ
count_key key [] = 0
count_key key (r ∷ rs) = (if key == r then 1 else 0) + count_key key rs

-- How many of the reporters have the key of the validator.
abbrev pub reports_of_key : Option (Option ℕ) → List ℕ → ℕ
reports_of_key (some (some key)) reporters = count_key key reporters
reports_of_key none reporters = 0
reports_of_key (some none) reporters = 0

zero_more : (n m : ℕ) → add_w 64 n m ≡ add_w 64 n (0 + m)
zero_more n m = omega arith

wrapped : (n m : ℕ) → add_w 64 (add_w 64 n 1) m ≡ add_w 64 n (1 + m)
wrapped n m = omega arith

small : (n : ℕ) → add_w 64 n 1 < 2 ^ 64
small n = omega arith

abbrev pub total_bytes : List Preimage → ℕ
total_bytes [] = 0
total_bytes (p ∷ ps) = length p.bytes + total_bytes ps

add_w-add_w : (n a b : ℕ) → add_w 64 (add_w 64 n a) b ≡ add_w 64 n (a + b)
add_w-add_w n a b = omega arith

reduced : (n a : ℕ) → add_w 64 n a < 2 ^ 64
reduced n a = omega arith

add_bytes-total_bytes :
    (ps : List Preimage) (n : ℕ) → n < 2 ^ 64 → add_bytes ps n ≡ add_w 64 n (total_bytes ps)
unfolding add_bytes
add_bytes-total_bytes [] n h = omega arith
add_bytes-total_bytes (p ∷ ps) n h =
    add_bytes-total_bytes ps (add_w 64 n (length p.bytes)) (reduced n (length p.bytes))
    ∙ add_w-add_w n (length p.bytes) (total_bytes ps)

add_assurances-count :
    (v : ℕ) (assurances : List Assurance) (n : ℕ)
    → n < 2 ^ 64
    → add_assurances v assurances n ≡ add_w 64 n (count v (assurers assurances))
unfolding add_assurances
add_assurances-count v [] n h = omega arith
add_assurances-count v (a ∷ rest) n h = elim (Bool-cases (a.validator_index == v)) [
  | inl same ↦
      rw same
        (add_assurances-count v rest (add_w 64 n 1) (small n) ∙ wrapped n (count v (assurers rest)))
  | inr other ↦ rw other (add_assurances-count v rest n h ∙ zero_more n (count v (assurers rest)))
]

add_reports-count :
    (key : ℕ) (reporters : List ℕ) (n : ℕ)
    → n < 2 ^ 64
    → add_reports (some (some key)) reporters n ≡ add_w 64 n (count_key key reporters)
unfolding add_reports
add_reports-count key [] n h = omega arith
add_reports-count key (r ∷ rs) n h = elim (Bool-cases (key == r)) [
  | inl same ↦
      rw same (add_reports-count key rs (add_w 64 n 1) (small n) ∙ wrapped n (count_key key rs))
  | inr other ↦ rw other (add_reports-count key rs n h ∙ zero_more n (count_key key rs))
]

add_reports-none :
    (reporters : List ℕ) (n : ℕ)
    → n < 2 ^ 64
    → (add_reports none reporters n ≡ add_w 64 n 0)
      × (add_reports (some none) reporters n ≡ add_w 64 n 0)
unfolding add_reports
add_reports-none [] n h = (omega arith, omega arith)
add_reports-none (r ∷ rs) n h = add_reports-none rs n h

add_reports-reports_of_key :
    (key : Option (Option ℕ)) (reporters : List ℕ) (n : ℕ)
    → n < 2 ^ 64
    → add_reports key reporters n ≡ add_w 64 n (reports_of_key key reporters)
add_reports-reports_of_key none reporters n h = (add_reports-none reporters n h).0
add_reports-reports_of_key (some none) reporters n h = (add_reports-none reporters n h).1
add_reports-reports_of_key (some (some key)) reporters n h = add_reports-count key reporters n h

-- What a block makes of the statistics s of the validator v.
pub record Incremented (b : Activity) (validators : List (Option ℕ)) (v : ℕ)
    (s s' : ValidatorStatistics) : Type 0 where
  pub authored_blocks :
      s'.num_of_blocks
      ≡ (if v == b.block_author_index then add_w 32 s.num_of_blocks 1 else s.num_of_blocks)
  pub tickets : s'.num_of_tickets ≡ (
      if v == b.block_author_index
      then add_w 64 s.num_of_tickets b.num_of_ticket_proofs
      else s.num_of_tickets)
  pub preimages : s'.num_of_preimages ≡ (
      if v == b.block_author_index
      then add_w 64 s.num_of_preimages (length b.preimages)
      else s.num_of_preimages)
  pub preimage_bytes : s'.num_of_bytes_all_preimages ≡ (
      if v == b.block_author_index
      then add_w 64 s.num_of_bytes_all_preimages (total_bytes b.preimages)
      else s.num_of_bytes_all_preimages)
  pub reports :
      s'.num_of_guaranteed_reports
      ≡ add_w 64 s.num_of_guaranteed_reports (reports_of_key (get_elem? validators v) b.reporters)
  pub assurances :
      s'.num_of_availability_assurances
      ≡ add_w 64 s.num_of_availability_assurances (count v (assurers b.assurances))

add_activity-Incremented :
    (b : Activity) (validators : List (Option ℕ)) (v : ℕ) (s : ValidatorStatistics)
    → s.num_of_guaranteed_reports < 2 ^ 64
    → s.num_of_availability_assurances < 2 ^ 64
    → s.num_of_bytes_all_preimages < 2 ^ 64
    → Incremented b validators v s (add_activity b validators v s)
unfolding add_activity add_authored
add_activity-Incremented b validators v s h k m = elim (Bool-cases (v == b.block_author_index)) [
  | inl author ↦ record {
    authored_blocks = rw author refl;
    tickets = rw author refl;
    preimages = rw author refl;
    preimage_bytes = rw author (add_bytes-total_bytes b.preimages s.num_of_bytes_all_preimages m);
    reports = rw author (
        add_reports-reports_of_key (get_elem? validators v) b.reporters s.num_of_guaranteed_reports
          h);
    assurances = rw author (add_assurances-count v b.assurances s.num_of_availability_assurances k);
  }
  | inr other ↦ record {
    authored_blocks = rw other refl;
    tickets = rw other refl;
    preimages = rw other refl;
    preimage_bytes = rw other refl;
    reports = rw other (
        add_reports-reports_of_key (get_elem? validators v) b.reporters s.num_of_guaranteed_reports
          h);
    assurances = rw other (add_assurances-count v b.assurances s.num_of_availability_assurances k);
  }
]

past_zero : (i : ℕ) → i ≡ i + 0
past_zero i = omega arith

next : (i j : ℕ) → suc i + j ≡ i + suc j
next i j = omega arith

get_elem?-add_activities :
    (b : Activity) (validators : List (Option ℕ)) (first i : ℕ) (xs : List ValidatorStatistics)
    {s : ValidatorStatistics}
    → get_elem? xs i ≡ some s
    → get_elem? (add_activities b validators first xs) i
      ≡ some (add_activity b validators (first + i) s)
unfolding add_activities
get_elem?-add_activities b validators first i [] e = cc
get_elem?-add_activities b validators first zero (x ∷ xs) e =
    ap (λ i. some (add_activity b validators i x)) (past_zero first)
    ∙ ap (λ y. some (add_activity b validators (first + 0) y)) (some-injective e)
get_elem?-add_activities b validators first (suc i) (x ∷ xs) {s = s} e =
    get_elem?-add_activities b validators (suc first) i xs e
    ∙ ap (λ j. some (add_activity b validators j s)) (next first i)

from_zero : (i : ℕ) → 0 + i ≡ i
from_zero i = omega arith

same_epoch :
    (timeslot : ℕ) (b : Activity) (s : StatisticsState)
    → to_epoch timeslot ≡ to_epoch b.time_slot_index
    → rotated_statistics timeslot b s ≡ s
unfolding rotated_statistics
same_epoch timeslot b s e = rw ((==_iff (to_epoch timeslot) (to_epoch b.time_slot_index)).1 e) refl

-- A block of the same epoch adds to the statistics of each validator, whose counters of reports,
-- assurances and bytes are below 2^64: to the author alone one block, its tickets, its preimages and the bytes of all of them; a report
-- for each reporter with the validator's key; and one for each of the validator's assurances in the block,
-- however many; each sum is taken in the width of its counter, and the completed statistics stay.
pub calculate_new_validator_statistics-Incremented :
    (b : Activity) (timeslot : ℕ) (validators : List (Option ℕ)) (old : StatisticsState) (v : ℕ)
    (s : ValidatorStatistics)
    → to_epoch timeslot ≡ to_epoch b.time_slot_index
    → get_elem? old.present v ≡ some s
    → s.num_of_guaranteed_reports < 2 ^ 64
    → s.num_of_availability_assurances < 2 ^ 64
    → s.num_of_bytes_all_preimages < 2 ^ 64
    → ((calculate_new_validator_statistics b timeslot validators old).completed ≡ old.completed)
      × ((s' : ValidatorStatistics) × (get_elem?
              (calculate_new_validator_statistics b timeslot validators old).present
              v
            ≡ some s')
          × Incremented b validators v s s')
unfolding calculate_new_validator_statistics
calculate_new_validator_statistics-Incremented b timeslot validators old v s same e h k m =
    let kept : rotated_statistics timeslot b old ≡ old = same_epoch timeslot b old same in
    (
      ap (λ (x : StatisticsState). x.completed) kept,
      (
        add_activity b validators v s,
        ap (λ (x : StatisticsState). get_elem? (add_activities b validators 0 x.present) v) kept
            ∙ get_elem?-add_activities b validators 0 v old.present e
            ∙ ap (λ i. some (add_activity b validators i s)) (from_zero v),
        add_activity-Incremented b validators v s h k m,
      ),
    )
