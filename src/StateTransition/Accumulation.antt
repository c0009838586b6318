-- ===== src/StateTransition/Accumulation.antt =====
-- The queue of reports that wait for other reports: `updateQueue`, `accumulationPriority`, and the parts
-- of `CalculateWorkReportsAndAccumulate` that read and write the queue and the history. A set of hashes
-- (`map[crypto.Hash]struct{}`) is a list of its members, in any order.
pub mod Laws
pub mod Remains
pub mod Immediate
pub mod Slots
use strawberry.Base.{
  ℕ, zero, suc, ◌+◌, ◌-◌, ◌%◌, ◌^◌, Bool, true, false, not, ◌&&◌, ◌||◌, Option, none, some, List,
  [], ◌∷◌, ◌++◌, length, set, get_or, take, drop, replicate, ltb, ◌==◌, if◌then◌else◌, contains,
  u32, map, sub_w,
}
use mathlib.Core.Option
use strawberry.StateTransition.Constants.{timeslots_per_epoch}
use strawberry.StateTransition.Reports.{WorkReport, package_hash}

-- `state.WorkReportWithUnAccumulatedDependencies`
pub record Waiting : Type 0 where
  pub work_report : WorkReport
  pub dependencies : List ℕ

abbrev pub segment_keys : List (ℕ × ℕ) → List ℕ
segment_keys [] = []
segment_keys ((key, root) ∷ rest) = key ∷ segment_keys rest

-- A write of a key to a set.
abbrev pub insert_key : List ℕ → ℕ → List ℕ
insert_key s key = if contains s key then s else s ++ (key ∷ [])

abbrev pub insert_keys : List ℕ → List ℕ → List ℕ
insert_keys s [] = s
insert_keys s (key ∷ keys) = insert_keys (insert_key s key) keys

-- `getWorkReportDependencies`
unfoldable pub get_work_report_dependencies : WorkReport → Waiting
get_work_report_dependencies w = record {
  work_report = w;
  dependencies =
      insert_keys (insert_keys [] w.refinement_context.prerequisite_work_package)
        (segment_keys w.segment_root_lookup);
}

-- The loop `for hash := range hashSet { delete(dependencies, hash) }`
abbrev pub without : List ℕ → List ℕ → List ℕ
without hash_set [] = []
without hash_set (d ∷ ds) =
    if contains hash_set d then without hash_set ds else d ∷ without hash_set ds

unfoldable pub update_queue : List Waiting → List ℕ → List Waiting
update_queue [] hash_set = []
update_queue (wd ∷ rest) hash_set =
    let new_rest = update_queue rest hash_set in
    if contains hash_set (package_hash wd.work_report)
    then new_rest
    else record wd { dependencies = without hash_set wd.dependencies } ∷ new_rest

unfoldable pub get_work_package_hashes : List WorkReport → List ℕ
get_work_package_hashes work_reports = insert_keys [] (map package_hash work_reports)

unfoldable pub flatten_accumulation_history : List (List ℕ) → List ℕ
flatten_accumulation_history [] = []
flatten_accumulation_history (epoch_history ∷ rest) =
    insert_keys epoch_history (flatten_accumulation_history rest)

abbrev pub reports_of : List Waiting → List WorkReport
reports_of [] = []
reports_of (wd ∷ rest) = wd.work_report ∷ reports_of rest

-- `accumulationPriority` on fuel; `none` is where it runs out.
unfoldable pub accumulation_priority : ℕ → List Waiting → Option (List WorkReport)
unfolding update_queue get_work_package_hashes
accumulation_priority zero queue = none
accumulation_priority (suc fuel) [] = some []
accumulation_priority (suc fuel) (wd ∷ rest) =
    accumulation_priority fuel
      (update_queue (wd ∷ rest) (get_work_package_hashes (reports_of (wd ∷ rest))))

abbrev pub is_empty {ℓ} : {A : Type ℓ} → List A → Bool
is_empty [] = true
is_empty (x ∷ xs) = false

abbrev pub is_immediate : WorkReport → Bool
is_immediate w =
    is_empty w.refinement_context.prerequisite_work_package && is_empty w.segment_root_lookup

-- The loop that parts the available reports: those to accumulate at once, and the others.
unfoldable pub immediate_reports : List WorkReport → List WorkReport
immediate_reports [] = []
immediate_reports (w ∷ ws) =
    let rest = immediate_reports ws in if is_immediate w then w ∷ rest else rest

unfoldable pub reports_with_dependencies : List WorkReport → List Waiting
unfolding get_work_report_dependencies
reports_with_dependencies [] = []
reports_with_dependencies (w ∷ ws) =
    let rest = reports_with_dependencies ws in
    if is_immediate w then rest else get_work_report_dependencies w ∷ rest

-- `queuedWorkReports`
unfoldable pub queued_work_reports : List WorkReport → List (List ℕ) → List Waiting
unfolding reports_with_dependencies update_queue flatten_accumulation_history
queued_work_reports available history =
    update_queue (reports_with_dependencies available) (flatten_accumulation_history history)

abbrev pub concat {ℓ} : {A : Type ℓ} → List (List A) → List A
concat [] = []
concat (xs ∷ xss) = xs ++ concat xss

-- `workReportsFromQueueDeps`, from the slot of the header, the queue and the history of the state.
unfoldable pub work_reports_from_queue :
    ℕ → List WorkReport → List (List Waiting) → List (List ℕ) → List Waiting
unfolding immediate_reports queued_work_reports update_queue get_work_package_hashes
work_reports_from_queue time_slot_index available queue history =
    let m = time_slot_index % timeslots_per_epoch in
    update_queue
      (concat (drop m queue) ++ (concat (take m queue) ++ queued_work_reports available history))
      (get_work_package_hashes (immediate_reports available))

-- `accumulatableWorkReports`
unfoldable pub accumulatable_work_reports :
    ℕ → ℕ → List WorkReport → List (List Waiting) → List (List ℕ) → Option (List WorkReport)
unfolding immediate_reports work_reports_from_queue accumulation_priority
accumulatable_work_reports fuel time_slot_index available queue history =
    Option.map (λ prioritized. immediate_reports available ++ prioritized)
      (accumulation_priority fuel (work_reports_from_queue time_slot_index available queue history))

-- `newAccumulationHistory`: the first epoch slot falls out and the accumulated packages come in.
unfoldable pub new_accumulation_history : List (List ℕ) → List WorkReport → List (List ℕ)
unfolding get_work_package_hashes
new_accumulation_history history accumulated =
    drop 1 history ++ (get_work_package_hashes accumulated ∷ [])

-- `indexPerEpoch`, in 32 bits.
unfoldable pub index_per_epoch : ℕ → ℕ → ℕ
index_per_epoch m i = (m + 2 ^ 32 - i) % 2 ^ 32 % timeslots_per_epoch

-- What the loop writes to the slot of i.
unfoldable pub queue_slot : ℕ → ℕ → List (List Waiting) → List Waiting → List ℕ → ℕ → List Waiting
unfolding index_per_epoch update_queue
queue_slot m elapsed queue queued last_accumulation i =
    if i == 0
    then update_queue queued last_accumulation
    else if ltb i elapsed
    then []
    else update_queue (get_or queue (index_per_epoch m i) []) last_accumulation

-- The loop `for i := range jamtime.TimeslotsPerEpoch`, with n iterations left, on the new queue.
unfoldable pub fill_queue :
    ℕ
    → ℕ
    → List (List Waiting)
    → List Waiting
    → List ℕ
    → (n i : ℕ) → List (List Waiting)
    → List (List Waiting)
unfolding queue_slot index_per_epoch
fill_queue m elapsed queue queued last_accumulation zero i new_queue = new_queue
fill_queue m elapsed queue queued last_accumulation (suc n) i new_queue =
    fill_queue m elapsed queue queued last_accumulation n (suc i)
      (set new_queue (index_per_epoch m i) (queue_slot m elapsed queue queued last_accumulation i))

-- `newAccumulationQueue`, from the slot of the header, the new slot, the slot of the state, the queue,
-- the queued reports and the new history.
unfoldable pub new_accumulation_queue :
    ℕ → ℕ → ℕ → List (List Waiting) → List Waiting → List (List ℕ) → List (List Waiting)
unfolding fill_queue
new_accumulation_queue time_slot_index new_timeslot timeslot_index queue queued new_history =
    fill_queue (time_slot_index % timeslots_per_epoch) (sub_w 32 new_timeslot timeslot_index) queue
      queued (get_or new_history 599 []) timeslots_per_epoch 0 (replicate timeslots_per_epoch [])
