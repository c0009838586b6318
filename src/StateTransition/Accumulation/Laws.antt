-- ===== src/StateTransition/Accumulation/Laws.antt =====
-- What `accumulationPriority` leaves of a queue.
use strawberry.Base.{
  ℕ, suc, true, ◌||◌, ◌≡◌, refl, ap, ◌∙◌, arith, some, List, [], ◌∷◌, ◌==◌, contains,
  contains-append, map,
}
use strawberry.StateTransition.Reports.{package_hash}
use strawberry.StateTransition.Accumulation.{
  Waiting, insert_key, insert_keys, update_queue, get_work_package_hashes, reports_of,
  accumulation_priority,
}

contains-insert_key :
    (s : List ℕ) (key h : ℕ) → contains (insert_key s key) h ≡ (contains s h || key == h)
contains-insert_key s key h = ground (arith, contains-append s (key ∷ []) h)

contains-insert_keys :
    (s keys : List ℕ) (h : ℕ) → contains (insert_keys s keys) h ≡ (contains s h || contains keys h)
contains-insert_keys s [] h = ground arith
contains-insert_keys s (key ∷ keys) h =
    ground (arith, contains-insert_keys (insert_key s key) keys h, contains-insert_key s key h)

-- A set that has the package of every report of the queue.
abbrev pub Covers : List ℕ → List Waiting → Type 0
Covers hash_set [] = Unit {0}
Covers hash_set (wd ∷ rest) =
    (contains hash_set (package_hash wd.work_report) ≡ true) × Covers hash_set rest

update_queue-Covers :
    (queue : List Waiting) (hash_set : List ℕ)
    → Covers hash_set queue
    → update_queue queue hash_set ≡ []
unfolding update_queue
update_queue-Covers [] hash_set c = refl
update_queue-Covers (wd ∷ rest) hash_set c =
    ground (arith, c.0, update_queue-Covers rest hash_set c.1)

Covers-insert_keys :
    (queue : List Waiting) (s : List ℕ)
    → Covers (insert_keys s (map package_hash (reports_of queue))) queue
Covers-insert_keys [] s = tt
Covers-insert_keys (wd ∷ rest) s = (
  contains-insert_keys (insert_key s (package_hash wd.work_report))
        (map package_hash (reports_of rest)) (package_hash wd.work_report)
      ∙ ground (
        arith,
        contains-insert_key s (package_hash wd.work_report) (package_hash wd.work_report),
      ),
  Covers-insert_keys rest (insert_key s (package_hash wd.work_report)),
)

update_queue-reports :
    (queue : List Waiting) → update_queue queue (get_work_package_hashes (reports_of queue)) ≡ []
unfolding get_work_package_hashes
update_queue-reports queue =
    update_queue-Covers queue (insert_keys [] (map package_hash (reports_of queue)))
      (Covers-insert_keys queue [])

-- `accumulationPriority` ends on every queue, after at most two calls, and always gives no reports.
pub accumulation_priority_empty :
    (fuel : ℕ) (queue : List Waiting) → accumulation_priority (suc (suc fuel)) queue ≡ some []
unfolding accumulation_priority
accumulation_priority_empty fuel [] = refl
accumulation_priority_empty fuel (wd ∷ rest) =
    ap (accumulation_priority (suc fuel)) (update_queue-reports (wd ∷ rest))
