-- ===== src/StateTransition/Accumulation/Slots.antt =====
-- Which slots of the queue `CalculateWorkReportsAndAccumulate` writes.
use strawberry.Base.{
  ℕ, zero, suc, ◌+◌, ◌-◌, ◌%◌, ◌<◌, ◌≤◌, ◌≡◌, ◌≢◌, refl, ◌∙◌, arith, some, List, [], get_elem?, set,
  get_elem?-set_ne, replicate, get_or,
}
use strawberry.StateTransition.Constants.{timeslots_per_epoch}
use strawberry.StateTransition.Accumulation.{
  Waiting, index_per_epoch, queue_slot, fill_queue, new_accumulation_queue,
}

-- Up to the slot m of the epoch, i slots back are i slots back.
pub index_per_epoch-back : (m i : ℕ) → i ≤ m → m < timeslots_per_epoch → index_per_epoch m i ≡ m - i
unfolding index_per_epoch
index_per_epoch-back m i h k = omega arith

-- Beyond it the 32 bits wrap around, and 2^32 is 496 modulo the epoch: the slot is 496 + m - i, where
-- m - i modulo the epoch is meant.
pub index_per_epoch-wrapped :
    (m i : ℕ)
    → m < i
    → i < timeslots_per_epoch
    → index_per_epoch m i ≡ (m + 1096 - i) % timeslots_per_epoch
unfolding index_per_epoch
index_per_epoch-wrapped m i h k = omega arith

index_per_epoch-misses : (m i : ℕ) → m < 496 → i < timeslots_per_epoch → index_per_epoch m i ≢ 496
unfolding index_per_epoch
index_per_epoch-misses m i h k e = omega arith

fill_queue-misses :
    (m elapsed : ℕ) (queue : List (List Waiting)) (queued : List Waiting)
    (last_accumulation : List ℕ) (n i : ℕ) (new_queue : List (List Waiting))
    → m < 496
    → i + n ≤ timeslots_per_epoch
    → get_elem? (fill_queue m elapsed queue queued last_accumulation n i new_queue) 496
      ≡ get_elem? new_queue 496
unfolding fill_queue
fill_queue-misses m elapsed queue queued last_accumulation zero i new_queue h k = refl
fill_queue-misses m elapsed queue queued last_accumulation (suc n) i new_queue h k =
    fill_queue-misses m elapsed queue queued last_accumulation n (suc i)
      (set new_queue (index_per_epoch m i) (queue_slot m elapsed queue queued last_accumulation i))
      h (omega arith)
    ∙ get_elem?-set_ne new_queue (queue_slot m elapsed queue queued last_accumulation i)
        (index_per_epoch-misses m i h (omega arith))

-- A block in the first 496 slots of an epoch leaves slot 496 of the queue empty, whatever the queue, the
-- queued reports and the history are.
pub new_accumulation_queue-lost :
    (time_slot_index new_timeslot timeslot_index : ℕ) (queue : List (List Waiting))
    (queued : List Waiting) (new_history : List (List ℕ))
    → time_slot_index % timeslots_per_epoch < 496
    → get_elem?
        (new_accumulation_queue time_slot_index new_timeslot timeslot_index queue queued
          new_history)
        496
      ≡ some []
unfolding new_accumulation_queue
new_accumulation_queue-lost time_slot_index new_timeslot timeslot_index queue queued new_history h =
    fill_queue-misses (time_slot_index % timeslots_per_epoch) _ queue queued
      (get_or new_history 599 []) timeslots_per_epoch 0 (replicate timeslots_per_epoch []) h
      (omega arith)
    ∙ refl
