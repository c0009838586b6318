-- ===== src/StateTransition/Transfers.antt =====
-- `transfersForReceiver`: the deferred transfers to a service, in the order of their senders.
pub mod Sorted
use strawberry.Base.{ℕ, Bool, true, false, List, [], ◌∷◌, leb, ◌==◌, if◌then◌else◌}

-- `service.DeferredTransfer`; the memo is its 128 bytes.
pub record DeferredTransfer : Type 0 where
  pub sender_service_index : ℕ
  pub receiver_service_index : ℕ
  pub balance : ℕ
  pub memo : List ℕ
  pub gas_limit : ℕ

-- The loop that picks the transfers to the service.
unfoldable pub select_receiver : List DeferredTransfer → ℕ → List DeferredTransfer
select_receiver [] service_id = []
select_receiver (t ∷ ts) service_id =
    let rest = select_receiver ts service_id in
    if t.receiver_service_index == service_id then t ∷ rest else rest

-- `slices.SortStableFunc` by the senders: a transfer goes before the first one of its own or a later
-- sender, and those of one sender keep their order.
unfoldable pub insert : DeferredTransfer → List DeferredTransfer → List DeferredTransfer
insert t [] = t ∷ []
insert t (u ∷ us) =
    let rest = insert t us in
    if leb t.sender_service_index u.sender_service_index then t ∷ u ∷ us else u ∷ rest

unfoldable pub sort_stable : List DeferredTransfer → List DeferredTransfer
unfolding insert
sort_stable [] = []
sort_stable (t ∷ ts) = insert t (sort_stable ts)

unfoldable pub transfers_for_receiver : List DeferredTransfer → ℕ → List DeferredTransfer
unfolding select_receiver sort_stable
transfers_for_receiver transfers service_id = sort_stable (select_receiver transfers service_id)
