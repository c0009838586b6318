-- ===== src/StateTransition/Tests/Transfers.antt =====
-- The transfers to a service at a concrete input.
use strawberry.Base.{ℕ, ◌≡◌, refl, List, [], ◌∷◌}
use strawberry.StateTransition.Transfers.{DeferredTransfer, transfers_for_receiver}
use strawberry.StateTransition.Transfers.Sorted.{
  IsSorted, by_sender, between, transfers_for_receiver-IsSorted,
}

abbrev transfer : ℕ → ℕ → ℕ → DeferredTransfer
transfer sender receiver amount = record {
  sender_service_index = sender;
  receiver_service_index = receiver;
  balance = amount;
  memo = [];
  gas_limit = 10;
}

abbrev transfers_example : List DeferredTransfer
transfers_example =
    transfer 5 1 100
    ∷ transfer 3 1 101
    ∷ transfer 3 2 102
    ∷ transfer 5 1 103
    ∷ transfer 3 1 104
    ∷ []

run_transfers :
    transfers_for_receiver transfers_example 1
    ≡ transfer 3 1 101 ∷ transfer 3 1 104 ∷ transfer 5 1 100 ∷ transfer 5 1 103 ∷ []
unfolding transfers_for_receiver
run_transfers = refl

transfers_for_receiver-IsSorted_example :
    IsSorted (transfers_for_receiver transfers_example 1)
    × ((s : ℕ)
        → by_sender s (transfers_for_receiver transfers_example 1) ≡ between s 1 transfers_example)
transfers_for_receiver-IsSorted_example = transfers_for_receiver-IsSorted transfers_example 1
