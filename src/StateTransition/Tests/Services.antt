-- ===== src/StateTransition/Tests/Services.antt =====
-- The preimages of a block at concrete inputs.
use strawberry.Base.{ℕ, ◌≡◌, refl, none, some, List, [], ◌∷◌, ◌++◌, inr}
use strawberry.StateTransition.Preimages.{
  Account, Preimage, find, provide, calculate_intermediate_service_state,
}
use strawberry.StateTransition.Preimages.Provided.{
  AllMaps, with_preimages, calculate_intermediate_service_state-one_state,
}
use strawberry.StateTransition.Preimages.Solicited.{calculate_intermediate_service_state-lost}
use strawberry.StateTransition.Preimages.Holds.{Holds}
use strawberry.StateTransition.Preimages.Unasked.{calculate_intermediate_service_state-unasked}

abbrev hash_example : List ℕ → ℕ
hash_example [] = 0
hash_example (b ∷ bs) = b

abbrev account_example : Account
account_example = record {
  storage = some [];
  preimage_lookup = some [];
  preimage_meta = some ((record { hash = 5; length = 2 }, []) ∷ []);
  code_hash = 1;
  balance = 100;
  gas_limit_for_accumulator = 10;
  gas_limit_on_transfer = 10;
}

abbrev bare_account : Account
bare_account = record account_example { preimage_lookup = none; preimage_meta = none }

abbrev first_preimage : Preimage
first_preimage = record { service_index = 3; bytes = 5 ∷ 6 ∷ [] }

abbrev second_preimage : Preimage
second_preimage = record { service_index = 3; bytes = 7 ∷ [] }

has_maps : AllMaps ((3, account_example) ∷ [])
has_maps = (
  record {
    lookup = [];
    has_lookup = refl;
    meta = (record { hash = 5; length = 2 }, []) ∷ [];
    has_meta = refl;
  },
  tt,
)

calculate_intermediate_service_state-one_state_example :
    calculate_intermediate_service_state hash_example
      (first_preimage ∷ second_preimage ∷ [])
      ((3, account_example) ∷ [])
      77
    ≡ record {
      old =
          with_preimages hash_example 77
            ((3, account_example) ∷ [])
            (first_preimage ∷ second_preimage ∷ []);
      new =
          with_preimages hash_example 77
            ((3, account_example) ∷ [])
            (first_preimage ∷ second_preimage ∷ []);
    }
calculate_intermediate_service_state-one_state_example =
    calculate_intermediate_service_state-one_state hash_example
      (first_preimage ∷ second_preimage ∷ []) ((3, account_example) ∷ []) 77 has_maps

-- The second preimage is not asked for; the first one, before it and behind it, is.
calculate_intermediate_service_state-unasked_example :
    Holds
      (calculate_intermediate_service_state hash_example
        ((first_preimage ∷ []) ++ (second_preimage ∷ first_preimage ∷ []))
        ((3, account_example) ∷ [])
        77).new
      3
      (record { hash = 7; length = 1 })
      (some (7 ∷ []))
      (some (77 ∷ []))
calculate_intermediate_service_state-unasked_example =
    calculate_intermediate_service_state-unasked hash_example (first_preimage ∷ []) second_preimage
      (first_preimage ∷ []) ((3, account_example) ∷ []) 77 has_maps (inr refl, tt)
      (record { account = account_example; found = refl; lookup = refl; meta = refl })

calculate_intermediate_service_state-lost_example :
    find
      (calculate_intermediate_service_state hash_example
        (first_preimage ∷ second_preimage ∷ [])
        ((3, bare_account) ∷ [])
        77).new
      3
    ≡ some (provide bare_account 7 (7 ∷ []) 77)
calculate_intermediate_service_state-lost_example =
    calculate_intermediate_service_state-lost hash_example first_preimage second_preimage
      ((3, bare_account) ∷ []) 77 bare_account refl refl refl refl
