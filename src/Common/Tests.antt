-- ===== src/Common/Tests.antt =====
-- A shuffle of three elements.
use strawberry.Base.{count, ℕ, ◌≡◌, refl, arith, some, List, [], ◌∷◌}
use strawberry.Common.Shuffling.{recursive_shuffle, deterministic_shuffle}
use strawberry.Common.Shuffling.Permutes.{recursive_shuffle-count, deterministic_shuffle-count}

recursive_shuffle-count_example :
    (t : List ℕ) × (recursive_shuffle (5 ∷ 6 ∷ 7 ∷ []) (4 ∷ 9 ∷ 2 ∷ []) ≡ some t)
    × ((v : ℕ) → count v t ≡ count v (5 ∷ 6 ∷ 7 ∷ []))
recursive_shuffle-count_example =
    recursive_shuffle-count (5 ∷ 6 ∷ 7 ∷ []) (4 ∷ 9 ∷ 2 ∷ []) refl (omega arith)

-- A hash that keeps the first two bytes.
abbrev short_hash : List ℕ → List ℕ
short_hash [] = []
short_hash (b ∷ []) = b ∷ []
short_hash (b ∷ c ∷ bs) = b ∷ c ∷ []

deterministic_shuffle-count_example :
    (t : List ℕ) × (deterministic_shuffle short_hash (5 ∷ 6 ∷ 7 ∷ []) (1 ∷ 2 ∷ []) ≡ some t)
    × ((v : ℕ) → count v t ≡ count v (5 ∷ 6 ∷ 7 ∷ []))
deterministic_shuffle-count_example =
    deterministic_shuffle-count short_hash (5 ∷ 6 ∷ 7 ∷ []) (1 ∷ 2 ∷ []) (omega arith)
