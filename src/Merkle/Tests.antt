-- ===== src/Merkle/Tests.antt =====
-- The mountain range on three leaves, with a hash function that joins its argument to a mark.
use strawberry.Base.{some, [], ◌∷◌}
use strawberry.Merkle.MountainRange.{Hash, append}
use strawberry.Merkle.MountainRange.Counter.{Represents, no_peaks, append-Represents, leaf, present}

abbrev marked : Hash → Hash
marked bytes = 255 ∷ bytes

one_leaf : Represents marked 0 (some (1 ∷ []) ∷ []) ((1 ∷ []) ∷ [])
one_leaf = present no_peaks leaf

append-Represents_example :
    Represents marked 0 (append marked (some (1 ∷ []) ∷ []) (2 ∷ [])) ((1 ∷ []) ∷ (2 ∷ []) ∷ [])
append-Represents_example =
    append-Represents marked (some (1 ∷ []) ∷ []) ((1 ∷ []) ∷ []) (2 ∷ []) one_leaf
