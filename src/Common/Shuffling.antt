-- ===== src/Common/Shuffling.antt =====
-- internal/common/shuffling.go; `crypto.HashData` is a parameter, and the codec writes a uint32 as its
-- four bytes. `none` is a run-time panic of Go.
pub mod Permutes
use strawberry.Base.{
  ℕ, zero, suc, ◌+◌, ◌-◌, ◌*◌, ◌/◌, ◌%◌, Option, none, some, List, [], ◌∷◌, length, get_elem?,
  get_or, set, take, ◌++◌, ◌==◌, if◌then◌else◌, u32,
}
use strawberry.Jam.Fixed.{serialize_trivial_natural, deserialize_trivial_natural}

-- `sPost`: the last element takes the place of the chosen one.
abbrev pub s_post : List ℕ → ℕ → List ℕ
s_post s index = take (length s - 1) (set s index (get_or s (length s - 1) 0))

-- `append([]uint32{head}, …)`, behind the reading of s[index] and the recursive call
unfoldable pub prepend : Option ℕ → Option (List ℕ) → Option (List ℕ)
prepend (some head) (some rest) = some (head ∷ rest)
prepend _ _ = none

-- `recursiveShuffle(s, r)`; r[0] is out of range for an empty r, and a length that is 0 as a uint32
-- divides by zero.
unfoldable pub recursive_shuffle : List ℕ → List ℕ → Option (List ℕ)
unfolding prepend
recursive_shuffle s [] = if length s == 0 then some [] else none
recursive_shuffle s (n ∷ r) =
    let index = n % u32 (length s) in
    let rest = recursive_shuffle (s_post s index) r in
    if length s == 0
    then some []
    else if u32 (length s) == 0
    then none
    else prepend (get_elem? s index) rest

-- The four bytes of the hash from p on, around its end.
abbrev pub four_bytes : List ℕ → ℕ → List ℕ
four_bytes hash p =
    get_or hash (p % 32) 0
    ∷ get_or hash ((p + 1) % 32) 0
    ∷ get_or hash ((p + 2) % 32) 0
    ∷ get_or hash ((p + 3) % 32) 0
    ∷ []

-- The loop of `generateRandomNumbers` over n more numbers, from the i-th on; a hash is its 32 bytes.
unfoldable pub generate_from : (List ℕ → List ℕ) → List ℕ → (n i : ℕ) → List ℕ
unfolding serialize_trivial_natural deserialize_trivial_natural
generate_from hash_data h zero i = []
generate_from hash_data h (suc n) i =
    deserialize_trivial_natural 32
      (four_bytes (hash_data (h ++ serialize_trivial_natural (i / 8) 4)) (u32 (4 * i) % 32))
    ∷ generate_from hash_data h n (suc i)

unfoldable pub generate_random_numbers : (List ℕ → List ℕ) → List ℕ → ℕ → List ℕ
unfolding generate_from
generate_random_numbers hash_data h l = generate_from hash_data h l 0

unfoldable pub deterministic_shuffle : (List ℕ → List ℕ) → List ℕ → List ℕ → Option (List ℕ)
unfolding generate_random_numbers recursive_shuffle
deterministic_shuffle hash_data s h =
    recursive_shuffle s (generate_random_numbers hash_data h (u32 (length s)))
