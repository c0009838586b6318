-- ===== src/Merkle/MountainRange.antt =====
-- internal/merkle/mountain_ranges/mmr.go. A hash is the list of its bytes, and the hash function is a
-- parameter, as in the source.
pub mod Counter
use strawberry.Base.{ℕ, zero, suc, Option, none, some, List, [], ◌∷◌, ◌++◌, length, get_elem?, set}

abbrev pub Hash : Type 0
Hash = List ℕ

-- `nil` is `none`.
abbrev pub Peak : Type 0
Peak = Option Hash

-- `replacePeakAt(peaks, index, value)`, which copies the peaks
abbrev pub replace_peak_at : List Peak → ℕ → Peak → List Peak
replace_peak_at peaks index value = set peaks index value

-- `placePeak(peaks, item, position, hashFunc)`, with the number of peaks from the position on: at zero
-- the position is behind the last peak.
unfoldable pub place_peak : (Hash → Hash) → List Peak → Hash → ℕ → ℕ → List Peak
place_peak hash_func peaks item position zero = peaks ++ (some item ∷ [])
place_peak hash_func peaks item position (suc rounds) = elim (get_elem? peaks position) [
  | none ↦ peaks ++ (some item ∷ [])
  | some none ↦ replace_peak_at peaks position (some item)
  | some (some peak) ↦
      place_peak hash_func (replace_peak_at peaks position none) (hash_func (peak ++ item))
        (suc position) rounds
]

-- `Append(r, l, hashFunc)`
unfoldable pub append : (Hash → Hash) → List Peak → Hash → List Peak
unfolding place_peak
append hash_func r l = place_peak hash_func r l 0 (length r)
