-- ===== src/StateTransition/Guarantees/Rotation.antt =====
-- Every core has three guarantors.
use strawberry.Base.{
  ℕ, zero, suc, ◌+◌, ◌-◌, ◌*◌, ◌/◌, ◌%◌, ◌<◌, ◌≤◌, ◌≡◌, refl, ap, ◌∙◌, arith, some, List, [], ◌∷◌,
  count, one_if, All, ◌&&◌, leb, ltb, if◌then◌else◌, mul_w, add_w,
}
use mathlib.Core.Option
use strawberry.Common.Shuffling.Permutes.{deterministic_shuffle-count}
use strawberry.StateTransition.Constants.{number_of_validators, total_number_of_cores}
use strawberry.StateTransition.Guarantees.{
  core_indices, rotate_sequence, rotation_amount, permute_assignments,
}

-- Three validators in a row have the same core.
count-core_indices_three :
    (n j c : ℕ)
    → j < total_number_of_cores
    → count c (core_indices (suc (suc (suc n))) (3 * j))
      ≡ 3 * one_if c j + count c (core_indices n (3 * suc j))
unfolding core_indices
count-core_indices_three n j c h =
    let zeroth : mul_w 32 total_number_of_cores (3 * j) / number_of_validators ≡ j = omega arith in
    let first : mul_w 32 total_number_of_cores (suc (3 * j)) / number_of_validators ≡ j =
      omega arith in
    let second : mul_w 32 total_number_of_cores (suc (suc (3 * j))) / number_of_validators ≡ j =
      omega arith in
    let next : suc (suc (suc (3 * j))) ≡ 3 * suc j = omega arith in
    omega (
      arith,
      ap (one_if c) zeroth,
      ap (one_if c) first,
      ap (one_if c) second,
      ap (λ i. count c (core_indices n i)) next,
    )

count-core_indices :
    (m j c : ℕ)
    → j + m ≤ total_number_of_cores
    → count c (core_indices (3 * m) (3 * j)) ≡ (if leb j c && ltb c (j + m) then 3 else 0)
unfolding core_indices
count-core_indices zero j c h = ground arith
count-core_indices (suc m) j c h =
    let three : 3 * suc m ≡ suc (suc (suc (3 * m))) = omega arith in
    ap (λ n. count c (core_indices n (3 * j))) three
    ∙ count-core_indices_three (3 * m) j c (omega arith)
    ∙ ground (arith, count-core_indices m (suc j) c (omega arith))

-- A core that is not there has no validator, and the others have three.
count-all_indices :
    (c : ℕ)
    → count c (core_indices number_of_validators 0) ≡ (if ltb c total_number_of_cores then 3 else 0)
count-all_indices c = count-core_indices total_number_of_cores 0 c (omega arith) ∙ ground arith

three_validators :
    (c : ℕ) → c < total_number_of_cores → count c (core_indices number_of_validators 0) ≡ 3
three_validators c h = count-all_indices c ∙ ground arith

no_validators :
    (c : ℕ) → total_number_of_cores ≤ c → count c (core_indices number_of_validators 0) ≡ 0
no_validators c h = count-all_indices c ∙ ground arith

AreCores : List ℕ → Type 0
AreCores xs = All (λ x. x < total_number_of_cores) xs

AreCores-count :
    (xs : List ℕ) → ((v : ℕ) → total_number_of_cores ≤ v → count v xs ≡ 0) → AreCores xs
unfolding AreCores
AreCores-count [] h = tt
AreCores-count (x ∷ xs) h = (ground (arith, h x), AreCores-count xs (λ v k. omega (arith, h v k)))

rotated :
    (x n c : ℕ)
    → x < total_number_of_cores
    → n < total_number_of_cores
    → c < total_number_of_cores
    → one_if c (add_w 32 x n % total_number_of_cores)
      ≡ one_if ((c + total_number_of_cores - n) % total_number_of_cores) x
rotated x n c g h k = ground arith

-- Behind the rotation by n stands at c what stood at c - n modulo the cores.
count-rotate_sequence :
    (xs : List ℕ) (n c : ℕ)
    → AreCores xs
    → n < total_number_of_cores
    → c < total_number_of_cores
    → count c (rotate_sequence xs n)
      ≡ count ((c + total_number_of_cores - n) % total_number_of_cores) xs
unfolding rotate_sequence AreCores
count-rotate_sequence [] n c all h k = refl
count-rotate_sequence (x ∷ xs) n c all h k =
    omega (arith, rotated x n c all.0 h k, count-rotate_sequence xs n c all.1 h k)

rotation_amount-lt : (timeslot : ℕ) → rotation_amount timeslot < total_number_of_cores
rotation_amount-lt timeslot = omega arith

-- `PermuteAssignments` returns, whatever the hashes, the entropy and the slot are, and gives each of the
-- 341 cores to exactly three of the validators.
pub permute_assignments-count :
    (hash_data : List ℕ → List ℕ) (entropy : List ℕ) (timeslot : ℕ)
    → (assignments : List ℕ) × (permute_assignments hash_data entropy timeslot ≡ some assignments)
      × ((c : ℕ) → c < total_number_of_cores → count c assignments ≡ 3)
unfolding permute_assignments
permute_assignments-count hash_data entropy timeslot =
    let (shuffled, e, same) =
      deterministic_shuffle-count hash_data (core_indices number_of_validators 0) entropy
        (omega arith) in
    let cores : AreCores shuffled = AreCores-count shuffled (λ v h. same v ∙ no_validators v h) in
    let n = rotation_amount timeslot in
    (
      rotate_sequence shuffled n,
      ap (Option.map (λ s. rotate_sequence s n)) e,
      λ c h.
          count-rotate_sequence shuffled n c cores (rotation_amount-lt timeslot) h
          ∙ same ((c + total_number_of_cores - n) % total_number_of_cores)
          ∙ three_validators ((c + total_number_of_cores - n) % total_number_of_cores)
              (omega arith),
    )
