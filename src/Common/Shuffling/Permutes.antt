-- ===== src/Common/Shuffling/Permutes.antt =====
-- A shuffle gives the elements of the sequence, each as often as it was there.
use native.Mathlib.Nat.{mod-lt}
use strawberry.Base.{
  one_if, count, ℕ, zero, suc, ◌+◌, ◌-◌, ◌%◌, ◌^◌, ◌<◌, ◌≡◌, refl, ap, arith, some, List, [], ◌∷◌,
  length, ◌∙◌, get_elem?, get_or, set, take, length-set, length-take, ◌==◌, u32, subst, false,
}
use strawberry.Common.Shuffling.{
  s_post, prepend, recursive_shuffle, generate_from, generate_random_numbers, deterministic_shuffle,
}

count-set :
    (v : ℕ) (xs : List ℕ) (i y : ℕ)
    → i < length xs
    → count v (set xs i y) + one_if v (get_or xs i 0) ≡ count v xs + one_if v y
count-set v [] i y h = absurd (omega arith)
count-set v (x ∷ xs) zero y h = omega arith
count-set v (x ∷ xs) (suc i) y h = omega (arith, count-set v xs i y (omega arith))

count-take :
    (v : ℕ) (x : ℕ) (xs : List ℕ)
    → count v (take (length xs) (x ∷ xs)) + one_if v (get_or (x ∷ xs) (length xs) 0)
      ≡ count v (x ∷ xs)
count-take v x [] = omega arith
count-take v x (y ∷ xs) = omega (arith, count-take v y xs)

-- The last element is the same after it was written to any place.
last-set :
    (xs : List ℕ) (x i : ℕ)
    → get_or (set (x ∷ xs) i (get_or (x ∷ xs) (length xs) 0)) (length xs) 0
      ≡ get_or (x ∷ xs) (length xs) 0
last-set [] x zero = refl
last-set [] x (suc i) = refl
last-set (y ∷ xs) x zero = refl
last-set (y ∷ xs) x (suc i) = last-set xs y i

get_elem?-get_or : (xs : List ℕ) (i : ℕ) → i < length xs → get_elem? xs i ≡ some (get_or xs i 0)
get_elem?-get_or [] i h = absurd (omega arith)
get_elem?-get_or (x ∷ xs) zero h = refl
get_elem?-get_or (x ∷ xs) (suc i) h = get_elem?-get_or xs i (omega arith)

split_take :
    (v : ℕ) (t : List ℕ) (n : ℕ)
    → length t ≡ suc n
    → count v (take n t) + one_if v (get_or t n 0) ≡ count v t
split_take v [] n e = absurd (omega (arith, e))
split_take v (x ∷ xs) n e =
    subst (λ k. count v (take k (x ∷ xs)) + one_if v (get_or (x ∷ xs) k 0) ≡ count v (x ∷ xs))
      (omega (arith, e)) (count-take v x xs)

s_post-take :
    (x : ℕ) (xs : List ℕ) (i : ℕ)
    → s_post (x ∷ xs) i ≡ take (length xs) (set (x ∷ xs) i (get_or (x ∷ xs) (length xs) 0))
s_post-take x xs i = ap (λ n. take n (set (x ∷ xs) i (get_or (x ∷ xs) n 0))) (before (length xs))
  where
    before : (n : ℕ) → suc n - 1 ≡ n
    before n = omega arith

count-s_post :
    (v x : ℕ) (xs : List ℕ) (i : ℕ)
    → i < suc (length xs)
    → count v (s_post (x ∷ xs) i) + one_if v (get_or (x ∷ xs) i 0) ≡ count v (x ∷ xs)
count-s_post v x xs i h =
    let last : ℕ = get_or (x ∷ xs) (length xs) 0 in
    omega (
      arith,
      ap (count v) (s_post-take x xs i),
      split_take v (set (x ∷ xs) i last) (length xs) (length-set (x ∷ xs) i last),
      ap (one_if v) (last-set xs x i),
      count-set v (x ∷ xs) i last h,
    )

length-s_post : (x : ℕ) (xs : List ℕ) (i : ℕ) → length (s_post (x ∷ xs) i) ≡ length xs
length-s_post x xs i =
    let last : ℕ = get_or (x ∷ xs) (length xs) 0 in
    omega (
      arith,
      ap (λ (t : List ℕ). length t) (s_post-take x xs i),
      length-take (length xs) (set (x ∷ xs) i last),
      length-set (x ∷ xs) i last,
    )

nonzero : (n : ℕ) → (suc n == 0) ≡ false
nonzero n = ground arith

shuffle_step :
    (x : ℕ) (xs : List ℕ) (n : ℕ) (r t : List ℕ)
    → suc (length xs) < 2 ^ 32
    → recursive_shuffle (s_post (x ∷ xs) (n % suc (length xs))) r ≡ some t
    → recursive_shuffle (x ∷ xs) (n ∷ r) ≡ some (get_or (x ∷ xs) (n % suc (length xs)) 0 ∷ t)
unfolding recursive_shuffle prepend
shuffle_step x xs n r t h shuffled =
    let whole : u32 (suc (length xs)) ≡ suc (length xs) = omega (arith, h) in
    let inside : n % suc (length xs) < suc (length xs) = mod-lt n (omega arith) in
    rw
      (whole, nonzero (length xs), get_elem?-get_or (x ∷ xs) (n % suc (length xs)) inside, shuffled)
      refl

-- With one random number for each element, and fewer than 2^32 elements, `recursiveShuffle` returns a
-- sequence in which every value stands as often as in the one that it was given.
pub recursive_shuffle-count :
    (s r : List ℕ)
    → length r ≡ length s
    → length s < 2 ^ 32
    → (t : List ℕ) × (recursive_shuffle s r ≡ some t) × ((v : ℕ) → count v t ≡ count v s)
unfolding recursive_shuffle prepend
recursive_shuffle-count [] [] e h = ([], refl, λ v. refl)
recursive_shuffle-count [] (n ∷ r) e h = absurd (omega (arith, e))
recursive_shuffle-count (x ∷ xs) [] e h = absurd (omega (arith, e))
recursive_shuffle-count (x ∷ xs) (n ∷ r) e h =
    let m : ℕ = suc (length xs) in
    let inside : n % m < m = mod-lt n (omega arith) in
    let shorter = length-s_post x xs (n % m) in
    let (t, shuffled, counts) =
      recursive_shuffle-count (s_post (x ∷ xs) (n % m)) r (omega (arith, shorter, e))
        (omega (arith, shorter, h)) in
    (
      get_or (x ∷ xs) (n % m) 0 ∷ t,
      shuffle_step x xs n r t h shuffled,
      λ v. omega (arith, counts v, count-s_post v x xs (n % m) inside),
    )

length-generate_from :
    (hash_data : List ℕ → List ℕ) (h : List ℕ) (n i : ℕ)
    → length (generate_from hash_data h n i) ≡ n
unfolding generate_from
length-generate_from hash_data h zero i = refl
length-generate_from hash_data h (suc n) i = ap suc (length-generate_from hash_data h n (suc i))

-- `DeterministicShuffle` returns, whatever the hashes are, and permutes a sequence of fewer than 2^32
-- elements.
pub deterministic_shuffle-count :
    (hash_data : List ℕ → List ℕ) (s h : List ℕ)
    → length s < 2 ^ 32
    → (t : List ℕ) × (deterministic_shuffle hash_data s h ≡ some t)
      × ((v : ℕ) → count v t ≡ count v s)
unfolding deterministic_shuffle generate_random_numbers
deterministic_shuffle-count hash_data s h short =
    recursive_shuffle-count s (generate_from hash_data h (u32 (length s)) 0)
      (length-generate_from hash_data h (u32 (length s)) 0 ∙ omega arith) short
