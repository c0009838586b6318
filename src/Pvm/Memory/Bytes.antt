-- ===== src/Pvm/Memory/Bytes.antt =====
-- Parts of a list that is overwritten.
use strawberry.Base.{
  ℕ, zero, suc, ◌+◌, ◌≤◌, ◌≡◌, refl, ap, arith, List, [], ◌∷◌, ◌++◌, length, length-append,
  length-take, length-drop, take, drop,
}
use strawberry.Pvm.Memory.{overwrite}

module _ {ℓ} {A : Type ℓ} where
  drop-append_take : (n : ℕ) (xs ys : List A) → n ≤ length xs → drop n (take n xs ++ ys) ≡ ys
  drop-append_take zero xs ys h = refl
  drop-append_take (suc n) [] ys h = absurd (omega arith)
  drop-append_take (suc n) (x ∷ xs) ys h = drop-append_take n xs ys (omega arith)

  take-append_length : (xs ys : List A) → take (length xs) (xs ++ ys) ≡ xs
  take-append_length [] ys = refl
  take-append_length (x ∷ xs) ys = ap (λ t. x ∷ t) (take-append_length xs ys)

  take-drop-append_take :
      (n from at : ℕ) (xs ys : List A)
      → from + n ≤ at
      → at ≤ length xs
      → take n (drop from (take at xs ++ ys)) ≡ take n (drop from xs)
  take-drop-append_take zero from at xs ys p q = refl
  take-drop-append_take (suc n) from zero xs ys p q = absurd (omega arith)
  take-drop-append_take (suc n) from (suc at) [] ys p q = absurd (omega arith)
  take-drop-append_take (suc n) zero (suc at) (x ∷ xs) ys p q =
      ap (λ t. x ∷ t) (take-drop-append_take n zero at xs ys (omega arith) (omega arith))
  take-drop-append_take (suc n) (suc from) (suc at) (x ∷ xs) ys p q =
      take-drop-append_take (suc n) from at xs ys (omega arith) (omega arith)

  drop-append_drop :
      (from : ℕ) (xs bytes : List A)
      → length bytes ≤ from
      → length bytes ≤ length xs
      → drop from (bytes ++ drop (length bytes) xs) ≡ drop from xs
  drop-append_drop from xs [] p q = refl
  drop-append_drop zero xs (b ∷ bs) p q = absurd (omega arith)
  drop-append_drop (suc from) [] (b ∷ bs) p q = absurd (omega arith)
  drop-append_drop (suc from) (x ∷ xs) (b ∷ bs) p q =
      drop-append_drop from xs bs (omega arith) (omega arith)

-- A part before the new bytes, and one behind them, are as they were.
pub take-drop-overwrite_before :
    (xs bytes : List ℕ) (at from n : ℕ)
    → from + n ≤ at
    → at + length bytes ≤ length xs
    → take n (drop from (overwrite xs at bytes)) ≡ take n (drop from xs)
unfolding overwrite
take-drop-overwrite_before xs bytes at from n p q =
    take-drop-append_take n from at xs _ p (omega arith)

pub drop-overwrite_behind :
    (xs bytes : List ℕ) (at from : ℕ)
    → at + length bytes ≤ from
    → at + length bytes ≤ length xs
    → drop from (overwrite xs at bytes) ≡ drop from xs
unfolding overwrite
drop-overwrite_behind xs bytes zero from p q =
    rw (plus bytes) (drop-append_drop from xs bytes (omega arith) (omega arith))
  where
    plus : (bytes : List ℕ) → zero + length bytes ≡ length bytes
    plus bytes = omega arith
drop-overwrite_behind xs bytes (suc at) zero p q = absurd (omega arith)
drop-overwrite_behind [] bytes (suc at) (suc from) p q = absurd (omega arith)
drop-overwrite_behind (x ∷ xs) bytes (suc at) (suc from) p q =
    rw (plus at bytes) (drop-overwrite_behind xs bytes at from (omega arith) (omega arith))
  where
    plus : (at : ℕ) (bytes : List ℕ) → suc at + length bytes ≡ suc (at + length bytes)
    plus at bytes = omega arith

-- The new bytes stand where they were written.
pub take-drop-overwrite :
    (xs bytes : List ℕ) (at : ℕ)
    → at + length bytes ≤ length xs
    → take (length bytes) (drop at (overwrite xs at bytes)) ≡ bytes
unfolding overwrite
take-drop-overwrite xs bytes at h =
    rw (drop-append_take at xs _ (omega arith)) (take-append_length bytes _)

pub length-overwrite :
    (xs bytes : List ℕ) (at : ℕ)
    → at + length bytes ≤ length xs
    → length (overwrite xs at bytes) ≡ length xs
unfolding overwrite
length-overwrite xs bytes at h =
    rw (length-append, length-append, length-take, length-drop) (omega arith)
