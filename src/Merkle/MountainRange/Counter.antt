-- ===== src/Merkle/MountainRange/Counter.antt =====
-- The peaks are the roots of full trees, as the digits of the number of leaves tell.
use strawberry.Base.{
  ℕ, suc, ◌≡◌, refl, sym, ap, ◌∙◌, subst, none, some, List, [], ◌∷◌, ◌++◌, length, get_elem?, set,
}
use strawberry.Merkle.MountainRange.{Hash, Peak, place_peak, append}

module _ (hash_func : Hash → Hash) where
  -- h is the root of the full binary tree of the depth n over the leaves.
  pub data IsRoot : ℕ → Hash → List Hash → Type 0 where
    leaf : {h : Hash} → IsRoot 0 h (h ∷ [])
    node :
        {n : ℕ} {left right : Hash} {xs ys : List Hash}
        → IsRoot n left xs
        → IsRoot n right ys
        → IsRoot (suc n) (hash_func (left ++ right)) (xs ++ ys)

  -- The peaks from the depth n on stand for the leaves, the deepest tree for the first ones.
  pub data Represents : ℕ → List Peak → List Hash → Type 0 where
    no_peaks : {n : ℕ} → Represents n [] []
    absent :
        {n : ℕ} {peaks : List Peak} {xs : List Hash}
        → Represents (suc n) peaks xs
        → Represents n (none ∷ peaks) xs
    present :
        {n : ℕ} {peaks : List Peak} {h : Hash} {xs ys : List Hash}
        → Represents (suc n) peaks xs
        → IsRoot n h ys
        → Represents n (some h ∷ peaks) (xs ++ ys)

  -- The carry of a binary counter.
  place : List Peak → Hash → List Peak
  place [] x = some x ∷ []
  place (none ∷ peaks) x = some x ∷ peaks
  place (some p ∷ peaks) x = none ∷ place peaks (hash_func (p ++ x))

  append_assoc : {A : Type 0} (xs ys zs : List A) → (xs ++ ys) ++ zs ≡ xs ++ (ys ++ zs)
  append_assoc [] ys zs = refl
  append_assoc (x ∷ xs) ys zs = ap (λ t. x ∷ t) (append_assoc xs ys zs)

  get-behind :
      (done : List Peak) (p : Peak) (peaks : List Peak)
      → get_elem? (done ++ (p ∷ peaks)) (length done) ≡ some p
  get-behind [] p peaks = refl
  get-behind (d ∷ done) p peaks = get-behind done p peaks

  set-behind :
      (done : List Peak) (p q : Peak) (peaks : List Peak)
      → set (done ++ (p ∷ peaks)) (length done) q ≡ done ++ (q ∷ peaks)
  set-behind [] p q peaks = refl
  set-behind (d ∷ done) p q peaks = ap (λ t. d ∷ t) (set-behind done p q peaks)

  length-one_more : (done : List Peak) (p : Peak) → length (done ++ (p ∷ [])) ≡ suc (length done)
  length-one_more [] p = refl
  length-one_more (d ∷ done) p = ap suc (length-one_more done p)

  append_empty : (xs : List Peak) → xs ++ [] ≡ xs
  append_empty [] = refl
  append_empty (x ∷ xs) = ap (λ t. x ∷ t) (append_empty xs)

  -- The peaks that are done stay in front.
  place_peak-place :
      (peaks done : List Peak) (x : Hash)
      → place_peak hash_func (done ++ peaks) x (length done) (length peaks) ≡ done ++ place peaks x
  unfolding place_peak place
  place_peak-place [] done x = ap (λ t. t ++ (some x ∷ [])) (append_empty done)
  place_peak-place (none ∷ peaks) done x =
      rw (place_peak, get-behind done none peaks) (set-behind done none (some x) peaks)
  place_peak-place (some p ∷ peaks) done x =
      let y : Hash = hash_func (p ++ x) in
      let longer : List Peak = done ++ (none ∷ []) in
      rw (place_peak, get-behind done (some p) peaks, set-behind done (some p) none peaks)
        (sym (
            ap (λ t. place_peak hash_func t y (suc (length done)) (length peaks))
              (append_assoc done (none ∷ []) peaks))
          ∙ sym (
              ap (λ n. place_peak hash_func (longer ++ peaks) y n (length peaks))
                (length-one_more done none))
          ∙ place_peak-place peaks longer y
          ∙ append_assoc done (none ∷ []) (place peaks y))

  relist :
      {n : ℕ} {peaks : List Peak} {xs ys : List Hash}
      → xs ≡ ys
      → Represents n peaks xs
      → Represents n peaks ys
  relist e r = subst (Represents _ _) e r

  Represents-place :
      {n : ℕ} {peaks : List Peak} {x : Hash} {xs ys : List Hash}
      → Represents n peaks xs
      → IsRoot n x ys
      → Represents n (place peaks x) (xs ++ ys)
  unfolding place
  Represents-place no_peaks r = present no_peaks r
  Represents-place (absent s) r = present s r
  Represents-place (present {xs = xs} {ys = zs} s t) r =
      relist (sym (append_assoc xs zs _)) (absent (Represents-place s (node t r)))

  -- Peaks that stand for a sequence of leaves stand for the sequence with one more leaf at its end
  -- after `Append`.
  pub append-Represents :
      (peaks : List Peak) (xs : List Hash) (l : Hash)
      → Represents 0 peaks xs
      → Represents 0 (append hash_func peaks l) (xs ++ (l ∷ []))
  unfolding append
  append-Represents peaks xs l r =
      subst (λ t. Represents 0 t (xs ++ (l ∷ []))) (sym (place_peak-place peaks [] l))
        (Represents-place r leaf)
