-- ===== src/StateTransition/Validation/Fresh.antt =====
-- The packages of accepted guarantees are new.
use strawberry.Base.{
  ℕ, ◌≤◌, Bool, true, false, ◌||◌, ◌≡◌, refl, ◌∙◌, sym, arith, List, [], ◌∷◌, ◌==◌, contains, count,
  All,
}
use strawberry.StateTransition.Errors.{ok, >>-eq-ok, fail_if, fail_if-eq-ok, duplicate_package}
use strawberry.StateTransition.Disputes.Once.{keys}
use strawberry.StateTransition.Reports.{Guarantee, package_hash}
use strawberry.StateTransition.Accumulation.{segment_keys}
use strawberry.StateTransition.RecentBlocks.{BlockState, put}
use strawberry.StateTransition.Validation.Packages.{
  Recorded, put_all, recent_from, recent_packages, check_duplicates,
}

abbrev pub packages : List Guarantee → List ℕ
packages gs = keys (λ (g : Guarantee). package_hash g.work_report) gs

-- The block has no report on the package.
abbrev pub IsWithout : ℕ → BlockState → Type 0
IsWithout h b = contains (segment_keys b.work_report_hashes) h ≡ false

-- The package of a guarantee is in no recent block, and in no guarantee before it.
abbrev AreFresh : Recorded → List Guarantee → List ℕ → Type 0
AreFresh s [] seen = Unit {0}
AreFresh s (g ∷ gs) seen =
    ((contains seen (package_hash g.work_report)
        || contains (segment_keys (recent_packages s)) (package_hash g.work_report))
      ≡ false)
    × AreFresh s gs (package_hash g.work_report ∷ seen)

check_duplicates-AreFresh :
    (s : Recorded) (gs : List Guarantee) (seen : List ℕ)
    → check_duplicates s gs seen ≡ ok tt
    → AreFresh s gs seen
unfolding check_duplicates
check_duplicates-AreFresh s [] seen e = tt
check_duplicates-AreFresh s (g ∷ gs) seen e =
    let p =
      >>-eq-ok (fail_if _ duplicate_package)
        (check_duplicates s gs (package_hash g.work_report ∷ seen)) e in
    (
      fail_if-eq-ok _ duplicate_package p.0,
      check_duplicates-AreFresh s gs (package_hash g.work_report ∷ seen) p.1,
    )

count-seen :
    (s : Recorded) (gs : List Guarantee) (seen : List ℕ) (h : ℕ)
    → AreFresh s gs seen
    → contains seen h ≡ true
    → count h (packages gs) ≡ 0
count-seen s [] seen h f t = refl
count-seen s (g ∷ gs) seen h f t =
    ground (arith, f.0, t, count-seen s gs (package_hash g.work_report ∷ seen) h f.1)

count-AreFresh :
    (s : Recorded) (gs : List Guarantee) (seen : List ℕ) (h : ℕ)
    → AreFresh s gs seen
    → count h (packages gs) ≤ 1
count-AreFresh s [] seen h f = omega arith
count-AreFresh s (g ∷ gs) seen h f = ground (
  arith,
  count-AreFresh s gs (package_hash g.work_report ∷ seen) h f.1,
  count-seen s gs (package_hash g.work_report ∷ seen) h f.1,
)

contains-put :
    (m : List (ℕ × ℕ)) (key value h : ℕ)
    → contains (segment_keys (put m key value)) h ≡ (contains (segment_keys m) h || key == h)
contains-put [] key value h = ground arith
contains-put ((k, v) ∷ rest) key value h = ground (arith, contains-put rest key value h)

contains-put_all :
    (m entries : List (ℕ × ℕ)) (h : ℕ)
    → contains (segment_keys (put_all m entries)) h
      ≡ (contains (segment_keys m) h || contains (segment_keys entries) h)
contains-put_all m [] h = ground arith
contains-put_all m ((key, value) ∷ rest) h =
    ground (arith, contains-put_all (put m key value) rest h, contains-put m key value h)

neither : (a b : Bool) → (a || b) ≡ false → (a ≡ false) × (b ≡ false)
neither false b e = (refl, e)
neither true b e = cc

recent_from-IsWithout :
    (blocks : List BlockState) (m : List (ℕ × ℕ)) (h : ℕ)
    → contains (segment_keys (recent_from blocks m)) h ≡ false
    → (contains (segment_keys m) h ≡ false) × All (IsWithout h) blocks
recent_from-IsWithout [] m h e = (e, tt)
recent_from-IsWithout (b ∷ bs) m h e =
    let (before, after) = recent_from-IsWithout bs (put_all m b.work_report_hashes) h e in
    let (old, here) = neither _ _ (sym (contains-put_all m b.work_report_hashes h) ∙ before) in
    (old, (here, after))

AreFresh-IsWithout :
    (s : Recorded) (gs : List Guarantee) (seen : List ℕ)
    → AreFresh s gs seen
    → All (λ h. All (IsWithout h) s.recent_blocks) (packages gs)
AreFresh-IsWithout s [] seen f = tt
AreFresh-IsWithout s (g ∷ gs) seen f = (
  (recent_from-IsWithout s.recent_blocks [] (package_hash g.work_report) (neither _ _ f.0).1).1,
  AreFresh-IsWithout s gs (package_hash g.work_report ∷ seen) f.1,
)

-- Where no duplicate package is found, no package is reported twice, nor in a recent block.
pub check_duplicates-eq-ok :
    (s : Recorded) (gs : List Guarantee)
    → check_duplicates s gs [] ≡ ok tt
    → ((h : ℕ) → count h (packages gs) ≤ 1)
      × All (λ h. All (IsWithout h) s.recent_blocks) (packages gs)
check_duplicates-eq-ok s gs e =
    let fresh = check_duplicates-AreFresh s gs [] e in
    (λ h. count-AreFresh s gs [] h fresh, AreFresh-IsWithout s gs [] fresh)
