-- ===== src/StateTransition/Accumulation/Remains.antt =====
-- What `updateQueue` leaves of a queue, after any number of calls.
use strawberry.Base.{
  ◌++◌, ◌∙◌, ℕ, true, false, not, ◌&&◌, ◌≡◌, refl, arith, inl, inr, List, [], ◌∷◌, contains,
  contains-append, Bool-cases,
}
use strawberry.StateTransition.Reports.{package_hash}
use strawberry.StateTransition.Accumulation.{Waiting, without, update_queue, concat}

-- `updateQueue` for one set of accumulated packages after the other.
abbrev pub update_all : List Waiting → List (List ℕ) → List Waiting
update_all queue [] = queue
update_all queue (hash_set ∷ rest) = update_all (update_queue queue hash_set) rest

-- What remains of a queue behind the accumulated packages: the entries whose own package is not among
-- them, in their order, each with its report, and with its dependencies less the accumulated packages.
pub data Remains (accumulated : List ℕ) : List Waiting → List Waiting → Type 0 where
  nothing : Remains accumulated [] []
  gone :
      {wd : Waiting} {queue queue' : List Waiting}
      → contains accumulated (package_hash wd.work_report) ≡ true
      → Remains accumulated queue queue'
      → Remains accumulated (wd ∷ queue) queue'
  kept :
      {wd wd' : Waiting} {queue queue' : List Waiting}
      → contains accumulated (package_hash wd.work_report) ≡ false
      → wd'.work_report ≡ wd.work_report
      → ((h : ℕ)
          → contains wd'.dependencies h
            ≡ (contains wd.dependencies h && not (contains accumulated h)))
      → Remains accumulated queue queue'
      → Remains accumulated (wd ∷ queue) (wd' ∷ queue')

contains-without :
    (hash_set ds : List ℕ) (h : ℕ)
    → contains (without hash_set ds) h ≡ (contains ds h && not (contains hash_set h))
contains-without hash_set [] h = refl
contains-without hash_set (d ∷ ds) h = ground (arith, contains-without hash_set ds h)

update_queue-Remains :
    (hash_set : List ℕ) (queue : List Waiting)
    → Remains hash_set queue (update_queue queue hash_set)
unfolding update_queue
update_queue-Remains hash_set [] = Remains.nothing
update_queue-Remains hash_set (wd ∷ rest) =
    elim (Bool-cases (contains hash_set (package_hash wd.work_report))) [
      | inl t ↦ rw t (Remains.gone t (update_queue-Remains hash_set rest))
      | inr f ↦ rw f (
          Remains.kept f refl (contains-without hash_set wd.dependencies)
            (update_queue-Remains hash_set rest))
    ]

Remains-none : (queue : List Waiting) → Remains [] queue queue
Remains-none [] = Remains.nothing
Remains-none (wd ∷ rest) = Remains.kept refl refl (λ h. ground arith) (Remains-none rest)

-- What remains behind two sets, the one after the other, remains behind both.
Remains-append :
    {xs ys : List ℕ} {queue queue' queue'' : List Waiting}
    → Remains xs queue queue'
    → Remains ys queue' queue''
    → Remains (xs ++ ys) queue queue''
Remains-append Remains.nothing Remains.nothing = Remains.nothing
Remains-append {xs = xs} {ys = ys} (Remains.gone {wd = wd} t r) s =
    Remains.gone (ground (arith, contains-append xs ys (package_hash wd.work_report), t))
      (Remains-append r s)
Remains-append {xs = xs} {ys = ys} (Remains.kept {wd = wd} f e d r) (Remains.gone t s) =
    Remains.gone (ground (arith, contains-append xs ys (package_hash wd.work_report), t, e))
      (Remains-append r s)
Remains-append {xs = xs} {ys = ys} (Remains.kept {wd = wd} f e d r) (Remains.kept g e1 d1 s) =
    Remains.kept (ground (arith, contains-append xs ys (package_hash wd.work_report), f, g, e))
      (e1 ∙ e) (λ h. ground (arith, contains-append xs ys h, d h, d1 h)) (Remains-append r s)

-- After any number of calls of `updateQueue`, each with a set of accumulated packages, the queue has left
-- exactly the entries whose package is in none of the sets, in their order and with their reports; and
-- what an entry depends on is what it depended on before, less the packages of all the sets.
pub update_all-Remains :
    (sets : List (List ℕ)) (queue : List Waiting)
    → Remains (concat sets) queue (update_all queue sets)
update_all-Remains [] queue = Remains-none queue
update_all-Remains (hash_set ∷ sets) queue =
    Remains-append (update_queue-Remains hash_set queue)
      (update_all-Remains sets (update_queue queue hash_set))
