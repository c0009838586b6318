-- ===== src/StateTransition/Authorizations/Pools.antt =====
-- The size of the pools, and where their authorizers come from.
use strawberry.Base.{
  ℕ, suc, ◌%◌, ◌≤◌, true, false, ◌||◌, ◌≡◌, arith, List, [], ◌∷◌, length, length-append,
  length-drop, drop, get_or, ◌==◌, contains, contains-append, All,
}
use strawberry.StateTransition.Constants.{max_authorizers_per_core, pending_authorizers_queue_size}
use strawberry.StateTransition.Reports.{Guarantee}
use strawberry.StateTransition.Authorizations.{
  remove_authorizer, append_authorizer_limited, remove_guaranteed, remaining, new_core_pool,
  new_pools, calculate_new_core_authorizations,
}

abbrev pub IsBounded : List ℕ → Type 0
IsBounded auths = length auths ≤ max_authorizers_per_core

length-remove_authorizer :
    (auths : List ℕ) (h : ℕ) → length (remove_authorizer auths h) ≤ length auths
unfolding remove_authorizer
length-remove_authorizer [] h = omega arith
length-remove_authorizer (a ∷ auths) h = ground (arith, length-remove_authorizer auths h)

length-remove_guaranteed :
    (c : ℕ) (gs : List Guarantee) (auths : List ℕ)
    → length (remove_guaranteed c gs auths) ≤ length auths
unfolding remove_guaranteed
length-remove_guaranteed c [] auths = omega arith
length-remove_guaranteed c (g ∷ gs) auths = ground (
  arith,
  length-remove_guaranteed c gs auths,
  length-remove_guaranteed c gs (remove_authorizer auths g.work_report.authorizer_hash),
  length-remove_authorizer auths g.work_report.authorizer_hash,
)

length-remaining :
    (c : ℕ) (gs : List Guarantee) (auths : List ℕ) → length (remaining c gs auths) ≤ length auths
unfolding remaining
length-remaining c gs auths =
    ground
      (arith, length-remove_guaranteed c gs auths, length-drop 1 (remove_guaranteed c gs auths))

new_core_pool-IsBounded :
    (slot c : ℕ) (gs : List Guarantee) (queue auths : List ℕ)
    → IsBounded auths
    → IsBounded (new_core_pool slot c gs queue auths)
unfolding new_core_pool append_authorizer_limited
new_core_pool-IsBounded slot c gs queue auths h =
    let kept = remaining c gs auths in
    let added = get_or queue (slot % pending_authorizers_queue_size) 0 ∷ [] in
    ground (
      arith,
      length-remaining c gs auths,
      length-append kept added,
      length-append (drop 1 kept) added,
      length-drop 1 kept,
    )

new_pools-IsBounded :
    (slot c : ℕ) (gs : List Guarantee) (pending pools : List (List ℕ))
    → All IsBounded pools
    → All IsBounded (new_pools slot c gs pending pools)
unfolding new_pools
new_pools-IsBounded slot c gs pending [] h = tt
new_pools-IsBounded slot c gs [] (auths ∷ pools) h = tt
new_pools-IsBounded slot c gs (queue ∷ pending) (auths ∷ pools) h = (
  new_core_pool-IsBounded slot c gs queue auths h.0,
  new_pools-IsBounded slot (suc c) gs pending pools h.1,
)

-- No core gets more than eight authorizers where none had more, whatever the guarantees and the queues
-- are.
pub calculate_new_core_authorizations-IsBounded :
    (slot : ℕ) (gs : List Guarantee) (pending pools : List (List ℕ))
    → All IsBounded pools
    → All IsBounded (calculate_new_core_authorizations slot gs pending pools)
unfolding calculate_new_core_authorizations
calculate_new_core_authorizations-IsBounded slot gs pending pools h =
    new_pools-IsBounded slot 0 gs pending pools h

contains-drop_one : (xs : List ℕ) (h : ℕ) → contains (drop 1 xs) h ≡ true → contains xs h ≡ true
contains-drop_one [] h e = e
contains-drop_one (x ∷ xs) h e = ground arith

contains-remove_authorizer :
    (auths : List ℕ) (a h : ℕ)
    → contains (remove_authorizer auths a) h ≡ true
    → contains auths h ≡ true
unfolding remove_authorizer
contains-remove_authorizer [] a h e = e
contains-remove_authorizer (x ∷ auths) a h e = ground (arith, contains-remove_authorizer auths a h)

contains-remove_guaranteed :
    (c : ℕ) (gs : List Guarantee) (auths : List ℕ) (h : ℕ)
    → contains (remove_guaranteed c gs auths) h ≡ true
    → contains auths h ≡ true
unfolding remove_guaranteed
contains-remove_guaranteed c [] auths h e = e
contains-remove_guaranteed c (g ∷ gs) auths h e = ground (
  arith,
  contains-remove_guaranteed c gs auths h,
  contains-remove_guaranteed c gs (remove_authorizer auths g.work_report.authorizer_hash) h,
  contains-remove_authorizer auths g.work_report.authorizer_hash h,
)

contains-remaining :
    (c : ℕ) (gs : List Guarantee) (auths : List ℕ) (h : ℕ)
    → contains (remaining c gs auths) h ≡ true
    → contains auths h ≡ true
unfolding remaining
contains-remaining c gs auths h e = ground (
  arith,
  contains-remove_guaranteed c gs auths h,
  contains-drop_one (remove_guaranteed c gs auths) h,
)

contains-append_limited :
    (auths : List ℕ) (a h : ℕ)
    → contains (append_authorizer_limited auths a max_authorizers_per_core) h ≡ true
    → (contains auths h || a == h) ≡ true
unfolding append_authorizer_limited
contains-append_limited auths a h e = ground (
  arith,
  contains-append auths (a ∷ []) h,
  contains-append (drop 1 auths) (a ∷ []) h,
  contains-drop_one auths h,
)

contains-append_limited_self :
    (auths : List ℕ) (a : ℕ)
    → contains (append_authorizer_limited auths a max_authorizers_per_core) a ≡ true
unfolding append_authorizer_limited
contains-append_limited_self auths a =
    ground (arith, contains-append auths (a ∷ []) a, contains-append (drop 1 auths) (a ∷ []) a)

-- An authorizer in the new pool of a core was in its pool, or is the one that the core's queue has for the
-- slot; and that one, when it is not empty, is in the new pool.
pub new_core_pool-origin :
    (slot c : ℕ) (gs : List Guarantee) (queue auths : List ℕ)
    → ((h : ℕ)
        → contains (new_core_pool slot c gs queue auths) h ≡ true
        → (contains auths h || get_or queue (slot % pending_authorizers_queue_size) 0 == h) ≡ true)
      × ((get_or queue (slot % pending_authorizers_queue_size) 0 == 0) ≡ false
          → contains
              (new_core_pool slot c gs queue auths)
              (get_or queue (slot % pending_authorizers_queue_size) 0)
            ≡ true)
unfolding new_core_pool
new_core_pool-origin slot c gs queue auths =
    let added = get_or queue (slot % pending_authorizers_queue_size) 0 in
    let kept = remaining c gs auths in
    (
      (λ h e.
          ground (arith, contains-append_limited kept added h, contains-remaining c gs auths h)),
      (λ e. ground (arith, contains-append_limited_self kept added)),
    )
