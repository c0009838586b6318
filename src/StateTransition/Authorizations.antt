-- ===== src/StateTransition/Authorizations.antt =====
-- `CalculateNewCoreAuthorizations`: the authorizers of the cores. The hash of 32 zero bytes is 0.
pub mod Pools
use strawberry.Base.{
  ℕ, zero, suc, ◌%◌, Bool, true, false, List, [], ◌∷◌, ◌++◌, length, get_or, drop, leb, ◌==◌,
  if◌then◌else◌,
}
use strawberry.StateTransition.Constants.{max_authorizers_per_core, pending_authorizers_queue_size}
use strawberry.StateTransition.Reports.{Guarantee}

unfoldable pub remove_authorizer : List ℕ → ℕ → List ℕ
remove_authorizer [] to_remove = []
remove_authorizer (a ∷ auths) to_remove =
    let rest = remove_authorizer auths to_remove in if a == to_remove then auths else a ∷ rest

unfoldable pub append_authorizer_limited : List ℕ → ℕ → ℕ → List ℕ
append_authorizer_limited auths new_auth max_size =
    (if leb max_size (length auths) then drop 1 auths else auths) ++ (new_auth ∷ [])

-- The loop over the guarantees for the core c: each one's authorizer is removed.
unfoldable pub remove_guaranteed : ℕ → List Guarantee → List ℕ → List ℕ
unfolding remove_authorizer
remove_guaranteed c [] auths = auths
remove_guaranteed c (g ∷ gs) auths = remove_guaranteed c gs (
    if g.work_report.core_index == c
    then remove_authorizer auths g.work_report.authorizer_hash
    else auths)

-- `guaranteeAuthorizerRemoved`
abbrev pub is_guaranteed : ℕ → List Guarantee → Bool
is_guaranteed c [] = false
is_guaranteed c (g ∷ gs) = if g.work_report.core_index == c then true else is_guaranteed c gs

-- The authorizers of the core c that stay; without a guarantee for the core the first one goes.
unfoldable pub remaining : ℕ → List Guarantee → List ℕ → List ℕ
unfolding remove_guaranteed
remaining c guarantees auths =
    let kept = remove_guaranteed c guarantees auths in
    if is_guaranteed c guarantees then kept else drop 1 kept

-- One round of the loop over the cores, with the authorizer that the queue has for the slot.
unfoldable pub new_core_pool : ℕ → ℕ → List Guarantee → List ℕ → List ℕ → List ℕ
unfolding remaining append_authorizer_limited
new_core_pool slot c guarantees queue auths =
    let new_authorizer = get_or queue (slot % pending_authorizers_queue_size) 0 in
    let kept = remaining c guarantees auths in
    if new_authorizer == 0
    then kept
    else append_authorizer_limited kept new_authorizer max_authorizers_per_core

-- The cores from c on, with their queues and pools.
unfoldable pub new_pools : ℕ → ℕ → List Guarantee → List (List ℕ) → List (List ℕ) → List (List ℕ)
unfolding new_core_pool
new_pools slot c guarantees pending [] = []
new_pools slot c guarantees [] (auths ∷ pools) = []
new_pools slot c guarantees (queue ∷ pending) (auths ∷ pools) =
    new_core_pool slot c guarantees queue auths ∷ new_pools slot (suc c) guarantees pending pools

unfoldable pub calculate_new_core_authorizations :
    ℕ → List Guarantee → List (List ℕ) → List (List ℕ) → List (List ℕ)
unfolding new_pools
calculate_new_core_authorizations slot guarantees pending pools =
    new_pools slot 0 guarantees pending pools
