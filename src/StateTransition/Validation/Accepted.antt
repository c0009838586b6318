-- ===== src/StateTransition/Validation/Accepted.antt =====
-- What the guarantees of a block satisfy that the validation lets through.
use strawberry.Base.{
  ◌+◌, ◌^◌, ◌⊎◌, inl, inr, Bool-cases, count, ℕ, ◌<◌, ◌≤◌, Bool, true, false, not, ◌≡◌, refl, arith,
  List, [], ◌∷◌, length, ltb, leb, contains, sub_w, get_or, get_elem?, All,
}
use strawberry.StateTransition.Constants.{max_timeslots_for_preimage}
use strawberry.StateTransition.Errors.{
  ok, ◌>>◌, >>=-eq-ok, >>-eq-ok, for_each, for_each-All, fail_if, fail_if-eq-ok,
  out_of_order_guarantee, core_engaged, core_unauthorized, insufficient_guarantees,
  not_sorted_guarantors, lookup_anchor_out_of_range,
}
use strawberry.StateTransition.Disputes.Checks.{not_ascending}
use strawberry.StateTransition.Reports.{Guarantee, CredentialSignature}
use strawberry.StateTransition.Guarantees.{is_guarantees_sorted_by_core_index}
use strawberry.StateTransition.Guarantees.Credentials.{or_crash}
use strawberry.StateTransition.Guarantees.Engaged.{or_crash-eq-ok}
use strawberry.StateTransition.Guarantees.Placement.{CoreAssignments}
use strawberry.StateTransition.Validation.{check_signers, validate_extrinsic_guarantees}
use strawberry.StateTransition.Disputes.Once.{keys}
use strawberry.StateTransition.Validation.Order.{
  IsAscending, not_ascending-IsAscending, sorted-IsAscending,
}
use strawberry.StateTransition.Validation.Free.{IsFree, is_assignment_valid-IsOpen}
use strawberry.StateTransition.Validation.Fresh.{packages, IsWithout, check_duplicates-eq-ok}
use strawberry.StateTransition.Validation.Packages.{
  Recorded, check_duplicates, check_cardinality, check_past, check_lookups, check_dependencies,
}
use strawberry.StateTransition.Validation.Limits.{
  Oracles, check_slot, check_guarantors, check_services, check_core, check_size, check_authorizer,
  check_engaged, check_guarantee, check_limits, check_context, anchor_block_in_recent_blocks,
}

-- The guarantee's authorizer is in the pool of its core.
abbrev pub IsAuthorized : Recorded → Guarantee → Type 0
IsAuthorized s g =
    contains (get_or s.core_authorizers_pool g.work_report.core_index [])
      g.work_report.authorizer_hash
    ≡ true

-- The guarantors are two at least, and each stands there once, in the order of their indices.
abbrev pub IsSigned : Guarantee → Type 0
IsSigned g =
    (2 ≤ length g.credentials)
    × IsAscending (keys (λ (c : CredentialSignature). c.validator_index) g.credentials)

-- The lookup anchor is of a slot more than 14400 slots before that of the block. In the first 14400 slots
-- the difference wraps around, and the anchor is anywhere below the slot of the block, in 32 bits, less
-- 14400.
abbrev pub IsOld : ℕ → Guarantee → Type 0
IsOld slot g =
    let anchor = g.work_report.refinement_context.lookup_anchor.timeslot in
    ((14400 ≤ slot) × (anchor + 14400 < slot)) ⊎ ((slot < 14400) × (anchor + 14400 < slot + 2 ^ 32))

not-false : (b : Bool) → not b ≡ false → b ≡ true
not-false true e = refl
not-false false e = cc

two_or_more : (n : ℕ) → ltb n 2 ≡ false → 2 ≤ n
two_or_more n e = ground arith

below : (a b : ℕ) → leb a b ≡ false → b < a
below a b e = ground arith

-- The subtraction of the source, in 32 bits.
sub_w-IsOld :
    (slot : ℕ) (g : Guarantee)
    → slot < 2 ^ 32
    → g.work_report.refinement_context.lookup_anchor.timeslot
      < sub_w 32 slot max_timeslots_for_preimage
    → IsOld slot g
sub_w-IsOld slot g h e = elim (Bool-cases (leb 14400 slot)) [
  | inl t ↦ inl (ground arith, ground arith)
  | inr f ↦ inr (ground arith, ground arith)
]

All-map :
    {P Q : Guarantee → Type 0}
    → ((g : Guarantee) → P g → Q g)
    → (gs : List Guarantee) → All P gs
    → All Q gs
All-map f [] h = tt
All-map f (g ∷ gs) h = (f g h.0, All-map f gs h.1)

check_guarantee-facts :
    (s : Recorded) (slot : ℕ) (assignments : CoreAssignments) (new_timeslot : ℕ) (g : Guarantee)
    → check_guarantee s slot assignments new_timeslot g ≡ ok tt
    → IsAuthorized s g × IsFree assignments new_timeslot g
unfolding check_guarantee check_authorizer check_engaged
check_guarantee-facts s slot assignments new_timeslot g e =
    let e1 = (>>-eq-ok (check_slot slot g) _ e).1 in
    let e2 = (>>-eq-ok (check_guarantors s g) _ e1).1 in
    let e3 = (>>-eq-ok (check_services s g) _ e2).1 in
    let e4 = (>>-eq-ok (check_core s g) _ e3).1 in
    let e5 = (>>-eq-ok (check_size g) _ e4).1 in
    let (authorized, engaged) = >>-eq-ok (check_authorizer s g) _ e5 in
    let (current, at, free) =
      >>=-eq-ok (or_crash (get_elem? assignments g.work_report.core_index)) _ engaged in
    (
      not-false _ (fail_if-eq-ok _ core_unauthorized authorized),
      (
        current,
        or_crash-eq-ok (get_elem? assignments g.work_report.core_index) at,
        is_assignment_valid-IsOpen current new_timeslot
            (not-false _ (fail_if-eq-ok _ core_engaged free)),
      ),
    )

check_signers-IsSigned :
    (s : Recorded) (gs : List Guarantee) (new_timeslot : ℕ) (g : Guarantee)
    → check_signers s gs new_timeslot g ≡ ok tt
    → IsSigned g
unfolding check_signers
check_signers-IsSigned s gs new_timeslot g e =
    let unsorted = not_ascending (λ (c : CredentialSignature). c.validator_index) g.credentials in
    let few = ltb (length g.credentials) 2 in
    let e1 = (>>-eq-ok (check_lookups s gs g) _ e).1 in
    let (sorted, e2) = >>-eq-ok (fail_if unsorted not_sorted_guarantors) _ e1 in
    let (enough, e3) = >>-eq-ok (fail_if few insufficient_guarantees) _ e2 in
    (
      two_or_more (length g.credentials) (fail_if-eq-ok few insufficient_guarantees enough),
      not_ascending-IsAscending _ g.credentials
          (fail_if-eq-ok unsorted not_sorted_guarantors sorted),
    )

check_context-IsOld :
    (oracles : Oracles) (s : Recorded) (slot : ℕ) (g : Guarantee)
    → slot < 2 ^ 32
    → check_context oracles s slot g ≡ ok tt
    → IsOld slot g
unfolding check_context
check_context-IsOld oracles s slot g h e =
    let context = g.work_report.refinement_context in
    let anchor = anchor_block_in_recent_blocks oracles.super_peak context s.recent_blocks in
    let late = leb (sub_w 32 slot max_timeslots_for_preimage) context.lookup_anchor.timeslot in
    let (both, found) = >>-eq-ok (anchor >> fail_if late lookup_anchor_out_of_range) _ e in
    let (anchored, in_range) = >>-eq-ok anchor _ both in
    sub_w-IsOld slot g h (below _ _ (fail_if-eq-ok late lookup_anchor_out_of_range in_range))

-- What the guarantees of an accepted block satisfy, for a slot below 2^32.
pub record Validated (s : Recorded) (slot : ℕ) (gs : List Guarantee) (assignments : CoreAssignments)
    (new_timeslot : ℕ) : Type 0 where
  pub once : (h : ℕ) → count h (packages gs) ≤ 1
  pub new : All (λ h. All (IsWithout h) s.recent_blocks) (packages gs)
  pub authorized : All (IsAuthorized s) gs
  pub free : All (IsFree assignments new_timeslot) gs
  pub old : All (IsOld slot) gs
  pub in_order : IsAscending (keys (λ (g : Guarantee). g.work_report.core_index) gs)
  pub signed : All IsSigned gs

-- Guarantees that the validation lets through, in a block of a 32-bit slot, report each package once, and
-- none that a recent block has a report on; each guarantee has an authorizer in the pool of its core, a
-- core that is there and has no report or one that has timed out, and two guarantors or more, each with an index below all that follow it;
-- its lookup anchor is more than 14400 slots older than the block, or, in the first 14400 slots, below
-- the slot plus 2^32 less 14400; and each core index is below all that follow it, so that no core gets
-- two reports.
pub validate_extrinsic_guarantees-Validated :
    (oracles : Oracles) (slot : ℕ) (s : Recorded) (gs : List Guarantee)
    (assignments : CoreAssignments) (new_timeslot : ℕ)
    → slot < 2 ^ 32
    → validate_extrinsic_guarantees oracles slot s gs assignments new_timeslot ≡ ok tt
    → Validated s slot gs assignments new_timeslot
unfolding validate_extrinsic_guarantees
validate_extrinsic_guarantees-Validated oracles slot s gs assignments new_timeslot h e =
    let (fresh, e1) = >>-eq-ok (check_duplicates s gs []) _ e in
    let (checked, e2) =
      >>-eq-ok (for_each (check_guarantee s slot assignments new_timeslot) gs) _ e1 in
    let e3 = (>>-eq-ok (for_each (check_limits oracles s) gs) _ e2).1 in
    let e4 = (>>-eq-ok (check_cardinality gs) _ e3).1 in
    let (contexts, e5) = >>-eq-ok (for_each (check_context oracles s slot) gs) _ e4 in
    let e6 = (>>-eq-ok (check_past oracles.work_report_hash s gs) _ e5).1 in
    let e7 = (>>-eq-ok (for_each (check_lookups s gs) gs) _ e6).1 in
    let e8 = (>>-eq-ok (check_dependencies s gs) _ e7).1 in
    let unordered = not (is_guarantees_sorted_by_core_index gs) in
    let (ordered, signers) = >>-eq-ok (fail_if unordered out_of_order_guarantee) _ e8 in
    let (once, new) = check_duplicates-eq-ok s gs fresh in
    let facts = for_each-All (check_guarantee s slot assignments new_timeslot) gs checked in
    record {
      once = once;
      new = new;
      authorized =
          All-map (λ g c. (check_guarantee-facts s slot assignments new_timeslot g c).0) gs facts;
      free =
          All-map (λ g c. (check_guarantee-facts s slot assignments new_timeslot g c).1) gs facts;
      old =
          All-map (λ g c. check_context-IsOld oracles s slot g h c) gs
            (for_each-All (check_context oracles s slot) gs contexts);
      in_order =
          sorted-IsAscending gs
            (not-false _ (fail_if-eq-ok unordered out_of_order_guarantee ordered));
      signed =
          All-map (check_signers-IsSigned s gs new_timeslot) gs
            (for_each-All (check_signers s gs new_timeslot) gs signers);
    }
