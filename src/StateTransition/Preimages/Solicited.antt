-- ===== src/StateTransition/Preimages/Solicited.antt =====
-- A preimage that is taken up, and one that is lost.
use strawberry.Base.{
  ℕ, true, ◌≡◌, refl, ap, ◌∙◌, inl, inr, arith, Option, none, some, List, [], ◌∷◌, length, ◌==◌,
  u32, Bool-cases,
}
use strawberry.StateTransition.Preimages.{
  GoMap, MetaKey, Account, Services, Preimage, Both, find, put_value, entries, find_meta,
  preimage_has_been_solicited, provide, share, seen, provide_to, integrate, integrate_all,
  calculate_intermediate_service_state,
}

pub ==-refl : (k : ℕ) → (k == k) ≡ true
==-refl k = ground arith

pub find-put_value :
    {V : Type 0} (m : List (ℕ × V)) (key : ℕ) (v : V) → find (put_value m key v) key ≡ some v
find-put_value [] key v = rw (==-refl key) refl
find-put_value ((k, w) ∷ rest) key v = elim (Bool-cases (k == key)) [
  | inl same ↦ rw same (rw (==-refl key) refl)
  | inr apart ↦ rw apart (rw apart (find-put_value rest key v))
]

pub solicited :
    (services : Services) (s hash len : ℕ) (a : Account)
    → find services s ≡ some a
    → find (entries a.preimage_lookup) hash ≡ none
    → find_meta (entries a.preimage_meta) (record { hash = hash; length = len }) ≡ none
    → preimage_has_been_solicited services s hash len ≡ true
unfolding preimage_has_been_solicited
solicited services s hash len a found unknown unasked =
    rw (found, preimage_has_been_solicited) (rw unknown (rw unasked refl))

integrate-new :
    (hash_data : List ℕ → ℕ) (slot : ℕ) (p : Preimage) (old new : Services) (a : Account)
    → find old p.service_index ≡ some a
    → find (entries a.preimage_lookup) (hash_data p.bytes) ≡ none
    → find_meta
        (entries a.preimage_meta)
        (record { hash = hash_data p.bytes; length = u32 (length p.bytes) })
      ≡ none
    → integrate hash_data slot p (record { old = old; new = new }) ≡ record {
      old = put_value old p.service_index (share a (provide a (hash_data p.bytes) p.bytes slot));
      new = put_value new p.service_index (provide a (hash_data p.bytes) p.bytes slot);
    }
unfolding integrate provide_to
integrate-new hash_data slot p old new a found unknown unasked =
    rw
      (solicited old p.service_index (hash_data p.bytes) (u32 (length p.bytes)) a found unknown
        unasked)
      (rw found refl)

seen-none : {M : Type 0} (m w : Option M) → m ≡ none → seen m w ≡ m
seen-none none w e = refl
seen-none (some x) w e = cc

share-without :
    (a : Account) (hash : ℕ) (bytes : List ℕ) (slot : ℕ)
    → a.preimage_lookup ≡ none
    → a.preimage_meta ≡ none
    → share a (provide a hash bytes slot) ≡ a
unfolding share
share-without a hash bytes slot lookup meta =
    let written = provide a hash bytes slot in
    ap
      (λ (l : GoMap ℕ (List ℕ)). record a {
        preimage_lookup = l;
        preimage_meta = seen a.preimage_meta written.preimage_meta;
      })
      (seen-none a.preimage_lookup written.preimage_lookup lookup)
    ∙ ap (λ (m : GoMap MetaKey (List ℕ)). record a { preimage_meta = m })
        (seen-none a.preimage_meta written.preimage_meta meta)

no_lookup :
    (a : Account) (hash : ℕ)
    → a.preimage_lookup ≡ none
    → find (entries a.preimage_lookup) hash ≡ none
no_lookup a hash e = ap (λ m. find (entries m) hash) e

no_meta :
    (a : Account) (key : MetaKey)
    → a.preimage_meta ≡ none
    → find_meta (entries a.preimage_meta) key ≡ none
no_meta a key e = ap (λ m. find_meta (entries m) key) e

-- Of two preimages for an account whose maps are nil only the second one is kept: the first one's maps
-- are replaced with it.
pub calculate_intermediate_service_state-lost :
    (hash_data : List ℕ → ℕ) (p q : Preimage) (services : Services) (new_timeslot : ℕ) (a : Account)
    → find services p.service_index ≡ some a
    → q.service_index ≡ p.service_index
    → a.preimage_lookup ≡ none
    → a.preimage_meta ≡ none
    → find
        (calculate_intermediate_service_state hash_data (p ∷ q ∷ []) services new_timeslot).new
        p.service_index
      ≡ some (provide a (hash_data q.bytes) q.bytes new_timeslot)
unfolding calculate_intermediate_service_state integrate_all
calculate_intermediate_service_state-lost hash_data p q services new_timeslot a found same lookup
      meta =
    let first = provide a (hash_data p.bytes) p.bytes new_timeslot in
    let seen_by_old = share a first in
    let old = put_value services p.service_index seen_by_old in
    let new = put_value services p.service_index first in
    let again : find old q.service_index ≡ some a =
      ap (find old) same
      ∙ find-put_value services p.service_index seen_by_old
      ∙ ap some (share-without a (hash_data p.bytes) p.bytes new_timeslot lookup meta) in
    let step =
      integrate-new hash_data new_timeslot p services services a found
        (no_lookup a (hash_data p.bytes) lookup) (no_meta a _ meta) in
    let step_again =
      integrate-new hash_data new_timeslot q old new a again
        (no_lookup a (hash_data q.bytes) lookup) (no_meta a _ meta) in
    ap (λ (b : Both). find (integrate hash_data new_timeslot q b).new p.service_index) step
    ∙ ap (λ (b : Both). find b.new p.service_index) step_again
    ∙ ap
        (λ i.
          find (put_value new i (provide a (hash_data q.bytes) q.bytes new_timeslot))
            p.service_index)
        same
    ∙ find-put_value new p.service_index (provide a (hash_data q.bytes) q.bytes new_timeslot)
