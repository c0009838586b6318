-- ===== src/StateTransition/Preimages/Provided.antt =====
-- Where the accounts have their maps, the sharing of the maps between the old and the new services is
-- that of one state.
use strawberry.Base.{
  ℕ, ◌≡◌, refl, ap, subst, ◌∙◌, inl, inr, none, some, List, [], ◌∷◌, length, ◌==◌, if◌then◌else◌,
  u32, Bool-cases, Option-cases, if-eq_true, if-eq_false,
}
use strawberry.StateTransition.Preimages.{
  MetaKey, Account, Services, Preimage, find, put_value, preimage_has_been_solicited, provide,
  share, provide_to, integrate, integrate_all, calculate_intermediate_service_state,
}

-- The account has both maps.
pub record HasMaps (a : Account) : Type 0 where
  pub lookup : List (ℕ × List ℕ)
  pub has_lookup : a.preimage_lookup ≡ some lookup
  pub meta : List (MetaKey × List ℕ)
  pub has_meta : a.preimage_meta ≡ some meta

abbrev pub AllMaps : Services → Type 0
AllMaps [] = Unit {0}
AllMaps ((k, a) ∷ rest) = HasMaps a × AllMaps rest

-- The services with one preimage more: where it is solicited, its account has it.
abbrev pub with_preimage : (List ℕ → ℕ) → ℕ → Services → Preimage → Services
with_preimage hash_data slot services p =
    if preimage_has_been_solicited services p.service_index (hash_data p.bytes)
      (u32 (length p.bytes))
    then elim (find services p.service_index) [
      | none ↦ services
      | some a ↦ put_value services p.service_index (provide a (hash_data p.bytes) p.bytes slot)
    ]
    else services

abbrev pub with_preimages : (List ℕ → ℕ) → ℕ → Services → List Preimage → Services
with_preimages hash_data slot services [] = services
with_preimages hash_data slot services (p ∷ ps) =
    with_preimages hash_data slot (with_preimage hash_data slot services p) ps

pub some-injective : {A : Type 0} {x y : A} → some x ≡ some y → x ≡ y
some-injective e = cc

find-HasMaps :
    (services : Services) (key : ℕ) (a : Account)
    → AllMaps services
    → find services key ≡ some a
    → HasMaps a
find-HasMaps [] key a m e = cc
find-HasMaps ((k, b) ∷ rest) key a m e = elim (Bool-cases (k == key)) [
  | inl same ↦ subst HasMaps (some-injective (if-eq_true (k == key) _ _ same e)) m.0
  | inr apart ↦ find-HasMaps rest key a m.1 (if-eq_false (k == key) _ _ apart e)
]

put_value-AllMaps :
    (services : Services) (key : ℕ) (a : Account)
    → AllMaps services
    → HasMaps a
    → AllMaps (put_value services key a)
put_value-AllMaps [] key a m h = (h, tt)
put_value-AllMaps ((k, b) ∷ rest) key a m h = elim (Bool-cases (k == key)) [
  | inl same ↦ rw same (h, m.1)
  | inr apart ↦ rw apart (m.0, put_value-AllMaps rest key a m.1 h)
]

share-provide :
    (a : Account) (hash : ℕ) (bytes : List ℕ) (slot : ℕ)
    → HasMaps a
    → share a (provide a hash bytes slot) ≡ provide a hash bytes slot
unfolding share provide
share-provide a hash bytes slot h = rw h.has_lookup (rw h.has_meta refl)

provide-HasMaps :
    (a : Account) (hash : ℕ) (bytes : List ℕ) (slot : ℕ) → HasMaps (provide a hash bytes slot)
unfolding provide
provide-HasMaps a hash bytes slot = record {
  lookup = _;
  has_lookup = refl;
  meta = _;
  has_meta = refl;
}

-- One preimage keeps the old and the new services the same.
integrate-with_preimage :
    (hash_data : List ℕ → ℕ) (slot : ℕ) (p : Preimage) (services : Services)
    → AllMaps services
    → integrate hash_data slot p (record { old = services; new = services }) ≡ record {
      old = with_preimage hash_data slot services p;
      new = with_preimage hash_data slot services p;
    }
unfolding integrate provide_to
integrate-with_preimage hash_data slot p services m =
    elim (Bool-cases (
      preimage_has_been_solicited services p.service_index (hash_data p.bytes)
        (u32 (length p.bytes)))) [
          | inr refused ↦ rw refused refl
          | inl solicited ↦ elim (Option-cases (find services p.service_index)) [
            | inl absent ↦ rw solicited (rw absent refl)
            | inr (a, found) ↦ rw solicited (
                rw found (
                  rw
                    (share-provide a (hash_data p.bytes) p.bytes slot
                      (find-HasMaps services p.service_index a m found))
                    refl))
          ]
        ]

with_preimage-AllMaps :
    (hash_data : List ℕ → ℕ) (slot : ℕ) (services : Services) (p : Preimage)
    → AllMaps services
    → AllMaps (with_preimage hash_data slot services p)
with_preimage-AllMaps hash_data slot services p m =
    elim (Bool-cases (
      preimage_has_been_solicited services p.service_index (hash_data p.bytes)
        (u32 (length p.bytes)))) [
          | inr refused ↦ rw refused m
          | inl solicited ↦ elim (Option-cases (find services p.service_index)) [
            | inl absent ↦ rw solicited (rw absent m)
            | inr (a, found) ↦ rw solicited (
                rw found (
                  put_value-AllMaps services p.service_index
                    (provide a (hash_data p.bytes) p.bytes slot) m
                    (provide-HasMaps a (hash_data p.bytes) p.bytes slot)))
          ]
        ]

integrate_all-with_preimages :
    (hash_data : List ℕ → ℕ) (slot : ℕ) (ps : List Preimage) (services : Services)
    → AllMaps services
    → integrate_all hash_data slot ps (record { old = services; new = services }) ≡ record {
      old = with_preimages hash_data slot services ps;
      new = with_preimages hash_data slot services ps;
    }
unfolding integrate_all
integrate_all-with_preimages hash_data slot [] services m = refl
integrate_all-with_preimages hash_data slot (p ∷ ps) services m =
    ap (integrate_all hash_data slot ps) (integrate-with_preimage hash_data slot p services m)
    ∙ integrate_all-with_preimages hash_data slot ps (with_preimage hash_data slot services p)
        (with_preimage-AllMaps hash_data slot services p m)

-- Where every account has its maps, the new services are those that the solicited preimages, one after the
-- other, make of the old ones, and the services of the state before the block have changed in the same
-- way.
pub calculate_intermediate_service_state-one_state :
    (hash_data : List ℕ → ℕ) (preimages : List Preimage) (services : Services) (new_timeslot : ℕ)
    → AllMaps services
    → calculate_intermediate_service_state hash_data preimages services new_timeslot ≡ record {
      old = with_preimages hash_data new_timeslot services preimages;
      new = with_preimages hash_data new_timeslot services preimages;
    }
unfolding calculate_intermediate_service_state
calculate_intermediate_service_state-one_state hash_data preimages services new_timeslot m =
    integrate_all-with_preimages hash_data new_timeslot preimages services m
