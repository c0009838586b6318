-- ===== src/StateTransition/Preimages.antt =====
-- `preimageHasBeenSolicited` and `CalculateIntermediateServiceState`: the preimages of a block. The
-- accounts of the old and of the new services share their maps, so that a write to one that is not nil is
-- seen in both; a nil map is replaced in the new account only. The hash of the data is a parameter.
pub mod Solicited
pub mod Provided
pub mod Holds
pub mod Unasked
use strawberry.Base.{
  ℕ, Bool, true, false, not, ◌&&◌, Option, none, some, List, [], ◌∷◌, length, ◌==◌, if◌then◌else◌,
  u32,
}

-- A map, as the list of its keys and values; `none` is a nil map.
abbrev pub GoMap : Type 0 → Type 0 → Type 0
GoMap K V = Option (List (K × V))

-- `service.PreImageMetaKey`
pub record MetaKey : Type 0 where
  pub hash : ℕ
  pub length : ℕ

-- `service.ServiceAccount`
pub record Account : Type 0 where
  pub storage : GoMap ℕ (List ℕ)
  pub preimage_lookup : GoMap ℕ (List ℕ)
  pub preimage_meta : GoMap MetaKey (List ℕ)
  pub code_hash : ℕ
  pub balance : ℕ
  pub gas_limit_for_accumulator : ℕ
  pub gas_limit_on_transfer : ℕ

-- `service.ServiceState`
abbrev pub Services : Type 0
Services = List (ℕ × Account)

pub record Preimage : Type 0 where
  pub service_index : ℕ
  pub bytes : List ℕ

module _ {V : Type 0} where
  abbrev pub find : List (ℕ × V) → ℕ → Option V
  find [] key = none
  find ((k, v) ∷ rest) key = let more = find rest key in if k == key then some v else more

  abbrev pub put_value : List (ℕ × V) → ℕ → V → List (ℕ × V)
  put_value [] key value = (key, value) ∷ []
  put_value ((k, v) ∷ rest) key value =
      let more = put_value rest key value in if k == key then (key, value) ∷ rest else (k, v) ∷ more

abbrev pub is_key : MetaKey → MetaKey → Bool
is_key a b = (a.hash == b.hash) && (a.length == b.length)

abbrev pub find_meta : List (MetaKey × List ℕ) → MetaKey → Option (List ℕ)
find_meta [] key = none
find_meta ((k, v) ∷ rest) key =
    let more = find_meta rest key in if is_key k key then some v else more

abbrev pub put_meta : List (MetaKey × List ℕ) → MetaKey → List ℕ → List (MetaKey × List ℕ)
put_meta [] key value = (key, value) ∷ []
put_meta ((k, v) ∷ rest) key value =
    let more = put_meta rest key value in
    if is_key k key then (key, value) ∷ rest else (k, v) ∷ more

-- The entries of a map; a nil map is empty.
abbrev pub entries : {K V : Type 0} → GoMap K V → List (K × V)
entries none = []
entries (some m) = m

abbrev pub is_some {ℓ} : {A : Type ℓ} → Option A → Bool
is_some none = false
is_some (some a) = true

-- The length of the value at a key; a missing key gives a nil slice.
abbrev pub timeslots : Option (List ℕ) → List ℕ
timeslots none = []
timeslots (some slots) = slots

unfoldable pub preimage_has_been_solicited : Services → ℕ → ℕ → ℕ → Bool
preimage_has_been_solicited services service_index hash len = elim (find services service_index) [
  | none ↦ false
  | some account ↦
      not (is_some (find (entries account.preimage_lookup) hash))
      && (length (
            timeslots
              (find_meta (entries account.preimage_meta) (record { hash = hash; length = len })))
          == 0)
]

-- The account with the preimage and its slot.
unfoldable pub provide : Account → ℕ → List ℕ → ℕ → Account
provide account hash bytes slot = record account {
  preimage_lookup = some (put_value (entries account.preimage_lookup) hash bytes);
  preimage_meta = some (
      put_meta (entries account.preimage_meta) (record { hash = hash; length = u32 (length bytes) })
        (slot ∷ []));
}

-- What the old account sees of it: the writes to the maps that it has.
abbrev pub seen : {M : Type 0} → Option M → Option M → Option M
seen none written = none
seen (some m) written = written

unfoldable pub share : Account → Account → Account
share account written = record account {
  preimage_lookup = seen account.preimage_lookup written.preimage_lookup;
  preimage_meta = seen account.preimage_meta written.preimage_meta;
}

-- `serviceState` and `newServiceState`
pub record Both : Type 0 where
  pub old : Services
  pub new : Services

-- The body of the loop behind the check, which is made twice on the same state.
unfoldable pub provide_to : ℕ → ℕ → List ℕ → ℕ → Both → Option Account → Both
unfolding provide share
provide_to service_index hash bytes slot s none = s
provide_to service_index hash bytes slot s (some account) =
    let written = provide account hash bytes slot in
    record {
      old = put_value s.old service_index (share account written);
      new = put_value s.new service_index written;
    }

unfoldable pub integrate : (List ℕ → ℕ) → ℕ → Preimage → Both → Both
unfolding preimage_has_been_solicited provide_to
integrate hash_data slot p s =
    let hash = hash_data p.bytes in
    if preimage_has_been_solicited s.old p.service_index hash (u32 (length p.bytes))
    then provide_to p.service_index hash p.bytes slot s (find s.old p.service_index)
    else s

unfoldable pub integrate_all : (List ℕ → ℕ) → ℕ → List Preimage → Both → Both
unfolding integrate
integrate_all hash_data slot [] s = s
integrate_all hash_data slot (p ∷ ps) s =
    integrate_all hash_data slot ps (integrate hash_data slot p s)

-- `CalculateIntermediateServiceState`: the new services, and what has become of the old ones.
unfoldable pub calculate_intermediate_service_state :
    (List ℕ → ℕ) → List Preimage → Services → ℕ → Both
unfolding integrate_all
calculate_intermediate_service_state hash_data preimages services new_timeslot =
    integrate_all hash_data new_timeslot preimages (record { old = services; new = services })
