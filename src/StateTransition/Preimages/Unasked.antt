-- ===== src/StateTransition/Preimages/Unasked.antt =====
-- A preimage that nobody has asked for, in a block of any length.
use strawberry.Base.{
  ℕ, false, ◌≡◌, refl, ap, sym, subst, ◌∙◌, ◌⊎◌, inl, inr, arith, Option, none, some, List, [], ◌∷◌,
  ◌++◌, length, ◌==◌, u32, Bool-cases, Option-cases, All,
}
use strawberry.StateTransition.Preimages.{
  MetaKey, Services, Preimage, Both, find, entries, preimage_has_been_solicited, provide,
  calculate_intermediate_service_state,
}
use strawberry.StateTransition.Preimages.Provided.{
  AllMaps, with_preimage, with_preimages, calculate_intermediate_service_state-one_state,
}
use strawberry.StateTransition.Preimages.Solicited.{find-put_value, solicited}
use strawberry.StateTransition.Preimages.Holds.{Holds, provide-Holds, find_meta-put_meta}

abbrev pub key_of : (List ℕ → ℕ) → Preimage → MetaKey
key_of hash_data p = record { hash = hash_data p.bytes; length = u32 (length p.bytes) }

-- The preimages are for different accounts, or have different hashes.
abbrev pub IsApart : (List ℕ → ℕ) → Preimage → Preimage → Type 0
IsApart hash_data p q =
    ((q.service_index == p.service_index) ≡ false)
    ⊎ ((hash_data q.bytes == hash_data p.bytes) ≡ false)

module _ (hash_data : List ℕ → ℕ) (slot : ℕ) where
  with_preimage-Holds :
      (services : Services) (p q : Preimage) {v m : Option (List ℕ)}
      → IsApart hash_data p q
      → Holds services p.service_index (key_of hash_data p) v m
      → Holds (with_preimage hash_data slot services q) p.service_index (key_of hash_data p) v m
  with_preimage-Holds services p q apart h =
      elim (Bool-cases (
        preimage_has_been_solicited services q.service_index (hash_data q.bytes)
          (u32 (length q.bytes)))) [
            | inr refused ↦ rw refused h
            | inl asked ↦ elim (Option-cases (find services q.service_index)) [
              | inl absent ↦ rw asked (rw absent h)
              | inr (a, at) ↦ rw asked (
                  rw at (
                    provide-Holds p.service_index (key_of hash_data p) services a q.service_index
                      (hash_data q.bytes) q.bytes slot at apart h))
            ]
          ]

  -- A hash that the account has is not solicited.
  has-refused :
      (services : Services) (p : Preimage) {bytes : List ℕ} {m : Option (List ℕ)} (len : ℕ)
      → Holds services p.service_index (key_of hash_data p) (some bytes) m
      → preimage_has_been_solicited services p.service_index (hash_data p.bytes) len ≡ false
  unfolding preimage_has_been_solicited
  has-refused services p len h = rw (h.found, preimage_has_been_solicited) (rw h.lookup refl)

  with_preimage-has :
      (services : Services) (p q : Preimage) {bytes : List ℕ} {m : Option (List ℕ)}
      → Holds services p.service_index (key_of hash_data p) (some bytes) m
      → Holds
          (with_preimage hash_data slot services q)
          p.service_index
          (key_of hash_data p)
          (some bytes)
          m
  with_preimage-has services p q h = elim (Bool-cases (q.service_index == p.service_index)) [
    | inr elsewhere ↦ with_preimage-Holds services p q (inl elsewhere) h
    | inl here ↦ elim (Bool-cases (hash_data q.bytes == hash_data p.bytes)) [
      | inr other ↦ with_preimage-Holds services p q (inr other) h
      | inl same ↦
          let e : q.service_index ≡ p.service_index = ground arith in
          let d : hash_data q.bytes ≡ hash_data p.bytes = ground arith in
          let refused : preimage_has_been_solicited services q.service_index (hash_data q.bytes)
                (u32 (length q.bytes))
              ≡ false =
            ap
              (λ i.
                preimage_has_been_solicited services i (hash_data q.bytes) (u32 (length q.bytes)))
              e
            ∙ ap
                (λ i. preimage_has_been_solicited services p.service_index i (u32 (length q.bytes)))
                d
            ∙ has-refused services p (u32 (length q.bytes)) h in
          rw refused h
    ]
  ]

  with_preimages-has :
      (qs : List Preimage) (services : Services) (p : Preimage) {bytes : List ℕ}
      {m : Option (List ℕ)}
      → Holds services p.service_index (key_of hash_data p) (some bytes) m
      → Holds
          (with_preimages hash_data slot services qs)
          p.service_index
          (key_of hash_data p)
          (some bytes)
          m
  with_preimages-has [] services p h = h
  with_preimages-has (q ∷ qs) services p h =
      with_preimages-has qs (with_preimage hash_data slot services q) p
        (with_preimage-has services p q h)

  with_preimage-unasked :
      (services : Services) (p : Preimage)
      → Holds services p.service_index (key_of hash_data p) none none
      → Holds
          (with_preimage hash_data slot services p)
          p.service_index
          (key_of hash_data p)
          (some p.bytes)
          (some (slot ∷ []))
  unfolding provide
  with_preimage-unasked services p h =
      let written = provide h.account (hash_data p.bytes) p.bytes slot in
      rw
        (solicited services p.service_index (hash_data p.bytes) (u32 (length p.bytes)) h.account
          h.found h.lookup h.meta)
        (rw h.found (record {
          account = written;
          found = find-put_value services p.service_index written;
          lookup = find-put_value (entries h.account.preimage_lookup) (hash_data p.bytes) p.bytes;
          meta =
              find_meta-put_meta (entries h.account.preimage_meta) (key_of hash_data p) (slot ∷ []);
        }))

  with_preimages-unasked :
      (qs : List Preimage) (p : Preimage) (ps : List Preimage) (services : Services)
      → All (IsApart hash_data p) qs
      → Holds services p.service_index (key_of hash_data p) none none
      → Holds
          (with_preimages hash_data slot services (qs ++ (p ∷ ps)))
          p.service_index
          (key_of hash_data p)
          (some p.bytes)
          (some (slot ∷ []))
  with_preimages-unasked [] p ps services apart h =
      with_preimages-has ps (with_preimage hash_data slot services p) p
        (with_preimage-unasked services p h)
  with_preimages-unasked (q ∷ qs) p ps services apart h =
      with_preimages-unasked qs p ps (with_preimage hash_data slot services q) apart.1
        (with_preimage-Holds services p q apart.0 h)

-- A preimage that nobody has asked for is taken up all the same: where every account has its maps, the
-- account of the preimage has neither its hash in the lookup nor its hash and length as a key of the
-- metadata, and no preimage before it in the block is for the same account and hash, the account has in
-- the end the bytes under the hash, and the slot of the block under the key, whatever preimages follow.
pub calculate_intermediate_service_state-unasked :
    (hash_data : List ℕ → ℕ) (qs : List Preimage) (p : Preimage) (ps : List Preimage)
    (services : Services) (slot : ℕ)
    → AllMaps services
    → All (IsApart hash_data p) qs
    → Holds services p.service_index (key_of hash_data p) none none
    → Holds
        (calculate_intermediate_service_state hash_data (qs ++ (p ∷ ps)) services slot).new
        p.service_index
        (key_of hash_data p)
        (some p.bytes)
        (some (slot ∷ []))
calculate_intermediate_service_state-unasked hash_data qs p ps services slot maps apart h =
    subst
      (λ (b : Both).
        Holds b.new p.service_index (key_of hash_data p) (some p.bytes) (some (slot ∷ [])))
      (sym (
        calculate_intermediate_service_state-one_state hash_data (qs ++ (p ∷ ps)) services slot
          maps))
      (with_preimages-unasked hash_data slot qs p ps services apart h)
