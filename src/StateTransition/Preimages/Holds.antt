-- ===== src/StateTransition/Preimages/Holds.antt =====
-- What an account holds for a hash, and that writes for other hashes and to other accounts keep it.
use strawberry.Base.{
  ℕ, false, ◌≡◌, refl, ap, sym, ◌∙◌, ◌⊎◌, inl, inr, arith, Option, some, List, [], ◌∷◌, length,
  ◌==◌, u32, Bool-cases,
}
use strawberry.StateTransition.Preimages.{
  MetaKey, Account, Services, find, put_value, find_meta, put_meta, entries, provide,
}
use strawberry.StateTransition.Preimages.Provided.{some-injective}
use strawberry.StateTransition.Preimages.Solicited.{find-put_value}

find-put_value_apart :
    {V : Type 0} (m : List (ℕ × V)) (k key : ℕ) (v : V)
    → (k == key) ≡ false
    → find (put_value m k v) key ≡ find m key
find-put_value_apart [] k key v e = rw e refl
find-put_value_apart ((k0, w) ∷ rest) k key v e =
    ground (arith, find-put_value_apart rest k key v e)

pub find_meta-put_meta :
    (m : List (MetaKey × List ℕ)) (key : MetaKey) (v : List ℕ)
    → find_meta (put_meta m key v) key ≡ some v
find_meta-put_meta [] key v = ground arith
find_meta-put_meta ((k, w) ∷ rest) key v = ground (arith, find_meta-put_meta rest key v)

find_meta-put_meta_apart :
    (m : List (MetaKey × List ℕ)) (k key : MetaKey) (v : List ℕ)
    → (k.hash == key.hash) ≡ false
    → find_meta (put_meta m k v) key ≡ find_meta m key
find_meta-put_meta_apart [] k key v e = ground arith
find_meta-put_meta_apart ((k0, w) ∷ rest) k key v e =
    ground (arith, find_meta-put_meta_apart rest k key v e)

-- What the account of the service has for the hash and for the key of its metadata.
pub record Holds (services : Services) (s : ℕ) (key : MetaKey) (bytes slots : Option (List ℕ))
    : Type 0 where
  pub account : Account
  pub found : find services s ≡ some account
  pub lookup : find (entries account.preimage_lookup) key.hash ≡ bytes
  pub meta : find_meta (entries account.preimage_meta) key ≡ slots

module _ (s : ℕ) (key : MetaKey) {v m : Option (List ℕ)} where
  pub put_value-Holds :
      (services : Services) (i : ℕ) (a : Account)
      → (i == s) ≡ false
      → Holds services s key v m
      → Holds (put_value services i a) s key v m
  put_value-Holds services i a elsewhere h = record {
    account = h.account;
    found = find-put_value_apart services i s a elsewhere ∙ h.found;
    lookup = h.lookup;
    meta = h.meta;
  }

  pub provide-Holds :
      (services : Services) (a : Account) (i hash : ℕ) (bytes : List ℕ) (slot : ℕ)
      → find services i ≡ some a
      → ((i == s) ≡ false) ⊎ ((hash == key.hash) ≡ false)
      → Holds services s key v m
      → Holds (put_value services i (provide a hash bytes slot)) s key v m
  unfolding provide
  provide-Holds services a i hash bytes slot at (inl elsewhere) h =
      put_value-Holds services i (provide a hash bytes slot) elsewhere h
  provide-Holds services a i hash bytes slot at (inr other) h = elim (Bool-cases (i == s)) [
    | inr elsewhere ↦ put_value-Holds services i (provide a hash bytes slot) elsewhere h
    | inl here ↦
        let same : i ≡ s = ground arith in
        let is : h.account ≡ a =
          some-injective (sym h.found ∙ ap (find services) (sym same) ∙ at) in
        record {
          account = provide a hash bytes slot;
          found =
              ap (find (put_value services i (provide a hash bytes slot))) (sym same)
              ∙ find-put_value services i (provide a hash bytes slot);
          lookup =
              find-put_value_apart (entries a.preimage_lookup) hash key.hash bytes other
              ∙ ap (λ (x : Account). find (entries x.preimage_lookup) key.hash) (sym is)
              ∙ h.lookup;
          meta =
              find_meta-put_meta_apart (entries a.preimage_meta)
                (record { hash = hash; length = u32 (length bytes) }) key (slot ∷ []) other
              ∙ ap (λ (x : Account). find_meta (entries x.preimage_meta) key) (sym is)
              ∙ h.meta;
        }
  ]
