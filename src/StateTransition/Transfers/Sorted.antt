-- ===== src/StateTransition/Transfers/Sorted.antt =====
-- The order of the transfers to a service.
use strawberry.Base.{
  ℕ, ◌≤◌, false, ◌&&◌, ◌≡◌, refl, ◌∙◌, inl, inr, arith, List, [], ◌∷◌, leb, leb→le, ◌==◌,
  if◌then◌else◌, All, Bool-cases,
}
use strawberry.StateTransition.Transfers.{
  DeferredTransfer, select_receiver, insert, sort_stable, transfers_for_receiver,
}

-- No sender is above a later one.
abbrev pub IsSorted : List DeferredTransfer → Type 0
IsSorted [] = Unit {0}
IsSorted (t ∷ ts) =
    All (λ (u : DeferredTransfer). t.sender_service_index ≤ u.sender_service_index) ts × IsSorted ts

-- The transfers of one sender, in their order.
abbrev pub by_sender : ℕ → List DeferredTransfer → List DeferredTransfer
by_sender s [] = []
by_sender s (t ∷ ts) = if t.sender_service_index == s then t ∷ by_sender s ts else by_sender s ts

module _ (a : ℕ) where
  insert-All :
      (t : DeferredTransfer) (us : List DeferredTransfer)
      → a ≤ t.sender_service_index
      → All (λ (u : DeferredTransfer). a ≤ u.sender_service_index) us
      → All (λ (u : DeferredTransfer). a ≤ u.sender_service_index) (insert t us)
  unfolding insert
  insert-All t [] h all = (h, tt)
  insert-All t (u ∷ us) h all =
      elim (Bool-cases (leb t.sender_service_index u.sender_service_index)) [
        | inl low ↦ rw low (h, all)
        | inr high ↦ rw high (all.0, insert-All t us h all.1)
      ]

  All-above :
      (b : ℕ) (us : List DeferredTransfer)
      → a ≤ b
      → All (λ (u : DeferredTransfer). b ≤ u.sender_service_index) us
      → All (λ (u : DeferredTransfer). a ≤ u.sender_service_index) us
  All-above b [] h all = tt
  All-above b (u ∷ us) h all = (omega (arith, all.0), All-above b us h all.1)

above : (a b : ℕ) → leb a b ≡ false → b ≤ a
above a b e = ground arith

insert-IsSorted :
    (t : DeferredTransfer) (us : List DeferredTransfer) → IsSorted us → IsSorted (insert t us)
unfolding insert
insert-IsSorted t [] s = (tt, tt)
insert-IsSorted t (u ∷ us) s =
    elim (Bool-cases (leb t.sender_service_index u.sender_service_index)) [
      | inl low ↦
          let first = leb→le t.sender_service_index u.sender_service_index low in
          rw low
            (((first, All-above t.sender_service_index u.sender_service_index us first s.0)), s)
      | inr high ↦ rw high (
        insert-All u.sender_service_index t us
            (above t.sender_service_index u.sender_service_index high) s.0,
        insert-IsSorted t us s.1,
      )
    ]

sort_stable-IsSorted : (ts : List DeferredTransfer) → IsSorted (sort_stable ts)
unfolding sort_stable
sort_stable-IsSorted [] = tt
sort_stable-IsSorted (t ∷ ts) = insert-IsSorted t (sort_stable ts) (sort_stable-IsSorted ts)

by_sender-insert :
    (s : ℕ) (t : DeferredTransfer) (us : List DeferredTransfer)
    → by_sender s (insert t us) ≡ by_sender s (t ∷ us)
unfolding insert
by_sender-insert s t [] = refl
by_sender-insert s t (u ∷ us) = ground (arith, by_sender-insert s t us)

by_sender-sort_stable :
    (s : ℕ) (ts : List DeferredTransfer) → by_sender s (sort_stable ts) ≡ by_sender s ts
unfolding sort_stable
by_sender-sort_stable s [] = refl
by_sender-sort_stable s (t ∷ ts) =
    by_sender-insert s t (sort_stable ts) ∙ ground (arith, by_sender-sort_stable s ts)

-- The transfers of one sender to one receiver, in their order.
abbrev pub between : ℕ → ℕ → List DeferredTransfer → List DeferredTransfer
between s r [] = []
between s r (t ∷ ts) =
    if (t.sender_service_index == s) && (t.receiver_service_index == r)
    then t ∷ between s r ts
    else between s r ts

by_sender-select_receiver :
    (s r : ℕ) (ts : List DeferredTransfer) → by_sender s (select_receiver ts r) ≡ between s r ts
unfolding select_receiver
by_sender-select_receiver s r [] = refl
by_sender-select_receiver s r (t ∷ ts) = ground (arith, by_sender-select_receiver s r ts)

-- The transfers to a service come in the order of their senders, and those of each sender are its
-- transfers to this service, all of them, in the order in which they were made.
pub transfers_for_receiver-IsSorted :
    (ts : List DeferredTransfer) (service_id : ℕ)
    → IsSorted (transfers_for_receiver ts service_id)
      × ((s : ℕ) → by_sender s (transfers_for_receiver ts service_id) ≡ between s service_id ts)
unfolding transfers_for_receiver
transfers_for_receiver-IsSorted ts service_id = (
  sort_stable-IsSorted (select_receiver ts service_id),
  λ s.
      by_sender-sort_stable s (select_receiver ts service_id)
      ∙ by_sender-select_receiver s service_id ts,
)
