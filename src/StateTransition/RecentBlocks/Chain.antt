-- ===== src/StateTransition/RecentBlocks/Chain.antt =====
-- The recent blocks behind a chain of blocks.
use strawberry.Base.{
  ℕ, zero, suc, ◌+◌, ◌-◌, ◌≤◌, ◌<◌, min, ◌≡◌, refl, sym, ap, subst, ◌∙◌, inl, inr, arith, some,
  List, [], ◌∷◌, ◌++◌, length, length-append, length-drop, drop, ltb, ltb→lt, Bool-cases,
}
use mathlib.Core.List.{append_assoc, append-nil}
use strawberry.Merkle.MountainRange.{Hash, append}
use strawberry.Merkle.MountainRange.Counter.{Represents, no_peaks, append-Represents}
use strawberry.StateTransition.Constants.{max_recent_blocks}
use strawberry.StateTransition.RecentBlocks.{
  BlockState, set_last_root, calculate_intermediate_block_state, last?, last_block_mmr, keep_recent,
  update_recent_blocks,
}

length-set_last_root :
    (blocks : List BlockState) (root : ℕ) → length (set_last_root blocks root) ≡ length blocks
length-set_last_root [] root = refl
length-set_last_root (b ∷ []) root = refl
length-set_last_root (b ∷ c ∷ rest) root = ap suc (length-set_last_root (c ∷ rest) root)

last_block_mmr-set_last_root :
    (blocks : List BlockState) (root : ℕ)
    → last_block_mmr (set_last_root blocks root) ≡ last_block_mmr blocks
last_block_mmr-set_last_root [] root = refl
last_block_mmr-set_last_root (b ∷ []) root = refl
last_block_mmr-set_last_root (b ∷ c ∷ []) root = refl
last_block_mmr-set_last_root (b ∷ c ∷ d ∷ rest) root =
    last_block_mmr-set_last_root (c ∷ d ∷ rest) root

length-keep_recent :
    (blocks : List BlockState) → length (keep_recent blocks) ≡ min max_recent_blocks (length blocks)
length-keep_recent blocks = ground (arith, length-drop (length blocks - max_recent_blocks) blocks)

last_block_mmr-last :
    (blocks : List BlockState) (b : BlockState)
    → last? blocks ≡ some b
    → last_block_mmr blocks ≡ b.accumulation_result_mmr
last_block_mmr-last blocks b e = rw (e, last_block_mmr) refl

last?-append : (blocks : List BlockState) (b : BlockState) → last? (blocks ++ (b ∷ [])) ≡ some b
last?-append [] b = refl
last?-append (x ∷ []) b = refl
last?-append (x ∷ y ∷ rest) b = last?-append (y ∷ rest) b

last?-drop :
    (k : ℕ) (blocks : List BlockState) → k < length blocks → last? (drop k blocks) ≡ last? blocks
last?-drop zero blocks h = refl
last?-drop (suc k) [] h = absurd (omega arith)
last?-drop (suc k) (x ∷ []) h = absurd (omega arith)
last?-drop (suc k) (x ∷ y ∷ rest) h = last?-drop k (y ∷ rest) (omega arith)

last?-keep_recent : (blocks : List BlockState) → last? (keep_recent blocks) ≡ last? blocks
last?-keep_recent blocks = elim (Bool-cases (ltb max_recent_blocks (length blocks))) [
  | inl more ↦ rw more (
      last?-drop (length blocks - max_recent_blocks) blocks
        (omega (arith, ltb→lt max_recent_blocks (length blocks) more)))
  | inr few ↦ rw few
]

-- What a block gives to the recent blocks: its hash, the prior state root, the accumulation root and the
-- packages that it reports.
pub record Entry : Type 0 where
  pub header_hash : ℕ
  pub prior_state_root : ℕ
  pub accumulation_root : Hash
  pub mapping : List (ℕ × ℕ)

module _ (keccak : Hash → Hash) where
  -- The two calls for a block.
  abbrev pub add_block : Entry → List BlockState → List BlockState
  add_block e blocks =
      update_recent_blocks keccak e.header_hash e.prior_state_root e.accumulation_root
        (calculate_intermediate_block_state e.prior_state_root blocks) e.mapping

  -- The blocks of a chain, the first one first.
  abbrev pub add_blocks : List Entry → List BlockState → List BlockState
  add_blocks [] blocks = blocks
  add_blocks (e ∷ es) blocks = add_blocks es (add_block e blocks)

  abbrev pub roots : List Entry → List Hash
  roots [] = []
  roots (e ∷ es) = e.accumulation_root ∷ roots es

  length-add_block :
      (e : Entry) (blocks : List BlockState)
      → length (add_block e blocks) ≡ min max_recent_blocks (suc (length blocks))
  unfolding update_recent_blocks calculate_intermediate_block_state
  length-add_block e blocks =
      let prior = set_last_root (set_last_root blocks e.prior_state_root) e.prior_state_root in
      let same : length prior ≡ length blocks =
        length-set_last_root (set_last_root blocks e.prior_state_root) e.prior_state_root
        ∙ length-set_last_root blocks e.prior_state_root in
      length-keep_recent (prior ++ (_ ∷ [])) ∙ omega (arith, same, length-append prior (_ ∷ []))

  Represents-add_block :
      (e : Entry) (blocks : List BlockState) (xs : List Hash)
      → Represents keccak 0 (last_block_mmr blocks) xs
      → Represents keccak 0 (last_block_mmr (add_block e blocks)) (xs ++ (e.accumulation_root ∷ []))
  unfolding update_recent_blocks calculate_intermediate_block_state
  Represents-add_block e blocks xs r =
      let once = set_last_root blocks e.prior_state_root in
      let prior = set_last_root once e.prior_state_root in
      let same : last_block_mmr blocks ≡ last_block_mmr prior = sym (
        last_block_mmr-set_last_root once e.prior_state_root
        ∙ last_block_mmr-set_last_root blocks e.prior_state_root) in
      let added : BlockState = record {
        header_hash = e.header_hash;
        state_root = 0;
        accumulation_result_mmr = append keccak (last_block_mmr prior) e.accumulation_root;
        work_report_hashes = e.mapping;
      } in
      let newest =
        last_block_mmr-last (keep_recent (prior ++ (added ∷ []))) added
          (last?-keep_recent (prior ++ (added ∷ [])) ∙ last?-append prior added) in
      subst (λ peaks. Represents keccak 0 peaks (xs ++ (e.accumulation_root ∷ []))) (sym newest)
        (append-Represents keccak (last_block_mmr prior) xs e.accumulation_root
          (subst (λ peaks. Represents keccak 0 peaks xs) same r))

  Represents-add_blocks :
      (es : List Entry) (blocks : List BlockState) (xs : List Hash)
      → Represents keccak 0 (last_block_mmr blocks) xs
      → Represents keccak 0 (last_block_mmr (add_blocks es blocks)) (xs ++ roots es)
  Represents-add_blocks [] blocks xs r =
      subst (Represents keccak 0 (last_block_mmr blocks)) (sym (append-nil xs)) r
  Represents-add_blocks (e ∷ es) blocks xs r =
      subst (Represents keccak 0 (last_block_mmr (add_blocks es (add_block e blocks))))
        (append_assoc xs (e.accumulation_root ∷ []) (roots es))
        (Represents-add_blocks es (add_block e blocks) (xs ++ (e.accumulation_root ∷ []))
          (Represents-add_block e blocks xs r))

  length-add_blocks :
      (es : List Entry) (blocks : List BlockState)
      → length blocks ≤ max_recent_blocks
      → length (add_blocks es blocks) ≡ min max_recent_blocks (length blocks + length es)
  length-add_blocks [] blocks h = omega arith
  length-add_blocks (e ∷ es) blocks h = omega (
    arith,
    length-add_block e blocks,
    length-add_blocks es (add_block e blocks) (omega (arith, length-add_block e blocks)),
  )

-- Behind a chain of n blocks there are min 8 n recent blocks, and the mountain range of the newest one
-- stands for the accumulation roots of all the blocks of the chain, in their order.
pub update_recent_blocks-chain :
    (keccak : Hash → Hash) (es : List Entry)
    → (length (add_blocks keccak es []) ≡ min max_recent_blocks (length es))
      × Represents keccak 0 (last_block_mmr (add_blocks keccak es [])) (roots keccak es)
update_recent_blocks-chain keccak es = (
  length-add_blocks keccak es [] (omega arith) ∙ omega arith,
  Represents-add_blocks keccak es [] [] no_peaks,
)
