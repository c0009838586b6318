-- ===== src/StateTransition/RecentBlocks.antt =====
-- The recent blocks: `calculateIntermediateBlockState`, `UpdateRecentBlocks` and `buildWorkPackageMapping`.
-- The hashes in a mountain range are lists of bytes, as they are there; the Keccak hash is a parameter, and
-- so are the hash of the header and the accumulation root.
pub mod Chain
use strawberry.Base.{
  ℕ, suc, ◌-◌, Bool, Option, none, some, List, [], ◌∷◌, ◌++◌, length, drop, ltb, ◌==◌,
  if◌then◌else◌,
}
use strawberry.Merkle.MountainRange.{Hash, Peak, append}
use strawberry.StateTransition.Constants.{max_recent_blocks}
use strawberry.StateTransition.Reports.{Guarantee, package_hash}

pub record BlockState : Type 0 where
  pub header_hash : ℕ
  pub state_root : ℕ
  pub accumulation_result_mmr : List Peak
  pub work_report_hashes : List (ℕ × ℕ)

-- A write to a map, a list of its keys and values.
abbrev pub put : List (ℕ × ℕ) → ℕ → ℕ → List (ℕ × ℕ)
put [] key value = (key, value) ∷ []
put ((k, v) ∷ rest) key value =
    let more = put rest key value in if k == key then (key, value) ∷ rest else (k, v) ∷ more

unfoldable pub build_from : List Guarantee → List (ℕ × ℕ) → List (ℕ × ℕ)
build_from [] mapping = mapping
build_from (g ∷ gs) mapping =
    build_from gs (
      put mapping (package_hash g.work_report)
        g.work_report.work_package_specification.segment_root)

unfoldable pub build_work_package_mapping : List Guarantee → List (ℕ × ℕ)
unfolding build_from
build_work_package_mapping guarantees = build_from guarantees []

-- The write to the last block, if there is one.
abbrev pub set_last_root : List BlockState → ℕ → List BlockState
set_last_root [] root = []
set_last_root (b ∷ []) root = record b { state_root = root } ∷ []
set_last_root (b ∷ c ∷ rest) root = b ∷ set_last_root (c ∷ rest) root

unfoldable pub calculate_intermediate_block_state : ℕ → List BlockState → List BlockState
calculate_intermediate_block_state prior_state_root blocks = set_last_root blocks prior_state_root

abbrev pub last? {ℓ} : {A : Type ℓ} → List A → Option A
last? [] = none
last? (x ∷ []) = some x
last? (x ∷ y ∷ rest) = last? (y ∷ rest)

-- `lastBlockMMR`
abbrev pub last_block_mmr : List BlockState → List Peak
last_block_mmr blocks = elim (last? blocks) [ none ↦ [] | some b ↦ b.accumulation_result_mmr ]

-- The last `MaxRecentBlocks` of the blocks.
abbrev pub keep_recent : List BlockState → List BlockState
keep_recent blocks =
    if ltb max_recent_blocks (length blocks)
    then drop (length blocks - max_recent_blocks) blocks
    else blocks

unfoldable pub update_recent_blocks :
    (Hash → Hash) → ℕ → ℕ → Hash → List BlockState → List (ℕ × ℕ) → List BlockState
unfolding append
update_recent_blocks keccak header_hash prior_state_root accumulation_root intermediate mapping =
    let blocks = set_last_root intermediate prior_state_root in
    keep_recent (
      blocks
      ++ (record {
        header_hash = header_hash;
        state_root = 0;
        accumulation_result_mmr = append keccak (last_block_mmr blocks) accumulation_root;
        work_report_hashes = mapping;
      }
          ∷ []))
