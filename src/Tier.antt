-- ===== src/Tier.antt =====
-- Where the bytes of a column live, and what the rest of the engine sees of a column: the tiers of
-- memory_model.hpp, the decisions of tier_manager.hpp, and a column as the promise of
-- tiered_column.hpp, its bytes in one tier. The build is the one without CUDA.
pub mod Columns
pub mod Refine
pub mod Cost
pub mod Manager
pub mod Pass
pub mod Plans
pub mod Lockstep
pub mod Capacity
pub mod Victims
pub mod Cpu
mod Tests
use matrixdb.Prelude.{
  ℕ, ◌+◌, ◌%◌, ◌^◌, Bool, true, false, Option, none, some, List, [], ◌∷◌, ◌++◌, if◌then◌else◌,
}
use matrixdb.Prelude.Maps.{◌>>=◌, find, assign}

pub data MemorySpace : Type 0 where
  host device cold unified : MemorySpace

abbrev pub same_tier : MemorySpace → MemorySpace → Bool
same_tier host host = true
same_tier device device = true
same_tier cold cold = true
same_tier unified unified = true
same_tier _ _ = false

pub record MigrationDecision : Type 0 where
  pub column_id : ℕ
  pub from : MemorySpace
  pub to : MemorySpace

pub record Column : Type 0 where
  pub tier : MemorySpace
  pub bytes : List ℕ

-- `none` is the end of the process: no build without CUDA has a column in DEVICE or UNIFIED.
unfoldable pub staged : MemorySpace → List ℕ → Option Column
staged host bytes = some (record { tier = host; bytes = bytes })
staged cold bytes = some (record { tier = cold; bytes = bytes })
staged device bytes = none
staged unified bytes = none

unfoldable pub read_to_host : Column → Option (List ℕ)
read_to_host c = elim c.tier [
  | host ↦ some c.bytes
  | cold ↦ some c.bytes
  | device ↦ none
  | unified ↦ none
]

unfoldable pub migrate_to : MemorySpace → Column → Option Column
migrate_to dest c = if same_tier dest c.tier then some c else read_to_host c >>= staged dest

-- `MigrationExecutor::apply`: how many decisions named a column, and the columns after them.
unfoldable pub apply : List MigrationDecision → List (ℕ × Column) → Option (ℕ × List (ℕ × Column))
apply [] columns = some (0, columns)
apply (d ∷ plan) columns = elim (find d.column_id columns) [
  | none ↦ apply plan columns
  | some c ↦ migrate_to d.to c >>= λ moved.
      apply plan (assign d.column_id moved columns) >>= λ r. some ((r.0 + 1) % 2 ^ 64, r.1)
]
