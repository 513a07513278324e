-- ===== src/Tier/Columns.antt =====
-- `TieredColumn` of tiered_column.hpp, in the build without CUDA: a buffer in memory or a file. The file
-- system is a parameter: how many bytes `fwrite` takes into a new file, with what the file holds after `fclose`
-- (`none` when `fopen` refuses), and what reading a file delivers. An abort is `none`. `cold_path` is the
-- column's own (process and serial number), so that the file is part of the column's state.
use matrixdb.Prelude.{
  ℕ, ◌+◌, ◌%◌, ◌^◌, ◌≡◌, Option, none, some, List, [], ◌∷◌, ◌++◌, length, take, ◌==◌, if◌then◌else◌,
}
use matrixdb.Prelude.Maps.{◌>>=◌, guard, ◌>>◌}
use matrixdb.Tier.{MemorySpace, host, device, cold, unified, same_tier}

pub record Disk : Type 0 where
  pub written : List ℕ → Option (ℕ × List ℕ)
  pub fread : List ℕ → Option (List ℕ)

-- What a file system does: no call makes up bytes, and a file that is closed holds the bytes that `fwrite` took.
pub record Truthful (disk : Disk) : Type 0 where
  pub written-prefix : (b f : List ℕ) (n : ℕ) → disk.written b ≡ some (n, f) → f ≡ take n b
  pub fread-prefix : (f b : List ℕ) → disk.fread f ≡ some b → (n : ℕ) × (b ≡ take n f)

-- A disk with room, whose files can be read.
pub record Reliable (disk : Disk) : Type 0 where
  pub written_all : (b : List ℕ) → disk.written b ≡ some (length b, b)
  pub fread_all : (f : List ℕ) → disk.fread f ≡ some f

pub record TieredColumn : Type 0 where
  pub id : ℕ
  pub size : ℕ
  pub tier : MemorySpace
  pub host_ : List ℕ
  pub file : Option (List ℕ)

unfoldable pub new : ℕ → List ℕ → TieredColumn
new id bytes = record { id = id; size = length bytes; tier = host; host_ = bytes; file = none }

unfoldable pub host_ptr : TieredColumn → Option (List ℕ)
host_ptr c = elim c.tier [ host ↦ some c.host_ | device ↦ none | cold ↦ none | unified ↦ none ]

unfoldable pub byte_sum : List ℕ → ℕ → ℕ
byte_sum [] sum = sum
byte_sum (c ∷ cs) sum = byte_sum cs ((sum + c) % 2 ^ 64)

module _ (disk : Disk) where
  unfoldable pub read_cold : TieredColumn → Option (List ℕ)
  read_cold c = do
    f ← c.file
    b ← disk.fread f
    let got = length (take c.size b)
    guard (got == c.size)
    some (take c.size b)

  unfoldable pub read_to_host : TieredColumn → Option (List ℕ)
  read_to_host c = elim c.tier [
    | host ↦ some c.host_
    | cold ↦ read_cold c
    | device ↦ none
    | unified ↦ none
  ]

  -- The count of `fwrite` is checked, the result of `fclose` is not.
  unfoldable pub write_cold : List ℕ → Option (List ℕ)
  write_cold b = do w ← disk.written b; guard (w.0 == length b); some w.1

  unfoldable pub free_current : TieredColumn → Option (List ℕ)
  free_current c = elim c.tier [ cold ↦ none | host ↦ c.file | device ↦ c.file | unified ↦ c.file ]

  -- The part behind the staging; `file` is what free_current leaves.
  unfoldable pub push : MemorySpace → ℕ → ℕ → List ℕ → Option (List ℕ) → Option TieredColumn
  push host id size bytes file =
      some (record { id = id; size = size; tier = host; host_ = bytes; file = file })
  push cold id size bytes file = do
    f ← write_cold bytes
    some (record { id = id; size = size; tier = cold; host_ = []; file = some f })
  push device id size bytes file = none
  push unified id size bytes file = none

  unfoldable pub migrate_to : MemorySpace → TieredColumn → Option TieredColumn
  migrate_to dest c =
      if same_tier dest c.tier
      then some c
      else read_to_host c >>= λ bytes. push dest c.id c.size bytes (free_current c)

  unfoldable pub checksum : TieredColumn → Option ℕ
  checksum c = read_to_host c >>= λ b. some (byte_sum b 0)

unfoldable pub append_bytes : List ℕ → TieredColumn → Option TieredColumn
append_bytes b c = elim c.tier [
  | host ↦ some (record {
    id = c.id;
    size = c.size + length b;
    tier = host;
    host_ = c.host_ ++ b;
    file = c.file;
  })
  | device ↦ none
  | cold ↦ none
  | unified ↦ none
]
