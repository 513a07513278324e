-- ===== src/Wal.antt =====
-- The write-ahead log of cold_store.hpp. A file is the list of its bytes; `fopen`, `fwrite`,
-- `fflush` and `fclose` are taken to succeed (the source aborts where `fopen` fails, and does not
-- look at what `fwrite` returns), and a crash is a cut of the file (`Wal.Crash`).
pub mod Crc
pub mod Frame
pub mod Log
pub mod Replay
pub mod Crash
pub mod Group
pub mod Restart
mod Tests
use Prim.Native.Nat.{bit_xor}
use matrixdb.Prelude.{
  ℕ, zero, suc, ◌+◌, ◌/◌, ◌%◌, ◌^◌, bit_and, Bool, true, false, ◌||◌, Option, none, some, List, [],
  ◌∷◌, ◌++◌, length, take, drop, ltb, ◌==◌, if◌then◌else◌,
}
use matrixdb.Prelude.Bytes.{to_bytes, of_bytes, split_exact}

pub data SyncPolicy : Type 0 where
  sync_each sync_off : SyncPolicy

-- `file`: what has been written to the log; `synced`: how many of its bytes `fsync` has secured.
pub record ColdStore : Type 0 where
  pub policy : SyncPolicy
  pub file : List ℕ
  pub synced : ℕ
  pub records_written : ℕ

abbrev pub op_write : ℕ
op_write = 2

abbrev pub op_txn_write : ℕ
op_txn_write = 4

abbrev pub wal_payload_bytes : ℕ
wal_payload_bytes = 20

abbrev pub wal_max_record : ℕ
wal_max_record = 4096

abbrev pub wal_commit_bytes : ℕ
wal_commit_bytes = 4

abbrev pub wal_commit : ℕ
wal_commit = 0x434F_4D4D

-- one of the eight rounds on a byte
crc_bit : ℕ → ℕ
crc_bit crc = if bit_and crc 1 == 1 then bit_xor (crc / 2) 0xEDB8_8320 else crc / 2

crc_rounds : ℕ → ℕ → ℕ
crc_rounds zero crc = crc
crc_rounds (suc k) crc = crc_rounds k (crc_bit crc)

crc_byte : ℕ → ℕ → ℕ
crc_byte crc b = crc_rounds 8 (bit_xor crc b)

crc_from : ℕ → List ℕ → ℕ
crc_from crc [] = crc
crc_from crc (b ∷ bytes) = crc_from (crc_byte crc b) bytes

pub matrix_crc32 : List ℕ → ℕ
unfolding crc_bit crc_rounds crc_byte crc_from
matrix_crc32 bytes = bit_xor (crc_from 0xFFFF_FFFF bytes) 0xFFFF_FFFF

unfoldable pub new : SyncPolicy → List ℕ → ColdStore
new policy file = record { policy = policy; file = file; synced = length file; records_written = 0 }

-- The writes, the flush and, by the policy, the `fsync` that end an append.
pub finish : ColdStore → List ℕ → ColdStore
finish s bytes =
    let file = s.file ++ bytes in
    record s {
      file = file;
      synced = elim s.policy [ sync_each ↦ length file | sync_off ↦ s.synced ];
      records_written = (s.records_written + 1) % 2 ^ 64;
    }

pub append_record : ColdStore → ℕ → ℕ → ℕ → ColdStore
unfolding finish
append_record s opcode key value =
    let payload = to_bytes 8 key ++ (to_bytes 8 value ++ to_bytes 4 opcode) in
    finish s (to_bytes 4 wal_payload_bytes ++ (to_bytes 4 (matrix_crc32 payload) ++ payload))

unfoldable pub append_put : ColdStore → ℕ → ℕ → ColdStore
unfolding append_record
append_put s key value = append_record s op_write key value

unfoldable pub append_txn_put : ColdStore → ℕ → ℕ → ColdStore
unfolding append_record
append_txn_put s key value = append_record s op_txn_write key value

unfoldable pub append_commit : ColdStore → ColdStore
unfolding finish
append_commit s =
    let magic = to_bytes 4 wal_commit in
    finish s (to_bytes 4 wal_commit_bytes ++ (to_bytes 4 (matrix_crc32 magic) ++ magic))

unfoldable pub truncate : ColdStore → ColdStore
truncate s = record s { file = []; synced = 0; records_written = 0 }

-- The head of the replay loop: the payload of the next record and the bytes behind it, or `none`
-- where the loop breaks (end of file, torn tail, wrong checksum).
pub read_record : List ℕ → Option (List ℕ × List ℕ)
read_record bytes = elim (split_exact 4 bytes) [
  | none ↦ none
  | some (head, after) ↦
      let n = of_bytes head in
      if n == 0 || ltb wal_max_record n then none else elim (split_exact 4 after) [
        | none ↦ none
        | some (sum, body) ↦ elim (split_exact n body) [
          | none ↦ none
          | some (buf, rest) ↦ if matrix_crc32 buf == of_bytes sum then some (buf, rest) else none
        ]
      ]
]

-- What a record makes the loop apply, and the transactional puts that wait after it.
pub replay_record : List ℕ → List (ℕ × ℕ) → List (ℕ × ℕ) × List (ℕ × ℕ)
replay_record buf txn =
    if length buf == wal_payload_bytes
    then (let opcode = of_bytes (take 4 (drop 16 buf)) in
        let key = of_bytes (take 8 buf) in
        let value = of_bytes (take 8 (drop 8 buf)) in
        if opcode == op_write
        then ((key, value) ∷ [], txn)
        else if opcode == op_txn_write
        then ([], txn ++ ((key, value) ∷ []))
        else ([], txn))
    else if length buf == wal_commit_bytes
    then (if of_bytes buf == wal_commit then (txn, []) else ([], txn))
    else ([], txn)

-- The replay loop, as the list of the pairs that it hands to `apply`, in order.
pub replay_loop : ℕ → List ℕ → List (ℕ × ℕ) → List (ℕ × ℕ)
replay_loop zero bytes txn = []
replay_loop (suc fuel) bytes txn = elim (read_record bytes) [
  | none ↦ []
  | some (buf, rest) ↦
      let (applied, waiting) = replay_record buf txn in applied ++ replay_loop fuel rest waiting
]

-- Each round reads at least one byte, so the length of the file is fuel enough.
pub replay_bytes : List ℕ → List (ℕ × ℕ)
replay_bytes bytes = replay_loop (length bytes + 1) bytes []

unfoldable pub replay : ColdStore → List (ℕ × ℕ)
unfolding replay_bytes replay_loop read_record replay_record
replay s = replay_bytes s.file
