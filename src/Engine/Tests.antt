-- ===== src/Engine/Tests.antt =====
-- The engine's theorems at a table of four slots.
use matrixdb.Prelude.{
  ℕ, zero, suc, ◌+◌, ◌<◌, ◌≡◌, refl, sym, ◌&&◌, true, false, none, some, [], ◌∷◌, length, take, leb,
  if◌then◌else◌, arith,
}
use matrixdb.Kv.{empty_slot, KvStore, get, slot_at, for_each, capacity}
use matrixdb.Prelude.Bytes.{to_bytes}
use matrixdb.Kv
use matrixdb.Kv.Probe.{find, home}
use matrixdb.Kv.Invariant.{IsValid, count}
use matrixdb.Kv.Entries.{lookup, lookup-for_each}
use matrixdb.Wal.{sync_each, append_put}
use matrixdb.Wal.Log.{applied, encode_all, pending}
use matrixdb.Engine.{
  Engine, begin, txn_put, commit, write_op, start, put_all, kv_range, kv_range_sorted,
  load_checkpoint, apply_committed_write,
}
use matrixdb.Engine.Durable.{
  IsDurable, AllWords, Run, done, after, wrote, began, buffered_put, run-IsDurable,
}
use matrixdb.Kv.Lookup.{put-IsValid}
use matrixdb.Engine.{save_checkpoint}
use matrixdb.Engine.Snapshot.{load_checkpoint_restores}
use matrixdb.Engine.Recover.{wal_file, start-commit_crash}
use matrixdb.Engine.Index.{IsMirrored, IsAscending, Run-IsMirrored, lookup-kv_range_sorted}

abbrev empty : KvStore
empty = record {
  mask = 3;
  size = 0;
  slots = empty_slot ∷ empty_slot ∷ empty_slot ∷ empty_slot ∷ [];
}

empty-IsValid : IsValid empty
unfolding count
empty-IsValid = record { bits = 2; power = refl; width = refl; counted = refl; reached = reached }
  where
    reached :
        (p : ℕ)
        → p < empty.mask + 1
        → (slot_at empty.slots p).occupied ≡ true
        → find empty.mask empty.slots
            (slot_at empty.slots p).key
            (empty.mask + 1)
            (home empty (slot_at empty.slots p).key)
          ≡ some p
    reached zero h o = absurd (ground arith)
    reached (suc zero) h o = absurd (ground arith)
    reached (suc (suc zero)) h o = absurd (ground arith)
    reached (suc (suc (suc zero))) h o = absurd (ground arith)
    reached (suc (suc (suc (suc p)))) h o = absurd (omega arith)

abbrev first : Engine
first = record {
  kv = empty;
  key_index = [];
  cold_store = some (record { policy = sync_each; file = []; synced = 0; records_written = 0 });
  checkpoint_file = none;
  in_txn = false;
  txn_buf = [];
  reads = 0;
  writes = 0;
  commits = 0;
  store_overflows = 0;
  transactions_committed = 0;
  transactions_rolled_back = 0;
  checkpoints = 0;
}

first-IsDurable : IsDurable empty first
unfolding AllWords encode_all pending put_all applied
first-IsDurable = record {
  log = record { policy = sync_each; file = []; synced = 0; records_written = 0 };
  stored = refl;
  entries = [];
  ranged = tt;
  bytes = refl;
  each = refl;
  secured = refl;
  closed = refl;
  agrees = refl;
  buffered = tt;
}

-- one write, then a transaction that is still open
abbrev open_txn : Engine
open_txn = txn_put (begin (write_op first 7)) 1 10

opened : Run first open_txn
opened = after (wrote first 7 (omega arith)) (
    after (began (write_op first 7)) (
      after (buffered_put (begin (write_op first 7)) 1 10 (omega arith) (omega arith))
        (done open_txn)))

run-IsDurable_example : IsDurable empty open_txn
run-IsDurable_example = run-IsDurable opened first-IsDurable

start-commit_crash_example :
    (recovered : Engine) × (start empty sync_each none (take 40 (wal_file (commit open_txn)))
      ≡ some recovered)
    × (recovered.kv ≡ (
        if leb (length (wal_file (commit open_txn))) 40 then (commit open_txn).kv else open_txn.kv))
unfolding load_checkpoint write_op begin txn_put apply_committed_write Kv.put to_bytes
start-commit_crash_example =
    start-commit_crash (run-IsDurable opened first-IsDurable) empty 40 refl
      (unfold append_put in omega arith)

first-IsMirrored : IsMirrored first
unfolding IsAscending lookup for_each
first-IsMirrored = record {
  valid = empty-IsValid;
  ascending = tt;
  mirror = λ key. lookup-for_each empty-IsValid key;
}

Run-IsMirrored_example : IsMirrored open_txn
Run-IsMirrored_example = Run-IsMirrored opened first-IsMirrored

lookup-kv_range_sorted_example :
    IsAscending (kv_range_sorted first 0 9)
    × (lookup 7 (kv_range_sorted first 0 9) ≡ (if leb 0 7 && leb 7 9 then get first.kv 7 else none))
    × (lookup 7 (kv_range first 0 9) ≡ lookup 7 (kv_range_sorted first 0 9))
lookup-kv_range_sorted_example = lookup-kv_range_sorted 0 9 7 first-IsMirrored

-- a store with one entry
abbrev one_entry : KvStore
one_entry = (Kv.put empty 7 70).1

empty-get : (key : ℕ) → get empty key ≡ none
unfolding lookup for_each
empty-get key = sym (lookup-for_each empty-IsValid key)

load_checkpoint_restores_example :
    (restored : KvStore) × (load_checkpoint (some (save_checkpoint one_entry)) empty
      ≡ some restored)
    × ((key : ℕ) → get restored key ≡ get one_entry key)
unfolding for_each Kv.put AllWords capacity
load_checkpoint_restores_example =
    load_checkpoint_restores one_entry empty (put-IsValid empty-IsValid 7 70) (omega arith)
      ((omega arith, omega arith), tt) empty-IsValid refl empty-get (omega arith)
