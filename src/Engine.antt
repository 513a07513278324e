-- ===== src/Engine.antt =====
-- The point-op side of `CPUMockEngine` (compute_mock.cpp): the store, its ordered index, the log, the
-- checkpoint file and the transactions. The asserts of the source (`begin` twice, `commit` without
-- `begin`) are compiled out, as in a release build; file calls are taken to succeed. The table that
-- the member `kv_` starts as is an argument, so that the theorems hold for every capacity.
pub mod Durable
pub mod Recover
pub mod Index
pub mod Snapshot
mod Tests
use matrixdb.Prelude.{
  ℕ, zero, suc, ◌+◌, ◌*◌, ◌%◌, ◌^◌, Bool, true, false, ◌&&◌, Option, none, some, List, [], ◌∷◌,
  ◌++◌, ltb, leb, ◌==◌, if◌then◌else◌,
}
use matrixdb.Prelude.Bytes.{to_bytes, of_bytes, split_exact}
use matrixdb.Kv.{KvStore, put, get, for_each}
use matrixdb.Wal.{
  SyncPolicy, ColdStore, new, append_put, append_txn_put, append_commit, truncate, replay,
}

pub record Engine : Type 0 where
  pub kv : KvStore
  pub key_index : List (ℕ × ℕ)
  pub cold_store : Option ColdStore
  pub checkpoint_file : Option (List ℕ)
  pub in_txn : Bool
  pub txn_buf : List (ℕ × ℕ)
  pub reads : ℕ
  pub writes : ℕ
  pub commits : ℕ
  pub store_overflows : ℕ
  pub transactions_committed : ℕ
  pub transactions_rolled_back : ℕ
  pub checkpoints : ℕ

abbrev pub count_up : ℕ → ℕ
count_up n = (n + 1) % 2 ^ 64

-- `key_index_[key] = value` on the ordered map, as the list of its pairs
unfoldable pub index_set : ℕ → ℕ → List (ℕ × ℕ) → List (ℕ × ℕ)
index_set key value [] = (key, value) ∷ []
index_set key value (p ∷ index) =
    let rest = index_set key value index in
    if ltb key p.0
    then (key, value) ∷ p ∷ index
    else if key == p.0
    then (key, value) ∷ index
    else p ∷ rest

unfoldable pub apply_committed_write : Engine → ℕ → ℕ → Engine
apply_committed_write e key value =
    let (done, kv) = put e.kv key value in
    if done
    then record e {
      kv = kv;
      key_index = index_set key value e.key_index;
      writes = count_up e.writes;
      commits = count_up e.commits;
    }
    else record e {
      kv = kv;
      writes = count_up e.writes;
      store_overflows = count_up e.store_overflows;
    }

unfoldable pub apply_all : Engine → List (ℕ × ℕ) → Engine
apply_all e [] = e
apply_all e (w ∷ ws) = apply_all (apply_committed_write e w.0 w.1) ws

unfoldable pub kv_get : Engine → ℕ → Option ℕ
kv_get e key = get e.kv key

unfoldable pub range_of : ℕ → ℕ → List (ℕ × ℕ) → List (ℕ × ℕ)
range_of lo hi [] = []
range_of lo hi (p ∷ ps) =
    let rest = range_of lo hi ps in if leb lo p.0 && leb p.0 hi then p ∷ rest else rest

unfoldable pub kv_range : Engine → ℕ → ℕ → List (ℕ × ℕ)
kv_range e lo hi = range_of lo hi (for_each e.kv)

-- `lower_bound`: from the first key that is not below `lo`
unfoldable pub lower_bound : ℕ → List (ℕ × ℕ) → List (ℕ × ℕ)
lower_bound lo [] = []
lower_bound lo (p ∷ index) =
    let rest = lower_bound lo index in if ltb p.0 lo then rest else p ∷ index

-- the walk up to the first key above `hi`
unfoldable pub up_to : ℕ → List (ℕ × ℕ) → List (ℕ × ℕ)
up_to hi [] = []
up_to hi (p ∷ index) = let rest = up_to hi index in if leb p.0 hi then p ∷ rest else []

unfoldable pub kv_range_sorted : Engine → ℕ → ℕ → List (ℕ × ℕ)
kv_range_sorted e lo hi = up_to hi (lower_bound lo e.key_index)

-- `OP_WRITE` of a batch: the log first, then the store; the value is the key.
unfoldable pub write_op : Engine → ℕ → Engine
write_op e query_id =
    let cold_store : Option ColdStore = elim e.cold_store [
      | none ↦ none
      | some s ↦ some (append_put s query_id query_id)
    ] in
    apply_committed_write (record e { cold_store = cold_store }) query_id query_id

-- `OP_READ` of a batch; a miss reads 0
unfoldable pub read_op : Engine → ℕ → ℕ × Engine
read_op e query_id =
    (elim (get e.kv query_id) [ none ↦ 0 | some v ↦ v ], record e { reads = count_up e.reads })

unfoldable pub begin : Engine → Engine
begin e = record e { txn_buf = []; in_txn = true }

unfoldable pub txn_put : Engine → ℕ → ℕ → Engine
txn_put e key value = record e { txn_buf = e.txn_buf ++ ((key, value) ∷ []) }

unfoldable pub log_writes : ColdStore → List (ℕ × ℕ) → ColdStore
log_writes s [] = s
log_writes s (w ∷ ws) = log_writes (append_txn_put s w.0 w.1) ws

unfoldable pub commit : Engine → Engine
commit e =
    let cold_store : Option ColdStore = elim e.cold_store [
      | none ↦ none
      | some s ↦ some (append_commit (log_writes s e.txn_buf))
    ] in
    let e' = apply_all (record e { cold_store = cold_store }) e.txn_buf in
    record e' {
      in_txn = false;
      transactions_committed = count_up e'.transactions_committed;
      txn_buf = [];
    }

unfoldable pub rollback : Engine → Engine
rollback e = record e {
  in_txn = false;
  transactions_rolled_back = count_up e.transactions_rolled_back;
  txn_buf = [];
}

abbrev pub ckpt_magic : ℕ
ckpt_magic = 0x4D434B50

unfoldable pub pairs_bytes : List (ℕ × ℕ) → List ℕ
pairs_bytes [] = []
pairs_bytes (p ∷ ps) = to_bytes 8 p.0 ++ (to_bytes 8 p.1 ++ pairs_bytes ps)

-- what `save_checkpoint` puts in the place of the file
unfoldable pub save_checkpoint : KvStore → List ℕ
save_checkpoint kv = to_bytes 4 ckpt_magic ++ (to_bytes 8 kv.size ++ pairs_bytes (for_each kv))

-- `none`: the file is short, and the source aborts
unfoldable pub load_pairs : ℕ → List ℕ → KvStore → Option KvStore
load_pairs zero bytes kv = some kv
load_pairs (suc count) bytes kv = elim (split_exact 8 bytes) [
  | none ↦ none
  | some (key, after) ↦ elim (split_exact 8 after) [
    | none ↦ none
    | some (value, rest) ↦ load_pairs count rest (put kv (of_bytes key) (of_bytes value)).1
  ]
]

unfoldable pub load_checkpoint : Option (List ℕ) → KvStore → Option KvStore
load_checkpoint none kv = some kv
load_checkpoint (some file) kv = elim (split_exact 4 file) [
  | none ↦ none
  | some (magic, after) ↦
      if of_bytes magic == ckpt_magic
      then elim (split_exact 8 after) [
        | none ↦ none
        | some (count, rest) ↦ load_pairs (of_bytes count) rest kv
      ]
      else none
]

unfoldable pub checkpoint : Engine → Engine
checkpoint e = elim e.cold_store [
  | none ↦ e
  | some s ↦ record e {
    checkpoint_file = some (save_checkpoint e.kv);
    cold_store = some (truncate s);
    checkpoints = count_up e.checkpoints;
  }
]

unfoldable pub shutdown : Engine → Engine
shutdown e = let e' = if e.in_txn then rollback e else e in checkpoint e'

unfoldable pub put_all : KvStore → List (ℕ × ℕ) → KvStore
put_all kv [] = kv
put_all kv (w ∷ ws) = put_all (put kv w.0 w.1).1 ws

unfoldable pub index_all : List (ℕ × ℕ) → List (ℕ × ℕ) → List (ℕ × ℕ)
index_all index [] = index
index_all index (p ∷ ps) = index_all (index_set p.0 p.1 index) ps

-- What the constructor leaves when the checkpoint has been loaded.
unfoldable pub started : SyncPolicy → Option (List ℕ) → List ℕ → KvStore → Engine
started policy checkpoint_file wal_file base =
    let s = new policy wal_file in
    let kv = put_all base (replay s) in
    record {
      kv = kv;
      key_index = index_all [] (for_each kv);
      cold_store = some s;
      checkpoint_file = checkpoint_file;
      in_txn = false;
      txn_buf = [];
      reads = 0;
      writes = 0;
      commits = 0;
      store_overflows = 0;
      transactions_committed = 0;
      transactions_rolled_back = 0;
      checkpoints = 0;
    }

-- The constructor with a log: the checkpoint, the log on top of it, the index. `none`: it aborts.
unfoldable pub start : KvStore → SyncPolicy → Option (List ℕ) → List ℕ → Option Engine
start fresh policy checkpoint_file wal_file = elim (load_checkpoint checkpoint_file fresh) [
  | none ↦ none
  | some base ↦ some (started policy checkpoint_file wal_file base)
]
