-- ===== src/Batch/Tests.antt =====
-- A batch of three operations on two pages.
use matrixdb.Prelude.{
  ℕ, ◌≡◌, min, refl, none, false, List, [], ◌∷◌, length, length-replicate, replicate, take,
}
use matrixdb.Kv.{empty_slot}
use matrixdb.Engine.{Engine}
use matrixdb.Batch.{DatabaseQuery, batch_max, matrix_page_of, page_of_query, bin_by}
use matrixdb.Batch.Order.{Runs, of_key, execute_batch-Runs}

abbrev engine : Engine
engine = record {
  kv = record { mask = 3; size = 0; slots = replicate 4 empty_slot };
  key_index = [];
  cold_store = none;
  checkpoint_file = none;
  in_txn = false;
  txn_buf = [];
  reads = 0;
  writes = 0;
  commits = 0;
  store_overflows = 0;
  transactions_committed = 0;
  transactions_rolled_back = 0;
  checkpoints = 0;
}

abbrev operation : ℕ → ℕ → DatabaseQuery
operation opcode key = record {
  query_id = key;
  timestamp_us = 0;
  transaction_id = 0;
  opcode = opcode;
  payload_size = 0;
  payload = [];
}

abbrev batch : List DatabaseQuery
batch = operation 2 700 ∷ operation 1 7 ∷ operation 1 700 ∷ []

pages : matrix_page_of 700 ≡ 10
unfolding matrix_page_of
pages = refl

-- two pages, by the low bit
bins :
    bin_by (λ n. n) 2 (1 ∷ 0 ∷ 1 ∷ []) (9 ∷ 9 ∷ 9 ∷ 9 ∷ []) ≡ (0 ∷ 1 ∷ 1 ∷ 9 ∷ [], 0 ∷ 1 ∷ 3 ∷ [])
unfolding bin_by matrixdb.Batch.count_pages matrixdb.Batch.offsets_from matrixdb.Batch.scatter
bins = refl

execute_batch-Runs_example :
    (ops : List DatabaseQuery) × Runs batch (replicate batch_max (operation 0 0)) engine ops
    × ((key : ℕ) → of_key key ops ≡ of_key key (take batch_max batch))
    × (length ops ≡ min batch_max (length batch))
execute_batch-Runs_example =
    execute_batch-Runs batch (replicate batch_max (operation 0 0)) engine
      (length-replicate batch_max (operation 0 0))
