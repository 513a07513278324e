-- ===== src/Batch.antt =====
-- Batches of point operations: `matrix_page_of` and `matrix_bin_by_page` of compute.hpp, and
-- `execute_batch` of compute_mock.cpp. An array is a list; `binned_` is the buffer that the engine keeps.
pub mod Counts
pub mod Scatter
pub mod Bins
pub mod Order
mod Tests
use matrixdb.Prelude.{
  ℕ, zero, suc, ◌+◌, ◌-◌, ◌/◌, ◌%◌, ◌^◌, bit_and, min, Bool, true, false, Option, none, some, List,
  [], ◌∷◌, ◌++◌, length, get_elem?, get_or, set, take, replicate, leb, ltb, ◌==◌, if◌then◌else◌,
}
use matrixdb.Prelude.Bytes.{to_bytes, of_bytes}
use matrixdb.Wal.{op_write}
use matrixdb.Engine.{Engine, write_op, read_op}

pub record DatabaseQuery : Type 0 where
  pub query_id : ℕ
  pub timestamp_us : ℕ
  pub transaction_id : ℕ
  pub opcode : ℕ
  pub payload_size : ℕ
  pub payload : List ℕ

abbrev pub op_read : ℕ
op_read = 1

abbrev pub store_slots : ℕ
store_slots = 65536

abbrev pub page_count : ℕ
page_count = 1024

abbrev pub batch_max : ℕ
batch_max = 65536

unfoldable pub matrix_page_of : ℕ → ℕ
matrix_page_of key = bit_and key (store_slots - 1) / (store_slots / page_count)

module _ {A : Type 0} (page_of : A → ℕ) where
  -- the three loops of matrix_bin_by_page: the counts, the offsets, and the copies
  unfoldable pub count_pages : List A → List ℕ → List ℕ
  count_pages [] counts = counts
  count_pages (q ∷ qs) counts =
      count_pages qs (set counts (page_of q) ((get_or counts (page_of q) 0 + 1) % 2 ^ 32))

  unfoldable pub scatter : List A → List ℕ → List A → List A
  scatter [] cursor binned = binned
  scatter (q ∷ qs) cursor binned =
      let at = get_or cursor (page_of q) 0 in
      scatter qs (set cursor (page_of q) ((at + 1) % 2 ^ 32)) (set binned at q)

unfoldable pub offsets_from : ℕ → List ℕ → List ℕ
offsets_from at [] = at ∷ []
offsets_from at (c ∷ counts) = at ∷ offsets_from ((at + c) % 2 ^ 32) counts

-- `binned` and `offsets` behind the call
unfoldable pub bin_by : {A : Type 0} → (A → ℕ) → ℕ → List A → List A → List A × List ℕ
bin_by page_of pages batch binned =
    let counts = count_pages page_of batch (replicate pages 0) in
    let offsets = offsets_from 0 counts in
    (scatter page_of batch (take pages offsets) binned, offsets)

abbrev pub page_of_query : DatabaseQuery → ℕ
page_of_query q = matrix_page_of q.query_id

unfoldable pub matrix_bin_by_page :
    List DatabaseQuery → List DatabaseQuery → List DatabaseQuery × List ℕ
matrix_bin_by_page batch binned = bin_by page_of_query page_count batch binned

-- One query of a page; what it read is left in its `transaction_id`.
unfoldable pub run_op : DatabaseQuery → Engine → DatabaseQuery × Engine
run_op q e =
    if q.opcode == op_read
    then (let (v, e') = read_op e q.query_id in (record q { transaction_id = v }, e'))
    else if q.opcode == op_write
    then (q, write_op e q.query_id)
    else (q, e)

-- `left` more queries from the slot `j` on, in place
unfoldable pub run_from : ℕ → ℕ → List DatabaseQuery → Engine → List DatabaseQuery × Engine
run_from zero j binned e = (binned, e)
run_from (suc left) j binned e = elim (get_elem? binned j) [
  | none ↦ (binned, e)
  | some q ↦ let (q', e') = run_op q e in run_from left (j + 1) (set binned j q') e'
]

-- a page is what stands between two neighbouring offsets
unfoldable pub run_pages : List ℕ → List DatabaseQuery → Engine → List DatabaseQuery × Engine
run_pages [] binned e = (binned, e)
run_pages (from ∷ []) binned e = (binned, e)
run_pages (from ∷ to ∷ offsets) binned e =
    let (binned', e') = run_from (to - from) from binned e in run_pages (to ∷ offsets) binned' e'

-- `execute_batch`: the first `batch_max` queries at most.
unfoldable pub execute_batch :
    List DatabaseQuery → List DatabaseQuery → Engine → List DatabaseQuery × Engine
execute_batch [] binned e = (binned, e)
execute_batch (q ∷ qs) binned e =
    let (binned', offsets) = matrix_bin_by_page (take batch_max (q ∷ qs)) binned in
    run_pages offsets binned' e
