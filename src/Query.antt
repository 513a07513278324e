-- ===== src/Query.antt =====
-- Queries over the catalog (compute_mock.cpp), from `MatrixQuery` (compute.hpp) to the scans and the grouped
-- aggregates, in the build without CUDA. A `double` crosses as its 64-bit word; its arithmetic and the two
-- conversions are a parameter.
pub mod Execute
pub mod Growth
pub mod Shared
pub mod Answer
pub mod Runs
pub mod Scalar
pub mod Cross
pub mod Correct
pub mod Concurrent
pub mod Rows
pub mod Meaning
mod Tests
pub mod Joins
pub mod Project
pub mod Selected
pub mod Pairs
use matrixdb.Prelude.{
  ℕ, zero, suc, ◌+◌, ◌*◌, ◌/◌, ◌%◌, ◌^◌, Bool, true, false, not, ◌&&◌, ◌||◌, Option, none, some,
  List, [], ◌∷◌, ◌++◌, length, leb, ltb, ◌==◌, if◌then◌else◌, map,
}
use matrixdb.Prelude.Maps.{◌>>=◌, ◌>>◌, guard, find}
use matrixdb.Reduce.{
  AggOp, MatrixCmp, gt, Num, Predicate, matrix_cpu_reduce_all, matrix_cpu_reduce_pred,
  matrix_cpu_reduce_all_i64, matrix_cpu_reduce_pred_i64, matrix_cpu_reduce_all_f64,
  matrix_cpu_reduce_pred_f64, matrix_cpu_reduce_all_nullable, matrix_cpu_reduce_all_i64_nullable,
  matrix_cpu_reduce_all_f64_nullable, matrix_cpu_reduce_filtered_by,
  matrix_cpu_reduce_filtered_by_i64, matrix_cpu_reduce_filtered_by_f64,
}
use matrixdb.Reduce.Grouped.{
  matrix_cpu_group_reduce, matrix_cpu_group_reduce_pred, matrix_cpu_group_reduce_i64,
  matrix_cpu_group_reduce_i64_pred, matrix_cpu_group_reduce_f64, matrix_cpu_group_reduce_f64_pred,
}
use matrixdb.Catalog.{
  MatrixType, t_u32, t_i64, t_f64, TierApi, Catalog, u32_values, i64_values, column_type,
  column_rows, value_nulls, size_bytes, read_one, read_two, maybe_rebalance,
}

pub record MatrixQuery : Type 0 where
  pub value_col : ℕ
  pub agg : AggOp
  pub has_filter : Bool
  pub threshold : ℕ
  pub cmp : MatrixCmp
  pub upper : ℕ
  pub lo_i64 : ℕ
  pub hi_i64 : ℕ
  pub lo_f64 : ℕ
  pub hi_f64 : ℕ
  pub grouped : Bool
  pub key_col : ℕ
  pub num_groups : ℕ
  pub limit : ℕ
  pub filter_col : ℕ

pub data MatrixQueryStatus : Type 0 where
  status_ok err_unknown_column err_invalid_group err_too_many_groups : MatrixQueryStatus
  err_unsupported_type err_parse : MatrixQueryStatus

-- `double`: its arithmetic and `matrix_bit_cast`
pub record Double (F : Type 0) : Type 0 where
  pub num : Num F
  pub to_bits : F → ℕ
  pub of_bits : ℕ → F

unfoldable pub pred_u32 : MatrixQuery → Predicate ℕ
pred_u32 q = record { cmp = q.cmp; a = q.threshold; b = q.upper }

unfoldable pub pred_i64 : MatrixQuery → Predicate ℕ
pred_i64 q = record { cmp = q.cmp; a = q.lo_i64; b = q.hi_i64 }

-- The reductions of one borrowed column.
unfoldable pub scan_u32 : Predicate ℕ → AggOp → Bool → List ℕ → ℕ
scan_u32 pred op has_filter bytes =
    let vals = u32_values bytes in
    if has_filter then matrix_cpu_reduce_pred vals pred op none else matrix_cpu_reduce_all vals op

unfoldable pub scan_i64 : Predicate ℕ → AggOp → Bool → List ℕ → ℕ
scan_i64 pred op has_filter bytes =
    let vals = i64_values bytes in
    if has_filter
    then matrix_cpu_reduce_pred_i64 vals pred op none
    else matrix_cpu_reduce_all_i64 vals op

unfoldable pub group_u32 :
    ℕ → AggOp → Option (Predicate ℕ) → Option (List ℕ) → List ℕ → List ℕ → List ℕ
group_u32 num_groups op none nulls kb vb =
    matrix_cpu_group_reduce (u32_values kb) (u32_values vb) num_groups op nulls
group_u32 num_groups op (some pred) nulls kb vb =
    matrix_cpu_group_reduce_pred (u32_values kb) (u32_values vb) num_groups op pred nulls

unfoldable pub group_i64 :
    ℕ → AggOp → Option (Predicate ℕ) → Option (List ℕ) → List ℕ → List ℕ → List ℕ
group_i64 num_groups op none nulls kb vb =
    matrix_cpu_group_reduce_i64 (u32_values kb) (i64_values vb) num_groups op nulls
group_i64 num_groups op (some pred) nulls kb vb =
    matrix_cpu_group_reduce_i64_pred (u32_values kb) (i64_values vb) num_groups op pred nulls

module _ {F : Type 0} (dbl : Double F) where
  unfoldable pub f64_values : List ℕ → List F
  f64_values bytes = map dbl.of_bits (i64_values bytes)

  unfoldable pub pred_f64 : MatrixQuery → Predicate F
  pred_f64 q = record { cmp = q.cmp; a = dbl.of_bits q.lo_f64; b = dbl.of_bits q.hi_f64 }

  unfoldable pub scan_f64 : Predicate F → AggOp → Bool → List ℕ → F
  scan_f64 pred op has_filter bytes =
      let vals = f64_values bytes in
      if has_filter
      then matrix_cpu_reduce_pred_f64 dbl.num vals pred op none
      else matrix_cpu_reduce_all_f64 dbl.num vals op

  unfoldable pub group_f64 :
      ℕ → AggOp → Option (Predicate F) → Option (List ℕ) → List ℕ → List ℕ → List ℕ
  group_f64 num_groups op none nulls kb vb =
      map dbl.to_bits
        (matrix_cpu_group_reduce_f64 dbl.num (u32_values kb) (f64_values vb) num_groups op nulls)
  group_f64 num_groups op (some pred) nulls kb vb = map dbl.to_bits (
      matrix_cpu_group_reduce_f64_pred dbl.num (u32_values kb) (f64_values vb) num_groups op pred
        nulls)

  -- the three types of `scalar_aggregate_nullable`
  unfoldable pub nullable_result : MatrixType → MatrixQuery → List ℕ → List ℕ → ℕ
  nullable_result t_i64 q nulls bytes =
      if q.has_filter
      then matrix_cpu_reduce_pred_i64 (i64_values bytes) (pred_i64 q) q.agg (some nulls)
      else matrix_cpu_reduce_all_i64_nullable (i64_values bytes) q.agg nulls
  nullable_result t_f64 q nulls bytes = dbl.to_bits (
      if q.has_filter
      then matrix_cpu_reduce_pred_f64 dbl.num (f64_values bytes) (pred_f64 q) q.agg (some nulls)
      else matrix_cpu_reduce_all_f64_nullable dbl.num (f64_values bytes) q.agg nulls)
  nullable_result t_u32 q nulls bytes =
      if q.has_filter
      then matrix_cpu_reduce_pred (u32_values bytes) (pred_u32 q) q.agg (some nulls)
      else matrix_cpu_reduce_all_nullable (u32_values bytes) q.agg nulls

  -- `f` is the filter column, read as `uint32_t`.
  unfoldable pub filtered_result : MatrixType → MatrixQuery → List ℕ → List ℕ → ℕ
  filtered_result t_i64 q f bytes =
      matrix_cpu_reduce_filtered_by_i64 (u32_values f) (pred_u32 q) (i64_values bytes) q.agg
  filtered_result t_f64 q f bytes = dbl.to_bits (
      matrix_cpu_reduce_filtered_by_f64 dbl.num (u32_values f) (pred_u32 q) (f64_values bytes)
        q.agg)
  filtered_result t_u32 q f bytes =
      matrix_cpu_reduce_filtered_by (u32_values f) (pred_u32 q) (u32_values bytes) q.agg

  module _ {T : Type 0} (api : TierApi T) where
    unfoldable pub scan_tiered_column :
        ℕ → Predicate ℕ → AggOp → Bool → Catalog T → Option (ℕ × Catalog T)
    scan_tiered_column id pred op has_filter s = do
      r ← read_one api id (scan_u32 pred op has_filter) s
      s ← maybe_rebalance api r.1
      some (r.0, s)

    unfoldable pub scan_tiered_column_i64 :
        ℕ → Predicate ℕ → AggOp → Bool → Catalog T → Option (ℕ × Catalog T)
    scan_tiered_column_i64 id pred op has_filter s = do
      r ← read_one api id (scan_i64 pred op has_filter) s
      s ← maybe_rebalance api r.1
      some (r.0, s)

    unfoldable pub scan_tiered_column_f64 :
        ℕ → Predicate F → AggOp → Bool → Catalog T → Option (F × Catalog T)
    scan_tiered_column_f64 id pred op has_filter s = do
      r ← read_one api id (scan_f64 pred op has_filter) s
      s ← maybe_rebalance api r.1
      some (r.0, s)

    -- A mask that ends before the column is read past its end, which has no defined result: `none`.
    unfoldable pub scalar_aggregate_nullable : MatrixQuery → Catalog T → Option (ℕ × Catalog T)
    scalar_aggregate_nullable q s = do
      nulls ← find q.value_col s.null_masks
      guard (leb (column_rows q.value_col s) (length nulls))
      r ← read_one api q.value_col (nullable_result (column_type q.value_col s) q nulls) s
      s ← maybe_rebalance api r.1
      some (r.0, s)

    unfoldable pub scalar_cross_filter : MatrixQuery → Catalog T → Option (ℕ × Catalog T)
    scalar_cross_filter q s = do
      r ← read_two api q.filter_col q.value_col (filtered_result (column_type q.value_col s) q) s
      s ← maybe_rebalance api r.1
      some (r.0, s)

    -- The grouped aggregates, with the filter on (`some pred`) or off; they do not rebalance.
    unfoldable pub grouped_aggregate_u32 :
        ℕ → ℕ → ℕ → AggOp → Option (Predicate ℕ) → Catalog T → Option (List ℕ × Catalog T)
    grouped_aggregate_u32 key_id value_id num_groups op pred s = do
      guard (not (key_id == value_id))
      guard (size_bytes key_id s == size_bytes value_id s)
      let nulls = value_nulls value_id (size_bytes key_id s / 4) s
      read_two api key_id value_id (group_u32 num_groups op pred nulls) s

    unfoldable pub grouped_aggregate : ℕ → ℕ → ℕ → AggOp → Catalog T → Option (List ℕ × Catalog T)
    grouped_aggregate key_id value_id num_groups op s =
        grouped_aggregate_u32 key_id value_id num_groups op none s

    unfoldable pub grouped_aggregate_pred :
        ℕ → ℕ → ℕ → AggOp → Predicate ℕ → Catalog T → Option (List ℕ × Catalog T)
    grouped_aggregate_pred key_id value_id num_groups op pred s =
        grouped_aggregate_u32 key_id value_id num_groups op (some pred) s

    unfoldable pub grouped_aggregate_where :
        ℕ → ℕ → ℕ → AggOp → ℕ → Catalog T → Option (List ℕ × Catalog T)
    grouped_aggregate_where key_id value_id num_groups op threshold s =
        grouped_aggregate_pred key_id value_id num_groups op
          (record { cmp = gt; a = threshold; b = 0 }) s

    unfoldable pub grouped_aggregate_i64 :
        ℕ → ℕ → ℕ → AggOp → Option (Predicate ℕ) → Catalog T → Option (List ℕ × Catalog T)
    grouped_aggregate_i64 key_id value_id num_groups op pred s =
        let nulls = value_nulls value_id (size_bytes value_id s / 8) s in
        read_two api key_id value_id (group_i64 num_groups op pred nulls) s

    unfoldable pub grouped_aggregate_f64 :
        ℕ → ℕ → ℕ → AggOp → Option (Predicate F) → Catalog T → Option (List ℕ × Catalog T)
    grouped_aggregate_f64 key_id value_id num_groups op pred s =
        let nulls = value_nulls value_id (size_bytes value_id s / 8) s in
        read_two api key_id value_id (group_f64 num_groups op pred nulls) s
