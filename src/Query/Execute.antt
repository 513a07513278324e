-- ===== src/Query/Execute.antt =====
-- `execute_query` (compute_mock.cpp): what it rejects, in the order of its checks, and where it sends an
-- accepted query. The time that it takes, which the wrapper records, is not modelled.
use matrixdb.Prelude.{
  ℕ, Bool, not, ◌&&◌, ◌||◌, Option, none, some, List, [], ◌∷◌, ltb, ◌==◌, if◌then◌else◌, map,
}
use matrixdb.Prelude.Maps.{◌>>=◌, find}
use matrixdb.Reduce.Grouped.{
  matrix_cpu_group_reduce_filtered_by, matrix_cpu_group_reduce_filtered_by_i64,
  matrix_cpu_group_reduce_filtered_by_f64,
}
use matrixdb.Tier.{MemorySpace}
use matrixdb.Catalog.{
  MatrixType, t_u32, t_i64, t_f64, same_type, TierApi, Catalog, u32_values, i64_values, is_some,
  catalog_has, column_type, column_rows, size_bytes, heat, borrow, give_back, host_bytes,
  maybe_rebalance,
}
use matrixdb.Query.{
  MatrixQuery, MatrixQueryStatus, status_ok, err_unknown_column, err_invalid_group,
  err_too_many_groups, err_unsupported_type, Double, pred_u32, pred_i64, pred_f64, f64_values,
  scan_tiered_column, scan_tiered_column_i64, scan_tiered_column_f64, scalar_aggregate_nullable,
  scalar_cross_filter, grouped_aggregate, grouped_aggregate_pred, grouped_aggregate_i64,
  grouped_aggregate_f64,
}

-- what the query filters by, if it filters
unfoldable pub when : {A : Type 0} → Bool → A → Option A
when b a = if b then some a else none

-- a filter on another column than the one that is aggregated
unfoldable pub cross_column : MatrixQuery → Bool
cross_column q = q.has_filter && not (q.filter_col == 0) && not (q.filter_col == q.value_col)

module _ {F : Type 0} (dbl : Double F) where
  -- the three types of `grouped_cross_filter`: keys, filter, values
  unfoldable pub filtered_groups : MatrixType → MatrixQuery → List ℕ → List ℕ → List ℕ → List ℕ
  filtered_groups t_i64 q kb fb vb =
      matrix_cpu_group_reduce_filtered_by_i64 (u32_values kb) (u32_values fb) (pred_u32 q)
        (i64_values vb) q.num_groups q.agg
  filtered_groups t_f64 q kb fb vb = map dbl.to_bits (
      matrix_cpu_group_reduce_filtered_by_f64 dbl.num (u32_values kb) (u32_values fb) (pred_u32 q)
        (f64_values dbl vb) q.num_groups q.agg)
  filtered_groups t_u32 q kb fb vb =
      matrix_cpu_group_reduce_filtered_by (u32_values kb) (u32_values fb) (pred_u32 q)
        (u32_values vb) q.num_groups q.agg

module _ {T : Type 0} where
  unfoldable pub return_all : List (ℕ × MemorySpace) → Catalog T → Option (Catalog T)
  return_all [] s = some s
  return_all ((id, home) ∷ rest) s = give_back id home s >>= return_all rest

module _ {T : Type 0} (api : TierApi T) where
  -- A column that is borrowed already is not borrowed again; the last one borrowed stands first.
  unfoldable pub borrow_once :
      ℕ → List (ℕ × MemorySpace) → Catalog T → Option (List (ℕ × MemorySpace) × Catalog T)
  borrow_once id borrowed s = elim (find id borrowed) [
    | some home ↦ some (borrowed, s)
    | none ↦ heat api id s >>= λ s. borrow id s >>= λ lent. some ((id, lent.0) ∷ borrowed, lent.1)
  ]

  module _ {F : Type 0} (dbl : Double F) where
    unfoldable pub grouped_cross_filter : MatrixQuery → Catalog T → Option (List ℕ × Catalog T)
    grouped_cross_filter q s = do
      v ← borrow_once q.value_col [] s
      f ← borrow_once q.filter_col v.0 v.1
      k ← borrow_once q.key_col f.0 f.1
      kb ← host_bytes q.key_col k.1
      fb ← host_bytes q.filter_col k.1
      vb ← host_bytes q.value_col k.1
      let out = filtered_groups dbl (column_type q.value_col k.1) q kb fb vb
      s ← return_all k.0 k.1
      s ← maybe_rebalance api s
      some (out, s)

-- A result of `execute_query`: on a rejection `out` is empty.
abbrev pub Outcome : Type 0 → Type 0
Outcome T = Option ((MatrixQueryStatus × List ℕ) × Catalog T)

module _ {T : Type 0} where
  abbrev pub reject : MatrixQueryStatus → Catalog T → Outcome T
  reject st s = some ((st, []), s)

  abbrev pub answer_one : Option (ℕ × Catalog T) → Outcome T
  answer_one r = r >>= λ r. some ((status_ok, r.0 ∷ []), r.1)

  abbrev pub answer_all : Option (List ℕ × Catalog T) → Outcome T
  answer_all r = r >>= λ r. some ((status_ok, r.0), r.1)

  -- The checks of each kind of query; `none` lets it through.
  unfoldable pub check_cross : MatrixQuery → Catalog T → Option MatrixQueryStatus
  check_cross q s =
      if not (catalog_has q.filter_col s) || not (same_type (column_type q.filter_col s) t_u32)
      then some err_unsupported_type
      else if not (column_rows q.filter_col s == column_rows q.value_col s)
      then some err_invalid_group
      else none

  unfoldable pub check_grouped_cross : MatrixQuery → Catalog T → Option MatrixQueryStatus
  check_grouped_cross q s =
      if not (catalog_has q.key_col s) || (q.key_col == q.value_col) || (q.num_groups == 0)
      then some err_invalid_group
      else if not (same_type (column_type q.key_col s) t_u32)
      then some err_unsupported_type
      else if not (catalog_has q.filter_col s) || not (same_type (column_type q.filter_col s) t_u32)
      then some err_unsupported_type
      else if ltb s.max_query_groups q.num_groups
      then some err_too_many_groups
      else if not (column_rows q.key_col s == column_rows q.value_col s)
          || not (column_rows q.filter_col s == column_rows q.value_col s)
      then some err_invalid_group
      else none

  -- `int64_t` and `double` values: the type of the key comes first.
  unfoldable pub check_grouped_wide : MatrixQuery → Catalog T → Option MatrixQueryStatus
  check_grouped_wide q s =
      if catalog_has q.key_col s && not (same_type (column_type q.key_col s) t_u32)
      then some err_unsupported_type
      else if not (catalog_has q.key_col s)
          || (q.key_col == q.value_col)
          || (q.num_groups == 0)
          || not (column_rows q.key_col s == column_rows q.value_col s)
      then some err_invalid_group
      else if ltb s.max_query_groups q.num_groups
      then some err_too_many_groups
      else none

  unfoldable pub check_grouped_u32 : MatrixQuery → Catalog T → Option MatrixQueryStatus
  check_grouped_u32 q s =
      if not (catalog_has q.key_col s)
        || (q.key_col == q.value_col)
        || (q.num_groups == 0)
        || not (size_bytes q.key_col s == size_bytes q.value_col s)
      then some err_invalid_group
      else if not (same_type (column_type q.key_col s) t_u32)
      then some err_unsupported_type
      else if ltb s.max_query_groups q.num_groups
      then some err_too_many_groups
      else none

  -- A query that is refused leaves the catalog alone.
  abbrev pub unless : Option MatrixQueryStatus → Catalog T → Outcome T → Outcome T
  unless (some st) s k = reject st s
  unless none s k = k

module _ {F : Type 0} (dbl : Double F) {T : Type 0} (api : TierApi T) where
  unfoldable pub query_i64 : MatrixQuery → Catalog T → Outcome T
  query_i64 q s =
      if q.grouped
      then unless (check_grouped_wide q s) s (
          answer_all (
            grouped_aggregate_i64 dbl api q.key_col q.value_col q.num_groups q.agg
              (when q.has_filter (pred_i64 q)) s))
      else if is_some (find q.value_col s.null_masks)
      then answer_one (scalar_aggregate_nullable dbl api q s)
      else answer_one (scan_tiered_column_i64 dbl api q.value_col (pred_i64 q) q.agg q.has_filter s)

  unfoldable pub query_f64 : MatrixQuery → Catalog T → Outcome T
  query_f64 q s =
      if q.grouped
      then unless (check_grouped_wide q s) s (
          answer_all (
            grouped_aggregate_f64 dbl api q.key_col q.value_col q.num_groups q.agg
              (when q.has_filter (pred_f64 dbl q)) s))
      else if is_some (find q.value_col s.null_masks)
      then answer_one (scalar_aggregate_nullable dbl api q s)
      else answer_one (
          scan_tiered_column_f64 dbl api q.value_col (pred_f64 dbl q) q.agg q.has_filter s >>= λ r.
          some (dbl.to_bits r.0, r.1))

  unfoldable pub query_u32 : MatrixQuery → Catalog T → Outcome T
  query_u32 q s =
      if q.grouped
      then unless (check_grouped_u32 q s) s (
          answer_all (
            if q.has_filter
            then grouped_aggregate_pred dbl api q.key_col q.value_col q.num_groups q.agg
                (pred_u32 q) s
            else grouped_aggregate dbl api q.key_col q.value_col q.num_groups q.agg s))
      else if is_some (find q.value_col s.null_masks)
      then answer_one (scalar_aggregate_nullable dbl api q s)
      else answer_one (scan_tiered_column dbl api q.value_col (pred_u32 q) q.agg q.has_filter s)

  unfoldable pub query_typed : MatrixType → MatrixQuery → Catalog T → Outcome T
  query_typed t_i64 q s = query_i64 q s
  query_typed t_f64 q s = query_f64 q s
  query_typed t_u32 q s = query_u32 q s

  unfoldable pub execute_query_impl : MatrixQuery → Catalog T → Outcome T
  execute_query_impl q s =
      if not (catalog_has q.value_col s)
      then reject err_unknown_column s
      else if not q.grouped && cross_column q
      then unless (check_cross q s) s (answer_one (scalar_cross_filter dbl api q s))
      else if q.grouped && cross_column q
      then unless (check_grouped_cross q s) s (answer_all (grouped_cross_filter api dbl q s))
      else query_typed (column_type q.value_col s) q s

  unfoldable pub execute_query : MatrixQuery → Catalog T → Outcome T
  execute_query q s = execute_query_impl q s
