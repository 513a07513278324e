-- ===== src/Query/Shared.antt =====
-- `execute_query_shared` (compute_mock.cpp): the read path that runs under the shared lock. It
-- takes the engine as it is and gives results alone.
use matrixdb.Prelude.{
  ℕ, Bool, false, not, ◌&&◌, ◌||◌, Option, none, some, List, [], ◌∷◌, ltb, ◌==◌, if◌then◌else◌,
}
use matrixdb.Prelude.Maps.{find}
use matrixdb.Tier.{host, same_tier, Column}
use matrixdb.Catalog.{
  MatrixType, t_u32, t_i64, t_f64, same_type, Catalog, is_some, column_type, column_rows,
}
use matrixdb.Query.{
  MatrixQuery, Double, pred_u32, pred_i64, pred_f64, scan_u32, scan_i64, scan_f64, group_u32,
  group_i64, group_f64, filtered_result,
}
use matrixdb.Query.Execute.{when, cross_column}

pub data ReadOutcome : Type 0 where
  served : List ℕ → ReadOutcome
  needs_exclusive : ReadOutcome

abbrev pub in_memory : Option Column → Bool
in_memory none = false
in_memory (some c) = same_tier c.tier host

-- the bytes behind `host_ptr` of a column that is registered
abbrev pub bytes_of : Option Column → List ℕ
bytes_of none = []
bytes_of (some c) = c.bytes

module _ {T : Type 0} where
  unfoldable pub host_resident : ℕ → Catalog T → Bool
  host_resident id s = in_memory (find id s.columns)

  unfoldable pub column_bytes : ℕ → Catalog T → List ℕ
  column_bytes id s = bytes_of (find id s.columns)

module _ {F : Type 0} (dbl : Double F) where
  unfoldable pub scan_result : MatrixType → MatrixQuery → List ℕ → ℕ
  scan_result t_i64 q bytes = scan_i64 (pred_i64 q) q.agg q.has_filter bytes
  scan_result t_f64 q bytes = dbl.to_bits (scan_f64 dbl (pred_f64 dbl q) q.agg q.has_filter bytes)
  scan_result t_u32 q bytes = scan_u32 (pred_u32 q) q.agg q.has_filter bytes

  unfoldable pub group_result :
      MatrixType → MatrixQuery → Option (List ℕ) → List ℕ → List ℕ → List ℕ
  group_result t_i64 q nulls kb vb =
      group_i64 q.num_groups q.agg (when q.has_filter (pred_i64 q)) nulls kb vb
  group_result t_f64 q nulls kb vb =
      group_f64 dbl q.num_groups q.agg (when q.has_filter (pred_f64 dbl q)) nulls kb vb
  group_result t_u32 q nulls kb vb =
      group_u32 q.num_groups q.agg (when q.has_filter (pred_u32 q)) nulls kb vb

  module _ {T : Type 0} where
    unfoldable pub shared_cross : MatrixQuery → Catalog T → ReadOutcome
    shared_cross q s =
        if not (host_resident q.filter_col s) || not (same_type (column_type q.filter_col s) t_u32)
        then needs_exclusive
        else if not (column_rows q.filter_col s == column_rows q.value_col s)
        then needs_exclusive
        else served (
            filtered_result dbl (column_type q.value_col s) q (column_bytes q.filter_col s)
              (column_bytes q.value_col s)
            ∷ [])

    unfoldable pub shared_grouped : MatrixQuery → Catalog T → ReadOutcome
    shared_grouped q s =
        if not (host_resident q.key_col s)
          || (q.key_col == q.value_col)
          || (q.num_groups == 0)
          || ltb s.max_query_groups q.num_groups
          || not (same_type (column_type q.key_col s) t_u32)
          || not (column_rows q.key_col s == column_rows q.value_col s)
        then needs_exclusive
        else served (
            group_result (column_type q.value_col s) q none (column_bytes q.key_col s)
              (column_bytes q.value_col s))

    unfoldable pub execute_query_shared : MatrixQuery → Catalog T → ReadOutcome
    execute_query_shared q s =
        if not (host_resident q.value_col s) || is_some (find q.value_col s.null_masks)
        then needs_exclusive
        else if not q.grouped && cross_column q
        then shared_cross q s
        else if q.grouped && cross_column q
        then needs_exclusive
        else if q.grouped
        then shared_grouped q s
        else served (scan_result (column_type q.value_col s) q (column_bytes q.value_col s) ∷ [])
