-- ===== src/Query/Answer.antt =====
-- The checks and the kernels of `execute_query` (compute_mock.cpp) on the bytes, types and null flags of the catalog
-- alone: no tier, no borrowing and no rebalancing.
use matrixdb.Prelude.{
  ℕ, ◌/◌, ◌≡◌, true, leb, not, ◌&&◌, Option, none, some, List, [], ◌∷◌, length, if◌then◌else◌,
}
use matrixdb.Prelude.Maps.{find}
use matrixdb.Catalog.{
  MatrixType, t_u32, t_i64, t_f64, Catalog, catalog_has, column_type, column_rows, value_nulls,
}
use matrixdb.Query.{
  MatrixQuery, MatrixQueryStatus, status_ok, err_unknown_column, Double, nullable_result,
  filtered_result,
}
use matrixdb.Query.Execute.{
  cross_column, filtered_groups, check_cross, check_grouped_cross, check_grouped_wide,
  check_grouped_u32,
}
use matrixdb.Query.Shared.{column_bytes, scan_result, group_result}

unfoldable pub row_count : MatrixType → ℕ → ℕ
row_count t_u32 n = n / 4
row_count t_i64 n = n / 8
row_count t_f64 n = n / 8

abbrev pub judged : Option MatrixQueryStatus → List ℕ → MatrixQueryStatus × List ℕ
judged (some st) out = (st, [])
judged none out = (status_ok, out)

module _ {T : Type 0} where
  unfoldable pub check_grouped : MatrixType → MatrixQuery → Catalog T → Option MatrixQueryStatus
  check_grouped t_i64 q s = check_grouped_wide q s
  check_grouped t_f64 q s = check_grouped_wide q s
  check_grouped t_u32 q s = check_grouped_u32 q s

  -- Why a query is refused, if it is.
  unfoldable pub verdict : MatrixQuery → Catalog T → Option MatrixQueryStatus
  verdict q s =
      if not (catalog_has q.value_col s)
      then some err_unknown_column
      else if not q.grouped && cross_column q
      then check_cross q s
      else if q.grouped && cross_column q
      then check_grouped_cross q s
      else if q.grouped
      then check_grouped (column_type q.value_col s) q s
      else none

  -- The null flags of the value column, if it has any, cover its rows.
  unfoldable pub Covered : MatrixQuery → Catalog T → Type 0
  Covered q s =
      (nulls : List ℕ)
      → find q.value_col s.null_masks ≡ some nulls
      → leb (column_rows q.value_col s) (length nulls) ≡ true

  module _ {F : Type 0} (dbl : Double F) where
    -- without a filter on another column
    unfoldable pub plain_value : MatrixQuery → Catalog T → List ℕ
    plain_value q s =
        let t = column_type q.value_col s in
        let vb = column_bytes q.value_col s in
        if q.grouped
        then group_result dbl t q (value_nulls q.value_col (row_count t (length vb)) s)
            (column_bytes q.key_col s) vb
        else elim (find q.value_col s.null_masks) [
          | some nulls ↦ nullable_result dbl t q nulls vb ∷ []
          | none ↦ scan_result dbl t q vb ∷ []
        ]

    unfoldable pub value : MatrixQuery → Catalog T → List ℕ
    value q s =
        if not q.grouped && cross_column q
        then filtered_result dbl (column_type q.value_col s) q (column_bytes q.filter_col s)
            (column_bytes q.value_col s)
          ∷ []
        else if q.grouped && cross_column q
        then filtered_groups dbl (column_type q.value_col s) q (column_bytes q.key_col s)
            (column_bytes q.filter_col s) (column_bytes q.value_col s)
        else plain_value q s

    unfoldable pub answer : MatrixQuery → Catalog T → MatrixQueryStatus × List ℕ
    answer q s = judged (verdict q s) (value q s)
