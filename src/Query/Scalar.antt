-- ===== src/Query/Scalar.antt =====
-- The scalar and the grouped queries of `execute_query` (compute_mock.cpp) whose filter, if any, is on the
-- aggregated column, and the scalar one with a filter on another column.
use matrixdb.Prelude.{
  ℕ, ◌/◌, ◌≡◌, inl, inr, refl, Bool, true, false, Option, none, some, List, [], ◌∷◌, length, leb,
  ◌==◌, if◌then◌else◌, arith, Option-cases, ==_iff,
}
use matrixdb.Prelude.Maps.{find}
use matrixdb.Reduce.{Predicate}
use matrixdb.Catalog.{
  MatrixType, t_u32, t_i64, t_f64, TierApi, Catalog, catalog_has, column_type, column_rows,
  size_bytes, value_nulls, read_two,
}
use matrixdb.Catalog.Borrow.{CpuTiers}
use matrixdb.Query.{
  MatrixQuery, status_ok, Double, nullable_result, filtered_result, pred_u32, scalar_cross_filter,
  scalar_aggregate_nullable, scan_tiered_column, scan_tiered_column_i64, scan_tiered_column_f64,
  grouped_aggregate_u32, grouped_aggregate, grouped_aggregate_pred, grouped_aggregate_i64,
  grouped_aggregate_f64, group_u32,
}
use matrixdb.Query.Execute.{
  cross_column, check_cross, check_grouped_wide, check_grouped_u32, unless, when, answer_one,
  query_i64, query_f64, query_u32, query_typed,
}
use matrixdb.Query.Shared.{column_bytes, scan_result, group_result}
use matrixdb.Query.Answer.{Covered, plain_value, judged, row_count, check_grouped}
use matrixdb.Query.Runs.{
  Executed, IsRunning, read_Executed, read_rebalance_Executed, map_Executed, unless-Executed,
  one_column, two_columns, if_true-Executed, if_false-Executed, out_true-Executed,
  out_false-Executed,
}

module _ {F : Type 0} (dbl : Double F) {T : Type 0} (api : TierApi T) (Safe : T → Type 0)
    (tiers : CpuTiers api Safe) (q : MatrixQuery) (s : Catalog T) (run : IsRunning Safe s) where
  pub cross_Executed :
      catalog_has q.value_col s ≡ true
      → cross_column q ≡ true
      → Executed Safe
          (unless (check_cross q s) s (answer_one (scalar_cross_filter dbl api q s)))
          (judged (check_cross q s) (
            filtered_result dbl
              (column_type q.value_col s)
              q
              (column_bytes q.filter_col s)
              (column_bytes q.value_col s)
            ∷ []))
          s
  unfolding scalar_cross_filter cross_column check_cross
  cross_Executed h c =
      unless-Executed api Safe tiers s (check_cross q s)
        (answer_one (scalar_cross_filter dbl api q s)) _ run
        λ e.
          map_Executed api Safe tiers s (scalar_cross_filter dbl api q s) _
            (λ r. (status_ok, r ∷ []))
            (read_rebalance_Executed api Safe tiers s _ _ run (
              two_columns api Safe tiers s q.filter_col q.value_col
                (filtered_result dbl (column_type q.value_col s) q) (ground arith) h (ground arith)
                run))

  nullable_Executed :
      (nulls : List ℕ)
      → catalog_has q.value_col s ≡ true
      → find q.value_col s.null_masks ≡ some nulls
      → leb (column_rows q.value_col s) (length nulls) ≡ true
      → Executed Safe
          (answer_one (scalar_aggregate_nullable dbl api q s))
          (
            status_ok,
            nullable_result dbl (column_type q.value_col s) q nulls (column_bytes q.value_col s)
                ∷ [],
          )
          s
  unfolding scalar_aggregate_nullable
  nullable_Executed nulls h e c =
      map_Executed api Safe tiers s (scalar_aggregate_nullable dbl api q s) _
        (λ r. (status_ok, r ∷ []))
        (rw (e, c)
          (read_rebalance_Executed api Safe tiers s _ _ run (
            one_column api Safe tiers s q.value_col
              (nullable_result dbl (column_type q.value_col s) q nulls) h run)))

  scan_Executed :
      (t : MatrixType)
      → catalog_has q.value_col s ≡ true
      → q.grouped ≡ false
      → find q.value_col s.null_masks ≡ none
      → Executed Safe
          (query_typed dbl api t q s)
          (status_ok, scan_result dbl t q (column_bytes q.value_col s) ∷ [])
          s
  unfolding query_typed query_i64 query_f64 query_u32 scan_result scan_tiered_column
      scan_tiered_column_i64 scan_tiered_column_f64
  scan_Executed t_u32 h g e = if_false-Executed api Safe tiers s q.grouped _ _ _ g (
      rw e (
        map_Executed api Safe tiers s _ _ (λ r. (status_ok, r ∷ []))
          (read_rebalance_Executed api Safe tiers s _ _ run
            (one_column api Safe tiers s q.value_col _ h run))))
  scan_Executed t_i64 h g e = if_false-Executed api Safe tiers s q.grouped _ _ _ g (
      rw e (
        map_Executed api Safe tiers s _ _ (λ r. (status_ok, r ∷ []))
          (read_rebalance_Executed api Safe tiers s _ _ run
            (one_column api Safe tiers s q.value_col _ h run))))
  scan_Executed t_f64 h g e = if_false-Executed api Safe tiers s q.grouped _ _ _ g (
      rw e (
        map_Executed api Safe tiers s _ _ (λ r. (status_ok, r ∷ []))
          (map_Executed api Safe tiers s _ _ dbl.to_bits (
            read_rebalance_Executed api Safe tiers s _ _ run
              (one_column api Safe tiers s q.value_col _ h run)))))

  masked_Executed :
      (t : MatrixType) (nulls : List ℕ)
      → catalog_has q.value_col s ≡ true
      → column_type q.value_col s ≡ t
      → q.grouped ≡ false
      → find q.value_col s.null_masks ≡ some nulls
      → leb (column_rows q.value_col s) (length nulls) ≡ true
      → Executed Safe
          (query_typed dbl api t q s)
          (
            status_ok,
            nullable_result dbl (column_type q.value_col s) q nulls (column_bytes q.value_col s)
                ∷ [],
          )
          s
  unfolding query_typed query_i64 query_f64 query_u32
  masked_Executed t_u32 nulls h ty g e c =
      if_false-Executed api Safe tiers s q.grouped _ _ _ g (rw e (nullable_Executed nulls h e c))
  masked_Executed t_i64 nulls h ty g e c =
      if_false-Executed api Safe tiers s q.grouped _ _ _ g (rw e (nullable_Executed nulls h e c))
  masked_Executed t_f64 nulls h ty g e c =
      if_false-Executed api Safe tiers s q.grouped _ _ _ g (rw e (nullable_Executed nulls h e c))

  pub scalar_Executed :
      (t : MatrixType)
      → catalog_has q.value_col s ≡ true
      → column_type q.value_col s ≡ t
      → q.grouped ≡ false
      → Covered q s
      → Executed Safe (query_typed dbl api t q s) (status_ok, plain_value dbl q s) s
  unfolding plain_value Covered
  scalar_Executed t h ty g cover = elim (Option-cases (find q.value_col s.null_masks)) [
    | inl e ↦
        out_false-Executed api Safe tiers s q.grouped _ (λ r. (status_ok, r)) _ _ g
          (rw (e, ty) (scan_Executed t h g e))
    | inr (nulls, e) ↦
        out_false-Executed api Safe tiers s q.grouped _ (λ r. (status_ok, r)) _ _ g
          (rw e (masked_Executed t nulls h ty g e (cover nulls e)))
  ]

  size_bytes-column_bytes : (id : ℕ) → size_bytes id s ≡ length (column_bytes id s)
  unfolding size_bytes column_bytes
  size_bytes-column_bytes id = elim (Option-cases (find id s.columns)) [
    | inl e ↦ rw e refl
    | inr (c, e) ↦ rw e refl
  ]

  grouped_u32 :
      (p : Option (Predicate ℕ))
      → catalog_has q.key_col s ≡ true
      → catalog_has q.value_col s ≡ true
      → (q.key_col == q.value_col) ≡ false
      → (size_bytes q.key_col s == size_bytes q.value_col s) ≡ true
      → Executed Safe
          (grouped_aggregate_u32 dbl api q.key_col q.value_col q.num_groups q.agg p s)
          (group_u32 q.num_groups q.agg p
            (value_nulls q.value_col (length (column_bytes q.value_col s) / 4) s)
            (column_bytes q.key_col s)
            (column_bytes q.value_col s))
          s
  unfolding grouped_aggregate_u32
  grouped_u32 p hk h n e =
      rw
        (
          n,
          e,
          (==_iff (size_bytes q.key_col s) (size_bytes q.value_col s)).0 e,
          size_bytes-column_bytes q.value_col,
        )
        (read_Executed api Safe tiers s _ _ run
          (two_columns api Safe tiers s q.key_col q.value_col _ hk h n run))

  grouped_u32_if :
      (b : Bool)
      → catalog_has q.key_col s ≡ true
      → catalog_has q.value_col s ≡ true
      → (q.key_col == q.value_col) ≡ false
      → (size_bytes q.key_col s == size_bytes q.value_col s) ≡ true
      → Executed Safe
          (if b
            then grouped_aggregate_pred dbl api q.key_col q.value_col q.num_groups q.agg
                (pred_u32 q)
                s
            else grouped_aggregate dbl api q.key_col q.value_col q.num_groups q.agg s)
          (group_u32 q.num_groups q.agg
            (when b (pred_u32 q))
            (value_nulls q.value_col (length (column_bytes q.value_col s) / 4) s)
            (column_bytes q.key_col s)
            (column_bytes q.value_col s))
          s
  unfolding grouped_aggregate_pred grouped_aggregate when
  grouped_u32_if true hk h n e = grouped_u32 (some (pred_u32 q)) hk h n e
  grouped_u32_if false hk h n e = grouped_u32 none hk h n e

  grouped_wide :
      (f : Option (List ℕ) → List ℕ → List ℕ → List ℕ)
      → catalog_has q.key_col s ≡ true
      → catalog_has q.value_col s ≡ true
      → (q.key_col == q.value_col) ≡ false
      → Executed Safe
          (read_two api q.key_col q.value_col
            (f (value_nulls q.value_col (size_bytes q.value_col s / 8) s))
            s)
          (f
            (value_nulls q.value_col (length (column_bytes q.value_col s) / 8) s)
            (column_bytes q.key_col s)
            (column_bytes q.value_col s))
          s
  grouped_wide f hk h n = rw (size_bytes-column_bytes q.value_col) (
      read_Executed api Safe tiers s _ _ run
        (two_columns api Safe tiers s q.key_col q.value_col _ hk h n run))

  wide_facts :
      check_grouped_wide q s ≡ none
      → (catalog_has q.key_col s ≡ true) × ((q.key_col == q.value_col) ≡ false)
  unfolding check_grouped_wide
  wide_facts e = ground arith

  u32_facts :
      check_grouped_u32 q s ≡ none
      → (catalog_has q.key_col s ≡ true)
        × ((q.key_col == q.value_col) ≡ false)
        × ((size_bytes q.key_col s == size_bytes q.value_col s) ≡ true)
  unfolding check_grouped_u32
  u32_facts e = ground arith

  pub grouped_Executed :
      (t : MatrixType)
      → catalog_has q.value_col s ≡ true
      → column_type q.value_col s ≡ t
      → q.grouped ≡ true
      → Executed Safe
          (query_typed dbl api t q s)
          (judged (check_grouped t q s) (plain_value dbl q s))
          s
  unfolding plain_value query_typed query_i64 query_f64 query_u32 check_grouped group_result
      row_count when grouped_aggregate_i64 grouped_aggregate_f64
  grouped_Executed t_i64 h ty g =
      out_true-Executed api Safe tiers s q.grouped _ (judged (check_grouped_wide q s)) _ _ g (
        if_true-Executed api Safe tiers s q.grouped _ _ _ g (
          rw ty (
            unless-Executed api Safe tiers s (check_grouped_wide q s) _ _ run λ e.
              map_Executed api Safe tiers s _ _ (λ r. (status_ok, r))
                (let (hk, n) = wide_facts e in grouped_wide (group_result dbl t_i64 q) hk h n))))
  grouped_Executed t_f64 h ty g =
      out_true-Executed api Safe tiers s q.grouped _ (judged (check_grouped_wide q s)) _ _ g (
        if_true-Executed api Safe tiers s q.grouped _ _ _ g (
          rw ty (
            unless-Executed api Safe tiers s (check_grouped_wide q s) _ _ run λ e.
              map_Executed api Safe tiers s _ _ (λ r. (status_ok, r))
                (let (hk, n) = wide_facts e in grouped_wide (group_result dbl t_f64 q) hk h n))))
  grouped_Executed t_u32 h ty g =
      out_true-Executed api Safe tiers s q.grouped _ (judged (check_grouped_u32 q s)) _ _ g (
        if_true-Executed api Safe tiers s q.grouped _ _ _ g (
          rw ty (
            unless-Executed api Safe tiers s (check_grouped_u32 q s) _ _ run λ e.
              map_Executed api Safe tiers s _ _ (λ r. (status_ok, r))
                (let (hk, n, z) = u32_facts e in grouped_u32_if q.has_filter hk h n z))))
