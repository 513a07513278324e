-- ===== src/Query/Rows/Values.antt =====
-- What `execute_query` (compute_mock.cpp) computes against the rows that a query asks for: the five ways of a query at the three types.
use matrixdb.Prelude.{
  ℕ, ◌/◌, ◌≡◌, refl, ◌∙◌, inl, inr, true, false, Option, Option-cases, Bool-cases, none, some, List,
  [], ◌∷◌, length, map, arith,
}
use matrixdb.Prelude.Maps.{find}
use matrixdb.Reduce.{AggOp, u32, i64, Predicate}
use matrixdb.Reduce.Grouped.{group_reduce_impl}
use matrixdb.Catalog.{
  MatrixType, t_u32, t_i64, t_f64, Catalog, u32_values, i64_values, column_type, column_rows,
  size_bytes, value_nulls,
}
use matrixdb.Query.{
  MatrixQuery, Double, pred_u32, pred_i64, pred_f64, f64_values, group_u32, group_i64, group_f64,
  scan_u32, scan_i64, scan_f64, nullable_result, filtered_result,
}
use matrixdb.Query.Execute.{cross_column, filtered_groups}
use matrixdb.Query.Shared.{column_bytes, scan_result, group_result}
use matrixdb.Query.Answer.{Covered, value, plain_value, row_count}
use matrixdb.Tier.{Column}
use matrixdb.Catalog.{size_or_0}
use matrixdb.Query.Shared.{bytes_of}
use matrixdb.Query.Rows.{filters_other, entries, meaning, Flagged}
use matrixdb.Query.Rows.Kernels.{
  scan_aggregates, nullable_aggregates, other_aggregates, groups_tabulate, other_tabulate,
  grouped_aggregates, map_id,
}

rows_of :
    (t : MatrixType) (c : Option Column)
    → row_count t (length (bytes_of c)) ≡ size_or_0 c / elim t [ t_u32 ↦ 4 | t_i64 ↦ 8 | t_f64 ↦ 8 ]
unfolding row_count
rows_of t_u32 none = refl
rows_of t_i64 none = refl
rows_of t_f64 none = refl
rows_of t_u32 (some c) = refl
rows_of t_i64 (some c) = refl
rows_of t_f64 (some c) = refl

group_u32-impl :
    (n : ℕ) (op : AggOp) (f : Option (Predicate ℕ)) (nulls : Option (List ℕ)) (kb vb : List ℕ)
    → group_u32 n op f nulls kb vb
      ≡ group_reduce_impl u32 f (u32_values kb) (u32_values vb) n op nulls
unfolding group_u32
group_u32-impl n op none nulls kb vb = refl
group_u32-impl n op (some f) nulls kb vb = refl

group_i64-impl :
    (n : ℕ) (op : AggOp) (f : Option (Predicate ℕ)) (nulls : Option (List ℕ)) (kb vb : List ℕ)
    → group_i64 n op f nulls kb vb
      ≡ group_reduce_impl i64 f (u32_values kb) (i64_values vb) n op nulls
unfolding group_i64
group_i64-impl n op none nulls kb vb = refl
group_i64-impl n op (some f) nulls kb vb = refl

group_f64-impl :
    {F : Type 0} (dbl : Double F) (n : ℕ) (op : AggOp) (f : Option (Predicate F))
    (nulls : Option (List ℕ)) (kb vb : List ℕ)
    → group_f64 dbl n op f nulls kb vb
      ≡ map dbl.to_bits (group_reduce_impl dbl.num f (u32_values kb) (f64_values dbl vb) n op nulls)
unfolding group_f64
group_f64-impl dbl n op none nulls kb vb = refl
group_f64-impl dbl n op (some f) nulls kb vb = refl

module _ {T : Type 0} (q : MatrixQuery) (s : Catalog T) where
  pub Flagged-Covered : Flagged q s → Covered q s
  unfolding Flagged Covered
  Flagged-Covered f nulls e = ground (arith, f nulls e)

  row_count-column_rows :
      row_count (column_type q.value_col s) (length (column_bytes q.value_col s))
      ≡ column_rows q.value_col s
  unfolding column_bytes column_rows size_bytes
  row_count-column_rows = rows_of (column_type q.value_col s) (find q.value_col s.columns)

  value_nulls-find :
      Flagged q s
      → value_nulls q.value_col
          (row_count (column_type q.value_col s) (length (column_bytes q.value_col s)))
          s
        ≡ find q.value_col s.null_masks
  unfolding Flagged value_nulls
  value_nulls-find f = elim (Option-cases (find q.value_col s.null_masks)) [
    | inl e ↦ ground (arith, e)
    | inr (nulls, e) ↦ ground (arith, e, f nulls e, row_count-column_rows)
  ]

  module _ {F : Type 0} (dbl : Double F) where
    scan_meaning :
        (t : MatrixType)
        → q.grouped ≡ false
        → filters_other q s ≡ false
        → find q.value_col s.null_masks ≡ none
        → scan_result dbl t q (column_bytes q.value_col s) ∷ [] ≡ meaning q s dbl t
    unfolding scan_result scan_u32 scan_i64 scan_f64 meaning entries
    scan_meaning t_u32 g c m = scan_aggregates q s u32 (pred_u32 q) (λ n. n) _ g c m
    scan_meaning t_i64 g c m = scan_aggregates q s i64 (pred_i64 q) (λ n. n) _ g c m
    scan_meaning t_f64 g c m = scan_aggregates q s dbl.num (pred_f64 dbl q) dbl.to_bits _ g c m

    nullable_meaning :
        (t : MatrixType) (nulls : List ℕ)
        → q.grouped ≡ false
        → filters_other q s ≡ false
        → find q.value_col s.null_masks ≡ some nulls
        → nullable_result dbl t q nulls (column_bytes q.value_col s) ∷ [] ≡ meaning q s dbl t
    unfolding nullable_result meaning entries
    nullable_meaning t_u32 nulls g c m =
        nullable_aggregates q s u32 (pred_u32 q) (λ n. n) _ nulls g c m
    nullable_meaning t_i64 nulls g c m =
        nullable_aggregates q s i64 (pred_i64 q) (λ n. n) _ nulls g c m
    nullable_meaning t_f64 nulls g c m =
        nullable_aggregates q s dbl.num (pred_f64 dbl q) dbl.to_bits _ nulls g c m

    other_meaning :
        (t : MatrixType)
        → q.grouped ≡ false
        → filters_other q s ≡ true
        → q.has_filter ≡ true
        → filtered_result dbl t q (column_bytes q.filter_col s) (column_bytes q.value_col s) ∷ []
          ≡ meaning q s dbl t
    unfolding filtered_result meaning entries
    other_meaning t_u32 g c h = other_aggregates q s u32 (pred_u32 q) (λ n. n) _ g c h
    other_meaning t_i64 g c h = other_aggregates q s i64 (pred_i64 q) (λ n. n) _ g c h
    other_meaning t_f64 g c h = other_aggregates q s dbl.num (pred_f64 dbl q) dbl.to_bits _ g c h

    group_meaning :
        (t : MatrixType) (nulls : Option (List ℕ))
        → q.grouped ≡ true
        → filters_other q s ≡ false
        → find q.value_col s.null_masks ≡ nulls
        → group_result dbl t q nulls (column_bytes q.key_col s) (column_bytes q.value_col s)
          ≡ meaning q s dbl t
    unfolding group_result meaning entries
    group_meaning t_u32 nulls g c m =
        group_u32-impl q.num_groups q.agg _ nulls _ _
        ∙ map_id _
        ∙ grouped_aggregates q s u32 (pred_u32 q) (λ n. n) _ _ g
            (groups_tabulate q s u32 (pred_u32 q) (λ n. n) _ nulls c m)
    group_meaning t_i64 nulls g c m =
        group_i64-impl q.num_groups q.agg _ nulls _ _
        ∙ map_id _
        ∙ grouped_aggregates q s i64 (pred_i64 q) (λ n. n) _ _ g
            (groups_tabulate q s i64 (pred_i64 q) (λ n. n) _ nulls c m)
    group_meaning t_f64 nulls g c m =
        group_f64-impl dbl q.num_groups q.agg _ nulls _ _
        ∙ grouped_aggregates q s dbl.num (pred_f64 dbl q) dbl.to_bits _ _ g
            (groups_tabulate q s dbl.num (pred_f64 dbl q) dbl.to_bits _ nulls c m)

    other_groups_meaning :
        (t : MatrixType)
        → q.grouped ≡ true
        → filters_other q s ≡ true
        → q.has_filter ≡ true
        → filtered_groups dbl t q
            (column_bytes q.key_col s)
            (column_bytes q.filter_col s)
            (column_bytes q.value_col s)
          ≡ meaning q s dbl t
    unfolding filtered_groups meaning entries
    other_groups_meaning t_u32 g c h =
        map_id _
        ∙ grouped_aggregates q s u32 (pred_u32 q) (λ n. n) _ _ g
            (other_tabulate q s u32 (pred_u32 q) (λ n. n) _ c h)
    other_groups_meaning t_i64 g c h =
        map_id _
        ∙ grouped_aggregates q s i64 (pred_i64 q) (λ n. n) _ _ g
            (other_tabulate q s i64 (pred_i64 q) (λ n. n) _ c h)
    other_groups_meaning t_f64 g c h =
        grouped_aggregates q s dbl.num (pred_f64 dbl q) dbl.to_bits _ _ g
          (other_tabulate q s dbl.num (pred_f64 dbl q) dbl.to_bits _ c h)

    pub value-meaning : Flagged q s → value dbl q s ≡ meaning q s dbl (column_type q.value_col s)
    unfolding value plain_value cross_column filters_other
    value-meaning f = elim (Bool-cases q.grouped) [
      | inl g ↦ elim (Bool-cases (cross_column q)) [
        | inl c ↦ ground (arith, other_groups_meaning (column_type q.value_col s) g c)
        | inr c ↦ ground (
          arith,
          g,
          c,
          value_nulls-find f,
          group_meaning (column_type q.value_col s) (find q.value_col s.null_masks) g c refl,
        )
      ]
      | inr g ↦ elim (Bool-cases (cross_column q)) [
        | inl c ↦ ground (arith, other_meaning (column_type q.value_col s) g c)
        | inr c ↦ elim (Option-cases (find q.value_col s.null_masks)) [
          | inl m ↦ ground (arith, g, c, m, scan_meaning (column_type q.value_col s) g c m)
          | inr (nulls, m) ↦
              ground (arith, g, c, m, nullable_meaning (column_type q.value_col s) nulls g c m)
        ]
      ]
    ]
