-- ===== src/Query/Meaning.antt =====
-- `execute_query` (compute_mock.cpp): which queries it answers and with what, and why it refuses the others, told by the
-- columns alone.
use matrixdb.Prelude.{
  ℕ, ◌≡◌, refl, inl, inr, Bool, true, false, not, ◌&&◌, ◌||◌, Option, Option-cases, Bool-cases,
  none, some, [], leb, ltb, ◌==◌, arith, ap₂, subst,
}
use matrixdb.Catalog.{
  MatrixType, t_u32, t_i64, t_f64, same_type, TierApi, Catalog, catalog_has, column_type,
  column_rows, size_bytes,
}
use matrixdb.Catalog.Borrow.{CpuTiers}
use matrixdb.Query.{
  MatrixQuery, MatrixQueryStatus, status_ok, err_unknown_column, err_invalid_group,
  err_too_many_groups, err_unsupported_type, err_parse, Double,
}
use matrixdb.Query.Execute.{
  cross_column, check_cross, check_grouped_cross, check_grouped_wide, check_grouped_u32,
  execute_query, execute_query_impl, query_typed, query_i64, query_f64, query_u32,
}
use matrixdb.Query.Answer.{verdict, check_grouped, answer, judged}
use matrixdb.Query.Rows.{filters_other, meaning, Flagged}
use matrixdb.Query.Rows.Values.{Flagged-Covered, value-meaning}
use matrixdb.Query.Runs.{Executed, IsRunning}
use matrixdb.Query.Correct.{execute_query-answer}
use matrixdb.Query.Concurrent.{IsAligned}

same_type_u32 : (t : MatrixType) → same_type t t_u32 ≡ true → t ≡ t_u32
same_type_u32 t_u32 h = refl
same_type_u32 t_i64 h = absurd (ground arith)
same_type_u32 t_f64 h = absurd (ground arith)

module _ {T : Type 0} (q : MatrixQuery) (s : Catalog T) where
  unfoldable pub is_u32 : ℕ → Bool
  is_u32 id = catalog_has id s && same_type (column_type id s) t_u32

  -- as many rows as the value column
  unfoldable pub as_long : ℕ → Bool
  as_long id = column_rows id s == column_rows q.value_col s

  -- The filter is on the value column, or on a `uint32_t` column of as many rows.
  unfoldable pub filter_fits : Bool
  filter_fits = not (filters_other q s) || (is_u32 q.filter_col && as_long q.filter_col)

  -- The key is another column, of `uint32_t` and as many rows, and the number of groups is allowed.
  unfoldable pub groups_fit : Bool
  groups_fit =
      not q.grouped
      || (is_u32 q.key_col
          && not (q.key_col == q.value_col)
          && as_long q.key_col
          && not (q.num_groups == 0)
          && leb q.num_groups s.max_query_groups)

  unfoldable pub well_formed : Bool
  well_formed = catalog_has q.value_col s && filter_fits && groups_fit

  -- What each status says of the query.
  unfoldable pub explains : MatrixQueryStatus → Bool
  explains status_ok = well_formed
  explains err_unknown_column = not (catalog_has q.value_col s)
  explains err_too_many_groups = q.grouped && ltb s.max_query_groups q.num_groups
  explains err_unsupported_type =
      (q.grouped && not (is_u32 q.key_col)) || (filters_other q s && not (is_u32 q.filter_col))
  explains err_invalid_group =
      (q.grouped
        && (not (is_u32 q.key_col)
            || (q.key_col == q.value_col)
            || (q.num_groups == 0)
            || not (as_long q.key_col)))
      || (filters_other q s && not (as_long q.filter_col))
  explains err_parse = false

  -- A query is let through if it is well formed, and refused with a status that explains it if it is not.
  unfoldable fair : Option MatrixQueryStatus → Bool
  fair none = well_formed
  fair (some st) = explains st && not well_formed

  -- Columns of whole rows and 4 bytes each are equally long if they have as many rows.
  rows_u32 :
      IsAligned s
      → column_type q.value_col s ≡ t_u32
      → column_type q.key_col s ≡ t_u32
      → (size_bytes q.key_col s == size_bytes q.value_col s) ≡ as_long q.key_col
  unfolding as_long column_rows
  rows_u32 a v k = rw (v, k) (ground (arith, a.whole_rows q.key_col, a.whole_rows q.value_col))

  module _ (has : catalog_has q.value_col s ≡ true) where
    cross_fair : q.grouped ≡ false → filters_other q s ≡ true → fair (check_cross q s) ≡ true
    unfolding check_cross fair explains well_formed filter_fits groups_fit is_u32 as_long
    cross_fair g c = ground (arith, has)

    grouped_cross_fair :
        q.grouped ≡ true → filters_other q s ≡ true → fair (check_grouped_cross q s) ≡ true
    unfolding check_grouped_cross fair explains well_formed filter_fits groups_fit is_u32 as_long
    grouped_cross_fair g c = ground (arith, has)

    wide_fair : q.grouped ≡ true → filters_other q s ≡ false → fair (check_grouped_wide q s) ≡ true
    unfolding check_grouped_wide fair explains well_formed filter_fits groups_fit is_u32 as_long
    wide_fair g c = ground (arith, has)

    u32_fair :
        IsAligned s
        → column_type q.value_col s ≡ t_u32
        → q.grouped ≡ true
        → filters_other q s ≡ false
        → fair (check_grouped_u32 q s) ≡ true
    unfolding check_grouped_u32 fair explains well_formed filter_fits groups_fit is_u32
    u32_fair a ty g c = elim (Bool-cases (same_type (column_type q.key_col s) t_u32)) [
      | inl k ↦ ground (arith, has, rows_u32 a ty (same_type_u32 (column_type q.key_col s) k))
      | inr k ↦ ground (arith, has)
    ]

    grouped_fair :
        IsAligned s
        → (t : MatrixType) → column_type q.value_col s ≡ t
        → q.grouped ≡ true
        → filters_other q s ≡ false
        → fair (check_grouped t q s) ≡ true
    unfolding check_grouped
    grouped_fair a t_i64 ty g c = wide_fair g c
    grouped_fair a t_f64 ty g c = wide_fair g c
    grouped_fair a t_u32 ty g c = u32_fair a ty g c

    scalar_fair : q.grouped ≡ false → filters_other q s ≡ false → well_formed ≡ true
    unfolding well_formed filter_fits groups_fit
    scalar_fair g c = ground (arith, has)

  verdict-fair : IsAligned s → fair (verdict q s) ≡ true
  unfolding verdict cross_column filters_other fair explains well_formed
  verdict-fair a = elim (Bool-cases (catalog_has q.value_col s)) [
    | inr n ↦ ground arith
    | inl has ↦ elim (Bool-cases q.grouped) [
      | inl g ↦ elim (Bool-cases (cross_column q)) [
        | inl c ↦ ground (arith, grouped_cross_fair has g c)
        | inr c ↦ ground (arith, grouped_fair has a (column_type q.value_col s) refl g c)
      ]
      | inr g ↦ elim (Bool-cases (cross_column q)) [
        | inl c ↦ ground (arith, cross_fair has g c)
        | inr c ↦ ground (arith, scalar_fair has g c)
      ]
    ]
  ]

  well_formed-verdict : IsAligned s → well_formed ≡ true → verdict q s ≡ none
  unfolding fair
  well_formed-verdict a w = elim (Option-cases (verdict q s)) [
    | inl e ↦ e
    | inr (st, e) ↦ absurd (ground (arith, verdict-fair a))
  ]

  refused_verdict :
      IsAligned s
      → well_formed ≡ false
      → (st : MatrixQueryStatus) × (verdict q s ≡ some st) × (explains st ≡ true)
  unfolding fair
  refused_verdict a w = elim (Option-cases (verdict q s)) [
    | inl e ↦ absurd (ground (arith, verdict-fair a))
    | inr (st, e) ↦ (st, e, ground (arith, verdict-fair a))
  ]

module _ {F : Type 0} (dbl : Double F) {T : Type 0} (api : TierApi T) (q : MatrixQuery)
    (s : Catalog T) where
  execute_query-verdict :
      (st : MatrixQueryStatus)
      → verdict q s ≡ some st
      → execute_query dbl api q s ≡ some ((st, []), s)
  unfolding verdict check_grouped execute_query execute_query_impl query_typed query_i64 query_f64
      query_u32
  execute_query-verdict st h = ground arith

  -- A query that is not well formed, on a catalog of whole rows without id 0, is refused, and its status is right about
  -- it. ERR_UNKNOWN_COLUMN: there is no such value column. ERR_UNSUPPORTED_TYPE: the key or the filter is no
  -- `uint32_t` column. ERR_INVALID_GROUP: the key is no `uint32_t` column, or it is the value column, or it or the
  -- filter has another number of rows, or no groups are asked for. ERR_TOO_MANY_GROUPS: more groups than allowed.
  -- There are no results, and columns, tiers and counters of the catalog stay as they were; the latency that the
  -- wrapper records of every query is not in the model.
  pub execute_query-refused :
      IsAligned s
      → well_formed q s ≡ false
      → (st : MatrixQueryStatus) × (¬ (st ≡ status_ok))
        × (explains q s st ≡ true)
        × (execute_query dbl api q s ≡ some ((st, []), s))
  unfolding explains
  execute_query-refused a w =
      let (st, v, e) = refused_verdict q s a w in
      (st, (λ ok. absurd (ground arith)), e, execute_query-verdict st v)

  -- A well-formed query, on a catalog of whole rows without id 0 whose columns are in memory or on disk, with a tier
  -- manager that plans no other tier, and a value column that has one null flag for each row if it has flags:
  -- execute_query returns with the status OK and, as words, the aggregate of the rows that count for each group, or
  -- of all rows that count without GROUP BY. A row counts if it is not flagged as null and passes the filter, which looks at
  -- the value, or at the row's entry of the filter column; in the latter case the null flags are not looked at. Without
  -- filter, groups and flags COUNT is the number of rows. The bytes of the columns, their types and null flags stay
  -- as they were, and the catalog can run the next query.
  pub execute_query-value :
      (Safe : T → Type 0)
      → CpuTiers api Safe
      → IsRunning Safe s
      → IsAligned s
      → Flagged q s
      → well_formed q s ≡ true
      → Executed Safe
          (execute_query dbl api q s)
          (status_ok, meaning q s dbl (column_type q.value_col s))
          s
  unfolding answer
  execute_query-value Safe tiers run a f w =
      subst (λ r. Executed Safe (execute_query dbl api q s) r s)
        (ap₂ judged (well_formed-verdict q s a w) (value-meaning q s dbl f))
        (execute_query-answer dbl api Safe tiers q s run (Flagged-Covered q s f))
