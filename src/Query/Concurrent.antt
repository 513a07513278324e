-- ===== src/Query/Concurrent.antt =====
-- `execute_query_shared` against `execute_query` (compute_mock.cpp): what test_concurrent_serving.cpp asserts of the
-- two paths.
use matrixdb.Prelude.{
  ℕ, zero, suc, ◌%◌, ◌≡◌, inl, inr, refl, true, false, none, List, [], ◌∷◌, ◌==◌, ltb, arith,
  Bool-cases, Option-cases, subst,
}
use matrixdb.Prelude.Maps.{find}
use matrixdb.Catalog.{
  MatrixType, t_u32, t_i64, t_f64, same_type, TierApi, Catalog, catalog_has, column_type,
  column_rows, size_bytes, value_nulls,
}
use matrixdb.Catalog.Borrow.{CpuTiers}
use matrixdb.Query.{MatrixQuery, status_ok, Double}
use matrixdb.Query.Execute.{
  cross_column, check_cross, check_grouped_wide, check_grouped_u32, execute_query,
}
use matrixdb.Query.Shared.{
  served, host_resident, column_bytes, shared_cross, shared_grouped, execute_query_shared,
  scan_result,
}
use matrixdb.Query.Answer.{Covered, verdict, value, plain_value, answer, check_grouped}
use matrixdb.Query.Runs.{Executed, IsRunning}
use matrixdb.Query.Correct.{execute_query-answer}

-- Id 0 is reserved, and a column is a whole number of rows.
pub record IsAligned {T : Type 0} (s : Catalog T) : Type 0 where
  pub no_zero : find 0 s.columns ≡ none
  pub whole_rows : (id : ℕ) → size_bytes id s % 4 ≡ 0

module _ {T : Type 0} (s : Catalog T) (a : IsAligned s) where
  resident_has : (id : ℕ) → host_resident id s ≡ true → catalog_has id s ≡ true
  unfolding host_resident catalog_has
  resident_has zero h = absurd (grind (arith, h, a.no_zero))
  resident_has (suc id) h = ground arith

  module _ (q : MatrixQuery) where
    check_cross_shared :
        host_resident q.filter_col s ≡ true
        → same_type (column_type q.filter_col s) t_u32 ≡ true
        → (column_rows q.filter_col s == column_rows q.value_col s) ≡ true
        → check_cross q s ≡ none
    unfolding check_cross
    check_cross_shared h t e = rw (resident_has q.filter_col h, t, e) refl

    check_grouped_shared :
        (t : MatrixType)
        → column_type q.value_col s ≡ t
        → host_resident q.key_col s ≡ true
        → (q.key_col == q.value_col) ≡ false
        → (q.num_groups == 0) ≡ false
        → ltb s.max_query_groups q.num_groups ≡ false
        → same_type (column_type q.key_col s) t_u32 ≡ true
        → (column_rows q.key_col s == column_rows q.value_col s) ≡ true
        → check_grouped t q s ≡ none
    unfolding check_grouped check_grouped_wide check_grouped_u32 column_rows
    check_grouped_shared t_i64 ty h n z m k e = ground (arith, resident_has q.key_col h)
    check_grouped_shared t_f64 ty h n z m k e = ground (arith, resident_has q.key_col h)
    check_grouped_shared t_u32 ty h n z m k e =
        ground (arith, resident_has q.key_col h, a.whole_rows q.key_col, a.whole_rows q.value_col)

    module _ {F : Type 0} (dbl : Double F) where
      accepted :
          {out : List ℕ}
          → verdict q s ≡ none
          → value dbl q s ≡ out
          → answer dbl q s ≡ (status_ok, out)
      unfolding answer
      accepted v e = rw (v, e) refl

      cross_served :
          {out : List ℕ}
          → catalog_has q.value_col s ≡ true
          → q.grouped ≡ false
          → cross_column q ≡ true
          → shared_cross dbl q s ≡ served out
          → answer dbl q s ≡ (status_ok, out)
      unfolding verdict value shared_cross
      cross_served v g c h = accepted (ground (arith, check_cross_shared)) (ground arith)

      grouped_served :
          {out : List ℕ}
          → catalog_has q.value_col s ≡ true
          → find q.value_col s.null_masks ≡ none
          → q.grouped ≡ true
          → cross_column q ≡ false
          → shared_grouped dbl q s ≡ served out
          → answer dbl q s ≡ (status_ok, out)
      unfolding verdict value plain_value shared_grouped value_nulls
      grouped_served v m g c h =
          accepted (ground (arith, check_grouped_shared (column_type q.value_col s) refl))
            (ground arith)

      scalar_served :
          catalog_has q.value_col s ≡ true
          → find q.value_col s.null_masks ≡ none
          → q.grouped ≡ false
          → cross_column q ≡ false
          → answer dbl q s ≡ (
            status_ok,
            scan_result dbl (column_type q.value_col s) q (column_bytes q.value_col s) ∷ [],
          )
      unfolding verdict value plain_value
      scalar_served v m g c = accepted (ground arith) (ground arith)

      served_facts :
          {out : List ℕ}
          → execute_query_shared dbl q s ≡ served out
          → (host_resident q.value_col s ≡ true) × (find q.value_col s.null_masks ≡ none)
      unfolding execute_query_shared
      served_facts h = elim (Option-cases (find q.value_col s.null_masks)) [
        | inl e ↦ (ground arith, e)
        | inr (m, e) ↦ absurd (ground arith)
      ]

      pub answer-shared :
          {out : List ℕ}
          → execute_query_shared dbl q s ≡ served out
          → answer dbl q s ≡ (status_ok, out)
      unfolding execute_query_shared
      answer-shared h =
          let (r, m) = served_facts h in
          let v = resident_has q.value_col r in
          elim (Bool-cases q.grouped) [
            | inl g ↦ elim (Bool-cases (cross_column q)) [
              | inl c ↦ absurd (ground arith)
              | inr c ↦ grouped_served v m g c (ground arith)
            ]
            | inr g ↦ elim (Bool-cases (cross_column q)) [
              | inl c ↦ cross_served v g c (ground arith)
              | inr c ↦ ground (arith, scalar_served v m g c)
            ]
          ]

module _ {F : Type 0} (dbl : Double F) {T : Type 0} (api : TierApi T) (Safe : T → Type 0)
    (tiers : CpuTiers api Safe) (q : MatrixQuery) (s : Catalog T) where
  -- On a catalog whose columns are all in memory or on disk, are whole rows and have no id 0, with a tier manager
  -- that plans no other tier: what the path under the shared lock serves, execute_query returns too, with the
  -- status OK.
  pub execute_query-shared :
      IsRunning Safe s
      → IsAligned s
      → {out : List ℕ} → execute_query_shared dbl q s ≡ served out
      → Executed Safe (execute_query dbl api q s) (status_ok, out) s
  unfolding Covered
  execute_query-shared run a {out = out} h =
      let (_, unmasked) = served_facts s a q dbl h in
      subst (λ r. Executed Safe (execute_query dbl api q s) r s) (answer-shared s a q dbl h)
        (execute_query-answer dbl api Safe tiers q s run λ nulls e. absurd (cc (unmasked, e)))
