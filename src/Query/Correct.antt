-- ===== src/Query/Correct.antt =====
-- `execute_query` (compute_mock.cpp) against its checks and kernels on the bytes of the columns.
use matrixdb.Prelude.{
  ℕ, ◌≡◌, refl, Bool, true, false, not, ◌&&◌, Option, none, some, List, [], if◌then◌else◌, arith,
}
use matrixdb.Catalog.{TierApi, Catalog, catalog_has, column_type}
use matrixdb.Catalog.Borrow.{CpuTiers}
use matrixdb.Query.{MatrixQuery, MatrixQueryStatus, status_ok, err_unknown_column, Double}
use matrixdb.Query.Execute.{
  cross_column, check_grouped_cross, Outcome, filtered_groups, unless, answer_all, execute_query,
  execute_query_impl, grouped_cross_filter,
}
use matrixdb.Query.Shared.{column_bytes}
use matrixdb.Query.Answer.{Covered, verdict, value, judged, answer}
use matrixdb.Query.Runs.{Executed, IsRunning, map_Executed, unless-Executed, untouched}
use matrixdb.Query.Scalar.{cross_Executed, scalar_Executed, grouped_Executed}
use matrixdb.Query.Cross.{grouped_cross_Executed}

module _ {F : Type 0} (dbl : Double F) {T : Type 0} (api : TierApi T) (Safe : T → Type 0)
    (tiers : CpuTiers api Safe) (q : MatrixQuery) (s : Catalog T) (run : IsRunning Safe s) where
  grouped_cross_facts :
      check_grouped_cross q s ≡ none
      → (catalog_has q.key_col s ≡ true) × (catalog_has q.filter_col s ≡ true)
  unfolding check_grouped_cross
  grouped_cross_facts e = ground arith

  grouped_cross :
      catalog_has q.value_col s ≡ true
      → Executed Safe
          (unless (check_grouped_cross q s) s (answer_all (grouped_cross_filter api dbl q s)))
          (judged (check_grouped_cross q s) (
            filtered_groups dbl
              (column_type q.value_col s)
              q
              (column_bytes q.key_col s)
              (column_bytes q.filter_col s)
              (column_bytes q.value_col s)))
          s
  grouped_cross h = unless-Executed api Safe tiers s (check_grouped_cross q s) _ _ run λ e.
      let (hk, hf) = grouped_cross_facts e in
      map_Executed api Safe tiers s _ _ (λ r. (status_ok, r))
        (grouped_cross_Executed api Safe tiers dbl q s run h hf hk)

  -- The five ways of a query: unknown column, filter on another column or not, grouped or not.
  branches :
      (has grouped cross : Bool) (m0 m1 m2 m3 : Outcome T) (st : MatrixQueryStatus)
      (c1 c2 c3 : Option MatrixQueryStatus) (v1 v2 v3 : List ℕ)
      → Executed Safe m0 (st, []) s
      → (has ≡ true → cross ≡ true → Executed Safe m1 (judged c1 v1) s)
      → (has ≡ true → Executed Safe m2 (judged c2 v2) s)
      → (has ≡ true → grouped ≡ true → Executed Safe m3 (judged c3 v3) s)
      → (has ≡ true → grouped ≡ false → Executed Safe m3 (status_ok, v3) s)
      → Executed Safe
          (if not has
            then m0
            else if not grouped && cross
            then m1
            else if grouped && cross
            then m2
            else m3)
          (judged
            (if not has
              then some st
              else if not grouped && cross
              then c1
              else if grouped && cross
              then c2
              else if grouped
              then c3
              else none)
            (if not grouped && cross then v1 else if grouped && cross then v2 else v3))
          s
  branches false g c m0 m1 m2 m3 st c1 c2 c3 v1 v2 v3 e0 e1 e2 e3 e4 = e0
  branches true false true m0 m1 m2 m3 st c1 c2 c3 v1 v2 v3 e0 e1 e2 e3 e4 = e1 refl refl
  branches true true true m0 m1 m2 m3 st c1 c2 c3 v1 v2 v3 e0 e1 e2 e3 e4 = e2 refl
  branches true true false m0 m1 m2 m3 st c1 c2 c3 v1 v2 v3 e0 e1 e2 e3 e4 = e3 refl refl
  branches true false false m0 m1 m2 m3 st c1 c2 c3 v1 v2 v3 e0 e1 e2 e3 e4 = e4 refl refl

  -- execute_query against the checks and the kernels, on the bytes alone
  pub execute_query-answer :
      Covered q s → Executed Safe (execute_query dbl api q s) (answer dbl q s) s
  unfolding execute_query execute_query_impl answer verdict value
  execute_query-answer cover =
      branches (catalog_has q.value_col s) q.grouped (cross_column q) _ _ _ _ err_unknown_column _ _
        _ _ _ _ (record { after = s; result = refl; preserved = untouched api Safe tiers s run })
        (λ h c. cross_Executed dbl api Safe tiers q s run h c) grouped_cross
        (λ h g. grouped_Executed dbl api Safe tiers q s run (column_type q.value_col s) h refl g)
        (λ h g.
          scalar_Executed dbl api Safe tiers q s run (column_type q.value_col s) h refl g cover)
