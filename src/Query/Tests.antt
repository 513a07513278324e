-- ===== src/Query/Tests.antt =====
-- Queries at concrete inputs: a catalog with a column in memory, one on disk and a column with null flags.
use matrixdb.Prelude.{
  ℕ, zero, suc, ◌+◌, ◌-◌, ◌*◌, ◌/◌, ◌%◌, ◌^◌, ◌≡◌, ◌≤◌, ◌<◌, refl, Bool, true, false, Option, none,
  some, List, [], ◌∷◌, ltb, leb, ◌==◌, arith,
}
use matrixdb.Reduce.{agg_sum, agg_count, gt, i64, Predicate}
use matrixdb.Tier.{MemorySpace, host, cold, Column}
use matrixdb.Tier.Cost.{Real}
use matrixdb.Tier.Manager.{Managed, TierManager}
use matrixdb.Tier.Pass.{tier_manager}
use matrixdb.Tier.Capacity.{AllCols}
use matrixdb.Tier.Cpu.{IsCpuManager, IsCpuColumn, tier_manager-CpuTiers}
use matrixdb.Catalog.{Catalog, TierApi, u32_bytes, t_u32}
use matrixdb.Catalog.Rebalance.{OnCpu}
use matrixdb.Catalog.Load.{append_raw, Grown}
use matrixdb.Query.Growth.{append_raw-IsRunning}
use matrixdb.Query.{
  MatrixQuery, MatrixQueryStatus, Double, status_ok, err_invalid_group, err_unknown_column,
}
use matrixdb.Query.Execute.{execute_query}
use matrixdb.Query.Shared.{execute_query_shared, served}
use matrixdb.Query.Rows.{Flagged, meaning}
use matrixdb.Query.Runs.{Executed, IsRunning}
use matrixdb.Query.Concurrent.{IsAligned, execute_query-shared}
use matrixdb.Query.Meaning.{well_formed, explains, execute_query-refused, execute_query-value}
use matrixdb.Query.Joins.{hash_join, hash_join_count}
use matrixdb.Query.Pairs.{hash_join-pairs}
use matrixdb.Query.Project.{project}
use matrixdb.Query.Selected.{project-selected}

abbrev real_tests : Real ℕ
real_tests = record {
  of_size = λ n. n;
  add = λ a b. a + b;
  sub = λ a b. a - b;
  mul = λ a b. a * b;
  div = λ a b. a / b;
  less = ltb;
  at_most = leb;
  equal = λ a b. a == b;
  truncate = λ n. n;
}

abbrev double_tests : Double ℕ
double_tests = record { num = i64; to_bits = λ n. n; of_bits = λ n. n }

abbrev managed_tests : MemorySpace → ℕ → Managed ℕ
managed_tests t n = record { bytes = n; tier = t; heat = 0; recent_bytes = 0; arrived_tick = 0 }

abbrev manager_tests : TierManager ℕ
manager_tests = record {
  cm = record { is_unified = false; gpu_available = false };
  device_cap = 1;
  host_cap = 100;
  tick = 0;
  cols = (1, managed_tests host 12) ∷ (2, managed_tests cold 12) ∷ (3, managed_tests host 12) ∷ [];
}

abbrev column_tests : MemorySpace → ℕ → ℕ → ℕ → Column
column_tests t a b c = record {
  tier = t;
  bytes = a ∷ 0 ∷ 0 ∷ 0 ∷ b ∷ 0 ∷ 0 ∷ 0 ∷ c ∷ 0 ∷ 0 ∷ 0 ∷ [];
}

abbrev catalog_tests : Catalog (TierManager ℕ)
catalog_tests = record {
  columns =
      (1, column_tests host 5 7 9)
      ∷ (2, column_tests cold 1 0 1)
      ∷ (3, column_tests host 0 1 1)
      ∷ [];
  col_types = [];
  null_masks = [];
  tier_mgr = manager_tests;
  max_query_groups = 16;
  rebalance_every = 1;
  scans_since_rebalance = 0;
  cold_borrows = 0;
  rebalances = 0;
  migrations = 0;
}

abbrev query_tests : ℕ → Bool → ℕ → MatrixQuery
query_tests value_col grouped key_col = record {
  value_col = value_col;
  agg = agg_sum;
  has_filter = true;
  threshold = 5;
  cmp = gt;
  upper = 0;
  lo_i64 = 0;
  hi_i64 = 0;
  lo_f64 = 0;
  hi_f64 = 0;
  grouped = grouped;
  key_col = key_col;
  num_groups = 2;
  limit = 0;
  filter_col = 0;
}

manager_is_cpu : IsCpuManager manager_tests
unfolding IsCpuManager AllCols IsCpuColumn
manager_is_cpu = (
  refl,
  (
    (refl, omega arith, omega arith),
    ((refl, omega arith, omega arith), ((refl, omega arith, omega arith), tt)),
  ),
)

catalog-IsRunning : IsRunning IsCpuManager catalog_tests
unfolding OnCpu
catalog-IsRunning = record { cpu = λ id t bytes h. ground arith; safe = manager_is_cpu }

catalog-IsAligned : IsAligned catalog_tests
unfolding matrixdb.Catalog.size_bytes
catalog-IsAligned = record { no_zero = refl; whole_rows = λ id. ground arith }

catalog-Flagged : (q : MatrixQuery) → Flagged q catalog_tests
unfolding Flagged
catalog-Flagged q = λ nulls e. absurd (ground arith)

execute_query-value_example :
    Executed IsCpuManager
      (execute_query double_tests (tier_manager real_tests) (query_tests 1 true 2) catalog_tests)
      (status_ok, 7 ∷ 9 ∷ [])
      catalog_tests
unfolding well_formed matrixdb.Query.Meaning.filter_fits matrixdb.Query.Rows.filters_other
    matrixdb.Query.Meaning.groups_fit matrixdb.Query.Meaning.is_u32 matrixdb.Query.Meaning.as_long
    matrixdb.Catalog.catalog_has matrixdb.Catalog.column_type matrixdb.Catalog.column_rows
    matrixdb.Catalog.size_bytes meaning matrixdb.Query.Rows.aggregates matrixdb.Query.Rows.tabulate
    matrixdb.Query.Rows.counts_in matrixdb.Query.Rows.counts matrixdb.Query.Rows.matches
    matrixdb.Query.Rows.flags matrixdb.Query.Rows.entries matrixdb.Reduce.reduce_if
    matrixdb.Reduce.sum_loop matrixdb.Catalog.u32_values matrixdb.Query.Shared.column_bytes
    matrixdb.Prelude.Bytes.of_bytes matrixdb.Query.pred_u32 matrixdb.Reduce.pred_match
execute_query-value_example =
    execute_query-value double_tests (tier_manager real_tests) (query_tests 1 true 2) catalog_tests
      IsCpuManager (tier_manager-CpuTiers real_tests) catalog-IsRunning catalog-IsAligned
      (catalog-Flagged (query_tests 1 true 2)) refl

execute_query-shared_example :
    Executed IsCpuManager
      (execute_query double_tests (tier_manager real_tests) (query_tests 1 false 0) catalog_tests)
      (status_ok, 16 ∷ [])
      catalog_tests
unfolding execute_query_shared matrixdb.Query.Shared.host_resident
    matrixdb.Query.Execute.cross_column matrixdb.Catalog.column_type
    matrixdb.Query.Shared.scan_result matrixdb.Query.scan_u32 matrixdb.Query.Shared.column_bytes
    matrixdb.Catalog.u32_values matrixdb.Query.pred_u32 matrixdb.Reduce.pred_match
    matrixdb.Reduce.reduce_pred matrixdb.Reduce.reduce_if matrixdb.Reduce.sum_loop
    matrixdb.Prelude.Bytes.of_bytes
execute_query-shared_example =
    execute_query-shared double_tests (tier_manager real_tests) IsCpuManager
      (tier_manager-CpuTiers real_tests) (query_tests 1 false 0) catalog_tests catalog-IsRunning
      catalog-IsAligned refl

execute_query-refused_example :
    (st : MatrixQueryStatus) × (¬ (st ≡ status_ok))
    × (explains (query_tests 1 true 1) catalog_tests st ≡ true)
    × (execute_query double_tests (tier_manager real_tests) (query_tests 1 true 1) catalog_tests
        ≡ some ((st, []), catalog_tests))
unfolding well_formed matrixdb.Query.Meaning.filter_fits matrixdb.Query.Rows.filters_other
    matrixdb.Query.Meaning.groups_fit matrixdb.Query.Meaning.is_u32 matrixdb.Query.Meaning.as_long
    matrixdb.Catalog.catalog_has matrixdb.Catalog.column_type
execute_query-refused_example =
    execute_query-refused double_tests (tier_manager real_tests) (query_tests 1 true 1)
      catalog_tests catalog-IsAligned refl

hash_join-pairs_example :
    Executed IsCpuManager
      (hash_join (tier_manager real_tests) 2 3 catalog_tests)
      ((1, 0) ∷ (0, 1) ∷ (2, 1) ∷ (0, 2) ∷ (2, 2) ∷ [])
      catalog_tests
    × Executed IsCpuManager
        (hash_join_count (tier_manager real_tests) 2 3 catalog_tests)
        5
        catalog_tests
unfolding matrixdb.Query.Pairs.matching_pairs matrixdb.Query.Pairs.rows_where
    matrixdb.Query.Joins.pairs_with matrixdb.Catalog.u32_values matrixdb.Prelude.Bytes.of_bytes
    matrixdb.Query.Shared.column_bytes matrixdb.Query.Joins.both_of_type
    matrixdb.Catalog.catalog_has matrixdb.Catalog.column_type
hash_join-pairs_example =
    hash_join-pairs (tier_manager real_tests) IsCpuManager (tier_manager-CpuTiers real_tests)
      catalog_tests 2 3 catalog-IsRunning refl refl

project-selected_example :
    Executed IsCpuManager
      (project
        (tier_manager real_tests)
        1
        (some (2, record { cmp = gt; a = 0; b = 0 }))
        2
        catalog_tests)
      (5 ∷ 9 ∷ [])
      catalog_tests
unfolding matrixdb.Query.Selected.limited matrixdb.Query.Selected.selected
    matrixdb.Query.Project.encoded matrixdb.Catalog.u32_values matrixdb.Prelude.Bytes.of_bytes
    matrixdb.Query.Shared.column_bytes matrixdb.Catalog.catalog_has matrixdb.Catalog.column_type
    matrixdb.Reduce.pred_match
project-selected_example =
    project-selected IsCpuManager (tier_manager real_tests) (tier_manager-CpuTiers real_tests)
      catalog_tests catalog-IsRunning 1 2 2 (record { cmp = gt; a = 0; b = 0 }) refl refl refl

append_raw-IsRunning_example :
    (s : Catalog (TierManager ℕ)) × (append_raw
        (tier_manager real_tests)
        2
        (4 ∷ 0 ∷ 0 ∷ 0 ∷ [])
        catalog_tests
      ≡ some s)
    × Grown
        (tier_manager real_tests)
        2
        (column_tests cold 1 0 1)
        (4 ∷ 0 ∷ 0 ∷ 0 ∷ [])
        catalog_tests
        s
    × IsRunning IsCpuManager s
append_raw-IsRunning_example =
    append_raw-IsRunning (tier_manager real_tests) IsCpuManager (tier_manager-CpuTiers real_tests) 2
      (4 ∷ 0 ∷ 0 ∷ 0 ∷ []) catalog_tests catalog-IsRunning (column_tests cold 1 0 1) refl
      (omega arith) (omega arith)
