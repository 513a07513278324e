-- ===== src/Reduce/Tests.antt =====
-- The kernels' theorems at columns of four rows.
use mathlib.Core.List.{Memᴰ}
use matrixdb.Prelude.{ℕ, ◌≡◌, ◌⊎◌, true, none, some, List, [], ◌∷◌, length, get_or, ltb, arith}
use matrixdb.Reduce.{
  agg_sum, agg_min, agg_max, gt, u32, i64, order_i64, Predicate, pred_match, sum_loop, reduce_if,
}
use matrixdb.Reduce.Grouped.{matrix_cpu_group_reduce_pred}
use matrixdb.Reduce.Cells.{passes, cell-group_reduce_impl}
use matrixdb.Reduce.Select.{select}
use matrixdb.Reduce.Values.{
  i64-Ordered, IsLower, IsUpper, AllBelow, extremes-reduce_if, total, sum-reduce_if,
}

abbrev keys : List ℕ
keys = 0 ∷ 1 ∷ 0 ∷ 7 ∷ []

abbrev column : List ℕ
column = 10 ∷ 20 ∷ 30 ∷ 40 ∷ []

abbrev above_ten : Predicate ℕ
above_ten = record { cmp = gt; a = 10; b = 0 }

cell-group_reduce_impl_example :
    (length (matrix_cpu_group_reduce_pred keys column 2 agg_sum above_ten none) ≡ 2)
    × (get_or (matrix_cpu_group_reduce_pred keys column 2 agg_sum above_ten none) 0 0 ≡ 30)
unfolding reduce_if sum_loop passes pred_match
cell-group_reduce_impl_example =
    cell-group_reduce_impl u32 (some above_ten) keys column 2 agg_sum none 0 (omega arith)

-- a column with a negative value
abbrev signed : List ℕ
signed = 5 ∷ 0xFFFF_FFFF_FFFF_FFFE ∷ []

extremes-reduce_if_example :
    IsLower order_i64 (reduce_if i64 (λ i v. true) agg_min signed) signed
    × ((reduce_if i64 (λ i v. true) agg_min signed ≡ i64.greatest)
        ⊎ Memᴰ (reduce_if i64 (λ i v. true) agg_min signed) signed)
    × IsUpper order_i64 (reduce_if i64 (λ i v. true) agg_max signed) signed
    × ((reduce_if i64 (λ i v. true) agg_max signed ≡ i64.least)
        ⊎ Memᴰ (reduce_if i64 (λ i v. true) agg_max signed) signed)
unfolding select
extremes-reduce_if_example = extremes-reduce_if i64 order_i64 i64-Ordered (λ i v. true) signed

sum-reduce_if_example : reduce_if u32 (λ i v. ltb 10 v) agg_sum column ≡ 90
unfolding select total AllBelow
sum-reduce_if_example =
    sum-reduce_if (λ i v. ltb 10 v) column
      (omega arith, (omega arith, (omega arith, (omega arith, tt)))) (omega arith)
