-- ===== src/Reduce/Grouped.antt =====
-- GROUP BY: the kernels of compute.hpp that reduce each group's rows into the group's cell.
use matrixdb.Prelude.{
  ℕ, suc, Bool, true, false, not, Option, none, some, List, [], ◌∷◌, get_or, set, replicate, leb,
  if◌then◌else◌,
}
use matrixdb.Reduce.{
  AggOp, agg_count, agg_sum, agg_min, agg_max, gt, Num, u32, i64, Predicate, is_null, pred_match,
}

module _ {ℓ} {A : Type ℓ} (num : Num A) where
  -- what every cell starts from
  unfoldable pub initial : AggOp → A
  initial agg_min = num.greatest
  initial agg_max = num.least
  initial agg_sum = num.nought
  initial agg_count = num.nought

  -- The `switch` on the operation, on the old value of the cell.
  unfoldable pub bump : AggOp → A → A → A
  bump agg_sum cell v = num.add cell v
  bump agg_min cell v = if num.less v cell then v else cell
  bump agg_max cell v = if num.less cell v then v else cell
  bump agg_count cell v = num.add cell num.one

  module _ (keys : List ℕ) (num_groups : ℕ) (op : AggOp) where
    -- The body of the loop: a null flag, a key out of range or the filter skips the row.
    unfoldable pub group_row : Bool → Bool → ℕ → A → List A → List A
    group_row null match i v out =
        let k = get_or keys i 0 in
        if null
        then out
        else if leb num_groups k
        then out
        else if not match
        then out
        else set out k (bump op (get_or out k num.nought) v)

    unfoldable pub group_loop : (ℕ → Bool) → (ℕ → A → Bool) → ℕ → List A → List A → List A
    group_loop null match i [] out = out
    group_loop null match i (v ∷ vs) out =
        group_loop null match (suc i) vs (group_row (null i) (match i v) i v out)

    unfoldable pub group_reduce_if : (ℕ → Bool) → (ℕ → A → Bool) → List A → List A
    group_reduce_if null match vs = group_loop null match 0 vs (replicate num_groups (initial op))

-- The core with the filter on (`some p`) or compiled out (`none`).
unfoldable pub group_reduce_impl {ℓ} :
    {A : Type ℓ}
    → Num A
    → Option (Predicate A)
    → List ℕ
    → List A
    → ℕ
    → AggOp
    → Option (List ℕ)
    → List A
group_reduce_impl num none keys vs num_groups op nulls =
    group_reduce_if num keys num_groups op (is_null nulls) (λ i v. true) vs
group_reduce_impl num (some p) keys vs num_groups op nulls =
    group_reduce_if num keys num_groups op (is_null nulls) (λ i v. pred_match num v p) vs

unfoldable pub group_reduce_filtered_by {ℓ} :
    {A : Type ℓ} → Num A → List ℕ → List ℕ → Predicate ℕ → List A → ℕ → AggOp → List A
group_reduce_filtered_by num keys f fp vs num_groups op =
    group_reduce_if num keys num_groups op (λ i. false) (λ i v. pred_match u32 (get_or f i 0) fp) vs

abbrev pub matrix_cpu_group_reduce : List ℕ → List ℕ → ℕ → AggOp → Option (List ℕ) → List ℕ
matrix_cpu_group_reduce keys vs num_groups op nulls =
    group_reduce_impl u32 none keys vs num_groups op nulls

abbrev pub matrix_cpu_group_reduce_where : List ℕ → List ℕ → ℕ → AggOp → ℕ → List ℕ
matrix_cpu_group_reduce_where keys vs num_groups op threshold =
    group_reduce_impl u32 (some (record { cmp = gt; a = threshold; b = 0 })) keys vs num_groups op
      none

abbrev pub matrix_cpu_group_reduce_pred :
    List ℕ → List ℕ → ℕ → AggOp → Predicate ℕ → Option (List ℕ) → List ℕ
matrix_cpu_group_reduce_pred keys vs num_groups op p nulls =
    group_reduce_impl u32 (some p) keys vs num_groups op nulls

abbrev pub matrix_cpu_group_reduce_i64 : List ℕ → List ℕ → ℕ → AggOp → Option (List ℕ) → List ℕ
matrix_cpu_group_reduce_i64 keys vs num_groups op nulls =
    group_reduce_impl i64 none keys vs num_groups op nulls

abbrev pub matrix_cpu_group_reduce_i64_pred :
    List ℕ → List ℕ → ℕ → AggOp → Predicate ℕ → Option (List ℕ) → List ℕ
matrix_cpu_group_reduce_i64_pred keys vs num_groups op p nulls =
    group_reduce_impl i64 (some p) keys vs num_groups op nulls

abbrev pub matrix_cpu_group_reduce_filtered_by :
    List ℕ → List ℕ → Predicate ℕ → List ℕ → ℕ → AggOp → List ℕ
matrix_cpu_group_reduce_filtered_by keys f fp vs num_groups op =
    group_reduce_filtered_by u32 keys f fp vs num_groups op

abbrev pub matrix_cpu_group_reduce_filtered_by_i64 :
    List ℕ → List ℕ → Predicate ℕ → List ℕ → ℕ → AggOp → List ℕ
matrix_cpu_group_reduce_filtered_by_i64 keys f fp vs num_groups op =
    group_reduce_filtered_by i64 keys f fp vs num_groups op

module _ {ℓ} {F : Type ℓ} (f64 : Num F) where
  abbrev pub matrix_cpu_group_reduce_f64 : List ℕ → List F → ℕ → AggOp → Option (List ℕ) → List F
  matrix_cpu_group_reduce_f64 keys vs num_groups op nulls =
      group_reduce_impl f64 none keys vs num_groups op nulls

  abbrev pub matrix_cpu_group_reduce_f64_pred :
      List ℕ → List F → ℕ → AggOp → Predicate F → Option (List ℕ) → List F
  matrix_cpu_group_reduce_f64_pred keys vs num_groups op p nulls =
      group_reduce_impl f64 (some p) keys vs num_groups op nulls

  abbrev pub matrix_cpu_group_reduce_filtered_by_f64 :
      List ℕ → List ℕ → Predicate ℕ → List F → ℕ → AggOp → List F
  matrix_cpu_group_reduce_filtered_by_f64 keys f fp vs num_groups op =
      group_reduce_filtered_by f64 keys f fp vs num_groups op
