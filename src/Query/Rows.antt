-- ===== src/Query/Rows.antt =====
-- What a query asks for, row by row: which rows count, and the aggregate of each group. compute_mock.cpp answers with
-- one of its kernels.
mod Kernels
pub mod Values
use matrixdb.Prelude.{
  ℕ, zero, suc, ◌≡◌, Bool, not, ◌&&◌, ◌||◌, Option, none, some, List, [], ◌∷◌, length, get_or, ◌==◌,
  if◌then◌else◌,
}
use matrixdb.Prelude.Maps.{find}
use matrixdb.Reduce.{Num, u32, i64, Predicate, is_null, pred_match, reduce_if, reduce_all}
use matrixdb.Catalog.{
  MatrixType, t_u32, t_i64, t_f64, Catalog, u32_values, i64_values, is_some, column_rows,
}
use matrixdb.Query.{MatrixQuery, Double, pred_u32, pred_i64, pred_f64, f64_values}
use matrixdb.Query.Shared.{column_bytes}

-- The first `n` values of a function.
unfoldable pub tabulate {ℓ} : {A : Type ℓ} → ℕ → (ℕ → A) → List A
tabulate zero f = []
tabulate (suc n) f = f 0 ∷ tabulate n (λ i. f (suc i))

module _ {T : Type 0} (q : MatrixQuery) (s : Catalog T) where
  -- a filter on another column than the one that is aggregated; 0 stands for the latter
  unfoldable pub filters_other : Bool
  filters_other = q.has_filter && not (q.filter_col == 0) && not (q.filter_col == q.value_col)

  -- The null flags that count: with a filter on another column, none.
  unfoldable pub flags : Option (List ℕ)
  flags = if filters_other then none else find q.value_col s.null_masks

  -- the entries of a `uint32_t` column
  unfoldable pub entries : ℕ → List ℕ
  entries id = u32_values (column_bytes id s)

  module _ {A : Type 0} (num : Num A) (pred : Predicate A) where
    -- whether the query's filter lets the row `i` of value `v` pass
    unfoldable pub matches : ℕ → A → Bool
    matches i v =
        not q.has_filter
        || (if filters_other
            then pred_match u32 (get_or (entries q.filter_col) i 0) (pred_u32 q)
            else pred_match num v pred)

    unfoldable pub counts : ℕ → A → Bool
    counts i v = not (is_null flags i) && matches i v

    unfoldable pub counts_in : ℕ → ℕ → A → Bool
    counts_in g i v = counts i v && (get_or (entries q.key_col) i 0 == g)

    -- One aggregate for each group, or one of all rows; without filter, groups and null flags, no row is looked at to
    -- count them.
    unfoldable pub aggregates : (A → ℕ) → List A → List ℕ
    aggregates word vs =
        if q.grouped
        then tabulate q.num_groups (λ g. word (reduce_if num (counts_in g) q.agg vs))
        else if q.has_filter || is_some flags
        then word (reduce_if num counts q.agg vs) ∷ []
        else word (reduce_all num q.agg vs) ∷ []

  module _ {F : Type 0} (dbl : Double F) where
    unfoldable pub meaning : MatrixType → List ℕ
    meaning t_u32 = aggregates u32 (pred_u32 q) (λ n. n) (entries q.value_col)
    meaning t_i64 = aggregates i64 (pred_i64 q) (λ n. n) (i64_values (column_bytes q.value_col s))
    meaning t_f64 =
        aggregates dbl.num (pred_f64 dbl q) dbl.to_bits
          (f64_values dbl (column_bytes q.value_col s))

  -- The value column has one null flag for each row, if it has flags.
  unfoldable pub Flagged : Type 0
  Flagged =
      (nulls : List ℕ)
      → find q.value_col s.null_masks ≡ some nulls
      → length nulls ≡ column_rows q.value_col s
