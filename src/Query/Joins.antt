-- ===== src/Query/Joins.antt =====
-- The joins and the grouping keys of compute_mock.cpp: hash joins on `uint32_t` and `int64_t` keys, the count of the
-- pairs alone, the count of distinct values and the number of groups that a key column needs.
use matrixdb.Prelude.{
  ℕ, suc, ◌+◌, ◌/◌, ◌%◌, ◌^◌, Bool, false, ◌&&◌, ◌||◌, Option, none, some, List, [], ◌∷◌, ◌++◌,
  length, leb, ◌==◌, if◌then◌else◌,
}
use matrixdb.Prelude.Maps.{◌>>=◌, ◌>>◌, guard, find, assign}
use matrixdb.Reduce.{agg_max, Num, u32, i64, matrix_cpu_reduce_all, is_null}
use matrixdb.Engine.{count_up}
use matrixdb.Catalog.{
  MatrixType, t_u32, t_i64, t_f64, same_type, TierApi, Catalog, u32_values, i64_values, catalog_has,
  column_type, value_nulls, size_bytes, read_one, read_two, maybe_rebalance, borrow, give_back,
  host_bytes,
}
use matrixdb.Query.{Double, f64_values}

-- `build`: the rows of a value, under the value
abbrev pub rows_or_nil : Option (List ℕ) → List ℕ
rows_or_nil none = []
rows_or_nil (some rows) = rows

unfoldable pub push_row : ℕ → ℕ → List (ℕ × List ℕ) → List (ℕ × List ℕ)
push_row k i m = assign k (rows_or_nil (find k m) ++ (i ∷ [])) m

unfoldable pub build_rows : ℕ → List ℕ → List (ℕ × List ℕ) → List (ℕ × List ℕ)
build_rows i [] m = m
build_rows i (k ∷ ks) m = build_rows (suc i) ks (push_row k i m)

unfoldable pub pairs_with : ℕ → List ℕ → List (ℕ × ℕ)
pairs_with j [] = []
pairs_with j (i ∷ rows) = (i, j) ∷ pairs_with j rows

unfoldable pub probe_rows : List (ℕ × List ℕ) → ℕ → List ℕ → List (ℕ × ℕ)
probe_rows m j [] = []
probe_rows m j (k ∷ ks) = pairs_with j (rows_or_nil (find k m)) ++ probe_rows m (suc j) ks

unfoldable pub join_rows : List ℕ → List ℕ → List (ℕ × ℕ)
join_rows lk rk = probe_rows (build_rows 0 lk []) 0 rk

-- `build`: how many rows a value has
abbrev pub count_or_0 : Option ℕ → ℕ
count_or_0 none = 0
count_or_0 (some n) = n

unfoldable pub build_counts : List ℕ → List (ℕ × ℕ) → List (ℕ × ℕ)
build_counts [] m = m
build_counts (k ∷ ks) m = build_counts ks (assign k (count_up (count_or_0 (find k m))) m)

unfoldable pub probe_counts : List (ℕ × ℕ) → List ℕ → ℕ → ℕ
probe_counts m [] pairs = pairs
probe_counts m (k ∷ ks) pairs = probe_counts m ks ((pairs + count_or_0 (find k m)) % 2 ^ 64)

unfoldable pub join_count : List ℕ → List ℕ → ℕ
join_count lk rk = probe_counts (build_counts lk []) rk 0

-- `unordered_set::insert` of the values that are not null, from the row `i` on
module _ {A : Type 0} (num : Num A) where
  unfoldable pub contains_value : A → List A → Bool
  contains_value v [] = false
  contains_value v (x ∷ seen) = num.same v x || contains_value v seen

  unfoldable pub insert_value : A → List A → List A
  insert_value v seen = if contains_value v seen then seen else v ∷ seen

  unfoldable pub distinct_values : ℕ → List A → Option (List ℕ) → List A → List A
  distinct_values i [] nulls seen = seen
  distinct_values i (v ∷ vs) nulls seen =
      distinct_values (suc i) vs nulls (if is_null nulls i then seen else insert_value v seen)

  unfoldable pub distinct_count : List A → Option (List ℕ) → ℕ
  distinct_count vs nulls = length (distinct_values 0 vs nulls [])

-- the reading of `count_distinct`, for each of the three types
unfoldable pub distinct_of : {F : Type 0} → Double F → MatrixType → Option (List ℕ) → List ℕ → ℕ
distinct_of dbl t_u32 nulls bytes = distinct_count u32 (u32_values bytes) nulls
distinct_of dbl t_i64 nulls bytes = distinct_count i64 (i64_values bytes) nulls
distinct_of dbl t_f64 nulls bytes = distinct_count dbl.num (f64_values dbl bytes) nulls

-- the largest key and one, held below 2 ^ 32
unfoldable pub groups_for : List ℕ → ℕ
groups_for keys =
    let mx = matrix_cpu_reduce_all keys agg_max in
    if length keys == 0 then 0 else if leb 0xFFFF_FFFF mx then 0xFFFF_FFFF else mx + 1

module _ {T : Type 0} where
  unfoldable pub derive_num_groups_u32 : ℕ → Catalog T → Option (ℕ × Catalog T)
  derive_num_groups_u32 kid s = do
    lent ← borrow kid s
    bytes ← host_bytes kid lent.1
    s ← give_back kid lent.0 lent.1
    some (groups_for (u32_values bytes), s)

  unfoldable pub both_of_type : MatrixType → ℕ → ℕ → Catalog T → Bool
  both_of_type t left right s =
      catalog_has left s
      && catalog_has right s
      && same_type (column_type left s) t
      && same_type (column_type right s) t

  module _ (api : TierApi T) where
    unfoldable pub hash_join : ℕ → ℕ → Catalog T → Option (List (ℕ × ℕ) × Catalog T)
    hash_join left right s = do
      guard (both_of_type t_u32 left right s)
      read_two api left right (λ l r. join_rows (u32_values l) (u32_values r)) s

    unfoldable pub hash_join_count : ℕ → ℕ → Catalog T → Option (ℕ × Catalog T)
    hash_join_count left right s = do
      guard (both_of_type t_u32 left right s)
      read_two api left right (λ l r. join_count (u32_values l) (u32_values r)) s

    unfoldable pub hash_join_i64 : ℕ → ℕ → Catalog T → Option (List (ℕ × ℕ) × Catalog T)
    hash_join_i64 left right s = do
      guard (both_of_type t_i64 left right s)
      read_two api left right (λ l r. join_rows (i64_values l) (i64_values r)) s

    unfoldable pub count_distinct : {F : Type 0} → Double F → ℕ → Catalog T → Option (ℕ × Catalog T)
    count_distinct dbl col_id s = do
      let ty = column_type col_id s
      let elem = if same_type ty t_u32 then 4 else 8
      let nulls = value_nulls col_id (size_bytes col_id s / elem) s
      r ← read_one api col_id (distinct_of dbl ty nulls) s
      s ← maybe_rebalance api r.1
      some (r.0, s)
