-- ===== src/Reduce.antt =====
-- The CPU reducers of compute.hpp over one column: the kernels that the engine runs for an aggregate,
-- for the three element types. Each kernel is the generic loop at its number type; the arithmetic
-- of `double` is a parameter. A column is the list of its rows, and a second column (null flags,
-- filter, keys) is read at the row's index; every caller passes columns of the same length.
pub mod Grouped
pub mod Select
pub mod Cells
pub mod Values
mod Tests
use matrixdb.Prelude.{
  ℕ, zero, suc, ◌+◌, ◌%◌, ◌^◌, Bool, true, false, not, ◌&&◌, Option, none, some, List, [], ◌∷◌,
  length, get_or, ltb, leb, ◌==◌, if◌then◌else◌,
}

pub data AggOp : Type 0 where
  agg_count agg_sum agg_min agg_max : AggOp

pub data MatrixCmp : Type 0 where
  gt ge lt le eq ne between : MatrixCmp

-- What the loops use of a number type; `greatest` and `least` are the sentinels of an empty MIN and
-- an empty MAX, `of_size` is the conversion of a row count.
pub record Num {ℓ} (A : Type ℓ) : Type ℓ where
  pub nought : A
  pub one : A
  pub add : A → A → A
  pub less : A → A → Bool
  pub at_most : A → A → Bool
  pub same : A → A → Bool
  pub least : A
  pub greatest : A
  pub of_size : ℕ → A

-- `uint32_t` values under `uint64_t` accumulators
abbrev pub u32 : Num ℕ
u32 = record {
  nought = 0;
  one = 1;
  add = λ a b. (a + b) % 2 ^ 64;
  less = ltb;
  at_most = leb;
  same = λ a b. a == b;
  least = 0;
  greatest = 0xFFFF_FFFF_FFFF_FFFF;
  of_size = λ n. n;
}

-- An `int64_t` is its word in two's complement; compared, it is moved up by 2 ^ 63.
abbrev pub order_i64 : ℕ → ℕ
order_i64 a = (a + 0x8000_0000_0000_0000) % 2 ^ 64

-- `int64_t` values and accumulators; an overflowing sum wraps
abbrev pub i64 : Num ℕ
i64 = record {
  nought = 0;
  one = 1;
  add = λ a b. (a + b) % 2 ^ 64;
  less = λ a b. ltb (order_i64 a) (order_i64 b);
  at_most = λ a b. leb (order_i64 a) (order_i64 b);
  same = λ a b. a == b;
  least = 0x8000_0000_0000_0000;
  greatest = 0x7FFF_FFFF_FFFF_FFFF;
  of_size = λ n. n % 2 ^ 64;
}

pub record Predicate {ℓ} (A : Type ℓ) : Type ℓ where
  pub cmp : MatrixCmp
  pub a : A
  pub b : A

-- A row's null flag; `none` is the null pointer. The callers see to it that the flags cover the rows.
abbrev pub is_null : Option (List ℕ) → ℕ → Bool
is_null none i = false
is_null (some nulls) i = not (get_or nulls i 0 == 0)

module _ {ℓ} {A : Type ℓ} (num : Num A) where
  unfoldable pub pred_match : A → Predicate A → Bool
  pred_match v p = elim p.cmp [
    | gt ↦ num.less p.a v
    | ge ↦ num.at_most p.a v
    | lt ↦ num.less v p.a
    | le ↦ num.at_most v p.a
    | eq ↦ num.same v p.a
    | ne ↦ not (num.same v p.a)
    | between ↦ num.at_most p.a v && num.at_most v p.b
  ]

  module _ (keep : ℕ → A → Bool) where
    unfoldable pub sum_loop : ℕ → List A → A → A
    sum_loop i [] s = s
    sum_loop i (v ∷ vs) s = sum_loop (suc i) vs (if keep i v then num.add s v else s)

    unfoldable pub min_loop : ℕ → List A → A → A
    min_loop i [] m = m
    min_loop i (v ∷ vs) m = min_loop (suc i) vs (if keep i v && num.less v m then v else m)

    unfoldable pub max_loop : ℕ → List A → A → A
    max_loop i [] m = m
    max_loop i (v ∷ vs) m = max_loop (suc i) vs (if keep i v && num.less m v then v else m)

    unfoldable pub count_loop : ℕ → List A → A → A
    count_loop i [] c = c
    count_loop i (v ∷ vs) c = count_loop (suc i) vs (if keep i v then num.add c num.one else c)

    -- The `switch` of a reducer, over the rows that pass `keep`.
    unfoldable pub reduce_if : AggOp → List A → A
    reduce_if agg_sum vs = sum_loop 0 vs num.nought
    reduce_if agg_min vs = min_loop 0 vs num.greatest
    reduce_if agg_max vs = max_loop 0 vs num.least
    reduce_if agg_count vs = count_loop 0 vs num.nought

  unfoldable pub reduce_all : AggOp → List A → A
  reduce_all agg_sum vs = sum_loop (λ i v. true) 0 vs num.nought
  reduce_all agg_min vs = min_loop (λ i v. true) 0 vs num.greatest
  reduce_all agg_max vs = max_loop (λ i v. true) 0 vs num.least
  reduce_all agg_count vs = num.of_size (length vs)

  unfoldable pub reduce_all_nullable : List A → AggOp → List ℕ → A
  reduce_all_nullable vs op nulls = reduce_if (λ i v. not (is_null (some nulls) i)) op vs

  unfoldable pub reduce_pred : List A → Predicate A → AggOp → Option (List ℕ) → A
  reduce_pred vs p op nulls = reduce_if (λ i v. not (is_null nulls i) && pred_match v p) op vs

-- The filter column is `uint32_t` whatever the value column is.
unfoldable pub reduce_filtered_by {ℓ} :
    {A : Type ℓ} (num : Num A) → List ℕ → Predicate ℕ → List A → AggOp → A
reduce_filtered_by num f p vs op = reduce_if num (λ i v. pred_match u32 (get_or f i 0) p) op vs

abbrev pub matrix_cpu_reduce : List ℕ → ℕ → AggOp → ℕ
matrix_cpu_reduce vs threshold op = reduce_if u32 (λ i v. ltb threshold v) op vs

abbrev pub matrix_cpu_reduce_all : List ℕ → AggOp → ℕ
matrix_cpu_reduce_all vs op = reduce_all u32 op vs

abbrev pub matrix_cpu_reduce_all_nullable : List ℕ → AggOp → List ℕ → ℕ
matrix_cpu_reduce_all_nullable vs op nulls = reduce_all_nullable u32 vs op nulls

abbrev pub matrix_cpu_reduce_all_i64 : List ℕ → AggOp → ℕ
matrix_cpu_reduce_all_i64 vs op = reduce_all i64 op vs

abbrev pub matrix_cpu_reduce_all_i64_nullable : List ℕ → AggOp → List ℕ → ℕ
matrix_cpu_reduce_all_i64_nullable vs op nulls = reduce_all_nullable i64 vs op nulls

abbrev pub matrix_pred_match : ℕ → Predicate ℕ → Bool
matrix_pred_match v p = pred_match u32 v p

abbrev pub matrix_cpu_reduce_pred : List ℕ → Predicate ℕ → AggOp → Option (List ℕ) → ℕ
matrix_cpu_reduce_pred vs p op nulls = reduce_pred u32 vs p op nulls

abbrev pub matrix_pred_match_i64 : ℕ → Predicate ℕ → Bool
matrix_pred_match_i64 v p = pred_match i64 v p

abbrev pub matrix_cpu_reduce_pred_i64 : List ℕ → Predicate ℕ → AggOp → Option (List ℕ) → ℕ
matrix_cpu_reduce_pred_i64 vs p op nulls = reduce_pred i64 vs p op nulls

abbrev pub matrix_cpu_reduce_filtered_by : List ℕ → Predicate ℕ → List ℕ → AggOp → ℕ
matrix_cpu_reduce_filtered_by f p vs op = reduce_filtered_by u32 f p vs op

abbrev pub matrix_cpu_reduce_filtered_by_i64 : List ℕ → Predicate ℕ → List ℕ → AggOp → ℕ
matrix_cpu_reduce_filtered_by_i64 f p vs op = reduce_filtered_by i64 f p vs op

-- The `double` kernels, under the arithmetic of `double`.
module _ {ℓ} {F : Type ℓ} (f64 : Num F) where
  abbrev pub matrix_cpu_reduce_all_f64 : List F → AggOp → F
  matrix_cpu_reduce_all_f64 vs op = reduce_all f64 op vs

  abbrev pub matrix_cpu_reduce_all_f64_nullable : List F → AggOp → List ℕ → F
  matrix_cpu_reduce_all_f64_nullable vs op nulls = reduce_all_nullable f64 vs op nulls

  abbrev pub matrix_pred_match_f64 : F → Predicate F → Bool
  matrix_pred_match_f64 v p = pred_match f64 v p

  abbrev pub matrix_cpu_reduce_pred_f64 : List F → Predicate F → AggOp → Option (List ℕ) → F
  matrix_cpu_reduce_pred_f64 vs p op nulls = reduce_pred f64 vs p op nulls

  abbrev pub matrix_cpu_reduce_filtered_by_f64 : List ℕ → Predicate ℕ → List F → AggOp → F
  matrix_cpu_reduce_filtered_by_f64 f p vs op = reduce_filtered_by f64 f p vs op
