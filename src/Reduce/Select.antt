-- ===== src/Reduce/Select.antt =====
-- The filters of the scalar kernels against the filtered column.
use matrixdb.Prelude.{
  ℕ, suc, ◌+◌, ◌-◌, ◌^◌, ◌≤◌, ◌<◌, ◌≡◌, refl, ap, sym, ◌∙◌, inl, inr, Bool, true, not, some, List,
  [], ◌∷◌, length, get_or, if◌then◌else◌, Bool-cases, arith,
}
use matrixdb.Reduce.{
  AggOp, agg_count, agg_sum, agg_min, agg_max, Num, u32, i64, is_null, reduce_if, reduce_all,
  reduce_all_nullable,
}
use matrixdb.Reduce.Grouped.{initial, bump}
use matrixdb.Reduce.Cells.{fold_if, reduce_if-fold_if}

-- the values of the rows that pass, in order
unfoldable pub select {ℓ} : {A : Type ℓ} → (ℕ → A → Bool) → ℕ → List A → List A
select keep i [] = []
select keep i (v ∷ vs) = let rest = select keep (suc i) vs in if keep i v then v ∷ rest else rest

-- Up to `bound`, counting by ones gives what the conversion of the number of rows gives.
pub record Counting {ℓ} {A : Type ℓ} (num : Num A) (bound : ℕ) : Type ℓ where
  pub start : num.of_size 0 ≡ num.nought
  pub step : (n : ℕ) → n < bound → num.add (num.of_size n) num.one ≡ num.of_size (suc n)

module _ {ℓ} {A : Type ℓ} (num : Num A) where
  pub fold_if-select :
      (keep : ℕ → A → Bool) (op : AggOp) (i j : ℕ) (vs : List A) (cell : A)
      → fold_if num keep op i vs cell ≡ fold_if num (λ i v. true) op j (select keep i vs) cell
  unfolding fold_if select
  fold_if-select keep op i j [] cell = refl
  fold_if-select keep op i j (v ∷ vs) cell = elim (Bool-cases (keep i v)) [
    | inl in' ↦ rw in' (fold_if-select keep op (suc i) (suc j) vs (bump num op cell v))
    | inr out ↦ rw out (fold_if-select keep op (suc i) j vs cell)
  ]

  fold_if-length :
      {bound : ℕ} (c : Counting num bound) (i k : ℕ) (vs : List A)
      → k + length vs ≤ bound
      → fold_if num (λ i v. true) agg_count i vs (num.of_size k) ≡ num.of_size (k + length vs)
  unfolding fold_if bump
  fold_if-length c i k [] h = ap num.of_size (omega arith)
  fold_if-length c i k (v ∷ vs) h =
      ap (λ t. fold_if num (λ i v. true) agg_count (suc i) vs t) (c.step k (omega arith))
      ∙ fold_if-length c (suc i) (suc k) vs (omega arith)
      ∙ ap num.of_size (omega arith)

  pub select_all :
      (keep : ℕ → A → Bool) (i : ℕ) (vs : List A)
      → ((j : ℕ) (v : A) → keep j v ≡ true)
      → select keep i vs ≡ vs
  unfolding select
  select_all keep i [] h = refl
  select_all keep i (v ∷ vs) h = rw (h i v) (ap (λ t. v ∷ t) (select_all keep (suc i) vs h))

  length-select :
      (keep : ℕ → A → Bool) (i : ℕ) (vs : List A) → length (select keep i vs) ≤ length vs
  unfolding select
  length-select keep i [] = omega arith
  length-select keep i (v ∷ vs) = ground (arith, length-select keep (suc i) vs)

  -- For a column of at most `bound` rows: reducing the rows that pass a test is reducing, without a
  -- test, the column of those rows.
  pub reduce_if-select :
      (bound : ℕ) (keep : ℕ → A → Bool) (op : AggOp) (vs : List A)
      → Counting num bound
      → length vs ≤ bound
      → reduce_if num keep op vs ≡ reduce_all num op (select keep 0 vs)
  unfolding reduce_all reduce_if initial
  reduce_if-select bound keep agg_count vs c h =
      reduce_if-fold_if num keep agg_count vs
      ∙ fold_if-select keep agg_count 0 0 vs (initial num agg_count)
      ∙ ap (λ t. fold_if num (λ i v. true) agg_count 0 (select keep 0 vs) t) (sym c.start)
      ∙ fold_if-length c 0 0 (select keep 0 vs) (omega (arith, length-select keep 0 vs, h))
      ∙ ap num.of_size (omega arith)
  reduce_if-select bound keep agg_sum vs c h =
      reduce_if-fold_if num keep agg_sum vs
      ∙ fold_if-select keep agg_sum 0 0 vs (initial num agg_sum)
      ∙ sym (reduce_if-fold_if num (λ i v. true) agg_sum (select keep 0 vs))
  reduce_if-select bound keep agg_min vs c h =
      reduce_if-fold_if num keep agg_min vs
      ∙ fold_if-select keep agg_min 0 0 vs (initial num agg_min)
      ∙ sym (reduce_if-fold_if num (λ i v. true) agg_min (select keep 0 vs))
  reduce_if-select bound keep agg_max vs c h =
      reduce_if-fold_if num keep agg_max vs
      ∙ fold_if-select keep agg_max 0 0 vs (initial num agg_max)
      ∙ sym (reduce_if-fold_if num (λ i v. true) agg_max (select keep 0 vs))

pub u32-Counting : Counting u32 (2 ^ 64 - 1)
u32-Counting = record { start = refl; step = λ n h. ground arith }

pub i64-Counting : (bound : ℕ) → Counting i64 bound
i64-Counting bound = record { start = refl; step = λ n h. omega arith }

-- Null flags that are all clear do not matter: the null-aware kernel then gives what the plain kernel
-- gives, for a column of at most `bound` rows.
pub reduce_all_nullable_clear {ℓ} :
    {A : Type ℓ} (num : Num A) (bound : ℕ) (op : AggOp) (vs : List A) (nulls : List ℕ)
    → Counting num bound
    → length vs ≤ bound
    → ((i : ℕ) → get_or nulls i 0 ≡ 0)
    → reduce_all_nullable num vs op nulls ≡ reduce_all num op vs
unfolding reduce_all_nullable
reduce_all_nullable_clear {A = A} num bound op vs nulls c h clear =
    reduce_if-select num bound (λ i v. not (is_null (some nulls) i)) op vs c h
    ∙ ap (λ xs. reduce_all num op xs)
        (select_all num (λ i v. not (is_null (some nulls) i)) 0 vs kept)
  where
    kept : (i : ℕ) (v : A) → not (is_null (some nulls) i) ≡ true
    kept i v = ground (arith, clear i)
