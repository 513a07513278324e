-- ===== src/Reduce/Values.antt =====
-- What MIN, MAX and SUM are of the rows that pass a test.
use mathlib.Core.List.{Memᴰ}
use matrixdb.Prelude.{
  ℕ, suc, ◌+◌, ◌*◌, ◌^◌, ◌%◌, ◌≤◌, ◌<◌, ◌≡◌, refl, ap, ◌∙◌, ◌⊎◌, inl, inr, Bool, true, List, [],
  ◌∷◌, length, ltb, Bool-cases, arith,
}
use matrixdb.Reduce.{AggOp, agg_sum, agg_min, agg_max, Num, u32, i64, order_i64, reduce_if}
use matrixdb.Reduce.Grouped.{initial, bump}
use matrixdb.Reduce.Cells.{fold_if, reduce_if-fold_if}
use matrixdb.Reduce.Select.{select, fold_if-select}

-- The comparison of a number type is that of the numbers that `ord` gives.
pub record Ordered {ℓ} {A : Type ℓ} (num : Num A) (ord : A → ℕ) : Type ℓ where
  pub less_ord : (a b : A) → num.less a b ≡ ltb (ord a) (ord b)

pub u32-Ordered : Ordered u32 (λ n. n)
u32-Ordered = record { less_ord = λ a b. refl }

pub i64-Ordered : Ordered i64 order_i64
i64-Ordered = record { less_ord = λ a b. refl }

-- `low` is at most, or `high` at least, every value of the list.
abbrev pub IsLower {ℓ} : {A : Type ℓ} → (A → ℕ) → A → List A → Type ℓ
IsLower ord low vs = (v : _) → Memᴰ v vs → ord low ≤ ord v

abbrev pub IsUpper {ℓ} : {A : Type ℓ} → (A → ℕ) → A → List A → Type ℓ
IsUpper ord high vs = (v : _) → Memᴰ v vs → ord v ≤ ord high

module _ {ℓ} {A : Type ℓ} (num : Num A) (ord : A → ℕ) (o : Ordered num ord) where
  lower_cons :
      (v : A) (vs : List A) (low w : A)
      → ord low ≤ ord v
      → IsLower ord low vs
      → Memᴰ w (v ∷ vs)
      → ord low ≤ ord w
  lower_cons v vs low w h all (Memᴰ.head e) = rw e h
  lower_cons v vs low w h all (Memᴰ.tail m) = all w m

  upper_cons :
      (v : A) (vs : List A) (high w : A)
      → ord v ≤ ord high
      → IsUpper ord high vs
      → Memᴰ w (v ∷ vs)
      → ord w ≤ ord high
  upper_cons v vs high w h all (Memᴰ.head e) = rw e h
  upper_cons v vs high w h all (Memᴰ.tail m) = all w m

  fold_if-cons :
      (op : AggOp) (i : ℕ) (v : A) (vs : List A) (cell c : A)
      → bump num op cell v ≡ c
      → fold_if num (λ i v. true) op i (v ∷ vs) cell ≡ fold_if num (λ i v. true) op (suc i) vs c
  unfolding fold_if
  fold_if-cons op i v vs cell c e = ap (λ t. fold_if num (λ i v. true) op (suc i) vs t) e

  min_fold :
      (i : ℕ) (vs : List A) (cell : A)
      → (ord (fold_if num (λ i v. true) agg_min i vs cell) ≤ ord cell)
        × IsLower ord (fold_if num (λ i v. true) agg_min i vs cell) vs
        × ((fold_if num (λ i v. true) agg_min i vs cell ≡ cell)
            ⊎ Memᴰ (fold_if num (λ i v. true) agg_min i vs cell) vs)
  unfolding bump
  min_fold i [] cell = unfold fold_if in (omega arith, (λ w m. elim m [ ]), inl refl)
  min_fold i (v ∷ vs) cell = elim (Bool-cases (num.less v cell)) [
    | inl less ↦
        let (below, all, from) = min_fold (suc i) vs v in
        let l : ord v < ord cell = ground (arith, o.less_ord v cell) in
        rw (fold_if-cons agg_min i v vs cell v (rw less)) (
          omega arith,
          (λ w m. lower_cons v vs _ w below all m),
          elim from [ inl here ↦ inr (Memᴰ.head here) | inr later ↦ inr (Memᴰ.tail later) ],
        )
    | inr more ↦
        let (below, all, from) = min_fold (suc i) vs cell in
        let l : ord cell ≤ ord v = ground (arith, o.less_ord v cell) in
        rw (fold_if-cons agg_min i v vs cell cell (rw more)) (
          below,
          (λ w m. lower_cons v vs _ w (omega arith) all m),
          elim from [ inl here ↦ inl here | inr later ↦ inr (Memᴰ.tail later) ],
        )
  ]

  max_fold :
      (i : ℕ) (vs : List A) (cell : A)
      → (ord cell ≤ ord (fold_if num (λ i v. true) agg_max i vs cell))
        × IsUpper ord (fold_if num (λ i v. true) agg_max i vs cell) vs
        × ((fold_if num (λ i v. true) agg_max i vs cell ≡ cell)
            ⊎ Memᴰ (fold_if num (λ i v. true) agg_max i vs cell) vs)
  unfolding bump
  max_fold i [] cell = unfold fold_if in (omega arith, (λ w m. elim m [ ]), inl refl)
  max_fold i (v ∷ vs) cell = elim (Bool-cases (num.less cell v)) [
    | inl less ↦
        let (above, all, from) = max_fold (suc i) vs v in
        let l : ord cell < ord v = ground (arith, o.less_ord cell v) in
        rw (fold_if-cons agg_max i v vs cell v (rw less)) (
          omega arith,
          (λ w m. upper_cons v vs _ w above all m),
          elim from [ inl here ↦ inr (Memᴰ.head here) | inr later ↦ inr (Memᴰ.tail later) ],
        )
    | inr more ↦
        let (above, all, from) = max_fold (suc i) vs cell in
        let l : ord v ≤ ord cell = ground (arith, o.less_ord cell v) in
        rw (fold_if-cons agg_max i v vs cell cell (rw more)) (
          above,
          (λ w m. upper_cons v vs _ w (omega arith) all m),
          elim from [ inl here ↦ inl here | inr later ↦ inr (Memᴰ.tail later) ],
        )
  ]

  -- MIN is at most every value of a row that passes, and is one of them or the sentinel; MAX is at
  -- least every value of a row that passes, and is one of them or the sentinel.
  pub extremes-reduce_if :
      (keep : ℕ → A → Bool) (vs : List A)
      → IsLower ord (reduce_if num keep agg_min vs) (select keep 0 vs)
        × ((reduce_if num keep agg_min vs ≡ num.greatest)
            ⊎ Memᴰ (reduce_if num keep agg_min vs) (select keep 0 vs))
        × IsUpper ord (reduce_if num keep agg_max vs) (select keep 0 vs)
        × ((reduce_if num keep agg_max vs ≡ num.least)
            ⊎ Memᴰ (reduce_if num keep agg_max vs) (select keep 0 vs))
  unfolding initial
  extremes-reduce_if keep vs =
      let (_, lower, low) = min_fold 0 (select keep 0 vs) num.greatest in
      let (_, upper, high) = max_fold 0 (select keep 0 vs) num.least in
      rw
        (
          reduce_if-fold_if num keep agg_min vs,
          reduce_if-fold_if num keep agg_max vs,
          fold_if-select num keep agg_min 0 0 vs num.greatest,
          fold_if-select num keep agg_max 0 0 vs num.least,
        )
        (lower, low, upper, high)

unfoldable pub total : List ℕ → ℕ
total [] = 0
total (v ∷ vs) = v + total vs

unfoldable pub AllBelow : ℕ → List ℕ → Type 0
AllBelow b [] = Unit
AllBelow b (v ∷ vs) = (v < b) × AllBelow b vs

sum_fold :
    (i : ℕ) (vs : List ℕ) (s : ℕ)
    → s < 2 ^ 64
    → fold_if u32 (λ i v. true) agg_sum i vs s ≡ (s + total vs) % 2 ^ 64
unfolding fold_if bump total
sum_fold i [] s h = omega arith
sum_fold i (v ∷ vs) s h = sum_fold (suc i) vs ((s + v) % 2 ^ 64) (omega arith) ∙ omega arith

total-select :
    (keep : ℕ → ℕ → Bool) (i : ℕ) (vs : List ℕ)
    → AllBelow (2 ^ 32) vs
    → total (select keep i vs) ≤ length vs * 2 ^ 32
unfolding total select AllBelow
total-select keep i [] h = omega arith
total-select keep i (v ∷ vs) h = ground (arith, total-select keep (suc i) vs h.1, h.0)

-- SUM over a `uint32_t` column of fewer than 2 ^ 32 rows does not overflow: it is the sum of the
-- values of the rows that pass.
pub sum-reduce_if :
    (keep : ℕ → ℕ → Bool) (vs : List ℕ)
    → AllBelow (2 ^ 32) vs
    → length vs < 2 ^ 32
    → reduce_if u32 keep agg_sum vs ≡ total (select keep 0 vs)
unfolding initial
sum-reduce_if keep vs h short =
    reduce_if-fold_if u32 keep agg_sum vs
    ∙ fold_if-select u32 keep agg_sum 0 0 vs 0
    ∙ sum_fold 0 (select keep 0 vs) 0 (omega arith)
    ∙ omega (arith, total-select keep 0 vs h)
