-- ===== src/Reduce/Cells.antt =====
-- The cells of GROUP BY against the scalar kernels.
use matrixdb.Prelude.{
  ℕ, zero, suc, ◌<◌, ◌≡◌, refl, ap, sym, ◌∙◌, inl, inr, Bool, true, false, not, ◌&&◌, Option, none,
  some, List, [], ◌∷◌, length, get_or, set, replicate, length-set, length-replicate, leb, ◌==◌,
  if◌then◌else◌, Bool-cases, arith,
}
use matrixdb.Reduce.{
  AggOp, agg_count, agg_sum, agg_min, agg_max, Num, u32, Predicate, is_null, pred_match, sum_loop,
  min_loop, max_loop, count_loop, reduce_if,
}
use matrixdb.Reduce.Grouped.{
  initial, bump, group_row, group_loop, group_reduce_if, group_reduce_impl,
  group_reduce_filtered_by,
}

get_or-set {ℓ} :
    {A : Type ℓ} (out : List A) (k : ℕ) (v : A) (g : ℕ) (d : A)
    → g < length out
    → get_or (set out k v) g d ≡ (if k == g then v else get_or out g d)
get_or-set [] k v g d h = absurd (omega arith)
get_or-set (x ∷ out) zero v zero d h = refl
get_or-set (x ∷ out) zero v (suc g) d h = ground arith
get_or-set (x ∷ out) (suc k) v zero d h = ground arith
get_or-set (x ∷ out) (suc k) v (suc g) d h = ground (arith, get_or-set out k v g d (omega arith))

get_or-replicate {ℓ} :
    {A : Type ℓ} (n : ℕ) (x : A) (g : ℕ) (d : A) → g < n → get_or (replicate n x) g d ≡ x
get_or-replicate zero x g d h = absurd (omega arith)
get_or-replicate (suc n) x zero d h = refl
get_or-replicate (suc n) x (suc g) d h = get_or-replicate n x g d (omega arith)

-- whether a value passes the filter, if there is one
unfoldable pub passes {ℓ} : {A : Type ℓ} → Num A → Option (Predicate A) → A → Bool
passes num none v = true
passes num (some p) v = pred_match num v p

module _ {ℓ} {A : Type ℓ} (num : Num A) where
  -- the four loops as one
  unfoldable pub fold_if : (ℕ → A → Bool) → AggOp → ℕ → List A → A → A
  fold_if keep op i [] cell = cell
  fold_if keep op i (v ∷ vs) cell =
      fold_if keep op (suc i) vs (if keep i v then bump num op cell v else cell)

  module _ (keep : ℕ → A → Bool) where
    sum_loop-fold_if :
        (i : ℕ) (vs : List A) (s : A) → sum_loop num keep i vs s ≡ fold_if keep agg_sum i vs s
    unfolding sum_loop fold_if bump
    sum_loop-fold_if i [] s = refl
    sum_loop-fold_if i (v ∷ vs) s = sum_loop-fold_if (suc i) vs _

    count_loop-fold_if :
        (i : ℕ) (vs : List A) (s : A) → count_loop num keep i vs s ≡ fold_if keep agg_count i vs s
    unfolding count_loop fold_if bump
    count_loop-fold_if i [] s = refl
    count_loop-fold_if i (v ∷ vs) s = count_loop-fold_if (suc i) vs _

    min_loop-fold_if :
        (i : ℕ) (vs : List A) (s : A) → min_loop num keep i vs s ≡ fold_if keep agg_min i vs s
    unfolding min_loop fold_if bump
    min_loop-fold_if i [] s = refl
    min_loop-fold_if i (v ∷ vs) s =
        ap (λ m. min_loop num keep (suc i) vs m) (ground arith)
        ∙ min_loop-fold_if (suc i) vs (if keep i v then bump num agg_min s v else s)

    max_loop-fold_if :
        (i : ℕ) (vs : List A) (s : A) → max_loop num keep i vs s ≡ fold_if keep agg_max i vs s
    unfolding max_loop fold_if bump
    max_loop-fold_if i [] s = refl
    max_loop-fold_if i (v ∷ vs) s =
        ap (λ m. max_loop num keep (suc i) vs m) (ground arith)
        ∙ max_loop-fold_if (suc i) vs (if keep i v then bump num agg_max s v else s)

    pub reduce_if-fold_if :
        (op : AggOp) (vs : List A)
        → reduce_if num keep op vs ≡ fold_if keep op 0 vs (initial num op)
    unfolding reduce_if initial
    reduce_if-fold_if agg_count vs = count_loop-fold_if 0 vs num.nought
    reduce_if-fold_if agg_sum vs = sum_loop-fold_if 0 vs num.nought
    reduce_if-fold_if agg_min vs = min_loop-fold_if 0 vs num.greatest
    reduce_if-fold_if agg_max vs = max_loop-fold_if 0 vs num.least

  module _ (keys : List ℕ) (num_groups : ℕ) (op : AggOp) (null : ℕ → Bool)
      (match : ℕ → A → Bool) where
    length-group_row :
        (nl mt : Bool) (i : ℕ) (v : A) (out : List A)
        → length (group_row num keys num_groups op nl mt i v out) ≡ length out
    unfolding group_row
    length-group_row nl mt i v out = ground (
      arith,
      length-set out (get_or keys i 0) (bump num op (get_or out (get_or keys i 0) num.nought) v),
    )

    length-group_loop :
        (i : ℕ) (vs : List A) (out : List A)
        → length (group_loop num keys num_groups op null match i vs out) ≡ length out
    unfolding group_loop
    length-group_loop i [] out = refl
    length-group_loop i (v ∷ vs) out =
        length-group_loop (suc i) vs _ ∙ length-group_row (null i) (match i v) i v out

    -- A row that is no null and in range: it writes its cell if it passes the filter.
    cell-set :
        (g k : ℕ) (mt : Bool) (v : A) (out : List A)
        → g < length out
        → get_or
            (if not mt then out else set out k (bump num op (get_or out k num.nought) v))
            g
            num.nought
          ≡ (if (k == g) && mt
              then bump num op (get_or out g num.nought) v
              else get_or out g num.nought)
    cell-set g k false v out p = elim (Bool-cases (k == g)) [
      | inl here ↦ rw here
      | inr away ↦ rw away
    ]
    cell-set g k true v out p =
        rw (get_or-set out k (bump num op (get_or out k num.nought) v) g num.nought p)
          (elim (Bool-cases (k == g)) [
            | inl here ↦
                let same : k ≡ g = ground arith in
                rw here (ap (λ k. bump num op (get_or out k num.nought) v) same)
            | inr away ↦ rw away
          ])

    -- What one row does to the cell of the group `g`.
    cell-group_row :
        (g : ℕ) (nl mt : Bool) (i : ℕ) (v : A) (out : List A)
        → g < num_groups
        → length out ≡ num_groups
        → get_or (group_row num keys num_groups op nl mt i v out) g num.nought ≡ (
            if not nl && (get_or keys i 0 == g && mt)
            then bump num op (get_or out g num.nought) v
            else get_or out g num.nought)
    unfolding group_row
    cell-group_row g true mt i v out p q = refl
    cell-group_row g false mt i v out p q = elim (Bool-cases (leb num_groups (get_or keys i 0))) [
      | inl outside ↦
          let other : (get_or keys i 0 == g) ≡ false = ground arith in rw (outside, other)
      | inr inside ↦ rw inside (cell-set g (get_or keys i 0) mt v out (omega arith))
    ]

    cell-group_loop :
        (g i : ℕ) (vs out : List A)
        → g < num_groups
        → length out ≡ num_groups
        → get_or (group_loop num keys num_groups op null match i vs out) g num.nought
          ≡ fold_if
              (λ j v. not (null j) && (get_or keys j 0 == g && match j v))
              op
              i
              vs
              (get_or out g num.nought)
    unfolding group_loop fold_if
    cell-group_loop g i [] out p q = refl
    cell-group_loop g i (v ∷ vs) out p q =
        cell-group_loop g (suc i) vs (group_row num keys num_groups op (null i) (match i v) i v out)
          p (length-group_row (null i) (match i v) i v out ∙ q)
        ∙ ap
            (λ c.
              fold_if (λ j v'. not (null j) && (get_or keys j 0 == g && match j v')) op (suc i) vs
                c)
            (cell-group_row g (null i) (match i v) i v out p q)

    pub length-group_reduce_if :
        (vs : List A) → length (group_reduce_if num keys num_groups op null match vs) ≡ num_groups
    unfolding group_reduce_if
    length-group_reduce_if vs =
        length-group_loop 0 vs (replicate num_groups (initial num op))
        ∙ length-replicate num_groups (initial num op)

    pub cell-group_reduce_if :
        (g : ℕ) (vs : List A)
        → g < num_groups
        → get_or (group_reduce_if num keys num_groups op null match vs) g num.nought
          ≡ reduce_if num (λ j v. not (null j) && (get_or keys j 0 == g && match j v)) op vs
    unfolding group_reduce_if
    cell-group_reduce_if g vs p =
        cell-group_loop g 0 vs (replicate num_groups (initial num op)) p
          (length-replicate num_groups (initial num op))
        ∙ ap (λ c. fold_if (λ j v. not (null j) && (get_or keys j 0 == g && match j v)) op 0 vs c)
            (get_or-replicate num_groups (initial num op) g num.nought p)
        ∙ sym (reduce_if-fold_if (λ j v. not (null j) && (get_or keys j 0 == g && match j v)) op vs)

-- The cell of a group `g` below `num_groups` is the scalar reduction of the rows that are no nulls,
-- have the key `g` and pass the filter, if there is one; and there are `num_groups` cells.
pub cell-group_reduce_impl {ℓ} :
    {A : Type ℓ} (num : Num A) (filter : Option (Predicate A)) (keys : List ℕ) (vs : List A)
    (num_groups : ℕ) (op : AggOp) (nulls : Option (List ℕ)) (g : ℕ)
    → g < num_groups
    → (length (group_reduce_impl num filter keys vs num_groups op nulls) ≡ num_groups)
      × (get_or (group_reduce_impl num filter keys vs num_groups op nulls) g num.nought
          ≡ reduce_if num
              (λ i v. not (is_null nulls i) && (get_or keys i 0 == g && passes num filter v))
              op
              vs)
unfolding group_reduce_impl passes
cell-group_reduce_impl num none keys vs num_groups op nulls g p = (
  length-group_reduce_if num keys num_groups op (is_null nulls) (λ i v. true) vs,
  cell-group_reduce_if num keys num_groups op (is_null nulls) (λ i v. true) g vs p,
)
cell-group_reduce_impl num (some f) keys vs num_groups op nulls g p = (
  length-group_reduce_if num keys num_groups op (is_null nulls) (λ i v. pred_match num v f) vs,
  cell-group_reduce_if num keys num_groups op (is_null nulls) (λ i v. pred_match num v f) g vs p,
)

-- With a filter on a second column, the cell of a group `g` below `num_groups` is the scalar
-- reduction of the rows with the key `g` whose entry in the filter column matches.
pub cell-group_reduce_filtered_by {ℓ} :
    {A : Type ℓ} (num : Num A) (keys f : List ℕ) (fp : Predicate ℕ) (vs : List A) (num_groups : ℕ)
    (op : AggOp) (g : ℕ)
    → g < num_groups
    → (length (group_reduce_filtered_by num keys f fp vs num_groups op) ≡ num_groups)
      × (get_or (group_reduce_filtered_by num keys f fp vs num_groups op) g num.nought
          ≡ reduce_if num (λ i v. get_or keys i 0 == g && pred_match u32 (get_or f i 0) fp) op vs)
unfolding group_reduce_filtered_by
cell-group_reduce_filtered_by num keys f fp vs num_groups op g p = (
  length-group_reduce_if num keys num_groups op (λ i. false)
      (λ i v. pred_match u32 (get_or f i 0) fp) vs,
  cell-group_reduce_if num keys num_groups op (λ i. false) (λ i v. pred_match u32 (get_or f i 0) fp)
      g vs p,
)
