-- ===== src/Query/Rows/Kernels.antt =====
-- The kernels that `execute_query` (compute_mock.cpp) calls against the rows that a query asks for.
use matrixdb.Prelude.{
  ℕ, zero, suc, ◌<◌, ◌≡◌, refl, ap, ap₂, ◌∙◌, inl, inr, Bool, true, false, not, ◌&&◌, Option,
  Bool-cases, none, some, List, [], ◌∷◌, length, get_or, map, ◌==◌, if◌then◌else◌, arith,
}
use matrixdb.Prelude.Maps.{find}
use matrixdb.Reduce.{
  AggOp, Num, u32, Predicate, is_null, pred_match, reduce_if, reduce_all, reduce_pred,
  reduce_all_nullable, reduce_filtered_by,
}
use matrixdb.Reduce.Grouped.{group_reduce_impl, group_reduce_filtered_by}
use matrixdb.Reduce.Cells.{
  passes, length-group_reduce_if, cell-group_reduce_impl, cell-group_reduce_filtered_by,
}
use matrixdb.Catalog.{Catalog}
use matrixdb.Query.{MatrixQuery, pred_u32}
use matrixdb.Query.Execute.{when}
use mathlib.Core.Path.{fun_ext}
use matrixdb.Query.Rows.{
  tabulate, filters_other, flags, entries, matches, counts, counts_in, aggregates,
}

tabulate-get_or {ℓ} :
    {A : Type ℓ} (n : ℕ) (xs : List A) (d : A) (f : ℕ → A)
    → length xs ≡ n
    → ((g : ℕ) → g < n → get_or xs g d ≡ f g)
    → xs ≡ tabulate n f
unfolding tabulate
tabulate-get_or zero [] d f e h = refl
tabulate-get_or zero (x ∷ xs) d f e h = absurd (omega arith)
tabulate-get_or (suc n) [] d f e h = absurd (omega arith)
tabulate-get_or (suc n) (x ∷ xs) d f e h =
    ap₂ (λ y ys. y ∷ ys) (h 0 (omega arith))
      (tabulate-get_or n xs d (λ i. f (suc i)) (omega arith) (λ g p. h (suc g) (omega arith)))

map-tabulate {ℓ κ} :
    {A : Type ℓ} {B : Type κ} (n : ℕ) (f : A → B) (g : ℕ → A)
    → map f (tabulate n g) ≡ tabulate n (λ i. f (g i))
unfolding tabulate
map-tabulate zero f g = refl
map-tabulate (suc n) f g = ap (λ xs. f (g 0) ∷ xs) (map-tabulate n f (λ i. g (suc i)))

reduce_if-same {ℓ} :
    {A : Type ℓ} (num : Num A) (k l : ℕ → A → Bool) (op : AggOp) (vs : List A)
    → ((i : ℕ) (v : A) → k i v ≡ l i v)
    → reduce_if num k op vs ≡ reduce_if num l op vs
reduce_if-same num k l op vs h = ap (λ f. reduce_if num f op vs) (fun_ext λ i. fun_ext λ v. h i v)

length-group_reduce_impl {ℓ} :
    {A : Type ℓ} (num : Num A) (filter : Option (Predicate A)) (keys : List ℕ) (vs : List A)
    (num_groups : ℕ) (op : AggOp) (nulls : Option (List ℕ))
    → length (group_reduce_impl num filter keys vs num_groups op nulls) ≡ num_groups
unfolding group_reduce_impl
length-group_reduce_impl num none keys vs n op nulls = length-group_reduce_if num keys n op _ _ vs
length-group_reduce_impl num (some f) keys vs n op nulls =
    length-group_reduce_if num keys n op _ _ vs

length-group_reduce_filtered_by {ℓ} :
    {A : Type ℓ} (num : Num A) (keys f : List ℕ) (fp : Predicate ℕ) (vs : List A) (num_groups : ℕ)
    (op : AggOp)
    → length (group_reduce_filtered_by num keys f fp vs num_groups op) ≡ num_groups
unfolding group_reduce_filtered_by
length-group_reduce_filtered_by num keys f fp vs n op = length-group_reduce_if num keys n op _ _ vs

if_true {ℓ} : {A : Type ℓ} {b : Bool} (x y : A) → b ≡ true → x ≡ (if b then x else y)
if_true x y e = rw e refl

module _ {T : Type 0} (q : MatrixQuery) (s : Catalog T) where
  module _ {A : Type 0} (num : Num A) (pred : Predicate A) (word : A → ℕ) (vs : List A) where
    pub scan_aggregates :
        q.grouped ≡ false
        → filters_other q s ≡ false
        → find q.value_col s.null_masks ≡ none
        → word
              (if q.has_filter then reduce_pred num vs pred q.agg none else reduce_all num q.agg vs)
            ∷ []
          ≡ aggregates q s num pred word vs
    unfolding aggregates flags counts matches reduce_pred reduce_if reduce_all filters_other
    scan_aggregates g c m = elim (Bool-cases q.has_filter) [
      | inl h ↦
          rw (g, c, m, h)
            (ap (λ x. word x ∷ [])
              (reduce_if-same num _ _ q.agg vs λ i v. ground (arith, g, c, m, h)))
      | inr h ↦ rw (g, c, m, h) refl
    ]

    pub nullable_aggregates :
        (nulls : List ℕ)
        → q.grouped ≡ false
        → filters_other q s ≡ false
        → find q.value_col s.null_masks ≡ some nulls
        → word (
              if q.has_filter
              then reduce_pred num vs pred q.agg (some nulls)
              else reduce_all_nullable num vs q.agg nulls)
            ∷ []
          ≡ aggregates q s num pred word vs
    unfolding aggregates flags counts matches reduce_pred reduce_all_nullable reduce_if
        filters_other reduce_all
    nullable_aggregates nulls g c m = elim (Bool-cases q.has_filter) [
      | inl h ↦
          rw (g, c, m, h)
            (ap (λ x. word x ∷ [])
              (reduce_if-same num _ _ q.agg vs λ i v. ground (arith, g, c, m, h)))
      | inr h ↦
          rw (g, c, m, h)
            (ap (λ x. word x ∷ [])
              (reduce_if-same num _ _ q.agg vs λ i v. ground (arith, g, c, m, h)))
    ]

    pub other_aggregates :
        q.grouped ≡ false
        → filters_other q s ≡ true
        → q.has_filter ≡ true
        → word (reduce_filtered_by num (entries q s q.filter_col) (pred_u32 q) vs q.agg) ∷ []
          ≡ aggregates q s num pred word vs
    unfolding aggregates flags counts matches reduce_filtered_by reduce_if filters_other reduce_all
    other_aggregates g c h =
        rw (g, c, h)
          (ap (λ x. word x ∷ []) (reduce_if-same num _ _ q.agg vs λ i v. ground (arith, g, c, h)))

    -- a row of the group in the kernel's order of the tests
    same_row :
        (nulls : Option (List ℕ))
        → filters_other q s ≡ false
        → find q.value_col s.null_masks ≡ nulls
        → (g i : ℕ) (v : A)
        → (not (is_null nulls i)
            && (get_or (entries q s q.key_col) i 0 == g && passes num (when q.has_filter pred) v))
          ≡ counts_in q s num pred g i v
    unfolding counts_in counts matches flags when passes
    same_row nulls c m g i v = elim (Bool-cases q.has_filter) [
      | inl h ↦ ground (arith, c, m, h)
      | inr h ↦ ground (arith, c, m, h)
    ]

    same_other :
        filters_other q s ≡ true
        → q.has_filter ≡ true
        → (g i : ℕ) (v : A)
        → (get_or (entries q s q.key_col) i 0 == g
            && pred_match u32 (get_or (entries q s q.filter_col) i 0) (pred_u32 q))
          ≡ counts_in q s num pred g i v
    unfolding counts_in counts matches flags
    same_other c h g i v = ground (arith, c, h)

    -- the cells of every group
    pub groups_tabulate :
        (nulls : Option (List ℕ))
        → filters_other q s ≡ false
        → find q.value_col s.null_masks ≡ nulls
        → group_reduce_impl num
            (when q.has_filter pred)
            (entries q s q.key_col)
            vs
            q.num_groups
            q.agg
            nulls
          ≡ tabulate q.num_groups (λ g. reduce_if num (counts_in q s num pred g) q.agg vs)
    groups_tabulate nulls c m =
        tabulate-get_or q.num_groups _ num.nought _
          (length-group_reduce_impl num (when q.has_filter pred) (entries q s q.key_col) vs
            q.num_groups q.agg nulls)
          λ g p.
            (cell-group_reduce_impl num (when q.has_filter pred) (entries q s q.key_col) vs
              q.num_groups q.agg nulls g p).1
            ∙ reduce_if-same num _ _ q.agg vs (same_row nulls c m g)

    pub other_tabulate :
        filters_other q s ≡ true
        → q.has_filter ≡ true
        → group_reduce_filtered_by num
            (entries q s q.key_col)
            (entries q s q.filter_col)
            (pred_u32 q)
            vs
            q.num_groups
            q.agg
          ≡ tabulate q.num_groups (λ g. reduce_if num (counts_in q s num pred g) q.agg vs)
    other_tabulate c h =
        tabulate-get_or q.num_groups _ num.nought _
          (length-group_reduce_filtered_by num (entries q s q.key_col) (entries q s q.filter_col)
            (pred_u32 q) vs q.num_groups q.agg)
          λ g p.
            (cell-group_reduce_filtered_by num (entries q s q.key_col) (entries q s q.filter_col)
              (pred_u32 q) vs q.num_groups q.agg g p).1
            ∙ reduce_if-same num _ _ q.agg vs (same_other c h g)

    pub grouped_aggregates :
        (cells : List A)
        → q.grouped ≡ true
        → cells ≡ tabulate q.num_groups (λ g. reduce_if num (counts_in q s num pred g) q.agg vs)
        → map word cells ≡ aggregates q s num pred word vs
    unfolding aggregates
    grouped_aggregates cells g e =
        ap (map word) e ∙ map-tabulate q.num_groups word _ ∙ if_true _ _ g

pub map_id : (xs : List ℕ) → xs ≡ map (λ n. n) xs
map_id [] = refl
map_id (x ∷ xs) = ap (λ ys. x ∷ ys) (map_id xs)
