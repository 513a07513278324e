-- ===== src/Query/Project.antt =====
-- Projection and HAVING (compute_mock.cpp): the rows that match a filter, the values at given rows, and the groups whose
-- aggregate satisfies a comparison.
use matrixdb.Prelude.{
  ℕ, zero, suc, Bool, true, false, not, ◌&&◌, Option, none, some, List, [], ◌∷◌, leb, ltb, ◌==◌,
  if◌then◌else◌, get_elem?,
}
use matrixdb.Prelude.Maps.{◌>>=◌, ◌>>◌, guard}
use matrixdb.Reduce.{MatrixCmp, gt, ge, lt, le, eq, ne, between, Predicate, matrix_pred_match}
use matrixdb.Catalog.{
  MatrixType, t_u32, t_i64, t_f64, TierApi, Catalog, u32_values, i64_values, catalog_has,
  column_type, column_rows, read_one, borrow, give_back, host_bytes,
}
use matrixdb.Query.{
  MatrixQuery, MatrixQueryStatus, status_ok, err_unknown_column, err_invalid_group,
  err_too_many_groups, err_unsupported_type, err_parse, Double,
}
use matrixdb.Query.Execute.{execute_query, Outcome}

-- The values as `gather` encodes them: a `uint32_t` as it is, the others as their word.
unfoldable pub encoded : MatrixType → List ℕ → List ℕ
encoded t_u32 bytes = u32_values bytes
encoded t_i64 bytes = i64_values bytes
encoded t_f64 bytes = i64_values bytes

-- The value at each row; `none` is the assertion that a row is in range.
unfoldable pub pick_rows : List ℕ → List ℕ → Option (List ℕ)
pick_rows vals [] = some []
pick_rows vals (r ∷ rows) = do v ← get_elem? vals r; out ← pick_rows vals rows; some (v ∷ out)

-- The rows from `i` on that match, up to `limit` (0 is no limit), of which `found` have been found.
unfoldable pub match_rows : Predicate ℕ → ℕ → ℕ → ℕ → List ℕ → List ℕ
match_rows pred limit found i [] = []
match_rows pred limit found i (f ∷ fs) =
    let more = match_rows pred limit (suc found) (suc i) fs in
    let skipped = match_rows pred limit found (suc i) fs in
    if matrix_pred_match f pred
    then i ∷ (if not (limit == 0) && leb limit (suc found) then [] else more)
    else skipped

-- the rows from `i` on, `n` of them
unfoldable pub first_rows : ℕ → ℕ → List ℕ
first_rows i zero = []
first_rows i (suc n) = i ∷ first_rows (suc i) n

unfoldable pub cap_rows : ℕ → ℕ → ℕ
cap_rows limit n = if not (limit == 0) && ltb limit n then limit else n

unfoldable pub cmp_u64 : MatrixCmp → ℕ → ℕ → ℕ → Bool
cmp_u64 ge v a b = leb a v
cmp_u64 lt v a b = ltb v a
cmp_u64 le v a b = leb v a
cmp_u64 eq v a b = v == a
cmp_u64 ne v a b = not (v == a)
cmp_u64 between v a b = leb a v && leb v b
cmp_u64 gt v a b = ltb a v

-- the groups from `g` on whose aggregate passes, with it
unfoldable pub having_groups : MatrixCmp → ℕ → ℕ → ℕ → List ℕ → List (ℕ × ℕ)
having_groups cmp threshold upper g [] = []
having_groups cmp threshold upper g (v ∷ out) =
    let rest = having_groups cmp threshold upper (suc g) out in
    if cmp_u64 cmp v threshold upper then (g, v) ∷ rest else rest

abbrev pub is_ok : MatrixQueryStatus → Bool
is_ok status_ok = true
is_ok err_unknown_column = false
is_ok err_invalid_group = false
is_ok err_too_many_groups = false
is_ok err_unsupported_type = false
is_ok err_parse = false

module _ {T : Type 0} where
  unfoldable pub gather : ℕ → List ℕ → Catalog T → Option (List ℕ × Catalog T)
  gather col_id rows s = do
    guard (catalog_has col_id s)
    lent ← borrow col_id s
    bytes ← host_bytes col_id lent.1
    out ← pick_rows (encoded (column_type col_id s) bytes) rows
    s ← give_back col_id lent.0 lent.1
    some (out, s)

  module _ (api : TierApi T) where
    unfoldable pub matching_rows : ℕ → Predicate ℕ → ℕ → Catalog T → Option (List ℕ × Catalog T)
    matching_rows filter_col pred limit s =
        read_one api filter_col (λ bytes. match_rows pred limit 0 0 (u32_values bytes)) s

    -- The filter column and its predicate, if there is a filter.
    unfoldable pub project :
        ℕ → Option (ℕ × Predicate ℕ) → ℕ → Catalog T → Option (List ℕ × Catalog T)
    project col_id none limit s =
        gather col_id (first_rows 0 (cap_rows limit (column_rows col_id s))) s
    project col_id (some (filter_col, pred)) limit s =
        matching_rows filter_col pred limit s >>= λ r. gather col_id r.0 r.1

    unfoldable pub having :
        {F : Type 0}
        → Double F
        → MatrixQuery
        → MatrixCmp
        → ℕ
        → ℕ
        → Catalog T
        → Option (List (ℕ × ℕ) × Catalog T)
    having dbl q cmp threshold upper s =
        let run : Outcome T = execute_query dbl api q s in
        if not q.grouped
        then some ([], s)
        else run >>= λ r.
            some (if is_ok r.0.0 then having_groups cmp threshold upper 0 r.0.1 else [], r.1)
