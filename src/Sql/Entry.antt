-- ===== src/Sql/Entry.antt =====
-- The entry points of compute_mock.cpp that take a query string, but for `query_multi`: `avg_query`, `top_query`,
-- `having_query`, `project_query` and `distinct_query`, with `average` and `top_groups` behind them. `partial_sort` and
-- the arithmetic of `double` are parameters; an index of the source is the list of the tokens from there on.
pub mod Rewritten
use matrixdb.Prelude.{
  ℕ, zero, suc, ◌+◌, Bool, true, false, not, ◌&&◌, ◌||◌, Option, none, some, List, [], ◌∷◌, ◌++◌,
  length, ltb, leb, ◌==◌, if◌then◌else◌, take,
}
use matrixdb.Prelude.Maps.{◌>>=◌}
use matrixdb.Reduce.{AggOp, agg_count, agg_sum, agg_min, agg_max, MatrixCmp, Predicate}
use matrixdb.Catalog.{
  MatrixType, t_u32, t_i64, t_f64, same_type, TierApi, Catalog, column_type, column_rows,
}
use matrixdb.Query.{MatrixQuery, MatrixQueryStatus, status_ok, Double}
use matrixdb.Query.Execute.{execute_query, Outcome}
use matrixdb.Query.Joins.{count_distinct}
use matrixdb.Query.Project.{is_ok, project, having}
use matrixdb.Sql.{Text, codes, up, same_text, matrixparse_tokenize, join}
use matrixdb.Sql.Strings.{Strings}
use matrixdb.Sql.Literals.{Parsed, parsed, refused, column_id, from_chars, is_word, cmp_named}
use matrixdb.Sql.Parse.{parse_query}

-- the arithmetic of `average`
pub record Mean (F : Type 0) : Type 0 where
  pub of_u64 : ℕ → F
  pub of_i64 : ℕ → F
  pub of_word : ℕ → F
  pub is_zero : F → Bool
  pub quotient : F → F → F
  pub nan : F

unfoldable pub sum_read : {F : Type 0} → Mean F → MatrixType → ℕ → F
sum_read m t_f64 w = m.of_word w
sum_read m t_i64 w = m.of_i64 w
sum_read m t_u32 w = m.of_u64 w

unfoldable pub count_read : {F : Type 0} → Mean F → MatrixType → ℕ → F
count_read m t_f64 w = m.of_word w
count_read m t_i64 w = m.of_u64 w
count_read m t_u32 w = m.of_u64 w

unfoldable pub mean_of : {F : Type 0} → Mean F → MatrixType → ℕ → ℕ → F
mean_of m ty sum count =
    if m.is_zero (count_read m ty count)
    then m.nan
    else m.quotient (sum_read m ty sum) (count_read m ty count)

unfoldable pub means_of : {F : Type 0} → Mean F → MatrixType → List ℕ → List ℕ → List F
means_of m ty [] cv = []
means_of m ty (s ∷ sv) [] = []
means_of m ty (s ∷ sv) (c ∷ cv) = mean_of m ty s c ∷ means_of m ty sv cv

-- the groups from `g` on with their aggregates
unfoldable pub numbered : ℕ → List ℕ → List (ℕ × ℕ)
numbered g [] = []
numbered g (v ∷ out) = (g, v) ∷ numbered (suc g) out

-- the tokens before the first HAVING, and those behind it
unfoldable pub split_having : List Text → Option (List Text × List Text)
split_having [] = none
split_having (t ∷ ts) =
    let rest = split_having ts in
    if is_word t (codes "HAVING") then some ([], ts) else rest >>= λ r. some (t ∷ r.0, r.1)

abbrev pub agg_name : AggOp → Text
agg_name agg_count = codes "COUNT"
agg_name agg_sum = codes "SUM"
agg_name agg_min = codes "MIN"
agg_name agg_max = codes "MAX"

abbrev pub limit_only : Option ℕ → Option (List Text × ℕ)
limit_only none = none
limit_only (some limit) = some ([], limit)

-- the WHERE region and the limit; `none` is a malformed LIMIT
unfoldable pub split_limit : List Text → Option (List Text × ℕ)
split_limit [] = some ([], 0)
split_limit (t ∷ []) = if is_word t (codes "LIMIT") then none else some (t ∷ [], 0)
split_limit (t ∷ n ∷ ts) =
    let rest = split_limit (n ∷ ts) in
    if is_word t (codes "LIMIT")
    then (if length ts == 0 then limit_only (from_chars 64 n) else none)
    else rest >>= λ r. some (t ∷ r.0, r.1)

unfoldable pub starts_with_paren : List Text → Bool
starts_with_paren [] = false
starts_with_paren (t ∷ ts) = same_text t (codes "(")

-- What a call leaves: a result, or the empty one, and the catalog.
abbrev pub Reply : Type 0 → Type 0 → Type 0
Reply A T = Option (List A × Catalog T)

module _ {T F : Type 0} (dbl : Double F) (mean : Mean F) (api : TierApi T)
    (partial_sort : ℕ → List (ℕ × ℕ) → List (ℕ × ℕ)) where
  unfoldable pub average : MatrixQuery → Catalog T → Reply F T
  average q s =
      let sums : Outcome T = execute_query dbl api (record q { agg = agg_sum }) s in
      sums >>= λ r.
      let counts : Outcome T = execute_query dbl api (record q { agg = agg_count }) r.1 in
      if not (is_ok r.0.0)
      then some ([], r.1)
      else counts >>= λ c. some (
        if is_ok c.0.0 && length r.0.1 == length c.0.1
            then means_of mean (column_type q.value_col c.1) r.0.1 c.0.1
            else [],
        c.1,
      )

  unfoldable pub top_groups : MatrixQuery → ℕ → Catalog T → Reply (ℕ × ℕ) T
  top_groups q k s =
      let run : Outcome T = execute_query dbl api q s in
      if not q.grouped
      then some ([], s)
      else run >>= λ r. some (
        if is_ok r.0.0
            then take (if ltb (length r.0.1) k then length r.0.1 else k)
                (partial_sort (if ltb (length r.0.1) k then length r.0.1 else k) (numbered 0 r.0.1))
            else [],
        r.1,
      )

  module _ (strtod : Text → Option ℕ) (names : List (Text × ℕ)) (g : Strings) where
    unfoldable pub parse_then :
        {A : Type 0} → Text → (MatrixQuery → Catalog T → Reply A T) → Catalog T → Reply A T
    parse_then sql run s = parse_query strtod names g sql s >>= λ r.
        if is_ok r.0.0 then run r.0.1 r.1 else some ([], r.1)

    unfoldable pub avg_tokens : List Text → Catalog T → Reply F T
    avg_tokens [] s = some ([], s)
    avg_tokens (t ∷ []) s = some ([], s)
    avg_tokens (t ∷ a ∷ tk) s =
        if is_word a (codes "AVG")
        then parse_then (join (t ∷ codes "SUM" ∷ tk)) average s
        else some ([], s)

    unfoldable pub avg_query : Text → Catalog T → Reply F T
    avg_query sql s = avg_tokens (matrixparse_tokenize sql) s

    unfoldable pub top_query : Text → Catalog T → Reply (ℕ × ℕ) T
    top_query sql s =
        parse_then sql
          (λ q s. if not q.grouped || q.limit == 0 then some ([], s) else top_groups q q.limit s) s

    -- the aggregate, a comparison and a number, of a grouped query
    unfoldable pub having_of : Text → Text → Text → MatrixQuery → Catalog T → Reply (ℕ × ℕ) T
    having_of key op v q s =
        if q.grouped && (is_word key (agg_name q.agg) || column_id names key == q.value_col)
        then elim (cmp_named op) [
          | refused st ↦ some ([], s)
          | parsed cmp ↦ elim (from_chars 64 v) [
            | none ↦ some ([], s)
            | some threshold ↦ having api dbl q cmp threshold 0 s
          ]
        ]
        else some ([], s)

    unfoldable pub having_tokens : List Text → List Text → Catalog T → Reply (ℕ × ℕ) T
    having_tokens head (key ∷ op ∷ v ∷ []) s = parse_then (join head) (having_of key op v) s
    having_tokens head tail s = some ([], s)

    unfoldable pub having_query : Text → Catalog T → Reply (ℕ × ℕ) T
    having_query sql s = elim (split_having (matrixparse_tokenize sql)) [
      | none ↦ some ([], s)
      | some r ↦ having_tokens r.0 r.1 s
    ]

    -- the projection of a column with the filter of a parsed query
    unfoldable pub project_filtered : ℕ → ℕ → ℕ → MatrixQuery → Catalog T → Reply ℕ T
    project_filtered col_id fcol_id limit q s =
        if q.has_filter && column_rows fcol_id s == column_rows col_id s
        then project api col_id
            (some (fcol_id, record { cmp = q.cmp; a = q.threshold; b = q.upper })) limit s
        else some ([], s)

    -- Of WHERE alone the parser would make nothing, whatever the columns are called.
    unfoldable pub project_where : ℕ → List Text → ℕ → Catalog T → Reply ℕ T
    project_where col_id [] limit s = project api col_id none limit s
    project_where col_id (w ∷ []) limit s = some ([], s)
    project_where col_id (w ∷ fcol ∷ tk) limit s =
        let fcol_id = column_id names fcol in
        if is_word w (codes "WHERE")
          && not (fcol_id == 0)
          && same_type (column_type fcol_id s) t_u32
        then parse_then
            (join (codes "SELECT" ∷ codes "COUNT" ∷ codes "(" ∷ fcol ∷ codes ")" ∷ w ∷ fcol ∷ tk))
            (project_filtered col_id fcol_id limit) s
        else some ([], s)

    unfoldable pub project_tokens : List Text → Catalog T → Reply ℕ T
    project_tokens (select ∷ col ∷ tk) s =
        if is_word select (codes "SELECT")
          && not (starts_with_paren tk)
          && not (column_id names col == 0)
        then elim (split_limit tk) [
          | none ↦ some ([], s)
          | some r ↦ project_where (column_id names col) r.0 r.1 s
        ]
        else some ([], s)
    project_tokens tk s = some ([], s)

    unfoldable pub project_query : Text → Catalog T → Reply ℕ T
    project_query sql s = project_tokens (matrixparse_tokenize sql) s

    -- `none` in the result is `false`
    unfoldable pub distinct_tokens : List Text → Catalog T → Option (Option ℕ × Catalog T)
    distinct_tokens (select ∷ count ∷ opening ∷ distinct ∷ col ∷ closing ∷ []) s =
        if is_word select (codes "SELECT")
          && is_word count (codes "COUNT")
          && same_text opening (codes "(")
          && is_word distinct (codes "DISTINCT")
          && same_text closing (codes ")")
          && not (column_id names col == 0)
        then (count_distinct api dbl (column_id names col) s >>= λ r. some (some r.0, r.1))
        else some (none, s)
    distinct_tokens tk s = some (none, s)

    unfoldable pub distinct_query : Text → Catalog T → Option (Option ℕ × Catalog T)
    distinct_query sql s = distinct_tokens (matrixparse_tokenize sql) s
