-- ===== src/Sql/Parse.antt =====
-- The parser of compute_mock.cpp: `parse_query` and `parse_query_impl`.
pub mod Refusals
pub mod Ungrouped
pub mod Admits
use matrixdb.Prelude.{
  ℕ, zero, suc, ◌+◌, ◌-◌, ◌*◌, ◌%◌, ◌^◌, Bool, true, false, not, ◌&&◌, ◌||◌, Option, none, some,
  List, [], ◌∷◌, length, ltb, leb, ◌==◌, if◌then◌else◌,
}
use matrixdb.Prelude.Maps.{find, assign}
use matrixdb.Reduce.{
  AggOp, agg_count, agg_sum, agg_min, agg_max, MatrixCmp, gt, ge, lt, le, eq, ne, between,
  Predicate,
}
use matrixdb.Catalog.{MatrixType, t_u32, t_i64, t_f64, same_type, Catalog, column_type}
use matrixdb.Query.{MatrixQuery, MatrixQueryStatus, status_ok, err_unknown_column, err_parse}
use matrixdb.Query.Joins.{derive_num_groups_u32}
use matrixdb.Sql.{Text, codes, up, same_text, matrixparse_tokenize}
use matrixdb.Sql.Strings.{find_text, Strings, unquote, string_filter, string_between}
use matrixdb.Sql.Literals.{
  Parsed, agg_named, assign_text, cmp_named, column_id, column_name, default_out, digits_from,
  from_chars, from_chars_i64, in_range, is_word, name_column, need, negated, next_token, or_refused,
  parsed, parsed_or, refused, set_bound, ◌>>=◌, ◌>>◌,
}
use matrixdb.Sql.Where.{parse_where}

-- the query, the aggregate's name and what is behind the parenthesis
unfoldable pub parse_select : List (Text × ℕ) → List Text → Parsed (MatrixQuery × Text × List Text)
parse_select names ts = do
  let select = next_token ts
  need (is_word select.0 (codes "SELECT")) err_parse
  let aggs = next_token select.1
  agg ← agg_named (up aggs.0)
  let opening = next_token aggs.1
  need (same_text opening.0 (codes "(")) err_parse
  let col = next_token opening.1
  let closing = next_token col.1
  need (same_text closing.0 (codes ")")) err_parse
  let vid = column_id names col.0
  need (not (vid == 0)) err_unknown_column
  parsed (record default_out { value_col = vid; agg = agg }, up aggs.0, closing.1)

-- the key column, and what is behind it
unfoldable pub parse_key :
    {T : Type 0} → List (Text × ℕ) → Catalog T → List Text → Parsed (ℕ × List Text)
parse_key names s ts = do
  let by = next_token (next_token ts).1
  need (is_word by.0 (codes "BY")) err_parse
  let key = next_token by.1
  let kid = column_id names key.0
  need (not (kid == 0)) err_unknown_column
  need (same_type (column_type kid s) t_u32) err_parse
  parsed (kid, key.1)

unfoldable pub with_groups :
    {T : Type 0}
    → MatrixQuery
    → Catalog T
    → Parsed (ℕ × List Text)
    → Option (Parsed (MatrixQuery × List Text) × Catalog T)
with_groups q s (refused st) = some (refused st, s)
with_groups q s (parsed key) = elim (derive_num_groups_u32 key.0 s) [
  | none ↦ none
  | some r ↦
      some (parsed (record q { grouped = true; key_col = key.0; num_groups = r.0 }, key.1), r.1)
]

unfoldable pub parse_group :
    {T : Type 0}
    → List (Text × ℕ)
    → Catalog T
    → Parsed (MatrixQuery × List Text)
    → Option (Parsed (MatrixQuery × List Text) × Catalog T)
parse_group names s (refused st) = some (refused st, s)
parse_group names s (parsed (q, ts)) =
    if is_word (next_token ts).0 (codes "GROUP")
    then with_groups q s (parse_key names s ts)
    else some (parsed (q, ts), s)

unfoldable pub parse_order :
    List (Text × ℕ) → Text → MatrixQuery → List Text → Parsed (MatrixQuery × List Text)
parse_order names aggs q ts =
    if is_word (next_token ts).0 (codes "ORDER")
    then (do
      let by = next_token (next_token ts).1
      need (is_word by.0 (codes "BY")) err_parse
      need q.grouped err_parse
      let sort = next_token by.1
      need (is_word sort.0 aggs || column_id names sort.0 == q.value_col) err_parse
      let desc = next_token sort.1
      need (is_word desc.0 (codes "DESC")) err_parse
      let limit = next_token desc.1
      need (is_word limit.0 (codes "LIMIT")) err_parse
      let lim = next_token limit.1
      n ← or_refused (from_chars 64 lim.0)
      need (not (n == 0)) err_parse
      parsed (record q { limit = n }, lim.1))
    else parsed (q, ts)

-- ORDER BY, and that no token is left
unfoldable pub parse_rest :
    List (Text × ℕ) → Text → Parsed (MatrixQuery × List Text) → Parsed MatrixQuery
parse_rest names aggs p = do
  r ← p
  r ← parse_order names aggs r.0 r.1
  need (length r.1 == 0) err_parse
  parsed r.0

abbrev pub status_and_out : Parsed MatrixQuery → MatrixQueryStatus × MatrixQuery
status_and_out (parsed q) = (status_ok, q)
status_and_out (refused st) = (st, default_out)

module _ {T : Type 0} (strtod : Text → Option ℕ) (names : List (Text × ℕ)) (g : Strings) where
  unfoldable pub parse_tail :
      Parsed (MatrixQuery × Text × List Text) → Catalog T → Option (Parsed MatrixQuery × Catalog T)
  parse_tail (refused st) s = some (refused st, s)
  parse_tail (parsed (q, aggs, ts)) s =
      elim (parse_group names s (parse_where strtod names g s q ts)) [
        | none ↦ none
        | some r ↦ some (parse_rest names aggs r.0, r.1)
      ]

  -- `none` is a column that is named and not in the catalog.
  unfoldable pub parse_query_impl : Text → Catalog T → Option (Parsed MatrixQuery × Catalog T)
  parse_query_impl sql s = parse_tail (parse_select names (matrixparse_tokenize sql)) s

  unfoldable pub parse_query :
      Text → Catalog T → Option ((MatrixQueryStatus × MatrixQuery) × Catalog T)
  parse_query sql s = elim (parse_query_impl sql s) [
    | none ↦ none
    | some r ↦ some (status_and_out r.0, r.1)
  ]
