-- ===== src/Sql/Where.antt =====
-- The WHERE clause of `parse_query_impl` (compute_mock.cpp).
use matrixdb.Prelude.{ℕ, true, false, not, ◌||◌, Option, none, some, List, [], ◌==◌, if◌then◌else◌}
use matrixdb.Prelude.Maps.{find}
use matrixdb.Reduce.{between}
use matrixdb.Catalog.{MatrixType, t_u32, same_type, Catalog, column_type}
use matrixdb.Query.{MatrixQuery, err_unknown_column, err_parse}
use matrixdb.Sql.{Text, codes, up, same_text}
use matrixdb.Sql.Strings.{Strings, unquote, string_filter, string_between}
use matrixdb.Sql.Literals.{
  Parsed, cmp_named, column_id, is_word, need, next_token, or_refused, parsed, set_bound, ◌>>=◌,
  ◌>>◌,
}

unfoldable pub where_string :
    List Text → List (Text × ℕ) → Text → MatrixQuery → List Text → Parsed (MatrixQuery × List Text)
where_string dict enc ops q ts =
    if same_text ops (codes "BETWEEN")
    then (do
      let lo = next_token ts
      let and = next_token lo.1
      need (is_word and.0 (codes "AND")) err_parse
      let hi = next_token and.1
      let p = string_between dict (unquote lo.0) (unquote hi.0)
      parsed (record q { cmp = p.cmp; threshold = p.a; upper = p.b }, hi.1))
    else (do
      let lit = next_token ts
      p ← or_refused (string_filter dict enc ops lit.0)
      parsed (record q { cmp = p.cmp; threshold = p.a }, lit.1))

unfoldable pub where_between :
    (Text → Option ℕ) → MatrixType → MatrixQuery → List Text → Parsed (MatrixQuery × List Text)
where_between strtod ty q ts = do
  let lo = next_token ts
  q ← set_bound strtod ty true lo.0 (record q { cmp = between })
  let and = next_token lo.1
  need (is_word and.0 (codes "AND")) err_parse
  let hi = next_token and.1
  q ← set_bound strtod ty false hi.0 q
  parsed (q, hi.1)

unfoldable pub where_compare :
    (Text → Option ℕ)
    → MatrixType
    → Text
    → MatrixQuery
    → List Text
    → Parsed (MatrixQuery × List Text)
where_compare strtod ty ops q ts = do
  cmp ← cmp_named ops
  let v = next_token ts
  q ← set_bound strtod ty true v.0 (record q { cmp = cmp })
  parsed (q, v.1)

unfoldable pub where_number :
    (Text → Option ℕ)
    → MatrixType
    → Text
    → MatrixQuery
    → List Text
    → Parsed (MatrixQuery × List Text)
where_number strtod ty ops q ts =
    if same_text ops (codes "BETWEEN")
    then where_between strtod ty q ts
    else where_compare strtod ty ops q ts

abbrev pub encoder_or_nil : Option (List (Text × ℕ)) → List (Text × ℕ)
encoder_or_nil none = []
encoder_or_nil (some enc) = enc

unfoldable pub where_on :
    {T : Type 0}
    → (Text → Option ℕ)
    → Strings
    → Catalog T
    → ℕ
    → Text
    → MatrixQuery
    → List Text
    → Parsed (MatrixQuery × List Text)
where_on strtod g s fcol ops q ts = elim (find fcol g.string_dicts) [
  | some dict ↦ where_string dict (encoder_or_nil (find fcol g.string_encoders)) ops q ts
  | none ↦ where_number strtod (column_type fcol s) ops q ts
]

unfoldable pub parse_where :
    {T : Type 0}
    → (Text → Option ℕ)
    → List (Text × ℕ)
    → Strings
    → Catalog T
    → MatrixQuery
    → List Text
    → Parsed (MatrixQuery × List Text)
parse_where strtod names g s q ts =
    if is_word (next_token ts).0 (codes "WHERE")
    then (do
      let col = next_token (next_token ts).1
      let fcol = column_id names col.0
      need (not (fcol == 0)) err_unknown_column
      need (fcol == q.value_col || same_type (column_type fcol s) t_u32) err_parse
      let ops = next_token col.1
      let q = record q { has_filter = true; filter_col = if fcol == q.value_col then 0 else fcol }
      where_on strtod g s fcol (up ops.0) q ops.1)
    else parsed (q, ts)
