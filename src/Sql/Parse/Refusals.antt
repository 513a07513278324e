-- ===== src/Sql/Parse/Refusals.antt =====
-- The refusals of the parser of compute_mock.cpp.
use matrixdb.Prelude.{
  ℕ, ◌≡◌, refl, inl, inr, Bool, true, false, not, Bool-cases, Option, Option-cases, List, ◌==◌,
  if◌then◌else◌, arith,
}
use matrixdb.Prelude.Maps.{find}
use matrixdb.Catalog.{MatrixType, t_u32, t_i64, t_f64, Catalog, column_type}
use matrixdb.Query.{MatrixQuery, err_parse}
use matrixdb.Query.Project.{is_ok}
use matrixdb.Reduce.{between}
use matrixdb.Sql.{Text, codes, same_text, up}
use matrixdb.Sql.Strings.{Strings}
use matrixdb.Sql.Literals.{
  ◌>>=◌, ◌>>◌, need, next_token, column_id, Parsed, parsed, refused, agg_named, set_bound,
  parsed_or, cmp_named,
}
use matrixdb.Sql.Where.{
  where_on, encoder_or_nil, where_between, where_compare, where_string, where_number, parse_where,
}
use matrixdb.Sql.Parse.{parse_select, parse_key, parse_order}

-- a refusal names an error
unfoldable pub no_ok : {A : Type 0} → Parsed A → Bool
no_ok (parsed a) = true
no_ok (refused st) = not (is_ok st)

pub parse_select-no_ok :
    (names : List (Text × ℕ)) (ts : List Text) → no_ok (parse_select names ts) ≡ true
unfolding no_ok parse_select agg_named
parse_select-no_ok names ts = ground arith

set_bound-no_ok :
    (strtod : Text → Option ℕ) (ty : MatrixType) (lo : Bool) (v : Text) (q : MatrixQuery)
    → no_ok (set_bound strtod ty lo v q) ≡ true
unfolding no_ok set_bound parsed_or
set_bound-no_ok strtod t_f64 lo v q = ground arith
set_bound-no_ok strtod t_i64 lo v q = ground arith
set_bound-no_ok strtod t_u32 lo v q = ground arith

cmp_named-no_ok : (ops : Text) → no_ok (cmp_named ops) ≡ true
unfolding no_ok cmp_named
cmp_named-no_ok ops = ground arith

then-no_ok :
    {A B : Type 0} (m : Parsed A) (f : A → Parsed B)
    → no_ok m ≡ true
    → ((a : A) → no_ok (f a) ≡ true)
    → no_ok (m >>= f) ≡ true
unfolding no_ok
then-no_ok (parsed a) f h k = k a
then-no_ok (refused st) f h k = h

need-no_ok :
    {A : Type 0} (b : Bool) (p : Parsed A) → no_ok p ≡ true → no_ok (need b err_parse >> p) ≡ true
unfolding no_ok
need-no_ok true p h = h
need-no_ok false p h = refl

where_number-no_ok :
    (strtod : Text → Option ℕ) (ty : MatrixType) (ops : Text) (q : MatrixQuery) (ts : List Text)
    → no_ok (where_number strtod ty ops q ts) ≡ true
unfolding no_ok where_number where_between where_compare
where_number-no_ok strtod ty ops q ts = elim (Bool-cases (same_text ops (codes "BETWEEN"))) [
  | inl b ↦ rw b (
      then-no_ok _ _ (set_bound-no_ok strtod ty true (next_token ts).0 (record q { cmp = between }))
        λ p. need-no_ok _ _ (
          then-no_ok _ _
            (set_bound-no_ok strtod ty false (next_token (next_token (next_token ts).1).1).0 p)
            λ u. refl))
  | inr b ↦ rw b (
      then-no_ok _ _ (cmp_named-no_ok ops) λ c.
        then-no_ok _ _ (set_bound-no_ok strtod ty true (next_token ts).0 (record q { cmp = c }))
          λ u. refl)
]

where_string-no_ok :
    (dict : List Text) (enc : List (Text × ℕ)) (ops : Text) (q : MatrixQuery) (ts : List Text)
    → no_ok (where_string dict enc ops q ts) ≡ true
unfolding no_ok where_string
where_string-no_ok dict enc ops q ts = ground arith

module _ {T : Type 0} (s : Catalog T) where
  where_on-no_ok :
      (strtod : Text → Option ℕ) (g : Strings) (fcol : ℕ) (ops : Text) (q : MatrixQuery)
      (ts : List Text)
      → no_ok (where_on strtod g s fcol ops q ts) ≡ true
  unfolding where_on
  where_on-no_ok strtod g fcol ops q ts = elim (Option-cases (find fcol g.string_dicts)) [
    | inl f ↦ rw (f, where_on) (where_number-no_ok strtod (column_type fcol s) ops q ts)
    | inr (dict, f) ↦
        rw (f, where_on)
          (where_string-no_ok dict (encoder_or_nil (find fcol g.string_encoders)) ops q ts)
  ]

  pub parse_where-no_ok :
      (strtod : Text → Option ℕ) (names : List (Text × ℕ)) (g : Strings) (q : MatrixQuery)
      (ts : List Text)
      → no_ok (parse_where strtod names g s q ts) ≡ true
  unfolding no_ok parse_where
  parse_where-no_ok strtod names g q ts =
      let col = next_token (next_token ts).1 in
      let fcol = column_id names col.0 in
      let p : MatrixQuery = record q {
        has_filter = true;
        filter_col = if fcol == q.value_col then 0 else fcol;
      } in
      ground (arith, where_on-no_ok strtod g fcol (up (next_token col.1).0) p (next_token col.1).1)

  pub parse_key-no_ok :
      (names : List (Text × ℕ)) (ts : List Text) → no_ok (parse_key names s ts) ≡ true
  unfolding no_ok parse_key
  parse_key-no_ok names ts = ground arith

pub parse_order-no_ok :
    (names : List (Text × ℕ)) (aggs : Text) (q : MatrixQuery) (ts : List Text)
    → no_ok (parse_order names aggs q ts) ≡ true
unfolding no_ok parse_order
parse_order-no_ok names aggs q ts = ground arith
