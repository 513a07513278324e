-- ===== src/Sql/Parse/Ungrouped.antt =====
-- A query before GROUP BY and ORDER BY (`parse_query_impl` of compute_mock.cpp).
use matrixdb.Prelude.{
  ℕ, ◌≡◌, refl, inl, inr, ◌⊎◌, Bool, true, false, not, ◌&&◌, ◌||◌, Option, Option-cases, Bool-cases,
  ◌∙◌, some, [], ◌∷◌, List, ◌==◌, if◌then◌else◌, arith,
}
use matrixdb.Prelude.Maps.{==_refl, find}
use matrixdb.Catalog.{MatrixType, t_u32, t_i64, t_f64, same_type, Catalog, column_type}
use matrixdb.Query.{MatrixQuery, MatrixQueryStatus}
use matrixdb.Reduce.{MatrixCmp, between}
use matrixdb.Sql.{Text, up, codes}
use matrixdb.Sql.Strings.{find_text, Strings}
use matrixdb.Sql.Literals.{
  is_word, next_token, column_id, Parsed, parsed, refused, set_bound, parsed_or, cmp_named,
}
use matrixdb.Sql.Where.{
  where_on, encoder_or_nil, where_between, where_compare, where_string, where_number, parse_where,
}

pub Parsed-cases :
    {A : Type 0} (m : Parsed A)
    → ((a : A) × (m ≡ parsed a)) ⊎ ((st : MatrixQueryStatus) × (m ≡ refused st))
Parsed-cases (parsed a) = inl (a, refl)
Parsed-cases (refused st) = inr (st, refl)

-- an id that some name stands for
unfoldable pub is_named : List (Text × ℕ) → ℕ → Bool
is_named [] id = false
is_named ((t, i) ∷ names) id = i == id || is_named names id

pub find_text-is_named :
    (names : List (Text × ℕ)) (t : Text) (id : ℕ)
    → find_text t names ≡ some id
    → is_named names id ≡ true
unfolding find_text is_named
find_text-is_named [] t id e = absurd (ground arith)
find_text-is_named ((u, i) ∷ names) t id e =
    ground (arith, find_text-is_named names t id, ==_refl id)

-- What a name gives is 0, for an unknown one, or the id of a name.
pub column_id-is_named :
    (names : List (Text × ℕ)) (t : Text)
    → (column_id names t == 0 || is_named names (column_id names t)) ≡ true
unfolding column_id
column_id-is_named names t = elim (Option-cases (find_text t names)) [
  | inl e ↦ rw (e, column_id) refl
  | inr (id, e) ↦ rw (e, column_id) (ground (arith, find_text-is_named names t id e))
]

module _ {T : Type 0} (names : List (Text × ℕ)) (s : Catalog T) where
  unfoldable pub named_column : ℕ → Bool
  named_column id = not (id == 0) && is_named names id

  unfoldable pub named_u32 : ℕ → Bool
  named_u32 id = named_column id && same_type (column_type id s) t_u32

  -- A named value column; a filter on another column reads a named `uint32_t` column; so does a grouping key; a limit is
  -- of groups.
  unfoldable pub admits : MatrixQuery → Bool
  admits q =
      named_column q.value_col
      && (q.filter_col == 0
          || (q.has_filter && not (q.filter_col == q.value_col) && named_u32 q.filter_col))
      && (not q.grouped || named_u32 q.key_col)
      && (q.limit == 0 || q.grouped)

  unfoldable pub ungrouped : MatrixQuery → Bool
  ungrouped q = admits q && not q.grouped && q.limit == 0

  cmp_ungrouped : (c : MatrixCmp) (q : MatrixQuery) → ungrouped (record q { cmp = c }) ≡ ungrouped q
  unfolding ungrouped admits
  cmp_ungrouped c q = refl

  where_string-ungrouped :
      (dict : List Text) (enc : List (Text × ℕ)) (ops : Text) (q : MatrixQuery) (ts : List Text)
      (r : MatrixQuery) (us : List Text)
      → where_string dict enc ops q ts ≡ parsed (r, us)
      → ungrouped r ≡ ungrouped q
  unfolding where_string ungrouped admits
  where_string-ungrouped dict enc ops q ts r us e = ground arith

  module _ (strtod : Text → Option ℕ) where
    set_bound-ungrouped :
        (ty : MatrixType) (lo : Bool) (v : Text) (q r : MatrixQuery)
        → set_bound strtod ty lo v q ≡ parsed r
        → ungrouped r ≡ ungrouped q
    unfolding set_bound parsed_or ungrouped admits
    set_bound-ungrouped t_f64 lo v q r e = ground arith
    set_bound-ungrouped t_i64 lo v q r e = ground arith
    set_bound-ungrouped t_u32 lo v q r e = ground arith

    where_compare-ungrouped :
        (ty : MatrixType) (ops : Text) (q : MatrixQuery) (ts : List Text) (r : MatrixQuery)
        (us : List Text)
        → where_compare strtod ty ops q ts ≡ parsed (r, us)
        → ungrouped r ≡ ungrouped q
    unfolding where_compare ungrouped admits
    where_compare-ungrouped ty ops q ts r us e = elim (Parsed-cases (cmp_named ops)) [
      | inr (st, f) ↦ ground arith
      | inl (c, f) ↦
          elim (Parsed-cases (set_bound strtod ty true (next_token ts).0 (record q { cmp = c }))) [
            | inr (st, g) ↦ ground arith
            | inl (p, g) ↦
                ground
                  (arith, set_bound-ungrouped ty true (next_token ts).0 (record q { cmp = c }) p g)
          ]
    ]

    where_between-ungrouped :
        (ty : MatrixType) (q : MatrixQuery) (ts : List Text) (r : MatrixQuery) (us : List Text)
        → where_between strtod ty q ts ≡ parsed (r, us)
        → ungrouped r ≡ ungrouped q
    unfolding where_between
    where_between-ungrouped ty q ts r us e =
        elim (Parsed-cases
          (set_bound strtod ty true (next_token ts).0 (record q { cmp = between }))) [
            | inr (st, f) ↦ ground arith
            | inl (p, f) ↦
                elim (Parsed-cases
                  (set_bound strtod ty false (next_token (next_token (next_token ts).1).1).0 p)) [
                    | inr (st, g) ↦ ground arith
                    | inl (u, g) ↦ ground (
                      arith,
                      cmp_ungrouped between q,
                      set_bound-ungrouped ty true (next_token ts).0 (record q { cmp = between }) p
                          f,
                      set_bound-ungrouped ty false (next_token (next_token (next_token ts).1).1).0 p
                          u g,
                    )
                  ]
          ]

    where_number-ungrouped :
        (ty : MatrixType) (ops : Text) (q : MatrixQuery) (ts : List Text) (r : MatrixQuery)
        (us : List Text)
        → where_number strtod ty ops q ts ≡ parsed (r, us)
        → ungrouped r ≡ ungrouped q
    unfolding where_number
    where_number-ungrouped ty ops q ts r us e =
        ground
          (arith, where_between-ungrouped ty q ts r us, where_compare-ungrouped ty ops q ts r us)

    where_on-ungrouped :
        (g : Strings) (fcol : ℕ) (ops : Text) (q : MatrixQuery) (ts : List Text) (r : MatrixQuery)
        (us : List Text)
        → where_on strtod g s fcol ops q ts ≡ parsed (r, us)
        → ungrouped r ≡ ungrouped q
    unfolding where_on
    where_on-ungrouped g fcol ops q ts r us e = elim (Option-cases (find fcol g.string_dicts)) [
      | inl f ↦ ground (arith, where_number-ungrouped (column_type fcol s) ops q ts r us)
      | inr (dict, f) ↦ ground (
        arith,
        where_string-ungrouped dict (encoder_or_nil (find fcol g.string_encoders)) ops q ts r us,
      )
    ]

    filter_on : ℕ → MatrixQuery → MatrixQuery
    filter_on fcol q = record q {
      has_filter = true;
      filter_col = if fcol == q.value_col then 0 else fcol;
    }

    filter_on-ungrouped :
        (fcol : ℕ) (q : MatrixQuery)
        → (fcol == 0) ≡ false
        → (fcol == 0 || is_named names fcol) ≡ true
        → (fcol == q.value_col || same_type (column_type fcol s) t_u32) ≡ true
        → ungrouped q ≡ true
        → ungrouped (filter_on fcol q) ≡ true
    unfolding filter_on ungrouped admits named_u32 named_column
    filter_on-ungrouped fcol q a b c h = elim (Bool-cases (fcol == q.value_col)) [
      | inl y ↦ ground arith
      | inr n ↦ ground arith
    ]

    where_passed :
        (g : Strings) (q : MatrixQuery) (ts : List Text) (r : MatrixQuery) (us : List Text)
        → parse_where strtod names g s q ts ≡ parsed (r, us)
        → let col = next_token (next_token ts).1 in
          let fcol = column_id names col.0 in
          (r ≡ q)
          ⊎ (((fcol == 0) ≡ false)
              × ((fcol == q.value_col || same_type (column_type fcol s) t_u32) ≡ true)
              × (where_on strtod g s fcol
                    (up (next_token col.1).0)
                    (filter_on fcol q)
                    (next_token col.1).1
                  ≡ parsed (r, us)))
    unfolding parse_where filter_on
    where_passed g q ts r us e =
        let fcol = column_id names (next_token (next_token ts).1).0 in
        elim (Bool-cases (is_word (next_token ts).0 (codes "WHERE"))) [
          | inr n ↦ inl (ground arith)
          | inl y ↦ elim (Bool-cases (fcol == 0)) [
            | inl z ↦ absurd (ground arith)
            | inr z ↦
                elim (Bool-cases (fcol == q.value_col || same_type (column_type fcol s) t_u32)) [
                  | inl t ↦ inr (z, t, ground arith)
                  | inr t ↦ absurd (ground arith)
                ]
          ]
        ]

    pub parse_where-ungrouped :
        (g : Strings) (q : MatrixQuery) (ts : List Text) (r : MatrixQuery) (us : List Text)
        → parse_where strtod names g s q ts ≡ parsed (r, us)
        → ungrouped q ≡ true
        → ungrouped r ≡ true
    parse_where-ungrouped g q ts r us e h =
        let col = next_token (next_token ts).1 in
        let fcol = column_id names col.0 in
        elim (where_passed g q ts r us e) [
          | inl same ↦ rw same h
          | inr (z, t, w) ↦
              where_on-ungrouped g fcol (up (next_token col.1).0) (filter_on fcol q)
                (next_token col.1).1 r us w
              ∙ filter_on-ungrouped fcol q z (column_id-is_named names col.0) t h
        ]
