-- ===== src/Sql/Parse/Admits.antt =====
-- What `parse_query` of compute_mock.cpp lets through.
use matrixdb.Prelude.{
  ℕ, ◌≡◌, refl, subst, inl, inr, ◌⊎◌, Bool, true, false, not, Option, Option-cases, some, List,
  arith,
}
use matrixdb.Catalog.{Catalog}
use matrixdb.Query.{MatrixQuery, MatrixQueryStatus, status_ok}
use matrixdb.Query.Project.{is_ok}
use matrixdb.Query.Joins.{derive_num_groups_u32}
use matrixdb.Sql.{Text, matrixparse_tokenize}
use matrixdb.Sql.Parse.Refusals.{
  no_ok, parse_select-no_ok, parse_where-no_ok, parse_key-no_ok, parse_order-no_ok,
}
use matrixdb.Sql.Strings.{Strings}
use matrixdb.Sql.Literals.{next_token, Parsed, parsed, refused, default_out}
use matrixdb.Sql.Where.{parse_where}
use matrixdb.Sql.Parse.{
  parse_select, parse_key, with_groups, parse_group, parse_order, parse_rest, parse_tail,
  parse_query_impl, parse_query, status_and_out,
}
use matrixdb.Sql.Parse.Ungrouped.{
  Parsed-cases, named_column, named_u32, column_id-is_named, admits, ungrouped,
  parse_where-ungrouped,
}

module _ {T : Type 0} (names : List (Text × ℕ)) (s : Catalog T) where
  parse_select-ungrouped :
      (ts : List Text) (q : MatrixQuery) (aggs : Text) (us : List Text)
      → parse_select names ts ≡ parsed (q, aggs, us)
      → ungrouped names s q ≡ true
  unfolding parse_select ungrouped admits named_column
  parse_select-ungrouped ts q aggs us e = ground (
    arith,
    column_id-is_named names (next_token (next_token (next_token (next_token ts).1).1).1).0,
  )

  parse_order-admits :
      (aggs : Text) (q : MatrixQuery) (ts : List Text) (r : MatrixQuery) (us : List Text)
      → parse_order names aggs q ts ≡ parsed (r, us)
      → admits names s q ≡ true
      → admits names s r ≡ true
  unfolding parse_order admits
  parse_order-admits aggs q ts r us e h = ground arith

  key_ok : Parsed (ℕ × List Text) → Bool
  key_ok (parsed key) = named_u32 names s key.0
  key_ok (refused st) = true

  parse_key-key_ok : (ts : List Text) → key_ok (parse_key names s ts) ≡ true
  unfolding parse_key key_ok named_u32 named_column
  parse_key-key_ok ts =
      ground (arith, column_id-is_named names (next_token (next_token (next_token ts).1).1).0)

  unfoldable all_of : (MatrixQuery → Bool) → Parsed (MatrixQuery × List Text) → Bool
  all_of f (parsed r) = f r.0
  all_of f (refused st) = not (is_ok st)

  unfoldable sound : Parsed MatrixQuery → Bool
  sound (parsed q) = admits names s q
  sound (refused st) = not (is_ok st)

  all_of_cases :
      (f : MatrixQuery → Bool) (p : Parsed (MatrixQuery × List Text))
      → no_ok p ≡ true
      → ((r : MatrixQuery) (us : List Text) → p ≡ parsed (r, us) → f r ≡ true)
      → all_of f p ≡ true
  unfolding no_ok all_of
  all_of_cases f (parsed (r, us)) h k = k r us refl
  all_of_cases f (refused st) h k = h

  with_groups-all_of :
      (q : MatrixQuery) (p : Parsed (ℕ × List Text)) (r : Parsed (MatrixQuery × List Text))
      (z : Catalog T)
      → with_groups q s p ≡ some (r, z)
      → no_ok p ≡ true
      → key_ok p ≡ true
      → ungrouped names s q ≡ true
      → all_of (admits names s) r ≡ true
  unfolding with_groups ungrouped admits key_ok no_ok all_of
  with_groups-all_of q (refused st) r z e n k h = ground arith
  with_groups-all_of q (parsed key) r z e n k h =
      elim (Option-cases (derive_num_groups_u32 key.0 s)) [
        | inl f ↦ ground arith
        | inr (a, f) ↦ ground arith
      ]

  ungrouped-admits : (q : MatrixQuery) → ungrouped names s q ≡ true → admits names s q ≡ true
  unfolding ungrouped
  ungrouped-admits q h = ground arith

  parse_group-all_of :
      (p r : Parsed (MatrixQuery × List Text)) (z : Catalog T)
      → all_of (ungrouped names s) p ≡ true
      → parse_group names s p ≡ some (r, z)
      → all_of (admits names s) r ≡ true
  unfolding parse_group all_of
  parse_group-all_of (refused st) r z h e = ground arith
  parse_group-all_of (parsed (q, ts)) r z h e = ground (
    arith,
    ungrouped-admits q,
    parse_key-no_ok s names ts,
    parse_key-key_ok ts,
    with_groups-all_of q (parse_key names s ts) r z,
  )

  parse_rest-sound :
      (aggs : Text) (p : Parsed (MatrixQuery × List Text))
      → all_of (admits names s) p ≡ true
      → sound (parse_rest names aggs p) ≡ true
  unfolding parse_rest all_of sound no_ok
  parse_rest-sound aggs (refused st) h = h
  parse_rest-sound aggs (parsed (q, ts)) h = elim (Parsed-cases (parse_order names aggs q ts)) [
    | inl (a, f) ↦ ground (arith, parse_order-admits aggs q ts a.0 a.1)
    | inr (st, f) ↦ ground (arith, parse_order-no_ok names aggs q ts)
  ]

  module _ (strtod : Text → Option ℕ) (g : Strings) where
    parse_tail-sound :
        (p : Parsed (MatrixQuery × Text × List Text)) (r : Parsed MatrixQuery) (z : Catalog T)
        → no_ok p ≡ true
        → ((q : MatrixQuery) (aggs : Text) (us : List Text)
            → p ≡ parsed (q, aggs, us)
            → ungrouped names s q ≡ true)
        → parse_tail strtod names g p s ≡ some (r, z)
        → sound r ≡ true
    unfolding parse_tail no_ok sound
    parse_tail-sound (refused st) r z n h e = ground arith
    parse_tail-sound (parsed (q, aggs, ts)) r z n h e =
        let w = parse_where strtod names g s q ts in
        let k =
          all_of_cases (ungrouped names s) w (parse_where-no_ok s strtod names g q ts)
            (λ r us f. parse_where-ungrouped names s strtod g q ts r us f (h q aggs ts refl)) in
        elim (Option-cases (parse_group names s w)) [
          | inl f ↦ ground arith
          | inr (a, f) ↦ ground (arith, parse_group-all_of w a.0 a.1, parse_rest-sound aggs a.0)
        ]

    parse_query_impl-sound :
        (sql : Text) (r : Parsed MatrixQuery) (z : Catalog T)
        → parse_query_impl strtod names g sql s ≡ some (r, z)
        → sound r ≡ true
    unfolding parse_query_impl
    parse_query_impl-sound sql r z e =
        let tk = matrixparse_tokenize sql in
        parse_tail-sound (parse_select names tk) r z (parse_select-no_ok names tk)
          (λ q aggs us. parse_select-ungrouped tk q aggs us) e

    status_and_out-sound :
        (r : Parsed MatrixQuery)
        → sound r ≡ true
        → (((status_and_out r).0 ≡ status_ok) × (admits names s (status_and_out r).1 ≡ true))
          ⊎ ((is_ok (status_and_out r).0 ≡ false) × ((status_and_out r).1 ≡ default_out))
    unfolding sound
    status_and_out-sound (parsed q) h = inl (refl, h)
    status_and_out-sound (refused st) h = inr (ground arith, refl)

    -- A parse with the status OK gives a query whose value column is the id of a name, whose filter on another column and
    -- whose grouping key are ids of names and `uint32_t` columns, and whose limit, if there is one, is of groups. With another status,
    -- the query is the default one.
    pub parse_query-admits :
        (sql : Text) (st : MatrixQueryStatus) (q : MatrixQuery) (z : Catalog T)
        → parse_query strtod names g sql s ≡ some ((st, q), z)
        → ((st ≡ status_ok) × (admits names s q ≡ true)) ⊎ ((is_ok st ≡ false) × (q ≡ default_out))
    unfolding parse_query
    parse_query-admits sql st q z e = elim (Option-cases (parse_query_impl strtod names g sql s)) [
      | inl f ↦ ground arith
      | inr ((r, y), f) ↦
          let k : status_and_out r ≡ (st, q) = ground arith in
          subst
            (λ u.
              ((u.0 ≡ status_ok) × (admits names s u.1 ≡ true))
              ⊎ ((is_ok u.0 ≡ false) × (u.1 ≡ default_out)))
            k (status_and_out-sound r (parse_query_impl-sound sql r y f))
    ]
