-- ===== src/Sql/Entry/Rewritten.antt =====
-- Queries that compute_mock.cpp writes out as text and parses again: `avg_query` and `having_query`.
use matrixdb.Prelude.{
  ℕ, ◌≡◌, refl, ap, subst, sym, ◌∙◌, inl, inr, true, Bool-cases, Option, Option-cases, some, List,
  [], ◌∷◌, arith,
}
use matrixdb.Catalog.{TierApi, Catalog}
use matrixdb.Query.{MatrixQuery, Double}
use matrixdb.Sql.{Text, is_space, is_paren, is_operator, codes, matrixparse_tokenize, join}
use matrixdb.Sql.Strings.{Strings}
use matrixdb.Sql.Tokens.{all_tokens, all_plain, is_token, tokenize_tokens, tokenize_all}
use matrixdb.Sql.Literals.{is_word}
use matrixdb.Sql.Parse.{parse_query, parse_query_impl}
use matrixdb.Sql.Entry.{
  Mean, split_having, average, parse_then, avg_tokens, avg_query, having_of, having_tokens,
  having_query, Reply,
}

split_having_all :
    (ts head tail : List Text)
    → all_tokens ts ≡ true
    → split_having ts ≡ some (head, tail)
    → all_tokens head ≡ true
unfolding split_having all_tokens
split_having_all [] head tail h e = cc
split_having_all (t ∷ ts) head tail h e = elim (Bool-cases (is_word t (codes "HAVING"))) [
  | inl b ↦ ground arith
  | inr b ↦ elim (Option-cases (split_having ts)) [
    | inl f ↦ ground arith
    | inr (r, f) ↦ ground (arith, split_having_all ts r.0 r.1)
  ]
]

sum_tokens :
    (t a : Text) (tk : List Text)
    → all_tokens (t ∷ a ∷ tk) ≡ true
    → all_tokens (t ∷ codes "SUM" ∷ tk) ≡ true
unfolding all_tokens is_token all_plain is_space is_paren is_operator
sum_tokens t a tk h = ground arith

module _ {T F : Type 0} (dbl : Double F) (mean : Mean F) (api : TierApi T)
    (partial_sort : ℕ → List (ℕ × ℕ) → List (ℕ × ℕ)) (strtod : Text → Option ℕ)
    (names : List (Text × ℕ)) (g : Strings) where
  -- Texts of the same tokens are parsed alike.
  parse_then_tokens :
      {A : Type 0} (sql text : Text) (run : MatrixQuery → Catalog T → Reply A T) (s : Catalog T)
      → matrixparse_tokenize sql ≡ matrixparse_tokenize text
      → parse_then dbl mean api partial_sort strtod names g sql run s
        ≡ parse_then dbl mean api partial_sort strtod names g text run s
  unfolding parse_then parse_query parse_query_impl
  parse_then_tokens sql text run s e = rw (e, parse_then, parse_query, parse_query_impl) refl

  -- A query whose second token is AVG gives the averages of what the same tokens with SUM there are parsed into.
  pub avg_query-average :
      (sql text t a : Text) (tk : List Text) (s : Catalog T)
      → matrixparse_tokenize sql ≡ t ∷ a ∷ tk
      → is_word a (codes "AVG") ≡ true
      → matrixparse_tokenize text ≡ t ∷ codes "SUM" ∷ tk
      → avg_query dbl mean api partial_sort strtod names g sql s
        ≡ parse_then dbl mean api partial_sort strtod names g text
            (average dbl mean api partial_sort)
            s
  unfolding avg_query avg_tokens
  avg_query-average sql text t a tk s e w f =
      let h = sum_tokens t a tk (subst (λ ts. all_tokens ts ≡ true) e (tokenize_all sql)) in
      ap (λ ts. avg_tokens dbl mean api partial_sort strtod names g ts s) e
      ∙ rw w (
          parse_then_tokens (join (t ∷ codes "SUM" ∷ tk)) text (average dbl mean api partial_sort) s
            (tokenize_tokens (t ∷ codes "SUM" ∷ tk) h ∙ sym f))

  -- A query of the tokens of another, HAVING, a key, a comparison and a value gives the groups of the other query whose aggregates pass.
  pub having_query-having_of :
      (sql text key op v : Text) (head : List Text) (s : Catalog T)
      → split_having (matrixparse_tokenize sql) ≡ some (head, key ∷ op ∷ v ∷ [])
      → matrixparse_tokenize text ≡ head
      → having_query dbl mean api partial_sort strtod names g sql s
        ≡ parse_then dbl mean api partial_sort strtod names g text
            (having_of dbl mean api partial_sort strtod names g key op v)
            s
  unfolding having_query having_tokens
  having_query-having_of sql text key op v head s e f =
      let h =
        split_having_all (matrixparse_tokenize sql) head (key ∷ op ∷ v ∷ []) (tokenize_all sql) e in
      rw (e, having_query)
        (parse_then_tokens (join head) text
          (having_of dbl mean api partial_sort strtod names g key op v) s
          (tokenize_tokens head h ∙ sym f))
