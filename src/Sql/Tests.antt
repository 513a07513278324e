-- ===== src/Sql/Tests.antt =====
-- Query strings and dictionaries at concrete inputs.
use matrixdb.Prelude.{
  ℕ, ◌+◌, ◌/◌, ◌≡◌, ◌<◌, subst, ◌⊎◌, refl, Bool, true, false, not, ◌&&◌, Option, none, some, List,
  [], ◌∷◌, get_elem?, ltb, leb, ◌==◌, arith,
}
use matrixdb.Reduce.{agg_sum, agg_count, ge, between, i64, u32, Predicate, pred_match}
use matrixdb.Tier.{host, Column}
use matrixdb.Catalog.{Catalog, TierApi, t_u32}
use matrixdb.Query.{MatrixQuery, MatrixQueryStatus, status_ok, Double}
use matrixdb.Query.Project.{is_ok}
use matrixdb.Sql.{Text, codes, matrixparse_tokenize, join}
use matrixdb.Sql.Strings.{
  lt_text, dict_of, encoder_of, code_of, upper_code, unquote, string_filter, string_between,
  Strings,
}
use matrixdb.Sql.Dict.{IsDict, dict_of-IsDict}
use matrixdb.Sql.Codes.{has_text, code_of-order, holds, string_filter-holds, string_between-holds}
use matrixdb.Sql.Literals.{is_word, parsed, default_out}
use matrixdb.Sql.Parse.{parse_select, parse_tail, parse_query_impl, parse_query}
use matrixdb.Sql.Parse.Ungrouped.{admits}
use matrixdb.Sql.Parse.Admits.{parse_query-admits}
use matrixdb.Sql.Entry.{Mean, avg_query, average, parse_then}
use matrixdb.Sql.Entry.Rewritten.{avg_query-average}

abbrev column : ℕ → ℕ → ℕ → Column
column a b c = record { tier = host; bytes = a ∷ 0 ∷ 0 ∷ 0 ∷ b ∷ 0 ∷ 0 ∷ 0 ∷ c ∷ 0 ∷ 0 ∷ 0 ∷ [] }

abbrev catalog : Catalog ℕ
catalog = record {
  columns = (1, column 5 7 9) ∷ (2, column 1 0 1) ∷ (3, column 0 2 1) ∷ [];
  col_types = [];
  null_masks = [];
  tier_mgr = 0;
  max_query_groups = 16;
  rebalance_every = 0;
  scans_since_rebalance = 0;
  cold_borrows = 0;
  rebalances = 0;
  migrations = 0;
}

abbrev api : TierApi ℕ
api = record {
  register_column = λ id n t a. a;
  update_bytes = λ id n a. a;
  record_access = λ id n a. a;
  rebalance = λ a. ([], a);
}

abbrev doubles : Double ℕ
doubles = record { num = i64; to_bits = λ n. n; of_bits = λ n. n }

abbrev means : Mean ℕ
means = record {
  of_u64 = λ n. n;
  of_i64 = λ n. n;
  of_word = λ n. n;
  is_zero = λ n. n == 0;
  quotient = λ a b. a / b;
  nan = 0;
}

abbrev names : List (Text × ℕ)
names = (codes "amount", 1) ∷ (codes "region", 2) ∷ (codes "city", 3) ∷ []

abbrev rows : List Text
rows = codes "ann" ∷ codes "cy" ∷ codes "bob" ∷ codes "ann" ∷ []

abbrev dict : List Text
dict = codes "ann" ∷ codes "bob" ∷ codes "cy" ∷ []

abbrev strings : Strings
strings = record { string_dicts = (3, dict) ∷ []; string_encoders = (3, encoder_of 0 dict) ∷ [] }

dict_tests : dict_of rows ≡ dict
unfolding dict_of matrixdb.Sql.Strings.sort_texts matrixdb.Sql.Strings.unique_texts
    matrixdb.Sql.Strings.insert_text matrixdb.Sql.Strings.unique_from lt_text matrixdb.Sql.same_text
dict_tests = refl

abbrev sql : Text
sql = codes "select sum(amount) where city >= 'bob' group by region order by amount desc limit 2"

abbrev query : MatrixQuery
query = record default_out {
  value_col = 1;
  agg = agg_sum;
  has_filter = true;
  filter_col = 3;
  cmp = ge;
  threshold = 1;
  grouped = true;
  key_col = 2;
  num_groups = 2;
  limit = 2;
}

abbrev tokens : List Text
tokens =
    codes "select"
    ∷ codes "sum"
    ∷ codes "("
    ∷ codes "amount"
    ∷ codes ")"
    ∷ codes "where"
    ∷ codes "city"
    ∷ codes ">="
    ∷ codes "'bob'"
    ∷ codes "group"
    ∷ codes "by"
    ∷ codes "region"
    ∷ codes "order"
    ∷ codes "by"
    ∷ codes "amount"
    ∷ codes "desc"
    ∷ codes "limit"
    ∷ codes "2"
    ∷ []

tokens_tests : matrixparse_tokenize sql ≡ tokens
unfolding matrixparse_tokenize matrixdb.Sql.tokens_of matrixdb.Sql.is_space matrixdb.Sql.token_of
    matrixdb.Sql.is_paren matrixdb.Sql.is_operator matrixdb.Sql.run_of matrixdb.Sql.operator_of
tokens_tests = refl

parsed_tests :
    parse_tail (λ v. none) names strings (parse_select names tokens) catalog
    ≡ some (parsed query, catalog)
unfolding parse_tail parse_select matrixdb.Sql.same_text matrixdb.Sql.Literals.next_token
    matrixdb.Sql.to_upper matrixdb.Sql.Literals.agg_named matrixdb.Sql.Literals.column_id
    matrixdb.Sql.Strings.find_text matrixdb.Sql.Parse.parse_group matrixdb.Catalog.borrow
    matrixdb.Catalog.column_type matrixdb.Catalog.give_back matrixdb.Catalog.host_bytes
    matrixdb.Catalog.u32_values matrixdb.Catalog.with_columns matrixdb.Prelude.Bytes.of_bytes
    matrixdb.Query.Joins.derive_num_groups_u32 matrixdb.Query.Joins.groups_for
    matrixdb.Reduce.max_loop matrixdb.Reduce.reduce_all matrixdb.Sql.Literals.in_range
    matrixdb.Sql.Literals.digits_from matrixdb.Sql.Literals.from_chars matrixdb.Sql.Parse.parse_key
    matrixdb.Sql.Parse.parse_order matrixdb.Sql.Parse.parse_rest matrixdb.Sql.Where.parse_where
    matrixdb.Sql.Where.where_on matrixdb.Sql.Where.where_string matrixdb.Sql.Parse.with_groups
    matrixdb.Sql.Strings.encode_in matrixdb.Sql.Strings.last_of matrixdb.Sql.Strings.lower_code
    lt_text string_filter unquote matrixdb.Sql.Strings.without_last
parsed_tests = refl

query_tests : parse_query (λ v. none) names strings sql catalog ≡ some ((status_ok, query), catalog)
unfolding parse_query parse_query_impl
query_tests = rw (tokens_tests, parse_query, parse_query_impl) (rw parsed_tests refl)

parse_query-admits_example :
    ((status_ok ≡ status_ok) × (admits names catalog query ≡ true))
    ⊎ ((is_ok status_ok ≡ false) × (query ≡ default_out))
parse_query-admits_example =
    parse_query-admits names catalog (λ v. none) strings sql status_ok query catalog query_tests

member_bob : has_text (codes "bob") rows ≡ true
unfolding has_text matrixdb.Sql.same_text
member_bob = refl

member_cy : has_text (codes "cy") rows ≡ true
unfolding has_text matrixdb.Sql.same_text
member_cy = refl

code_of-order_example :
    (get_elem? (dict_of rows) (code_of (encoder_of 0 (dict_of rows)) (codes "bob"))
      ≡ some (codes "bob"))
    × (ltb
          (code_of (encoder_of 0 (dict_of rows)) (codes "bob"))
          (code_of (encoder_of 0 (dict_of rows)) (codes "cy"))
        ≡ lt_text (codes "bob") (codes "cy"))
code_of-order_example = code_of-order rows (codes "bob") (codes "cy") member_bob member_cy

dict_is : IsDict dict
dict_is = subst IsDict dict_tests (dict_of-IsDict rows)

filter_tests :
    string_filter dict (encoder_of 0 dict) (codes ">=") (codes "'bob'")
    ≡ some (record { cmp = ge; a = 1; b = 0 })
unfolding string_filter matrixdb.Sql.same_text matrixdb.Sql.Strings.lower_code unquote
    matrixdb.Sql.Strings.last_of matrixdb.Sql.Strings.without_last lt_text
filter_tests = refl

string_filter-holds_example :
    pred_match u32 2 (record { cmp = ge; a = 1; b = 0 })
    ≡ holds (codes ">=") (codes "cy") (unquote (codes "'bob'"))
string_filter-holds_example =
    string_filter-holds dict (codes ">=") (codes "'bob'") (record { cmp = ge; a = 1; b = 0 }) 2
      (codes "cy") filter_tests dict_is refl

above : 0 < upper_code dict (codes "bob")
unfolding upper_code lt_text
above = omega arith

between_tests :
    pred_match u32 2 (string_between dict (codes "ann") (codes "bob"))
    ≡ (not (lt_text (codes "cy") (codes "ann")) && not (lt_text (codes "bob") (codes "cy")))
between_tests =
    string_between-holds dict (codes "ann") (codes "bob") 2 (codes "cy") dict_is refl above

-- The upper bound is before every string, and the first string passes all the same.
between_none : pred_match u32 0 (string_between dict (codes "a") (codes "aa")) ≡ true
unfolding pred_match string_between matrixdb.Sql.Strings.lower_code upper_code lt_text
between_none = refl

abbrev avg_sql : Text
avg_sql = codes "SELECT avg(amount)"

abbrev sum_sql : Text
sum_sql = codes "SELECT SUM ( amount )"

abbrev column_tokens : List Text
column_tokens = codes "(" ∷ codes "amount" ∷ codes ")" ∷ []

avg_tests : matrixparse_tokenize avg_sql ≡ codes "SELECT" ∷ codes "avg" ∷ column_tokens
unfolding matrixparse_tokenize matrixdb.Sql.tokens_of matrixdb.Sql.is_space matrixdb.Sql.token_of
    matrixdb.Sql.is_paren matrixdb.Sql.is_operator matrixdb.Sql.run_of matrixdb.Sql.operator_of
avg_tests = refl

sum_tests : matrixparse_tokenize sum_sql ≡ codes "SELECT" ∷ codes "SUM" ∷ column_tokens
unfolding matrixparse_tokenize matrixdb.Sql.tokens_of matrixdb.Sql.is_space matrixdb.Sql.token_of
    matrixdb.Sql.is_paren matrixdb.Sql.is_operator matrixdb.Sql.run_of matrixdb.Sql.operator_of
sum_tests = refl

is_avg : is_word (codes "avg") (codes "AVG") ≡ true
unfolding matrixdb.Sql.same_text matrixdb.Sql.to_upper
is_avg = refl

abbrev first_of_sort : ℕ → List (ℕ × ℕ) → List (ℕ × ℕ)
first_of_sort k ps = ps

avg_query-average_example :
    avg_query doubles means api first_of_sort (λ v. none) names strings avg_sql catalog
    ≡ parse_then doubles means api first_of_sort
        (λ v. none)
        names
        strings
        sum_sql
        (average doubles means api first_of_sort)
        catalog
avg_query-average_example =
    avg_query-average doubles means api first_of_sort (λ v. none) names strings avg_sql sum_sql
      (codes "SELECT") (codes "avg") column_tokens catalog avg_tests is_avg sum_tests
