-- ===== src/Sql/Literals.antt =====
-- What the parser of compute_mock.cpp is made of: names of columns, `std::from_chars`, `set_bound`, and results that are
-- refusals. The tokens that are left stand for the index into them. `strtod` is a parameter: the word of the `double`
-- that a whole text stands for, if it is in range.
use matrixdb.Prelude.{
  ℕ, ◌+◌, ◌-◌, ◌*◌, ◌%◌, ◌^◌, Bool, true, false, ◌&&◌, Option, none, some, List, [], ◌∷◌, length,
  ltb, leb, ◌==◌, if◌then◌else◌,
}
use matrixdb.Prelude.Maps.{find, assign}
use matrixdb.Reduce.{AggOp, agg_count, agg_sum, agg_min, agg_max, MatrixCmp, gt, ge, lt, le, eq, ne}
use matrixdb.Catalog.{MatrixType, t_u32, t_i64, t_f64, Catalog, catalog_has}
use matrixdb.Query.{MatrixQuery, MatrixQueryStatus, err_parse}
use matrixdb.Sql.{Text, codes, up, same_text}
use matrixdb.Sql.Strings.{find_text}

pub data Parsed (A : Type 0) : Type 0 where
  parsed : A → Parsed A
  refused : MatrixQueryStatus → Parsed A

infixl 5 ◌>>=◌ ◌>>◌
abbrev pub ◌>>=◌ : {A B : Type 0} → Parsed A → (A → Parsed B) → Parsed B
parsed a >>= f = f a
refused st >>= f = refused st

abbrev pub ◌>>◌ : {B : Type 0} → Parsed (Unit {0}) → Parsed B → Parsed B
m >> k = m >>= λ _. k

abbrev pub need : Bool → MatrixQueryStatus → Parsed (Unit {0})
need true st = parsed tt
need false st = refused st

-- `name_to_id_`; 0 is no column
unfoldable pub column_id : List (Text × ℕ) → Text → ℕ
column_id names s = elim (find_text s names) [ none ↦ 0 | some id ↦ id ]

unfoldable pub assign_text : {A : Type 0} → Text → A → List (Text × A) → List (Text × A)
assign_text s a [] = (s, a) ∷ []
assign_text s a ((t, b) ∷ m) = if same_text s t then (t, a) ∷ m else (t, b) ∷ assign_text s a m

-- `none` is the assertion that the catalog has the column.
unfoldable pub name_column :
    {T : Type 0}
    → Catalog T
    → ℕ
    → Text
    → List (ℕ × Text) × List (Text × ℕ)
    → Option (List (ℕ × Text) × List (Text × ℕ))
name_column s id name g =
    if catalog_has id s then some (assign id name g.0, assign_text name id g.1) else none

unfoldable pub column_name : List (ℕ × Text) → ℕ → Text
column_name names id = elim (find id names) [ none ↦ [] | some s ↦ s ]

-- `from_chars` of a whole text: the number, if there are digits and nothing else
unfoldable pub digits_from : ℕ → Text → Option ℕ
digits_from n [] = some n
digits_from n (c ∷ s) =
    if leb b'0' c && leb c b'9' then digits_from (n * 10 + (c - b'0')) s else none

unfoldable pub in_range : ℕ → Option ℕ → Option ℕ
in_range bound none = none
in_range bound (some n) = if ltb n bound then some n else none

-- an unsigned integer of `w` bits
unfoldable pub from_chars : ℕ → Text → Option ℕ
from_chars w [] = none
from_chars w (c ∷ s) = in_range (2 ^ w) (digits_from 0 (c ∷ s))

unfoldable pub negated : Option ℕ → Option ℕ
negated none = none
negated (some n) = some ((2 ^ 64 - n) % 2 ^ 64)

-- `int64_t`, as its word
unfoldable pub from_chars_i64 : Text → Option ℕ
from_chars_i64 [] = none
from_chars_i64 (c ∷ []) = in_range (2 ^ 63) (digits_from 0 (c ∷ []))
from_chars_i64 (c ∷ d ∷ s) =
    if c == b'-'
    then negated (in_range (2 ^ 63 + 1) (digits_from 0 (d ∷ s)))
    else in_range (2 ^ 63) (digits_from 0 (c ∷ d ∷ s))

-- the next token, empty at the end, and what is behind it
unfoldable pub next_token : List Text → Text × List Text
next_token [] = ([], [])
next_token (t ∷ ts) = (t, ts)

abbrev pub is_word : Text → Text → Bool
is_word t w = same_text (up t) w

abbrev pub default_out : MatrixQuery
default_out = record {
  value_col = 0;
  agg = agg_count;
  has_filter = false;
  threshold = 0;
  cmp = gt;
  upper = 0;
  lo_i64 = 0;
  hi_i64 = 0;
  lo_f64 = 0;
  hi_f64 = 0;
  grouped = false;
  key_col = 0;
  num_groups = 0;
  limit = 0;
  filter_col = 0;
}

unfoldable pub agg_named : Text → Parsed AggOp
agg_named s =
    if same_text s (codes "COUNT")
    then parsed agg_count
    else if same_text s (codes "SUM")
    then parsed agg_sum
    else if same_text s (codes "MIN")
    then parsed agg_min
    else if same_text s (codes "MAX")
    then parsed agg_max
    else refused err_parse

unfoldable pub cmp_named : Text → Parsed MatrixCmp
cmp_named s =
    if same_text s (codes ">")
    then parsed gt
    else if same_text s (codes ">=")
    then parsed ge
    else if same_text s (codes "<")
    then parsed lt
    else if same_text s (codes "<=")
    then parsed le
    else if same_text s (codes "=")
    then parsed eq
    else if same_text s (codes "!=")
    then parsed ne
    else refused err_parse

unfoldable pub parsed_or : Option ℕ → (ℕ → MatrixQuery) → Parsed MatrixQuery
parsed_or none f = refused err_parse
parsed_or (some n) f = parsed (f n)

-- `lo` is the first bound of the two.
unfoldable pub set_bound :
    (Text → Option ℕ) → MatrixType → Bool → Text → MatrixQuery → Parsed MatrixQuery
set_bound strtod t_f64 lo v q =
    if length v == 0
    then refused err_parse
    else parsed_or (strtod v) (λ d. if lo then record q { lo_f64 = d } else record q { hi_f64 = d })
set_bound strtod t_i64 lo v q =
    parsed_or (from_chars_i64 v)
      (λ x. if lo then record q { lo_i64 = x } else record q { hi_i64 = x })
set_bound strtod t_u32 lo v q =
    parsed_or (from_chars 32 v)
      (λ x. if lo then record q { threshold = x } else record q { upper = x })

abbrev pub or_refused : {A : Type 0} → Option A → Parsed A
or_refused none = refused err_parse
or_refused (some a) = parsed a
