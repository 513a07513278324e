-- ===== src/Sql/Strings.antt =====
-- Dictionary-encoded string columns of compute_mock.cpp: `load_string_column_dict`, `string_encode`,
-- `string_decode`, and what the parser makes of a comparison with a string. `std::sort`, `std::unique` and the two
-- binary searches are written as lists; a dictionary has fewer than 2 ^ 32 strings.
use matrixdb.Prelude.{
  ℕ, suc, ◌-◌, Bool, true, false, not, ◌&&◌, ◌||◌, Option, none, some, List, [], ◌∷◌, map, length,
  get_elem?, ltb, ◌==◌, if◌then◌else◌,
}
use matrixdb.Prelude.Maps.{◌>>=◌, ◌>>◌, guard, find, assign}
use matrixdb.Reduce.{ge, lt, eq, ne, between, Predicate}
use matrixdb.Catalog.{TierApi, Catalog}
use matrixdb.Catalog.Load.{load_scan_column}
use matrixdb.Sql.{Text, same_text}

-- `operator<` of `std::string`
unfoldable pub lt_text : Text → Text → Bool
lt_text [] [] = false
lt_text (x ∷ xs) [] = false
lt_text [] (y ∷ ys) = true
lt_text (x ∷ xs) (y ∷ ys) = ltb x y || (x == y && lt_text xs ys)

unfoldable pub insert_text : Text → List Text → List Text
insert_text x [] = x ∷ []
insert_text x (d ∷ ds) = let rest = insert_text x ds in if lt_text d x then d ∷ rest else x ∷ d ∷ ds

unfoldable pub sort_texts : List Text → List Text
sort_texts [] = []
sort_texts (x ∷ xs) = insert_text x (sort_texts xs)

-- `x` before the texts `ds`, unless it is the first of them
unfoldable pub unique_from : Text → List Text → List Text
unique_from x [] = x ∷ []
unique_from x (d ∷ ds) = let rest = unique_from d ds in if same_text x d then rest else x ∷ rest

unfoldable pub unique_texts : List Text → List Text
unique_texts [] = []
unique_texts (x ∷ xs) = unique_from x xs

unfoldable pub dict_of : List Text → List Text
dict_of rows = unique_texts (sort_texts rows)

-- each string with its code, from the code `c` on
unfoldable pub encoder_of : ℕ → List Text → List (Text × ℕ)
encoder_of c [] = []
encoder_of c (d ∷ ds) = (d, c) ∷ encoder_of (suc c) ds

unfoldable pub find_text : {A : Type 0} → Text → List (Text × A) → Option A
find_text s [] = none
find_text s ((t, c) ∷ enc) = if same_text s t then some c else find_text s enc

-- `enc[s]`; a string that is not there would be given the code 0
unfoldable pub code_of : List (Text × ℕ) → Text → ℕ
code_of enc s = elim (find_text s enc) [ none ↦ 0 | some c ↦ c ]

pub record Strings : Type 0 where
  pub string_dicts : List (ℕ × List Text)
  pub string_encoders : List (ℕ × List (Text × ℕ))

unfoldable pub string_dict_size : Strings → ℕ → ℕ
string_dict_size g id = elim (find id g.string_dicts) [ none ↦ 0 | some dict ↦ length dict ]

-- the empty string where there is no such code
unfoldable pub string_decode : Strings → ℕ → ℕ → Text
string_decode g id code = elim (find id g.string_dicts >>= λ dict. get_elem? dict code) [
  | none ↦ []
  | some s ↦ s
]

unfoldable pub encode_in : List (Text × ℕ) → Text → ℕ
encode_in enc s = elim (find_text s enc) [ none ↦ length enc | some c ↦ c ]

unfoldable pub string_encode : Strings → ℕ → Text → ℕ
string_encode g id s = elim (find id g.string_encoders) [ none ↦ 0 | some enc ↦ encode_in enc s ]

unfoldable pub load_string_column_dict :
    {T : Type 0} → TierApi T → ℕ → List Text → Strings → Catalog T → Option (Strings × Catalog T)
load_string_column_dict api id rows g s = do
  guard (not (id == 0))
  let dict = dict_of rows
  let enc = encoder_of 0 dict
  s ← load_scan_column api id (map (code_of enc) rows) s
  some (
    record {
      string_dicts = assign id dict g.string_dicts;
      string_encoders = assign id enc g.string_encoders;
    },
    s,
  )

-- `std::lower_bound` and `std::upper_bound` of a sorted dictionary: how many strings are before that place
unfoldable pub lower_code : List Text → Text → ℕ
lower_code [] x = 0
lower_code (d ∷ ds) x = let rest = lower_code ds x in if lt_text d x then suc rest else 0

unfoldable pub upper_code : List Text → Text → ℕ
upper_code [] x = 0
upper_code (d ∷ ds) x = let rest = upper_code ds x in if lt_text x d then 0 else suc rest

unfoldable pub last_of : ℕ → Text → ℕ
last_of c [] = c
last_of c (d ∷ s) = last_of d s

unfoldable pub without_last : Text → Text
without_last [] = []
without_last (c ∷ []) = []
without_last (c ∷ d ∷ s) = c ∷ without_last (d ∷ s)

unfoldable pub unquote : Text → Text
unquote [] = []
unquote (c ∷ []) = c ∷ []
unquote (c ∷ d ∷ s) =
    if (c == b'\'' || c == b'"') && last_of d s == c then without_last (d ∷ s) else c ∷ d ∷ s

-- A comparison with a literal: the filter on the codes. `none` is a parse error.
unfoldable pub string_filter : List Text → List (Text × ℕ) → Text → Text → Option (Predicate ℕ)
string_filter dict enc ops lit =
    if same_text ops (b'=' ∷ []) || same_text ops (b'!' ∷ b'=' ∷ [])
    then (if length lit == 0
        then none
        else some (record {
          cmp = if same_text ops (b'=' ∷ []) then eq else ne;
          a = encode_in enc (unquote lit);
          b = 0;
        }))
    else if length (unquote lit) == 0
    then none
    else if same_text ops (b'>' ∷ [])
    then some (record { cmp = ge; a = upper_code dict (unquote lit); b = 0 })
    else if same_text ops (b'>' ∷ b'=' ∷ [])
    then some (record { cmp = ge; a = lower_code dict (unquote lit); b = 0 })
    else if same_text ops (b'<' ∷ [])
    then some (record { cmp = lt; a = lower_code dict (unquote lit); b = 0 })
    else if same_text ops (b'<' ∷ b'=' ∷ [])
    then some (record { cmp = lt; a = upper_code dict (unquote lit); b = 0 })
    else none

-- BETWEEN two literals
unfoldable pub string_between : List Text → Text → Text → Predicate ℕ
string_between dict lo hi =
    let u = upper_code dict hi in
    record { cmp = between; a = lower_code dict lo; b = if u == 0 then 0 else u - 1 }
