-- ===== src/Sql.antt =====
-- SQL text in compute_mock.cpp: `matrixparse_tokenize` here, the dictionaries of string columns and the
-- parser in the children. A text is the list of its bytes; `isspace` and `toupper` are those of the C locale.
pub mod Tokens
pub mod Strings
pub mod Dict
pub mod Codes
pub mod Literals
pub mod Where
pub mod Parse
pub mod Entry
mod Tests
use Prim.Native.Char.{code}
use Prim.Native.String.{String}
use matrixdb.Prelude.{
  ℕ, zero, suc, ◌+◌, ◌-◌, ◌*◌, ◌^◌, Bool, true, false, not, ◌&&◌, ◌||◌, Option, none, some, List,
  [], ◌∷◌, ◌++◌, map, length, ltb, leb, ◌==◌, if◌then◌else◌,
}

abbrev pub Text : Type 0
Text = List ℕ

-- a literal of the source
abbrev pub codes : String → Text
codes String.[] = []
codes (String.◌∷◌ c s) = code c ∷ codes s

unfoldable pub is_space : ℕ → Bool
is_space c = c == 32 || (leb 9 c && leb c 13)

unfoldable pub is_paren : ℕ → Bool
is_paren c = c == b'(' || c == b')'

unfoldable pub is_operator : ℕ → Bool
is_operator c = c == b'>' || c == b'<' || c == b'=' || c == b'!'

unfoldable pub to_upper : ℕ → ℕ
to_upper c = if leb b'a' c && leb c b'z' then c - 32 else c

abbrev pub up : Text → Text
up s = map to_upper s

unfoldable pub same_text : Text → Text → Bool
same_text [] [] = true
same_text [] (y ∷ ys) = false
same_text (x ∷ xs) [] = false
same_text (x ∷ xs) (y ∷ ys) = x == y && same_text xs ys

-- a run up to the next space, parenthesis or operator, and what is behind it
unfoldable pub run_of : Text → Text × Text
run_of [] = ([], [])
run_of (c ∷ s) =
    let rest = run_of s in
    if is_space c || is_paren c || is_operator c then ([], c ∷ s) else (c ∷ rest.0, rest.1)

-- an operator character, alone or with the `=` behind it
unfoldable pub operator_of : ℕ → Text → Text × Text
operator_of c [] = (c ∷ [], [])
operator_of c (d ∷ s) = if d == b'=' then (c ∷ d ∷ [], s) else (c ∷ [], d ∷ s)

-- the first token of a text that begins with no space
unfoldable pub token_of : ℕ → Text → Text × Text
token_of c s =
    if is_paren c
    then (c ∷ [], s)
    else if is_operator c
    then operator_of c s
    else (c ∷ (run_of s).0, (run_of s).1)

-- The loop; each round takes a character at least.
unfoldable pub tokens_of : ℕ → Text → List Text
tokens_of zero s = []
tokens_of (suc fuel) [] = []
tokens_of (suc fuel) (c ∷ s) =
    let skipped = tokens_of fuel s in
    let rest = tokens_of fuel (token_of c s).1 in
    if is_space c then skipped else (token_of c s).0 ∷ rest

unfoldable pub matrixparse_tokenize : Text → List Text
matrixparse_tokenize s = tokens_of (length s) s

-- the tokens with a space between them, as `avg_query`, `having_query` and `project_query` write them
unfoldable pub join : List Text → Text
join [] = []
join (t ∷ []) = t
join (t ∷ u ∷ ts) = t ++ (32 ∷ join (u ∷ ts))
