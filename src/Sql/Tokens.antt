-- ===== src/Sql/Tokens.antt =====
-- Tokens written out and read again (`matrixparse_tokenize` of compute_mock.cpp).
use matrixdb.Prelude.{
  ℕ, zero, suc, ◌≤◌, ◌≡◌, refl, ap, sym, ◌∙◌, inl, inr, Bool, true, false, not, ◌&&◌, ◌||◌,
  Bool-cases, List, [], ◌∷◌, ◌++◌, append-nil, length, length-append, ◌==◌, arith,
}
use matrixdb.Sql.{
  Text, is_space, is_paren, is_operator, run_of, operator_of, token_of, tokens_of,
  matrixparse_tokenize, join,
}

abbrev pub is_plain : ℕ → Bool
is_plain c = not (is_space c || is_paren c || is_operator c)

unfoldable pub all_plain : Text → Bool
all_plain [] = true
all_plain (c ∷ s) = is_plain c && all_plain s

-- a token: a parenthesis, an operator, an operator and `=`, or a run
unfoldable pub is_token : Text → Bool
is_token [] = false
is_token (c ∷ []) = is_paren c || is_operator c || is_plain c
is_token (c ∷ d ∷ s) =
    (is_operator c && d == b'=' && length s == 0) || (is_plain c && all_plain (d ∷ s))

unfoldable pub all_tokens : List Text → Bool
all_tokens [] = true
all_tokens (t ∷ ts) = is_token t && all_tokens ts

run_plain : (s : Text) → all_plain (run_of s).0 ≡ true
unfolding run_of all_plain
run_plain [] = refl
run_plain (c ∷ s) = ground (arith, run_plain s)

plain_token : (c : ℕ) (s : Text) → is_plain c ≡ true → all_plain s ≡ true → is_token (c ∷ s) ≡ true
unfolding is_token all_plain
plain_token c [] h k = ground arith
plain_token c (d ∷ s) h k = ground arith

operator_token : (c : ℕ) (s : Text) → is_operator c ≡ true → is_token (operator_of c s).0 ≡ true
unfolding is_token operator_of
operator_token c [] h = ground arith
operator_token c (d ∷ s) h = ground arith

token_of_token : (c : ℕ) (s : Text) → is_space c ≡ false → is_token (token_of c s).0 ≡ true
unfolding token_of is_token
token_of_token c s h = ground (arith, operator_token c s, plain_token c (run_of s).0, run_plain s)

tokens_all : (fuel : ℕ) (s : Text) → all_tokens (tokens_of fuel s) ≡ true
unfolding tokens_of all_tokens
tokens_all zero s = refl
tokens_all (suc fuel) [] = refl
tokens_all (suc fuel) (c ∷ s) =
    ground (arith, token_of_token c s, tokens_all fuel s, tokens_all fuel (token_of c s).1)

-- behind a token: the end, or a space
unfoldable pub ends : Text → Bool
ends [] = true
ends (c ∷ s) = is_space c

run_then : (t s : Text) → all_plain t ≡ true → ends s ≡ true → run_of (t ++ s) ≡ (t, s)
unfolding run_of all_plain ends
run_then [] [] h k = refl
run_then [] (c ∷ s) h k = ground arith
run_then (x ∷ t) s h k = ground (arith, run_then t s)

space_not_equals : (d : ℕ) → is_space d ≡ true → (d == b'=') ≡ false
unfolding is_space
space_not_equals d h = ground arith

operator_not_paren : (c : ℕ) → is_operator c ≡ true → is_paren c ≡ false
unfolding is_operator is_paren
operator_not_paren c h = ground arith

plain_cases :
    (c : ℕ)
    → is_plain c ≡ true
    → (is_space c ≡ false) × (is_paren c ≡ false) × (is_operator c ≡ false)
plain_cases c h = (ground arith, ground arith, ground arith)

pair_then :
    (c d : ℕ) (t s : Text)
    → is_operator c ≡ true
    → (d == b'=') ≡ true
    → (length t == 0) ≡ true
    → token_of c (d ∷ (t ++ s)) ≡ (c ∷ d ∷ t, s)
unfolding token_of operator_of
pair_then c d [] s h e z = rw (operator_not_paren c h, h, e) refl
pair_then c d (x ∷ t) s h e z = absurd (ground arith)

word_then :
    (c : ℕ) (t s : Text)
    → is_plain c ≡ true
    → all_plain t ≡ true
    → ends s ≡ true
    → token_of c (t ++ s) ≡ (c ∷ t, s)
unfolding token_of
word_then c t s h k e = let (a, b, d) = plain_cases c h in rw (b, d, run_then t s k e) refl

single_then :
    (c : ℕ) (s : Text)
    → (is_paren c || is_operator c || is_plain c) ≡ true
    → ends s ≡ true
    → token_of c s ≡ (c ∷ [], s)
unfolding token_of operator_of ends all_plain run_of
single_then c [] h k = ground arith
single_then c (d ∷ s) h k = ground (arith, space_not_equals d)

token_then :
    (c : ℕ) (t s : Text)
    → is_token (c ∷ t) ≡ true
    → ends s ≡ true
    → token_of c (t ++ s) ≡ (c ∷ t, s)
unfolding is_token
token_then c [] s h k = single_then c s h k
token_then c (d ∷ t) s h k = elim (Bool-cases (is_operator c && d == b'=' && length t == 0)) [
  | inl o ↦ pair_then c d t s (ground arith) (ground arith) (ground arith)
  | inr o ↦ word_then c (d ∷ t) s (ground arith) (ground arith) k
]

-- A token begins with no space.
token_no_space : (c : ℕ) (t : Text) → is_token (c ∷ t) ≡ true → is_space c ≡ false
unfolding is_token is_space is_paren is_operator
token_no_space c [] h = ground arith
token_no_space c (d ∷ t) h = ground arith

space_ends : (s : Text) → ends (32 ∷ s) ≡ true
unfolding ends is_space
space_ends s = refl

tokens_of_nil : (fuel : ℕ) → tokens_of fuel [] ≡ []
unfolding tokens_of
tokens_of_nil zero = refl
tokens_of_nil (suc fuel) = refl

-- one round
tokens_of_token :
    (c : ℕ) (t s : Text) (fuel : ℕ)
    → is_token (c ∷ t) ≡ true
    → ends s ≡ true
    → tokens_of (suc fuel) ((c ∷ t) ++ s) ≡ (c ∷ t) ∷ tokens_of fuel s
unfolding tokens_of
tokens_of_token c t s fuel h e = rw (token_no_space c t h, token_then c t s h e) refl

tokens_of_space : (s : Text) (fuel : ℕ) → tokens_of (suc fuel) (32 ∷ s) ≡ tokens_of fuel s
unfolding tokens_of is_space
tokens_of_space s fuel = refl

tokens_of-join :
    (ts : List Text) (fuel : ℕ)
    → all_tokens ts ≡ true
    → length (join ts) ≤ fuel
    → tokens_of fuel (join ts) ≡ ts
unfolding join all_tokens is_token ends
tokens_of-join [] fuel h l = tokens_of_nil fuel
tokens_of-join ([] ∷ ts) fuel h l = absurd (ground arith)
tokens_of-join ((c ∷ t) ∷ []) zero h l = absurd (omega arith)
tokens_of-join ((c ∷ t) ∷ []) (suc fuel) h l =
    ap (tokens_of (suc fuel)) (sym (append-nil (c ∷ t)))
    ∙ tokens_of_token c t [] fuel (ground arith) refl
    ∙ ap (λ r. (c ∷ t) ∷ r) (tokens_of_nil fuel)
tokens_of-join ((c ∷ t) ∷ u ∷ ts) zero h l = absurd (omega arith)
tokens_of-join ((c ∷ t) ∷ u ∷ ts) (suc zero) h l =
    absurd (omega (arith, length-append t (32 ∷ join (u ∷ ts))))
tokens_of-join ((c ∷ t) ∷ u ∷ ts) (suc (suc fuel)) h l =
    tokens_of_token c t (32 ∷ join (u ∷ ts)) (suc fuel) (ground arith) (space_ends (join (u ∷ ts)))
    ∙ ap (λ r. (c ∷ t) ∷ r)
        (tokens_of_space (join (u ∷ ts)) fuel
          ∙ tokens_of-join (u ∷ ts) fuel (ground arith)
              (omega (arith, length-append t (32 ∷ join (u ∷ ts)))))

-- The tokens of any text, written with a space between them, read back the same.
pub tokenize-join :
    (s : Text) → matrixparse_tokenize (join (matrixparse_tokenize s)) ≡ matrixparse_tokenize s
unfolding matrixparse_tokenize
tokenize-join s =
    tokens_of-join (tokens_of (length s) s) (length (join (tokens_of (length s) s)))
      (tokens_all (length s) s) (omega arith)

-- the same of any list of tokens
pub tokenize_tokens : (ts : List Text) → all_tokens ts ≡ true → matrixparse_tokenize (join ts) ≡ ts
unfolding matrixparse_tokenize
tokenize_tokens ts h = tokens_of-join ts (length (join ts)) h (omega arith)

pub tokenize_all : (s : Text) → all_tokens (matrixparse_tokenize s) ≡ true
unfolding matrixparse_tokenize
tokenize_all s = tokens_all (length s) s
