-- ===== src/Server/Wire/RoundTrip.antt =====
-- Serialization of requests and responses against their deserialization.
use matrixdb.Prelude.{
  ℕ, ◌*◌, ◌^◌, ◌≤◌, ◌<◌, ◌≡◌, refl, ap₂, ◌∙◌, Bool, true, false, not, ◌||◌, Option, some, List, [],
  ◌∷◌, ◌++◌, append_assoc, append-nil, length, length-append, ltb, ◌==◌, arith,
}
use matrixdb.Prelude.Bytes.{to_bytes, length-to_bytes, of_bytes-to_bytes, split_exact-append}
use matrixdb.Server.Wire.{
  Query, Request, Response, flag, serialize_query, serialize_request, read, and_then, read_query,
  deserialize_request, words_bytes, serialize_response, read_words, deserialize_response,
}

read-to_bytes :
    (n v : ℕ) (rest : List ℕ) → v < 256 ^ n → read n (to_bytes n v ++ rest) ≡ some (v, rest)
unfolding read
read-to_bytes n v rest h =
    rw
      (
        read,
        split_exact-append n (to_bytes n v) rest (length-to_bytes n v),
        of_bytes-to_bytes n v h,
      )
      refl

-- the first field of a record, with bytes behind the record
field {ℓ} :
    {B : Type ℓ} (n : ℕ) {v : ℕ} (more rest : List ℕ) (f : ℕ × List ℕ → Option B)
    → v < 256 ^ n
    → and_then (read n ((to_bytes n v ++ more) ++ rest)) f ≡ f (v, more ++ rest)
unfolding and_then
field n {v} more rest f h =
    rw (append_assoc (to_bytes n v) more rest, read-to_bytes n v (more ++ rest) h) refl

last_field {ℓ} :
    {B : Type ℓ} (n : ℕ) {v : ℕ} (rest : List ℕ) (f : ℕ × List ℕ → Option B)
    → v < 256 ^ n
    → and_then (read n (to_bytes n v ++ rest)) f ≡ f (v, rest)
unfolding and_then
last_field n {v} rest f h = rw (read-to_bytes n v rest h) refl

flag-lt : (b : Bool) → flag b < 256 ^ 1
flag-lt true = omega arith
flag-lt false = omega arith

flag_lem : (b : Bool) → not (flag b == 0) ≡ b
flag_lem true = refl
flag_lem false = refl

unfoldable pub AllWord : List ℕ → Type 0
AllWord [] = Unit
AllWord (x ∷ xs) = (x < 256 ^ 8) × AllWord xs

-- The fields are words of their widths.
pub record IsQuery (q : Query) : Type 0 where
  pub value_col : q.value_col < 256 ^ 8
  pub agg : q.agg < 256 ^ 4
  pub threshold : q.threshold < 256 ^ 4
  pub cmp : q.cmp < 256 ^ 4
  pub upper : q.upper < 256 ^ 4
  pub lo_i64 : q.lo_i64 < 256 ^ 8
  pub hi_i64 : q.hi_i64 < 256 ^ 8
  pub lo_f64 : q.lo_f64 < 256 ^ 8
  pub hi_f64 : q.hi_f64 < 256 ^ 8
  pub key_col : q.key_col < 256 ^ 8
  pub num_groups : q.num_groups < 256 ^ 4
  pub limit : q.limit < 256 ^ 8
  pub filter_col : q.filter_col < 256 ^ 8

read_query-serialize_query :
    (q : Query) (rest : List ℕ)
    → IsQuery q
    → read_query (serialize_query q ++ rest) ≡ some (q, rest)
unfolding read_query serialize_query
read_query-serialize_query q rest h =
    field 8 _ rest _ h.value_col
    ∙ field 4 _ rest _ h.agg
    ∙ field 1 _ rest _ (flag-lt q.has_filter)
    ∙ field 4 _ rest _ h.threshold
    ∙ field 4 _ rest _ h.cmp
    ∙ field 4 _ rest _ h.upper
    ∙ field 8 _ rest _ h.lo_i64
    ∙ field 8 _ rest _ h.hi_i64
    ∙ field 8 _ rest _ h.lo_f64
    ∙ field 8 _ rest _ h.hi_f64
    ∙ field 1 _ rest _ (flag-lt q.grouped)
    ∙ field 8 _ rest _ h.key_col
    ∙ field 4 _ rest _ h.num_groups
    ∙ field 8 _ rest _ h.limit
    ∙ last_field 8 rest _ h.filter_col
    ∙ ap₂ (λ a b. some (record q { has_filter = a; grouped = b }, rest)) (flag_lem q.has_filter)
        (flag_lem q.grouped)

-- A request with a kind and a comparison that the protocol knows and with words for its fields reads
-- back as it was serialized.
pub deserialize_request-serialize_request :
    (r : Request)
    → 1 ≤ r.kind
    → r.kind ≤ 5
    → r.query.cmp ≤ 6
    → r.key < 256 ^ 8
    → r.value < 256 ^ 8
    → IsQuery r.query
    → deserialize_request (serialize_request r) ≡ some r
unfolding deserialize_request serialize_request and_then
deserialize_request-serialize_request r from to cmp key value q =
    let kinds : (ltb r.kind 1 || ltb 5 r.kind) ≡ false = ground arith in
    let cmps : ltb 6 r.query.cmp ≡ false = ground arith in
    last_field 4 _ _ (omega arith)
    ∙ last_field 8 _ _ key
    ∙ last_field 8 _ _ value
    ∙ rw
        (
          ← append-nil (serialize_query r.query),
          read_query-serialize_query r.query [] q,
          kinds,
          cmps,
        )
        refl

read_words-words_bytes :
    (xs : List ℕ) → AllWord xs → read_words (length xs) (words_bytes xs) ≡ some (xs, [])
unfolding read_words words_bytes and_then AllWord
read_words-words_bytes [] h = refl
read_words-words_bytes (x ∷ xs) h =
    last_field 8 (words_bytes xs) _ h.0 ∙ rw (read_words-words_bytes xs h.1) refl

pub length-words_bytes : (xs : List ℕ) → length (words_bytes xs) ≡ length xs * 8
unfolding words_bytes
length-words_bytes [] = refl
length-words_bytes (x ∷ xs) = omega (
  arith,
  length-append (to_bytes 8 x) (words_bytes xs),
  length-to_bytes 8 x,
  length-words_bytes xs,
)

-- A response with a 32-bit status and at most 2 ^ 28 results of 64 bits reads back as it was
-- serialized.
pub deserialize_response-serialize_response :
    (r : Response)
    → r.status < 256 ^ 4
    → length r.results ≤ 2 ^ 28
    → AllWord r.results
    → deserialize_response (serialize_response r) ≡ some r
unfolding deserialize_response serialize_response and_then
deserialize_response-serialize_response r status few words =
    let count : ltb (2 ^ 28) (length r.results) ≡ false = ground arith in
    let size : not (length (words_bytes r.results) == length r.results * 8) ≡ false =
      ground (arith, length-words_bytes r.results) in
    last_field 4 _ _ status
    ∙ last_field 8 _ _ (omega arith)
    ∙ rw (count, size, read_words-words_bytes r.results words) refl
