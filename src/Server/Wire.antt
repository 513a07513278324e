-- ===== src/Server/Wire.antt =====
-- The codec of server.hpp. A `double` crosses the wire as its 64-bit word and an `int64_t` as its
-- word in two's complement, so that a request holds the words; the aggregate is the number that the
-- enumeration stands for, since the codec takes any.
pub mod RoundTrip
use matrixdb.Prelude.{
  ℕ, zero, suc, ◌+◌, ◌*◌, ◌/◌, ◌^◌, Bool, true, false, not, ◌&&◌, ◌||◌, Option, none, some, List,
  [], ◌∷◌, ◌++◌, length, ltb, leb, ◌==◌, if◌then◌else◌,
}
use matrixdb.Prelude.Bytes.{to_bytes, of_bytes, split_exact}

-- the words of `MatrixQuery` that cross the wire
pub record Query : Type 0 where
  pub value_col : ℕ
  pub agg : ℕ
  pub has_filter : Bool
  pub threshold : ℕ
  pub cmp : ℕ
  pub upper : ℕ
  pub lo_i64 : ℕ
  pub hi_i64 : ℕ
  pub lo_f64 : ℕ
  pub hi_f64 : ℕ
  pub grouped : Bool
  pub key_col : ℕ
  pub num_groups : ℕ
  pub limit : ℕ
  pub filter_col : ℕ

pub record Request : Type 0 where
  pub kind : ℕ
  pub key : ℕ
  pub value : ℕ
  pub query : Query

pub record Response : Type 0 where
  pub status : ℕ
  pub results : List ℕ

abbrev pub flag : Bool → ℕ
flag b = if b then 1 else 0

unfoldable pub serialize_query : Query → List ℕ
serialize_query q =
    to_bytes 8 q.value_col
    ++ (to_bytes 4 q.agg
        ++ (to_bytes 1 (flag q.has_filter)
            ++ (to_bytes 4 q.threshold
                ++ (to_bytes 4 q.cmp
                    ++ (to_bytes 4 q.upper
                        ++ (to_bytes 8 q.lo_i64
                            ++ (to_bytes 8 q.hi_i64
                                ++ (to_bytes 8 q.lo_f64
                                    ++ (to_bytes 8 q.hi_f64
                                        ++ (to_bytes 1 (flag q.grouped)
                                            ++ (to_bytes 8 q.key_col
                                                ++ (to_bytes 4 q.num_groups
                                                    ++ (to_bytes 8 q.limit
                                                        ++ to_bytes 8 q.filter_col)))))))))))))

unfoldable pub serialize_request : Request → List ℕ
serialize_request r =
    to_bytes 4 r.kind ++ (to_bytes 8 r.key ++ (to_bytes 8 r.value ++ serialize_query r.query))

-- `Reader`: a read takes the word's bytes off the front, or fails.
unfoldable pub read : ℕ → List ℕ → Option (ℕ × List ℕ)
read n bytes = elim (split_exact n bytes) [
  | none ↦ none
  | some (front, rest) ↦ some (of_bytes front, rest)
]

unfoldable pub and_then {ℓ ℓ'} : {A : Type ℓ} {B : Type ℓ'} → Option A → (A → Option B) → Option B
and_then none f = none
and_then (some a) f = f a

unfoldable pub read_query : List ℕ → Option (Query × List ℕ)
read_query bytes = and_then (read 8 bytes) λ (value_col, bytes).
    and_then (read 4 bytes) λ (agg, bytes). and_then (read 1 bytes) λ (hf, bytes).
      and_then (read 4 bytes) λ (threshold, bytes). and_then (read 4 bytes) λ (cmp, bytes).
        and_then (read 4 bytes) λ (upper, bytes). and_then (read 8 bytes) λ (lo_i64, bytes).
          and_then (read 8 bytes) λ (hi_i64, bytes). and_then (read 8 bytes) λ (lo_f64, bytes).
            and_then (read 8 bytes) λ (hi_f64, bytes). and_then (read 1 bytes) λ (gr, bytes).
              and_then (read 8 bytes) λ (key_col, bytes).
                and_then (read 4 bytes) λ (num_groups, bytes).
                  and_then (read 8 bytes) λ (limit, bytes).
                    and_then (read 8 bytes) λ (filter_col, bytes). some (
                      record {
                        value_col = value_col;
                        agg = agg;
                        has_filter = not (hf == 0);
                        threshold = threshold;
                        cmp = cmp;
                        upper = upper;
                        lo_i64 = lo_i64;
                        hi_i64 = hi_i64;
                        lo_f64 = lo_f64;
                        hi_f64 = hi_f64;
                        grouped = not (gr == 0);
                        key_col = key_col;
                        num_groups = num_groups;
                        limit = limit;
                        filter_col = filter_col;
                      },
                      bytes,
                    )

-- The source reads all the fields and looks at `ok` at the end; a failed read keeps its state.
unfoldable pub deserialize_request : List ℕ → Option Request
deserialize_request bytes = and_then (read 4 bytes) λ (kind, bytes).
    and_then (read 8 bytes) λ (key, bytes). and_then (read 8 bytes) λ (value, bytes).
      and_then (read_query bytes) λ (query, bytes).
        if not (length bytes == 0)
        then none
        else if ltb kind 1 || ltb 5 kind
        then none
        else if ltb 6 query.cmp
        then none
        else some (record { kind = kind; key = key; value = value; query = query })

unfoldable pub words_bytes : List ℕ → List ℕ
words_bytes [] = []
words_bytes (x ∷ xs) = to_bytes 8 x ++ words_bytes xs

unfoldable pub serialize_response : Response → List ℕ
serialize_response r =
    to_bytes 4 r.status ++ (to_bytes 8 (length r.results) ++ words_bytes r.results)

unfoldable pub read_words : ℕ → List ℕ → Option (List ℕ × List ℕ)
read_words zero bytes = some ([], bytes)
read_words (suc count) bytes =
    and_then (read 8 bytes)
      λ (x, bytes). and_then (read_words count bytes) λ (xs, bytes). some (x ∷ xs, bytes)

unfoldable pub deserialize_response : List ℕ → Option Response
deserialize_response bytes = and_then (read 4 bytes) λ (status, bytes).
    and_then (read 8 bytes) λ (count, bytes).
      if ltb (2 ^ 28) count
      then none
      else if not (length bytes == count * 8)
      then none
      else and_then (read_words count bytes) λ (results, rest).
        if length rest == 0 then some (record { status = status; results = results }) else none
