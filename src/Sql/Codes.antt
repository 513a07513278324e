-- ===== src/Sql/Codes.antt =====
-- Codes and strings of a dictionary-encoded column (compute_mock.cpp), and the filters on the codes.
use matrixdb.Prelude.{
  ℕ, zero, suc, ◌+◌, ◌<◌, ◌≡◌, refl, ap, sym, ◌∙◌, inl, inr, Bool, true, false, not, ◌&&◌, ◌||◌,
  Bool-cases, none, some, List, [], ◌∷◌, length, get_elem?, ltb, ◌==◌, if◌then◌else◌, arith,
}
use matrixdb.Reduce.{u32, Predicate, pred_match}
use matrixdb.Sql.{Text, same_text}
use matrixdb.Sql.Strings.{
  lt_text, insert_text, sort_texts, unique_from, unique_texts, dict_of, encoder_of, find_text,
  code_of, encode_in, upper_code, unquote, string_filter, string_between,
}
use matrixdb.Sql.Dict.{
  IsDict, Before-get, same_text_refl, same_text_eq, lt_text_irrefl, lt_text_asym, lower_code_lem,
  upper_code_lem, dict_of-IsDict,
}

unfoldable pub has_text : Text → List Text → Bool
has_text s [] = false
has_text s (d ∷ ds) = same_text s d || has_text s ds

has_text-insert_text :
    (s x : Text) (ds : List Text) → has_text s (insert_text x ds) ≡ (same_text s x || has_text s ds)
unfolding has_text insert_text
has_text-insert_text s x [] = refl
has_text-insert_text s x (d ∷ ds) = ground (arith, has_text-insert_text s x ds)

has_text-sort_texts : (s : Text) (xs : List Text) → has_text s (sort_texts xs) ≡ has_text s xs
unfolding has_text sort_texts
has_text-sort_texts s [] = refl
has_text-sort_texts s (x ∷ xs) =
    has_text-insert_text s x (sort_texts xs)
    ∙ ap (λ b. same_text s x || b) (has_text-sort_texts s xs)

twice : (a b : Bool) → (a || b) ≡ (a || (a || b))
twice a b = ground arith

has_text-unique_from :
    (s x : Text) (ds : List Text) → has_text s (unique_from x ds) ≡ (same_text s x || has_text s ds)
unfolding has_text unique_from
has_text-unique_from s x [] = refl
has_text-unique_from s x (d ∷ ds) = elim (Bool-cases (same_text x d)) [
  | inl e ↦ rw e (
      has_text-unique_from s d ds ∙ rw (same_text_eq x d e) (twice (same_text s d) (has_text s ds)))
  | inr e ↦ rw e (ap (λ b. same_text s x || b) (has_text-unique_from s d ds))
]

has_text-unique_texts : (s : Text) (ds : List Text) → has_text s (unique_texts ds) ≡ has_text s ds
unfolding unique_texts has_text
has_text-unique_texts s [] = refl
has_text-unique_texts s (d ∷ ds) = has_text-unique_from s d ds

has_text-dict_of : (s : Text) (rows : List Text) → has_text s (dict_of rows) ≡ has_text s rows
unfolding dict_of
has_text-dict_of s rows = has_text-unique_texts s (sort_texts rows) ∙ has_text-sort_texts s rows

-- A string of the dictionary has the code of its place.
find_text-encoder_of :
    (s : Text) (ds : List Text) (k : ℕ)
    → has_text s ds ≡ true
    → (c : ℕ) × (find_text s (encoder_of k ds) ≡ some (k + c)) × (get_elem? ds c ≡ some s)
unfolding has_text find_text encoder_of
find_text-encoder_of s [] k h = absurd (ground arith)
find_text-encoder_of s (d ∷ ds) k h = elim (Bool-cases (same_text s d)) [
  | inl e ↦ (0, rw e (ap some (omega arith)), ap some (sym (same_text_eq s d e)))
  | inr e ↦
      let (c, f, g) = find_text-encoder_of s ds (suc k) (ground arith) in
      (suc c, rw e (f ∙ ap some (omega arith)), g)
]

first_code :
    (s : Text) (ds : List Text)
    → has_text s ds ≡ true
    → (c : ℕ) × (find_text s (encoder_of 0 ds) ≡ some c) × (get_elem? ds c ≡ some s)
first_code s ds h =
    let (c, f, g) = find_text-encoder_of s ds 0 h in (c, f ∙ ap some (omega arith), g)

-- another string has none
find_text_missing :
    (s : Text) (ds : List Text) (k : ℕ)
    → has_text s ds ≡ false
    → find_text s (encoder_of k ds) ≡ none
unfolding has_text find_text encoder_of
find_text_missing s [] k h = refl
find_text_missing s (d ∷ ds) k h = ground (arith, find_text_missing s ds (suc k))

length-encoder_of : (ds : List Text) (k : ℕ) → length (encoder_of k ds) ≡ length ds
unfolding encoder_of
length-encoder_of [] k = refl
length-encoder_of (d ∷ ds) k = ap suc (length-encoder_of ds (suc k))

has_text_get : (ds : List Text) (c : ℕ) (d : Text) → get_elem? ds c ≡ some d → has_text d ds ≡ true
unfolding has_text
has_text_get [] c d e = cc
has_text_get (y ∷ ds) zero d e = ground (arith, same_text_refl d)
has_text_get (y ∷ ds) (suc c) d e = ground (arith, has_text_get ds c d e)

get-length : (ds : List Text) (c : ℕ) (d : Text) → get_elem? ds c ≡ some d → c < length ds
get-length [] c d e = cc
get-length (y ∷ ds) zero d e = omega arith
get-length (y ∷ ds) (suc c) d e = omega (arith, get-length ds c d e)

-- The order of the codes is the order of the strings.
codes_order :
    (ds : List Text) (b c : ℕ) (s t : Text)
    → IsDict ds
    → get_elem? ds b ≡ some s
    → get_elem? ds c ≡ some t
    → ltb b c ≡ lt_text s t
unfolding IsDict
codes_order [] b c s t h e f = cc
codes_order (y ∷ ds) zero zero s t h e f = ground (arith, lt_text_irrefl y)
codes_order (y ∷ ds) zero (suc c) s t h e f = ground (arith, Before-get y ds c t h.0 f)
codes_order (y ∷ ds) (suc b) zero s t h e f =
    ground (arith, Before-get y ds b s h.0 e, lt_text_asym y s)
codes_order (y ∷ ds) (suc b) (suc c) s t h e f = ground (arith, codes_order ds b c s t h.1 e f)

same_suc : (c k : ℕ) → (suc c == suc k) ≡ (c == k)
same_suc c k = ground arith

code_of-some :
    (s : Text) (enc : List (Text × ℕ)) (c : ℕ) → find_text s enc ≡ some c → code_of enc s ≡ c
unfolding code_of
code_of-some s enc c f = rw (f, code_of) refl

encode_in-some :
    (s : Text) (enc : List (Text × ℕ)) (c : ℕ) → find_text s enc ≡ some c → encode_in enc s ≡ c
unfolding encode_in
encode_in-some s enc c f = rw (f, encode_in) refl

encode_in-none :
    (s : Text) (enc : List (Text × ℕ)) → find_text s enc ≡ none → encode_in enc s ≡ length enc
unfolding encode_in
encode_in-none s enc f = rw (f, encode_in) refl

same_code :
    (ds : List Text) (c k : ℕ) (d x : Text)
    → IsDict ds
    → get_elem? ds c ≡ some d
    → get_elem? ds k ≡ some x
    → (c == k) ≡ same_text d x
unfolding IsDict
same_code [] c k d x h e g = cc
same_code (y ∷ ds) zero zero d x h e g = ground (arith, same_text_refl d)
same_code (y ∷ ds) zero (suc k) d x h e g =
    ground (arith, Before-get y ds k x h.0 g, lt_text_irrefl y, same_text_eq d x)
same_code (y ∷ ds) (suc c) zero d x h e g =
    ground (arith, Before-get y ds c d h.0 e, lt_text_irrefl y, same_text_eq d x)
same_code (y ∷ ds) (suc c) (suc k) d x h e g = same_suc c k ∙ same_code ds c k d x h.1 e g

encode_in_lem :
    (ds : List Text) (c : ℕ) (d x : Text)
    → IsDict ds
    → get_elem? ds c ≡ some d
    → (c == encode_in (encoder_of 0 ds) x) ≡ same_text d x
encode_in_lem ds c d x h e = elim (Bool-cases (has_text x ds)) [
  | inl m ↦
      let (k, f, g) = first_code x ds m in
      rw (encode_in-some x (encoder_of 0 ds) k f) (same_code ds c k d x h e g)
  | inr m ↦
      rw (encode_in-none x (encoder_of 0 ds) (find_text_missing x ds 0 m), length-encoder_of ds 0)
        (ground (arith, get-length ds c d e, same_text_eq d x, has_text_get ds c d e))
]

-- A string of a column is stored as a code, the code is read back as the string, and codes are in the order of the
-- strings.
pub code_of-order :
    (rows : List Text) (s t : Text)
    → has_text s rows ≡ true
    → has_text t rows ≡ true
    → (get_elem? (dict_of rows) (code_of (encoder_of 0 (dict_of rows)) s) ≡ some s)
      × (ltb (code_of (encoder_of 0 (dict_of rows)) s) (code_of (encoder_of 0 (dict_of rows)) t)
          ≡ lt_text s t)
code_of-order rows s t h k =
    let (b, f, g) = first_code s (dict_of rows) (has_text-dict_of s rows ∙ h) in
    let (c, f', g') = first_code t (dict_of rows) (has_text-dict_of t rows ∙ k) in
    let p = code_of-some s (encoder_of 0 (dict_of rows)) b f in
    let q = code_of-some t (encoder_of 0 (dict_of rows)) c f' in
    (rw p g, rw (p, q) (codes_order (dict_of rows) b c s t (dict_of-IsDict rows) g g'))

-- what a comparison with a literal says of a string
unfoldable pub holds : Text → Text → Text → Bool
holds ops d x =
    if same_text ops (b'=' ∷ [])
    then same_text d x
    else if same_text ops (b'!' ∷ b'=' ∷ [])
    then not (same_text d x)
    else if same_text ops (b'>' ∷ [])
    then lt_text x d
    else if same_text ops (b'>' ∷ b'=' ∷ [])
    then not (lt_text d x)
    else if same_text ops (b'<' ∷ [])
    then lt_text d x
    else not (lt_text x d)

-- Of a string `d` of a sorted dictionary, a code passes the filter that a comparison with a literal is parsed into
-- if and only if the comparison holds of `d` and the literal without its quotes.
pub string_filter-holds :
    (ds : List Text) (ops lit : Text) (p : Predicate ℕ) (c : ℕ) (d : Text)
    → string_filter ds (encoder_of 0 ds) ops lit ≡ some p
    → IsDict ds
    → get_elem? ds c ≡ some d
    → pred_match u32 c p ≡ holds ops d (unquote lit)
unfolding string_filter holds pred_match
string_filter-holds ds ops lit p c d h i e = ground (
  arith,
  encode_in_lem ds c d (unquote lit) i e,
  lower_code_lem (unquote lit) ds c d i e,
  upper_code_lem (unquote lit) ds c d i e,
)

-- BETWEEN two literals is the filter of the strings from the one to the other, if some string of the dictionary is
-- not after the upper one.
pub string_between-holds :
    (ds : List Text) (lo hi : Text) (c : ℕ) (d : Text)
    → IsDict ds
    → get_elem? ds c ≡ some d
    → 0 < upper_code ds hi
    → pred_match u32 c (string_between ds lo hi) ≡ (not (lt_text d lo) && not (lt_text hi d))
unfolding string_between pred_match
string_between-holds ds lo hi c d i e h =
    ground (arith, lower_code_lem lo ds c d i e, upper_code_lem hi ds c d i e)
