-- ===== src/Wal/Frame.antt =====
-- One record on disk: its length, its checksum, its payload.
use matrixdb.Prelude.{
  ℕ, zero, suc, ◌+◌, ◌-◌, ◌≤◌, ◌<◌, ◌≡◌, refl, ap, ◌∙◌, false, ◌||◌, none, some, List, [], ◌∷◌,
  ◌++◌, append_assoc, length, take, length-append, length-take, ltb, ◌==◌, arith,
}
use matrixdb.Prelude.Bytes.{
  to_bytes, of_bytes, split_exact, length-to_bytes, of_bytes-to_bytes, split_exact-append,
  split_exact_short,
}
use native.Mathlib.Decide.{dec_lt}
use matrixdb.Wal.{matrix_crc32, read_record, wal_max_record}
use matrixdb.Wal.Crc.{AllBytes, matrix_crc32-lt}

pub take-append_ge {ℓ} :
    {A : Type ℓ} (n : ℕ) (xs ys : List A)
    → length xs ≤ n
    → take n (xs ++ ys) ≡ xs ++ take (n - length xs) ys
take-append_ge zero [] ys h = refl
take-append_ge zero (x ∷ xs) ys h = absurd (omega arith)
take-append_ge (suc n) [] ys h = let e : suc n ≡ suc n - 0 = omega arith in ap (λ t. take t ys) e
take-append_ge (suc n) (x ∷ xs) ys h =
    ap (λ t. x ∷ t) (take-append_ge n xs ys (omega arith) ∙ ap (λ t. xs ++ take t ys) (omega arith))

pub take-append_le {ℓ} :
    {A : Type ℓ} (n : ℕ) (xs ys : List A) → n ≤ length xs → take n (xs ++ ys) ≡ take n xs
take-append_le zero xs ys h = refl
take-append_le (suc n) [] ys h = absurd (omega arith)
take-append_le (suc n) (x ∷ xs) ys h = ap (λ t. x ∷ t) (take-append_le n xs ys (omega arith))

-- the bytes of a record with the payload `buf`
unfoldable pub frame : List ℕ → List ℕ
frame buf = to_bytes 4 (length buf) ++ (to_bytes 4 (matrix_crc32 buf) ++ buf)

pub length-frame : (buf : List ℕ) → length (frame buf) ≡ 8 + length buf
unfolding frame
length-frame buf = omega (
  arith,
  length-append (to_bytes 4 (length buf)) (to_bytes 4 (matrix_crc32 buf) ++ buf),
  length-append (to_bytes 4 (matrix_crc32 buf)) buf,
  length-to_bytes 4 (length buf),
  length-to_bytes 4 (matrix_crc32 buf),
)

-- a payload that the log may hold
pub record IsPayload (buf : List ℕ) : Type 0 where
  pub filled : 0 < length buf
  pub fits : length buf ≤ wal_max_record
  pub bytes : AllBytes buf

short : (n k : ℕ) (xs : List ℕ) → n < k → length (take n xs) < k
short n k xs h = omega (arith, length-take n xs)

module _ {buf : List ℕ} (ok : IsPayload buf) where
  head_eq : of_bytes (to_bytes 4 (length buf)) ≡ length buf
  head_eq = of_bytes-to_bytes 4 (length buf) (omega (arith, ok.fits))

  sum_eq : of_bytes (to_bytes 4 (matrix_crc32 buf)) ≡ matrix_crc32 buf
  sum_eq = of_bytes-to_bytes 4 (matrix_crc32 buf) (matrix_crc32-lt buf ok.bytes)

  head_accepted : (length buf == 0 || ltb wal_max_record (length buf)) ≡ false
  head_accepted = ground (arith, ok.filled, ok.fits)

  head : List ℕ
  head = to_bytes 4 (length buf)

  sum : List ℕ
  sum = to_bytes 4 (matrix_crc32 buf)

  split_head : (after : List ℕ) → split_exact 4 (head ++ after) ≡ some (head, after)
  unfolding head
  split_head after = split_exact-append 4 head after (length-to_bytes 4 (length buf))

  split_sum : (body : List ℕ) → split_exact 4 (sum ++ body) ≡ some (sum, body)
  unfolding sum
  split_sum body = split_exact-append 4 sum body (length-to_bytes 4 (matrix_crc32 buf))

  frame_parts : frame buf ≡ head ++ (sum ++ buf)
  unfolding frame head sum
  frame_parts = refl

  read_no_sum : (after : List ℕ) → length after < 4 → read_record (head ++ after) ≡ none
  unfolding read_record head
  read_no_sum after h =
      rw (read_record, split_head after, head_eq, head_accepted, split_exact_short 4 after h)

  read_no_body :
      (body : List ℕ) → length body < length buf → read_record (head ++ (sum ++ body)) ≡ none
  unfolding read_record head sum
  read_no_body body h = rw (
    read_record,
    split_head (sum ++ body),
    head_eq,
    head_accepted,
    split_sum body,
    head_eq,
    split_exact_short (length buf) body h,
  )

  -- Read from the front, a whole record gives its payload and what stands behind it.
  pub read_record-frame : (rest : List ℕ) → read_record (frame buf ++ rest) ≡ some (buf, rest)
  unfolding read_record head sum
  read_record-frame rest =
      rw
        (
          frame_parts,
          append_assoc,
          append_assoc,
          read_record,
          split_head (sum ++ (buf ++ rest)),
          head_eq,
          head_accepted,
          split_sum (buf ++ rest),
          head_eq,
          split_exact-append (length buf) buf rest refl,
          sum_eq,
        )
        (ground arith)

  length-head : length head ≡ 4
  unfolding head
  length-head = length-to_bytes 4 (length buf)

  length-sum : length sum ≡ 4
  unfolding sum
  length-sum = length-to_bytes 4 (matrix_crc32 buf)

  -- Cut before its end, a record is not read at all.
  pub read_record_torn : (n : ℕ) → n < length (frame buf) → read_record (take n (frame buf)) ≡ none
  unfolding read_record
  read_record_torn n h = elim (dec_lt n 4) [
    | yes p ↦ rw (read_record, split_exact_short 4 (take n (frame buf)) (short n 4 (frame buf) p))
    | no p ↦
        let cut = take-append_ge n head (sum ++ buf) (omega (arith, length-head)) in
        elim (dec_lt n 8) [
          | yes q ↦
              rw (frame_parts, cut)
                (read_no_sum (take (n - length head) (sum ++ buf))
                  (short (n - length head) 4 (sum ++ buf) (omega (arith, length-head))))
          | no q ↦
              let cut' =
                take-append_ge (n - length head) sum buf (omega (arith, length-head, length-sum)) in
              rw (frame_parts, cut, cut')
                (read_no_body (take (n - length head - length sum) buf) (
                  short (n - length head - length sum) (length buf) buf
                    (omega (arith, length-head, length-sum, length-frame buf))))
        ]
  ]
