-- ===== src/Wal/Replay.antt =====
-- The replay of the bytes of a log against the meaning of its entries.
use matrixdb.Prelude.{
  ℕ, zero, suc, ◌+◌, ◌^◌, ◌<◌, ◌≡◌, refl, ap, ◌∙◌, inl, inr, none, some, List, [], ◌∷◌, ◌++◌,
  append_assoc, length, take, drop, length-append, arith, Option-cases,
}
use matrixdb.Prelude.Bytes.{
  to_bytes, of_bytes, split_exact, length-to_bytes, of_bytes-to_bytes, split_exact_sound,
}
use matrixdb.Wal.{read_record, replay_record, replay_loop, replay_bytes, op_write, op_txn_write}
use matrixdb.Wal.Frame.{length-frame, read_record-frame}
use matrixdb.Wal.Log.{
  Entry, put, txn_put, commit, put_payload, payload, encode, encode_all, length-put_payload,
  InRange, AllInRange, entry_step, applied, payload-IsPayload,
}

take_front : (n : ℕ) (xs ys : List ℕ) → length xs ≡ n → take n (xs ++ ys) ≡ xs
take_front zero [] ys h = refl
take_front zero (x ∷ xs) ys h = absurd (omega arith)
take_front (suc n) [] ys h = absurd (omega arith)
take_front (suc n) (x ∷ xs) ys h = ap (λ t. x ∷ t) (take_front n xs ys (omega arith))

drop_front : (n : ℕ) (xs ys : List ℕ) → length xs ≡ n → drop n (xs ++ ys) ≡ ys
drop_front zero [] ys h = refl
drop_front zero (x ∷ xs) ys h = absurd (omega arith)
drop_front (suc n) [] ys h = absurd (omega arith)
drop_front (suc n) (x ∷ xs) ys h = drop_front n xs ys (omega arith)

take_all : (n : ℕ) (xs : List ℕ) → length xs ≡ n → take n xs ≡ xs
take_all zero [] h = refl
take_all zero (x ∷ xs) h = absurd (omega arith)
take_all (suc n) [] h = absurd (omega arith)
take_all (suc n) (x ∷ xs) h = ap (λ t. x ∷ t) (take_all n xs (omega arith))

module _ (opcode key value : ℕ) where
  key_field : key < 2 ^ 64 → of_bytes (take 8 (put_payload opcode key value)) ≡ key
  unfolding put_payload
  key_field h =
      rw (take_front 8 (to_bytes 8 key) _ (length-to_bytes 8 key)) (of_bytes-to_bytes 8 key h)

  value_field : value < 2 ^ 64 → of_bytes (take 8 (drop 8 (put_payload opcode key value))) ≡ value
  unfolding put_payload
  value_field h =
      rw
        (
          drop_front 8 (to_bytes 8 key) _ (length-to_bytes 8 key),
          take_front 8 (to_bytes 8 value) _ (length-to_bytes 8 value),
        )
        (of_bytes-to_bytes 8 value h)

  opcode_field :
      opcode < 2 ^ 32 → of_bytes (take 4 (drop 16 (put_payload opcode key value))) ≡ opcode
  unfolding put_payload
  opcode_field h =
      rw
        (
          ← append_assoc (to_bytes 8 key) (to_bytes 8 value) (to_bytes 4 opcode),
          drop_front 16 (to_bytes 8 key ++ to_bytes 8 value) _ front_length,
          take_all 4 (to_bytes 4 opcode) (length-to_bytes 4 opcode),
        )
        (of_bytes-to_bytes 4 opcode h)
    where
      front_length : length (to_bytes 8 key ++ to_bytes 8 value) ≡ 16
      front_length = omega (
        arith,
        length-append (to_bytes 8 key) (to_bytes 8 value),
        length-to_bytes 8 key,
        length-to_bytes 8 value,
      )

-- The loop's body does to a written record what its entry means.
replay_record-payload :
    (e : Entry) (txn : List (ℕ × ℕ)) → InRange e → replay_record (payload e) txn ≡ entry_step e txn
unfolding replay_record payload
replay_record-payload (put key value) txn h = ground (
  arith,
  length-put_payload op_write key value,
  key_field op_write key value h.0,
  value_field op_write key value h.1,
  opcode_field op_write key value (omega arith),
)
replay_record-payload (txn_put key value) txn h = ground (
  arith,
  length-put_payload op_txn_write key value,
  key_field op_txn_write key value h.0,
  value_field op_txn_write key value h.1,
  opcode_field op_txn_write key value (omega arith),
)
replay_record-payload commit txn h = unfold to_bytes of_bytes in refl

split_exact_shrinks :
    (n : ℕ) (bytes : List ℕ) (p : List ℕ × List ℕ)
    → split_exact n bytes ≡ some p
    → length bytes ≡ n + length p.1
split_exact_shrinks n bytes p e =
    let (parts, size) = split_exact_sound n bytes p.0 p.1 e in
    ap length parts ∙ omega (arith, length-append p.0 p.1)

-- A record takes bytes from the file.
read_record_shrinks :
    (bytes buf rest : List ℕ) → read_record bytes ≡ some (buf, rest) → length rest < length bytes
unfolding read_record
read_record_shrinks bytes buf rest e = elim (Option-cases (split_exact 4 bytes)) [
  | inl e₁ ↦ ground arith
  | inr (p₁, e₁) ↦ elim (Option-cases (split_exact 4 p₁.1)) [
    | inl e₂ ↦ ground arith
    | inr (p₂, e₂) ↦ elim (Option-cases (split_exact (of_bytes p₁.0) p₂.1)) [
      | inl e₃ ↦ ground arith
      | inr (p₃, e₃) ↦ ground (
        arith,
        split_exact_shrinks 4 bytes p₁ e₁,
        split_exact_shrinks 4 p₁.1 p₂ e₂,
        split_exact_shrinks (of_bytes p₁.0) p₂.1 p₃ e₃,
      )
    ]
  ]
]

-- With more fuel than bytes the loop's result does not depend on the fuel.
pub replay_loop_fuel :
    (f g : ℕ) (bytes : List ℕ) (txn : List (ℕ × ℕ))
    → length bytes < f
    → length bytes < g
    → replay_loop f bytes txn ≡ replay_loop g bytes txn
unfolding replay_loop
replay_loop_fuel zero g bytes txn p q = absurd (omega arith)
replay_loop_fuel (suc f) zero bytes txn p q = absurd (omega arith)
replay_loop_fuel (suc f) (suc g) bytes txn p q = elim (Option-cases (read_record bytes)) [
  | inl e ↦ rw (replay_loop, e)
  | inr ((buf, rest), e) ↦
      let shorter = read_record_shrinks bytes buf rest e in
      rw (replay_loop, e)
        (ap (λ t. (replay_record buf txn).0 ++ t)
          (replay_loop_fuel f g rest (replay_record buf txn).1 (omega arith) (omega arith)))
]

-- Intact records, then bytes that are no record: the loop applies what the entries mean and stops.
replay_loop-encode_all :
    (f : ℕ) (es : List Entry) (tail : List ℕ) (txn : List (ℕ × ℕ))
    → AllInRange es
    → read_record tail ≡ none
    → length (encode_all es ++ tail) < f
    → replay_loop f (encode_all es ++ tail) txn ≡ applied txn es
unfolding encode_all applied replay_loop
replay_loop-encode_all zero es tail txn r stop h = absurd (omega arith)
replay_loop-encode_all (suc f) [] tail txn r stop h = rw (replay_loop, stop)
replay_loop-encode_all (suc f) (e ∷ es) tail txn r stop h =
    rw
      (
        replay_loop,
        append_assoc,
        read_record-frame (payload-IsPayload e) (encode_all es ++ tail),
        replay_record-payload e txn r.0,
      )
      (ap (λ t. (entry_step e txn).0 ++ t)
        (replay_loop-encode_all f es tail (entry_step e txn).1 r.1 stop (
          omega (
            arith,
            length-append (encode e ++ encode_all es) tail,
            length-append (encode e) (encode_all es),
            length-append (encode_all es) tail,
            length-frame (payload e),
          ))))

-- The bytes of entries with 64-bit keys and values, followed by bytes that are no record, replay as
-- what the entries apply.
pub replay_bytes-encode_all :
    (es : List Entry) (tail : List ℕ)
    → AllInRange es
    → read_record tail ≡ none
    → replay_bytes (encode_all es ++ tail) ≡ applied [] es
unfolding replay_bytes
replay_bytes-encode_all es tail r stop =
    replay_loop-encode_all (length (encode_all es ++ tail) + 1) es tail [] r stop (omega arith)
