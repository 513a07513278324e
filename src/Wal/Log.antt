-- ===== src/Wal/Log.antt =====
-- The log as the engine means it: entries, the bytes that the appends write for them, and what a
-- replay of them has to apply.
use matrixdb.Prelude.{
  ℕ, zero, suc, ◌/◌, ◌^◌, ◌<◌, ◌≡◌, refl, List, [], ◌∷◌, ◌++◌, append_assoc, length, length-append,
  arith,
}
use matrixdb.Prelude.Bytes.{to_bytes, length-to_bytes}
use matrixdb.Wal.{wal_commit, op_write, op_txn_write}
use matrixdb.Wal.Crc.{AllBytes}
use matrixdb.Wal.Frame.{frame, IsPayload}

pub data Entry : Type 0 where
  put txn_put : ℕ → ℕ → Entry
  commit : Entry

unfoldable pub put_payload : ℕ → ℕ → ℕ → List ℕ
put_payload opcode key value = to_bytes 8 key ++ (to_bytes 8 value ++ to_bytes 4 opcode)

unfoldable pub payload : Entry → List ℕ
unfolding put_payload
payload (put key value) = put_payload op_write key value
payload (txn_put key value) = put_payload op_txn_write key value
payload commit = to_bytes 4 wal_commit

abbrev pub encode : Entry → List ℕ
encode e = frame (payload e)

unfoldable pub encode_all : List Entry → List ℕ
encode_all [] = []
encode_all (e ∷ es) = encode e ++ encode_all es

-- keys and values are 64-bit words
abbrev pub InRange : Entry → Type 0
InRange (put key value) = (key < 2 ^ 64) × (value < 2 ^ 64)
InRange (txn_put key value) = (key < 2 ^ 64) × (value < 2 ^ 64)
InRange commit = Unit

abbrev pub AllInRange : List Entry → Type 0
AllInRange [] = Unit
AllInRange (e ∷ es) = InRange e × AllInRange es

-- what one entry applies, and the transactional puts that wait after it
abbrev pub entry_step : Entry → List (ℕ × ℕ) → List (ℕ × ℕ) × List (ℕ × ℕ)
entry_step (put key value) txn = ((key, value) ∷ [], txn)
entry_step (txn_put key value) txn = ([], txn ++ ((key, value) ∷ []))
entry_step commit txn = (txn, [])

-- The specification of a replay: the pairs that the entries apply, in order.
unfoldable pub applied : List (ℕ × ℕ) → List Entry → List (ℕ × ℕ)
applied txn [] = []
applied txn (e ∷ es) = (entry_step e txn).0 ++ applied (entry_step e txn).1 es

-- The transactional puts that no commit marker has followed.
unfoldable pub pending : List (ℕ × ℕ) → List Entry → List (ℕ × ℕ)
pending txn [] = txn
pending txn (e ∷ es) = pending (entry_step e txn).1 es

pub encode_all-append :
    (es fs : List Entry) → encode_all (es ++ fs) ≡ encode_all es ++ encode_all fs
unfolding encode_all
encode_all-append [] fs = refl
encode_all-append (e ∷ es) fs = rw (encode_all-append es fs, append_assoc)

pub applied-append :
    (txn : List (ℕ × ℕ)) (es fs : List Entry)
    → applied txn (es ++ fs) ≡ applied txn es ++ applied (pending txn es) fs
unfolding applied pending
applied-append txn [] fs = refl
applied-append txn (e ∷ es) fs = rw (applied-append (entry_step e txn).1 es fs, append_assoc)

pub pending-append :
    (txn : List (ℕ × ℕ)) (es fs : List Entry) → pending txn (es ++ fs) ≡ pending (pending txn es) fs
unfolding pending
pending-append txn [] fs = refl
pending-append txn (e ∷ es) fs = pending-append (entry_step e txn).1 es fs

pub AllInRange-append : (es fs : List Entry) → AllInRange es → AllInRange fs → AllInRange (es ++ fs)
AllInRange-append [] fs h k = k
AllInRange-append (e ∷ es) fs h k = (h.0, AllInRange-append es fs h.1 k)

AllBytes-append : (xs ys : List ℕ) → AllBytes xs → AllBytes ys → AllBytes (xs ++ ys)
AllBytes-append [] ys h k = k
AllBytes-append (x ∷ xs) ys h k = (h.0, AllBytes-append xs ys h.1 k)

pub AllBytes-to_bytes : (n v : ℕ) → AllBytes (to_bytes n v)
unfolding to_bytes
AllBytes-to_bytes zero v = tt
AllBytes-to_bytes (suc n) v = (omega arith, AllBytes-to_bytes n (v / 256))

pub length-put_payload : (op key value : ℕ) → length (put_payload op key value) ≡ 20
unfolding put_payload
length-put_payload op key value = omega (
  arith,
  length-append (to_bytes 8 key) (to_bytes 8 value ++ to_bytes 4 op),
  length-append (to_bytes 8 value) (to_bytes 4 op),
  length-to_bytes 8 key,
  length-to_bytes 8 value,
  length-to_bytes 4 op,
)

put_payload-IsPayload : (op key value : ℕ) → IsPayload (put_payload op key value)
unfolding put_payload
put_payload-IsPayload op key value = record {
  filled = omega (arith, length-put_payload op key value);
  fits = omega (arith, length-put_payload op key value);
  bytes =
      AllBytes-append (to_bytes 8 key) _ (AllBytes-to_bytes 8 key)
        (AllBytes-append (to_bytes 8 value) _ (AllBytes-to_bytes 8 value) (AllBytes-to_bytes 4 op));
}

pub payload-IsPayload : (e : Entry) → IsPayload (payload e)
unfolding payload
payload-IsPayload (put key value) = put_payload-IsPayload op_write key value
payload-IsPayload (txn_put key value) = put_payload-IsPayload op_txn_write key value
payload-IsPayload commit = record {
  filled = omega (arith, length-to_bytes 4 wal_commit);
  fits = omega (arith, length-to_bytes 4 wal_commit);
  bytes = AllBytes-to_bytes 4 wal_commit;
}
