-- ===== src/Wal/Crash.antt =====
-- Appends as entries, and what a replay finds after a crash that kept any number of bytes.
use matrixdb.Prelude.{
  ℕ, zero, suc, ◌-◌, ◌≤◌, ◌≡◌, refl, ap, sym, ◌∙◌, inl, inr, none, List, [], ◌∷◌, ◌++◌,
  append_assoc, append-nil, length, take, length-append, leb, if◌then◌else◌, arith, Bool-cases,
  true,
}
use matrixdb.Prelude.Bytes.{to_bytes, split_exact_short}
use matrixdb.Wal.{
  sync_each, ColdStore, new, finish, append_put, append_txn_put, append_commit, read_record,
  replay_bytes, replay,
}
use matrixdb.Wal.Frame.{frame, read_record_torn, take-append_ge, take-append_le}
use matrixdb.Wal.Log.{
  Entry, put, txn_put, commit, payload, encode, encode_all, AllInRange, applied, pending,
  encode_all-append, applied-append, payload-IsPayload,
}
use matrixdb.Wal.Replay.{replay_bytes-encode_all}

-- The append that writes an entry.
abbrev pub append : ColdStore → Entry → ColdStore
append s (put key value) = append_put s key value
append s (txn_put key value) = append_txn_put s key value
append s commit = append_commit s

unfoldable pub append_all : ColdStore → List Entry → ColdStore
append_all s [] = s
append_all s (e ∷ es) = append_all (append s e) es

-- Every append writes the bytes of its entry behind the file.
pub append-finish : (s : ColdStore) (e : Entry) → append s e ≡ finish s (encode e)
unfolding append_put append_txn_put append_commit frame payload to_bytes
append-finish s (put key value) = refl
append-finish s (txn_put key value) = refl
append-finish s commit = refl

pub file-append_all :
    (s : ColdStore) (es : List Entry) → (append_all s es).file ≡ s.file ++ encode_all es
unfolding append_all encode_all finish
file-append_all s [] = sym (append-nil s.file)
file-append_all s (e ∷ es) = file-append_all (append s e) es ∙ rw (append-finish s e, append_assoc)

-- With `SYNC_EACH` all that has been appended is secured.
pub synced-append_all :
    (s : ColdStore) (es : List Entry)
    → s.policy ≡ sync_each
    → s.synced ≡ length s.file
    → (append_all s es).synced ≡ length (append_all s es).file
unfolding append_all finish
synced-append_all s [] p h = h
synced-append_all s (e ∷ es) p h =
    synced-append_all (append s e) es (rw append-finish p) (rw (append-finish, p))

pub policy-append_all : (s : ColdStore) (es : List Entry) → (append_all s es).policy ≡ s.policy
unfolding append_all finish
policy-append_all s [] = refl
policy-append_all s (e ∷ es) = policy-append_all (append s e) es ∙ rw append-finish refl

-- the entries whose bytes lie whole in the first `n`
unfoldable pub whole : ℕ → List Entry → List Entry
whole n [] = []
whole n (e ∷ es) = if leb (length (encode e)) n then e ∷ whole (n - length (encode e)) es else []

whole-AllInRange : (n : ℕ) (es : List Entry) → AllInRange es → AllInRange (whole n es)
unfolding whole
whole-AllInRange n [] h = tt
whole-AllInRange n (e ∷ es) h = elim (Bool-cases (leb (length (encode e)) n)) [
  | inl fits ↦ rw fits (h.0, whole-AllInRange (n - length (encode e)) es h.1)
  | inr torn ↦ rw torn tt
]

take_none : (n : ℕ) → take n (encode_all []) ≡ encode_all (whole n []) ++ []
unfolding encode_all whole
take_none zero = refl
take_none (suc n) = refl

nothing_read : read_record [] ≡ none
unfolding read_record
nothing_read = rw (read_record, split_exact_short 4 [] (omega arith)) refl

-- A cut log is its whole entries and a tail that the replay does not read.
cut_parts :
    (n : ℕ) (es : List Entry)
    → (tail : List ℕ) × (take n (encode_all es) ≡ encode_all (whole n es) ++ tail)
      × (read_record tail ≡ none)
unfolding whole encode_all
cut_parts n [] = ([], take_none n, nothing_read)
cut_parts n (e ∷ es) = elim (Bool-cases (leb (length (encode e)) n)) [
  | inl fits ↦
      let (tail, parts, stop) = cut_parts (n - length (encode e)) es in
      (
        tail,
        rw (fits, take-append_ge n (encode e) (encode_all es) (ground arith), parts, append_assoc),
        stop,
      )
  | inr torn ↦ (
    take n (encode e),
    rw (torn, take-append_le n (encode e) (encode_all es) (ground arith)),
    read_record_torn (payload-IsPayload e) n (ground arith),
  )
]

-- A log of entries with 64-bit keys and values, cut after any number of bytes, replays as the entries
-- that it holds whole.
pub replay_bytes-cut :
    (n : ℕ) (es : List Entry)
    → AllInRange es
    → replay_bytes (take n (encode_all es)) ≡ applied [] (whole n es)
replay_bytes-cut n es r =
    let (tail, parts, stop) = cut_parts n es in
    rw parts (replay_bytes-encode_all (whole n es) tail (whole-AllInRange n es r) stop)

pub replay_bytes-all :
    (es : List Entry) → AllInRange es → replay_bytes (encode_all es) ≡ applied [] es
replay_bytes-all es r =
    sym (ap (λ t. replay_bytes t) (append-nil (encode_all es)))
    ∙ replay_bytes-encode_all es [] r nothing_read

pub whole-append :
    (n : ℕ) (es fs : List Entry)
    → length (encode_all es) ≤ n
    → whole n (es ++ fs) ≡ es ++ whole (n - length (encode_all es)) fs
unfolding whole encode_all
whole-append n [] fs h = ap (λ t. whole t fs) (omega arith)
whole-append n (e ∷ es) fs h =
    let size = length-append (encode e) (encode_all es) in
    let fits : leb (length (encode e)) n ≡ true = ground (arith, size) in
    rw (whole, fits)
      (ap (λ t. e ∷ t)
        (whole-append (n - length (encode e)) es fs (omega (arith, size))
          ∙ ap (λ k. es ++ whole k fs) (omega (arith, size))))

-- After a crash the file keeps its first `n` bytes.
abbrev pub crash : ColdStore → ℕ → ColdStore
crash s n = record s { file = take n s.file }

-- the bytes that a fresh log has secured under `SYNC_EACH`
pub synced-append_all-new :
    (es : List Entry) → (append_all (new sync_each []) es).synced ≡ length (encode_all es)
unfolding new
synced-append_all-new es =
    synced-append_all (new sync_each []) es refl refl
    ∙ ap length (file-append_all (new sync_each []) es)

module _ (es fs : List Entry) (n : ℕ) (r : AllInRange (es ++ fs)) where
  abbrev before : ColdStore
  before = append_all (new sync_each []) es

  before_file : before.file ≡ encode_all es
  unfolding new
  before_file = file-append_all (new sync_each []) es

  -- Durability, for entries with 64-bit keys and values. On a fresh log under `SYNC_EACH` append `es`, then `fs`, and crash at a point that
  -- keeps at least the bytes secured before `fs`: the replay applies all that `es` applies, and
  -- goes on with those entries of `fs` that the file still holds whole.
  pub replay-crash :
      before.synced ≤ n
      → replay (crash (append_all before fs) n)
        ≡ applied [] es ++ applied (pending [] es) (whole (n - length (encode_all es)) fs)
  unfolding replay new
  replay-crash kept =
      rw
        (
          file-append_all before fs,
          before_file,
          ← encode_all-append es fs,
          replay_bytes-cut n (es ++ fs) r,
          whole-append n es fs (omega (arith, synced-append_all-new es, kept)),
        )
        (applied-append [] es (whole (n - length (encode_all es)) fs))
