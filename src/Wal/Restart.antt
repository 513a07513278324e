-- ===== src/Wal/Restart.antt =====
-- A log that is reopened after a crash: the constructor appends behind whatever bytes it finds.
use matrixdb.Prelude.{
  ℕ, zero, suc, ◌<◌, ◌≡◌, refl, none, List, [], ◌∷◌, ◌++◌, append_assoc, take, arith,
}
use matrixdb.Prelude.Bytes.{to_bytes, of_bytes, split_exact}
use matrixdb.Wal.{sync_each, new, replay, read_record}
use matrixdb.Wal.Frame.{frame}
use matrixdb.Wal.Log.{
  Entry, put, txn_put, commit, put_payload, payload, encode, encode_all, AllInRange,
  AllInRange-append, applied, pending, encode_all-append, applied-append,
}
use matrixdb.Wal.Replay.{replay_bytes-encode_all}
use matrixdb.Wal.Crash.{append_all, file-append_all, replay_bytes-all}
use matrixdb.Wal.Group.{group, applied-group}

-- Reopen a log that ends in transactional puts without a marker, and commit another transaction:
-- the next replay applies the old puts too, before those of the new transaction.
pub replay-orphans :
    (es : List Entry) (ws : List (ℕ × ℕ))
    → AllInRange es
    → AllInRange (group ws)
    → replay (append_all (new sync_each (encode_all es)) (group ws))
      ≡ applied [] es ++ (pending [] es ++ ws)
unfolding replay new
replay-orphans es ws r s =
    rw
      (
        file-append_all (new sync_each (encode_all es)) (group ws),
        ← encode_all-append es (group ws),
        replay_bytes-all (es ++ group ws) (AllInRange-append es (group ws) r s),
        applied-append [] es (group ws),
        applied-group (pending [] es) ws,
      )
      refl

torn_head :
    (k : ℕ) (e : Entry) (key value : ℕ) (fs : List Entry)
    → 0 < k
    → k < 4
    → read_record (take k (encode e) ++ encode_all (put key value ∷ fs)) ≡ none
unfolding read_record frame payload put_payload to_bytes of_bytes split_exact encode_all
torn_head zero e key value fs p q = absurd (omega arith)
torn_head (suc zero) (put a b) key value fs p q = refl
torn_head (suc zero) (txn_put a b) key value fs p q = refl
torn_head (suc zero) commit key value fs p q = refl
torn_head (suc (suc zero)) (put a b) key value fs p q = refl
torn_head (suc (suc zero)) (txn_put a b) key value fs p q = refl
torn_head (suc (suc zero)) commit key value fs p q = refl
torn_head (suc (suc (suc zero))) (put a b) key value fs p q = refl
torn_head (suc (suc (suc zero))) (txn_put a b) key value fs p q = refl
torn_head (suc (suc (suc zero))) commit key value fs p q = refl
torn_head (suc (suc (suc (suc k)))) e key value fs p q = absurd (omega arith)

-- Reopen a log that ends in one to three bytes of a torn record, and append entries, a put first: the
-- next replay stops at the torn bytes, and applies none of the entries appended after them.
pub replay-torn_reopened :
    (es : List Entry) (e : Entry) (k : ℕ) (key value : ℕ) (fs : List Entry)
    → AllInRange es
    → 0 < k
    → k < 4
    → replay (append_all (new sync_each (encode_all es ++ take k (encode e))) (put key value ∷ fs))
      ≡ applied [] es
unfolding replay new
replay-torn_reopened es e k key value fs r p q =
    let torn : List ℕ = encode_all es ++ take k (encode e) in
    rw
      (
        file-append_all (new sync_each torn) (put key value ∷ fs),
        append_assoc (encode_all es),
        replay_bytes-encode_all es (take k (encode e) ++ encode_all (put key value ∷ fs)) r
            (torn_head k e key value fs p q),
      )
      refl
