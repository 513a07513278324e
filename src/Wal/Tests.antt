-- ===== src/Wal/Tests.antt =====
-- The log's theorems at a log of one put and one committed transaction.
use matrixdb.Prelude.{ℕ, ◌≡◌, refl, List, [], ◌∷◌, ◌++◌, take, arith}
use matrixdb.Prelude.Bytes.{to_bytes}
use matrixdb.Wal.{sync_each, new, finish, append_put, replay}
use matrixdb.Wal.Frame.{frame}
use matrixdb.Wal.Log.{
  Entry, put, txn_put, commit, payload, put_payload, encode, encode_all, AllInRange, applied,
  pending,
}
use matrixdb.Wal.Crash.{append_all, whole, crash, replay-crash}
use matrixdb.Wal.Group.{group, replay-group}
use matrixdb.Wal.Restart.{replay-orphans, replay-torn_reopened}

abbrev start : List Entry
start = put 7 70 ∷ []

abbrev writes : List (ℕ × ℕ)
writes = (1, 10) ∷ (2, 20) ∷ []

abbrev halfway : List Entry
halfway = put 7 70 ∷ txn_put 1 10 ∷ []

start_range : AllInRange start
start_range = ((omega arith, omega arith), tt)

halfway_range : AllInRange halfway
halfway_range = ((omega arith, omega arith), ((omega arith, omega arith), tt))

all_range : AllInRange (start ++ group writes)
unfolding group
all_range = (
  (omega arith, omega arith),
  ((omega arith, omega arith), ((omega arith, omega arith), (tt, tt))),
)

more_range : AllInRange (group ((5, 50) ∷ []))
unfolding group
more_range = ((omega arith, omega arith), (tt, tt))

replay-crash_example :
    replay (crash (append_all (append_all (new sync_each []) start) (group writes)) 90)
    ≡ ((7, 70) ∷ [])
unfolding applied pending whole frame payload put_payload to_bytes encode_all group
replay-crash_example =
    replay-crash start (group writes) 90 all_range
      (unfold new append_all append_put finish in omega arith)

replay-group_example :
    replay (crash (append_all (append_all (new sync_each []) start) (group writes)) 96)
    ≡ ((7, 70) ∷ (1, 10) ∷ (2, 20) ∷ [])
unfolding applied pending frame payload put_payload to_bytes encode_all group
replay-group_example =
    replay-group start writes 96 all_range refl
      (unfold new append_all append_put finish in omega arith)

replay-orphans_example :
    replay (append_all (new sync_each (encode_all halfway)) (group ((5, 50) ∷ [])))
    ≡ ((7, 70) ∷ (1, 10) ∷ (5, 50) ∷ [])
unfolding applied pending
replay-orphans_example = replay-orphans halfway ((5, 50) ∷ []) halfway_range more_range

replay-torn_reopened_example :
    replay (append_all (new sync_each (encode_all start ++ take 3 (encode commit))) (put 5 50 ∷ []))
    ≡ ((7, 70) ∷ [])
unfolding applied
replay-torn_reopened_example =
    replay-torn_reopened start commit 3 5 50 [] start_range (omega arith) (omega arith)
