-- ===== src/Engine/Snapshot.antt =====
-- The checkpoint file against the store that it was saved from.
use matrixdb.Prelude.{ℕ, ◌^◌, ◌≤◌, ◌<◌, ◌≡◌, refl, none, some, List, [], ◌∷◌, ◌++◌, length, arith}
use matrixdb.Prelude.Bytes.{
  to_bytes, split_exact, length-to_bytes, of_bytes-to_bytes, split_exact-append,
}
use matrixdb.Kv.{KvStore, for_each, get, capacity}
use matrixdb.Kv
use matrixdb.Kv.Invariant.{IsValid}
use matrixdb.Kv.Entries.{length-for_each}
use matrixdb.Kv.Reload.{fill, get-fill-for_each}
use matrixdb.Engine.{ckpt_magic, pairs_bytes, save_checkpoint, load_pairs, load_checkpoint, put_all}
use matrixdb.Engine.Durable.{AllWords}

split_word :
    (n v : ℕ) (rest : List ℕ) → split_exact n (to_bytes n v ++ rest) ≡ some (to_bytes n v, rest)
split_word n v rest = split_exact-append n (to_bytes n v) rest (length-to_bytes n v)

load_pairs-pairs_bytes :
    (ps : List (ℕ × ℕ)) (kv : KvStore)
    → AllWords ps
    → load_pairs (length ps) (pairs_bytes ps) kv ≡ some (put_all kv ps)
unfolding load_pairs pairs_bytes put_all AllWords
load_pairs-pairs_bytes [] kv h = refl
load_pairs-pairs_bytes (p ∷ ps) kv h =
    rw
      (
        load_pairs,
        split_word 8 p.0 (to_bytes 8 p.1 ++ pairs_bytes ps),
        split_word 8 p.1 (pairs_bytes ps),
        of_bytes-to_bytes 8 p.0 h.0.0,
        of_bytes-to_bytes 8 p.1 h.0.1,
      )
      (load_pairs-pairs_bytes ps (Kv.put kv p.0 p.1).1 h.1)

-- The checkpoint of a valid store with 64-bit keys and values loads without an abort, and puts into
-- the table at hand, in the order of `for_each`, the entries of the saved store.
load_checkpoint-save_checkpoint :
    (kv fresh : KvStore)
    → IsValid kv
    → kv.size < 2 ^ 64
    → AllWords (for_each kv)
    → load_checkpoint (some (save_checkpoint kv)) fresh ≡ some (put_all fresh (for_each kv))
unfolding load_checkpoint save_checkpoint for_each
load_checkpoint-save_checkpoint kv fresh valid small words =
    rw
      (
        load_checkpoint,
        split_word 4 ckpt_magic (to_bytes 8 kv.size ++ pairs_bytes (for_each kv)),
        of_bytes-to_bytes 4 ckpt_magic (omega arith),
        split_word 8 kv.size (pairs_bytes (for_each kv)),
        of_bytes-to_bytes 8 kv.size small,
        ← length-for_each valid,
      )
      (load_pairs-pairs_bytes (for_each kv) fresh words)

put_all-fill : (kv : KvStore) (ps : List (ℕ × ℕ)) → put_all kv ps ≡ fill kv ps
unfolding put_all fill
put_all-fill kv [] = refl
put_all-fill kv (p ∷ ps) = put_all-fill (Kv.put kv p.0 p.1).1 ps

-- The checkpoint of a valid store with 64-bit keys and values loads without an abort into an empty
-- table of enough capacity, and every key then reads as in the saved store.
pub load_checkpoint_restores :
    (kv fresh : KvStore)
    → IsValid kv
    → kv.size < 2 ^ 64
    → AllWords (for_each kv)
    → IsValid fresh
    → fresh.size ≡ 0
    → ((key : ℕ) → get fresh key ≡ none)
    → kv.size ≤ capacity fresh
    → (restored : KvStore) × (load_checkpoint (some (save_checkpoint kv)) fresh ≡ some restored)
      × ((key : ℕ) → get restored key ≡ get kv key)
load_checkpoint_restores kv fresh valid small words ready empty none' room = (
  put_all fresh (for_each kv),
  load_checkpoint-save_checkpoint kv fresh valid small words,
  (λ key. rw put_all-fill (get-fill-for_each key valid ready empty none' room)),
)
