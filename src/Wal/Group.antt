-- ===== src/Wal/Group.antt =====
-- The bytes of one commit of the engine: its transactional puts and the marker behind them.
use matrixdb.Prelude.{
  ℕ, ◌-◌, ◌≤◌, ◌<◌, ◌≡◌, refl, ap, sym, ◌∙◌, inl, inr, List, [], ◌∷◌, ◌++◌, append_assoc,
  append-nil, length, length-append, leb, if◌then◌else◌, arith, Bool-cases, false, take,
}
use matrixdb.Wal.{ColdStore, sync_each, new, replay, replay_bytes}
use matrixdb.Wal.Log.{
  Entry, txn_put, commit, encode, encode_all, AllInRange, applied, pending, encode_all-append,
  applied-append,
}
use matrixdb.Wal.Crash.{
  append_all, file-append_all, whole, whole-append, crash, replay_bytes-cut, synced-append_all-new,
}

-- what `commit` appends for the buffered puts `ws`
unfoldable pub group : List (ℕ × ℕ) → List Entry
group [] = commit ∷ []
group (w ∷ ws) = txn_put w.0 w.1 ∷ group ws

pub applied-group : (txn ws : List (ℕ × ℕ)) → applied txn (group ws) ≡ txn ++ ws
unfolding group applied
applied-group txn [] = refl
applied-group txn (w ∷ ws) = applied-group (txn ++ (w ∷ [])) ws ∙ append_assoc txn (w ∷ []) ws

pub pending-group : (txn ws : List (ℕ × ℕ)) → pending txn (group ws) ≡ []
unfolding group pending
pending-group txn [] = refl
pending-group txn (w ∷ ws) = pending-group (txn ++ (w ∷ [])) ws

-- A group without its last byte applies nothing.
applied-whole_short :
    (n : ℕ) (txn ws : List (ℕ × ℕ))
    → n < length (encode_all (group ws))
    → applied txn (whole n (group ws)) ≡ []
unfolding group applied whole encode_all
applied-whole_short n txn [] h =
    let torn : leb (length (encode commit)) n ≡ false =
      ground (arith, length-append (encode commit) []) in
    rw (whole, torn) refl
applied-whole_short n txn (w ∷ ws) h =
    elim (Bool-cases (leb (length (encode (txn_put w.0 w.1))) n)) [
      | inl fits ↦
          rw (whole, fits)
            (applied-whole_short (n - length (encode (txn_put w.0 w.1))) (txn ++ (w ∷ [])) ws
              (ground (arith, length-append (encode (txn_put w.0 w.1)) (encode_all (group ws)))))
      | inr torn ↦ rw (whole, torn) refl
    ]

whole_all : (n : ℕ) (es : List Entry) → length (encode_all es) ≤ n → whole n es ≡ es
unfolding whole
whole_all n es h =
    ap (λ t. whole n t) (sym (append-nil es)) ∙ whole-append n es [] h ∙ append-nil es

-- The bytes of a log without an open transaction and of a group, cut behind the former.
pub replay_bytes-group :
    (es : List Entry) (ws : List (ℕ × ℕ)) (n : ℕ)
    → AllInRange (es ++ group ws)
    → pending [] es ≡ []
    → length (encode_all es) ≤ n
    → replay_bytes (take n (encode_all (es ++ group ws))) ≡ (
        if leb (length (encode_all (es ++ group ws))) n then applied [] es ++ ws else applied [] es)
replay_bytes-group es ws n r clean kept =
    let size = length-append (encode_all es) (encode_all (group ws)) in
    let room : ℕ = n - length (encode_all es) in
    rw
      (
        replay_bytes-cut n (es ++ group ws) r,
        whole-append n es (group ws) kept,
        applied-append [] es (whole room (group ws)),
        clean,
      )
      (elim (Bool-cases (leb (length (encode_all (es ++ group ws))) n)) [
        | inl fits ↦
            rw
              (
                fits,
                whole_all room (group ws) (ground (arith, encode_all-append es (group ws), size)),
                applied-group [] ws,
              )
              refl
        | inr torn ↦
            rw
              (
                torn,
                applied-whole_short room [] ws
                    (ground (arith, encode_all-append es (group ws), size)),
              )
              (append-nil (applied [] es))
      ])

module _ (es : List Entry) (ws : List (ℕ × ℕ)) (n : ℕ) (r : AllInRange (es ++ group ws)) where
  abbrev before : ColdStore
  before = append_all (new sync_each []) es

  -- Atomicity, for 64-bit keys and values. On a fresh log under `SYNC_EACH` append entries that leave
  -- no transactional put without its marker, then the group of a commit, and crash at a point that
  -- keeps at least the bytes secured before the group: the replay applies all of the group where the
  -- file holds all its bytes, and nothing of it otherwise.
  pub replay-group :
      pending [] es ≡ []
      → before.synced ≤ n
      → replay (crash (append_all before (group ws)) n) ≡ (
          if leb (length (encode_all (es ++ group ws))) n
          then applied [] es ++ ws
          else applied [] es)
  unfolding replay new
  replay-group clean kept =
      rw
        (
          file-append_all before (group ws),
          file-append_all (new sync_each []) es,
          ← encode_all-append es (group ws),
        )
        (replay_bytes-group es ws n r clean (omega (arith, synced-append_all-new es, kept)))
