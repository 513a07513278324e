-- ===== src/Engine/Recover.antt =====
-- A crash in the middle of a commit, and the engine that the constructor builds after it.
use matrixdb.Prelude.{
  ℕ, ◌≤◌, ◌≡◌, refl, sym, inl, inr, none, some, List, [], ◌++◌, length, take, leb, if◌then◌else◌,
  Bool-cases,
}
use matrixdb.Kv.{KvStore}
use matrixdb.Wal.{sync_each, new, replay}
use matrixdb.Wal.Log.{encode_all, applied, encode_all-append, AllInRange-append}
use matrixdb.Wal.Crash.{file-append_all}
use matrixdb.Wal.Group.{group, replay_bytes-group}
use matrixdb.Engine.{Engine, apply_all, load_checkpoint, put_all, start, started}
use matrixdb.Engine
use matrixdb.Engine.Durable.{
  IsDurable, put_all-append, kv-apply_all, cold_store-apply_all, log_writes-group, AllInRange-group,
}

-- the bytes of the log's file
abbrev pub wal_file : Engine → List ℕ
wal_file e = elim e.cold_store [ none ↦ [] | some s ↦ s.file ]

module _ {base : KvStore} {e : Engine} (d : IsDurable base e) where
  file-commit : wal_file (Engine.commit e) ≡ encode_all (d.entries ++ group e.txn_buf)
  unfolding Engine.commit
  file-commit =
      rw (cold_store-apply_all, d.stored, log_writes-group, file-append_all, d.bytes)
        (sym (encode_all-append d.entries (group e.txn_buf)))

  kv-commit : (Engine.commit e).kv ≡ put_all e.kv e.txn_buf
  unfolding Engine.commit
  kv-commit = kv-apply_all _ e.txn_buf

  restored :
      (n : ℕ)
      → length (wal_file e) ≤ n
      → (started sync_each e.checkpoint_file (take n (wal_file (Engine.commit e))) base).kv
        ≡ (if leb (length (wal_file (Engine.commit e))) n then (Engine.commit e).kv else e.kv)
  unfolding started replay new
  restored n kept =
      let before : length (encode_all d.entries) ≤ n = rw (d.stored, d.bytes) at kept in
      rw
        (
          file-commit,
          kv-commit,
          d.agrees,
          replay_bytes-group d.entries e.txn_buf n
              (AllInRange-append d.entries (group e.txn_buf) d.ranged
                (AllInRange-group e.txn_buf d.buffered))
              d.closed before,
        )
        (elim (Bool-cases (leb (length (encode_all (d.entries ++ group e.txn_buf))) n)) [
          | inl fits ↦ rw fits (put_all-append base (applied [] d.entries) e.txn_buf)
          | inr torn ↦ rw torn
        ])

  -- A commit is atomic and durable. From a durable state whose checkpoint loads into `fresh` as
  -- `base`, crash while `commit` writes its group, with any number of bytes of the file kept from the
  -- end of the log before the commit on: the constructor then builds an engine, whose store is that
  -- after the commit if the whole group is in the file, and that before it otherwise.
  pub start-commit_crash :
      (fresh : KvStore) (n : ℕ)
      → load_checkpoint e.checkpoint_file fresh ≡ some base
      → length (wal_file e) ≤ n
      → (recovered : Engine) × (start fresh sync_each e.checkpoint_file
            (take n (wal_file (Engine.commit e)))
          ≡ some recovered)
        × (recovered.kv
            ≡ (if leb (length (wal_file (Engine.commit e))) n then (Engine.commit e).kv else e.kv))
  unfolding start
  start-commit_crash fresh n loaded kept = (
    started sync_each e.checkpoint_file (take n (wal_file (Engine.commit e))) base,
    rw (start, loaded) refl,
    restored n kept,
  )
