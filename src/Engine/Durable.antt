-- ===== src/Engine/Durable.antt =====
-- The store against the log, between two checkpoints.
use matrixdb.Prelude.{
  ℕ, ◌^◌, ◌<◌, ◌≡◌, refl, ap, sym, ◌∙◌, inl, inr, some, List, [], ◌∷◌, ◌++◌, length, Bool-cases,
}
use matrixdb.Kv.{KvStore}
use matrixdb.Kv
use matrixdb.Wal.{sync_each, ColdStore, append_txn_put, append_commit}
use matrixdb.Wal.Log.{
  Entry, put, encode_all, AllInRange, AllInRange-append, applied, pending, encode_all-append,
  applied-append, pending-append,
}
use matrixdb.Wal.Crash.{append_all, file-append_all, synced-append_all, policy-append_all}
use matrixdb.Wal.Group.{group, applied-group, pending-group}
use matrixdb.Engine.{
  Engine, apply_committed_write, apply_all, write_op, begin, txn_put, commit, log_writes, rollback,
  put_all,
}

-- 64-bit keys and values
unfoldable pub AllWords : List (ℕ × ℕ) → Type 0
AllWords [] = Unit
AllWords (w ∷ ws) = ((w.0 < 2 ^ 64) × (w.1 < 2 ^ 64)) × AllWords ws

pub put_all-append :
    (kv : KvStore) (xs ys : List (ℕ × ℕ)) → put_all kv (xs ++ ys) ≡ put_all (put_all kv xs) ys
unfolding put_all
put_all-append kv [] ys = refl
put_all-append kv (x ∷ xs) ys = put_all-append (Kv.put kv x.0 x.1).1 xs ys

kv-apply_committed_write :
    (e : Engine) (key value : ℕ)
    → (apply_committed_write e key value).kv ≡ (Kv.put e.kv key value).1
unfolding apply_committed_write
kv-apply_committed_write e key value = elim (Bool-cases (Kv.put e.kv key value).0) [
  | inl done ↦ rw done
  | inr full ↦ rw full
]

cold_store-apply_committed_write :
    (e : Engine) (key value : ℕ) → (apply_committed_write e key value).cold_store ≡ e.cold_store
unfolding apply_committed_write
cold_store-apply_committed_write e key value = elim (Bool-cases (Kv.put e.kv key value).0) [
  | inl done ↦ rw done
  | inr full ↦ rw full
]

txn_buf-apply_committed_write :
    (e : Engine) (key value : ℕ) → (apply_committed_write e key value).txn_buf ≡ e.txn_buf
unfolding apply_committed_write
txn_buf-apply_committed_write e key value = elim (Bool-cases (Kv.put e.kv key value).0) [
  | inl done ↦ rw done
  | inr full ↦ rw full
]

pub kv-apply_all : (e : Engine) (ws : List (ℕ × ℕ)) → (apply_all e ws).kv ≡ put_all e.kv ws
unfolding apply_all put_all
kv-apply_all e [] = refl
kv-apply_all e (w ∷ ws) =
    kv-apply_all (apply_committed_write e w.0 w.1) ws
    ∙ ap (λ kv. put_all kv ws) (kv-apply_committed_write e w.0 w.1)

pub cold_store-apply_all :
    (e : Engine) (ws : List (ℕ × ℕ)) → (apply_all e ws).cold_store ≡ e.cold_store
unfolding apply_all
cold_store-apply_all e [] = refl
cold_store-apply_all e (w ∷ ws) =
    cold_store-apply_all (apply_committed_write e w.0 w.1) ws
    ∙ cold_store-apply_committed_write e w.0 w.1

pub log_writes-group :
    (s : ColdStore) (ws : List (ℕ × ℕ)) → append_commit (log_writes s ws) ≡ append_all s (group ws)
unfolding log_writes append_all group
log_writes-group s [] = refl
log_writes-group s (w ∷ ws) = log_writes-group (append_txn_put s w.0 w.1) ws

pub AllInRange-group : (ws : List (ℕ × ℕ)) → AllWords ws → AllInRange (group ws)
unfolding group AllWords
AllInRange-group [] h = (tt, tt)
AllInRange-group (w ∷ ws) h = (h.0, AllInRange-group ws h.1)

-- The log is the bytes of `entries`, all secured, no transaction in it is open, and the store is
-- `base` with what the log applies put into it.
pub record IsDurable (base : KvStore) (e : Engine) : Type 0 where
  pub log : ColdStore
  pub stored : e.cold_store ≡ some log
  pub entries : List Entry
  pub ranged : AllInRange entries
  pub bytes : log.file ≡ encode_all entries
  pub each : log.policy ≡ sync_each
  pub secured : log.synced ≡ length log.file
  pub closed : pending [] entries ≡ []
  pub agrees : e.kv ≡ put_all base (applied [] entries)
  pub buffered : AllWords e.txn_buf

-- What the log gains goes to the store too.
grow :
    {base : KvStore} {e e' : Engine} (d : IsDurable base e) (es : List Entry)
    → AllInRange es
    → pending [] es ≡ []
    → e'.cold_store ≡ some (append_all d.log es)
    → e'.kv ≡ put_all e.kv (applied [] es)
    → AllWords e'.txn_buf
    → IsDurable base e'
grow d es r closed stored kv buffered = record {
  log = append_all d.log es;
  stored = stored;
  entries = d.entries ++ es;
  ranged = AllInRange-append d.entries es d.ranged r;
  bytes =
      file-append_all d.log es
      ∙ ap (λ f. f ++ encode_all es) d.bytes
      ∙ sym (encode_all-append d.entries es);
  each = policy-append_all d.log es ∙ d.each;
  secured = synced-append_all d.log es d.each d.secured;
  closed = pending-append [] d.entries es ∙ ap (λ t. pending t es) d.closed ∙ closed;
  agrees =
      kv
      ∙ ap (λ m. put_all m (applied [] es)) d.agrees
      ∙ sym (put_all-append _ (applied [] d.entries) (applied [] es))
      ∙ sym (
          ap (put_all _) (
            applied-append [] d.entries es
            ∙ ap (λ t. applied [] d.entries ++ applied t es) d.closed));
  buffered = buffered;
}

-- The operations of the write path; keys and values are 64-bit words.
pub data Step : Engine → Engine → Type 0 where
  wrote : (e : Engine) (key : ℕ) → key < 2 ^ 64 → Step e (write_op e key)
  began : (e : Engine) → Step e (begin e)
  buffered_put :
      (e : Engine) (key value : ℕ) → key < 2 ^ 64 → value < 2 ^ 64 → Step e (txn_put e key value)
  committed : (e : Engine) → Step e (commit e)
  rolled_back : (e : Engine) → Step e (rollback e)

pub data Run : Engine → Engine → Type 0 where
  done : (e : Engine) → Run e e
  after : {e e' e'' : Engine} → Step e e' → Run e' e'' → Run e e''

AllWords-append : (xs ys : List (ℕ × ℕ)) → AllWords xs → AllWords ys → AllWords (xs ++ ys)
unfolding AllWords
AllWords-append [] ys h k = k
AllWords-append (x ∷ xs) ys h k = (h.0, AllWords-append xs ys h.1 k)

module _ {base : KvStore} where
  -- An operation that leaves the log and the store alone.
  keep :
      {e e' : Engine}
      → IsDurable base e
      → e'.cold_store ≡ e.cold_store
      → e'.kv ≡ e.kv
      → AllWords e'.txn_buf
      → IsDurable base e'
  keep d store kv buffered = record {
    log = d.log;
    stored = store ∙ d.stored;
    entries = d.entries;
    ranged = d.ranged;
    bytes = d.bytes;
    each = d.each;
    secured = d.secured;
    closed = d.closed;
    agrees = kv ∙ d.agrees;
    buffered = buffered;
  }

  write_op-IsDurable :
      {e : Engine} (key : ℕ) → key < 2 ^ 64 → IsDurable base e → IsDurable base (write_op e key)
  unfolding write_op append_all applied pending put_all
  write_op-IsDurable {e} key h d =
      grow d (put key key ∷ []) ((h, h), tt) refl
        (cold_store-apply_committed_write _ key key ∙ rw d.stored refl)
        (kv-apply_committed_write _ key key) (rw txn_buf-apply_committed_write d.buffered)

  commit-IsDurable : {e : Engine} → IsDurable base e → IsDurable base (commit e)
  unfolding commit AllWords
  commit-IsDurable {e} d =
      grow d (group e.txn_buf) (AllInRange-group e.txn_buf d.buffered) (pending-group [] e.txn_buf)
        (cold_store-apply_all _ e.txn_buf
          ∙ rw d.stored (ap some (log_writes-group d.log e.txn_buf)))
        (kv-apply_all _ e.txn_buf ∙ ap (put_all e.kv) (sym (applied-group [] e.txn_buf))) tt

  step-IsDurable : {e e' : Engine} → Step e e' → IsDurable base e → IsDurable base e'
  unfolding begin txn_put rollback AllWords
  step-IsDurable (wrote e key h) d = write_op-IsDurable key h d
  step-IsDurable (began e) d = keep d refl refl tt
  step-IsDurable (buffered_put e key value h k) d =
      keep d refl refl (AllWords-append e.txn_buf ((key, value) ∷ []) d.buffered ((h, k), tt))
  step-IsDurable (committed e) d = commit-IsDurable d
  step-IsDurable (rolled_back e) d = keep d refl refl tt

  -- Writes, transactions and rollbacks keep the store equal to the contents of the last checkpoint
  -- (`base`) with the log applied on top, every byte of the log secured and no transaction in it
  -- open.
  pub run-IsDurable : {e e' : Engine} → Run e e' → IsDurable base e → IsDurable base e'
  run-IsDurable (done e) d = d
  run-IsDurable (after s r) d = run-IsDurable r (step-IsDurable s d)
