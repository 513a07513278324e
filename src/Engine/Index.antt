-- ===== src/Engine/Index.antt =====
-- The ordered index beside the store, and the two range scans.
use matrixdb.Prelude.{
  ℕ, ◌≤◌, ◌<◌, ◌≡◌, refl, sym, inl, inr, ◌&&◌, none, some, List, [], ◌∷◌, ltb, leb, ◌==◌,
  if◌then◌else◌, Bool-cases, arith,
}
use matrixdb.Kv.{KvStore, get, for_each}
use matrixdb.Kv
use matrixdb.Kv.Invariant.{IsValid}
use matrixdb.Kv.Lookup.{put-IsValid, get-put}
use matrixdb.Kv.Entries.{lookup, lookup-for_each}
use matrixdb.Engine.{
  Engine, index_set, apply_committed_write, apply_all, range_of, kv_range, lower_bound, up_to,
  kv_range_sorted, write_op, begin, rollback,
}
use matrixdb.Engine
use matrixdb.Engine.Durable.{
  Step, wrote, began, buffered_put, committed, rolled_back, Run, done, after,
}

-- every key is above `b`
unfoldable pub Above : ℕ → List (ℕ × ℕ) → Type 0
Above b [] = Unit
Above b (p ∷ index) = (b < p.0) × Above b index

unfoldable pub IsAscending : List (ℕ × ℕ) → Type 0
IsAscending [] = Unit
IsAscending (p ∷ index) = Above p.0 index × IsAscending index

Above-le : (a b : ℕ) (index : List (ℕ × ℕ)) → a ≤ b → Above b index → Above a index
unfolding Above
Above-le a b [] h k = tt
Above-le a b (p ∷ index) h k = (omega (arith, h, k.0), Above-le a b index h k.1)

lookup-Above : (b k : ℕ) (index : List (ℕ × ℕ)) → Above b index → k ≤ b → lookup k index ≡ none
unfolding Above lookup
lookup-Above b k [] h le = refl
lookup-Above b k (p ∷ index) h le = ground (arith, h.0, lookup-Above b k index h.1 le)

lookup-index_set :
    (key value other : ℕ) (index : List (ℕ × ℕ))
    → lookup other (index_set key value index)
      ≡ (if key == other then some value else lookup other index)
unfolding lookup index_set
lookup-index_set key value other [] = refl
lookup-index_set key value other (p ∷ index) =
    ground (arith, lookup-index_set key value other index)

Above-index_set :
    (b key value : ℕ) (index : List (ℕ × ℕ))
    → b < key
    → Above b index
    → Above b (index_set key value index)
unfolding Above index_set
Above-index_set b key value [] h k = (h, tt)
Above-index_set b key value (p ∷ index) h k = elim (Bool-cases (ltb key p.0)) [
  | inl front ↦ rw front (h, k)
  | inr behind ↦ elim (Bool-cases (key == p.0)) [
    | inl here ↦ rw (behind, here) (h, k.1)
    | inr later ↦ rw (behind, later) (k.0, Above-index_set b key value index h k.1)
  ]
]

index_set-IsAscending :
    (key value : ℕ) (index : List (ℕ × ℕ))
    → IsAscending index
    → IsAscending (index_set key value index)
unfolding Above IsAscending index_set
index_set-IsAscending key value [] h = (tt, tt)
index_set-IsAscending key value (p ∷ index) h = elim (Bool-cases (ltb key p.0)) [
  | inl front ↦
      let below : key < p.0 = ground arith in
      rw front ((below, Above-le key p.0 index (omega arith) h.0), h)
  | inr behind ↦ elim (Bool-cases (key == p.0)) [
    | inl here ↦
        let same : key ≤ p.0 = ground arith in
        rw (behind, here) (Above-le key p.0 index same h.0, h.1)
    | inr later ↦
        let above : p.0 < key = ground arith in
        rw (behind, later)
          (Above-index_set p.0 key value index above h.0, index_set-IsAscending key value index h.1)
  ]
]

-- The store is valid, and the index is its contents in ascending order of the keys.
pub record IsMirrored (e : Engine) : Type 0 where
  pub valid : IsValid e.kv
  pub ascending : IsAscending e.key_index
  pub mirror : (key : ℕ) → lookup key e.key_index ≡ get e.kv key

-- A write, whether the table takes it or drops it, keeps the index a mirror of the store.
pub apply_committed_write-IsMirrored :
    {e : Engine} (key value : ℕ) → IsMirrored e → IsMirrored (apply_committed_write e key value)
unfolding apply_committed_write
apply_committed_write-IsMirrored {e} key value h = elim (Bool-cases (Kv.put e.kv key value).0) [
  | inl taken ↦ rw taken (record {
    valid = put-IsValid h.valid key value;
    ascending = index_set-IsAscending key value e.key_index h.ascending;
    mirror =
        λ other. rw (lookup-index_set, get-put h.valid key value other, taken, h.mirror other) refl;
  })
  | inr full ↦ rw full (record {
    valid = put-IsValid h.valid key value;
    ascending = h.ascending;
    mirror = λ other. rw (get-put h.valid key value other, full) (h.mirror other);
  })
]

pub apply_all-IsMirrored :
    (ws : List (ℕ × ℕ)) {e : Engine} → IsMirrored e → IsMirrored (apply_all e ws)
unfolding apply_all
apply_all-IsMirrored [] h = h
apply_all-IsMirrored (w ∷ ws) {e} h =
    apply_all-IsMirrored ws {e = apply_committed_write e w.0 w.1}
      (apply_committed_write-IsMirrored w.0 w.1 h)

-- An operation that leaves the store and the index alone.
same-IsMirrored :
    {e e' : Engine} → e'.kv ≡ e.kv → e'.key_index ≡ e.key_index → IsMirrored e → IsMirrored e'
same-IsMirrored kv index h = record {
  valid = rw kv h.valid;
  ascending = rw index h.ascending;
  mirror = λ key. rw (kv, index) (h.mirror key);
}

Step-IsMirrored : {e e' : Engine} → Step e e' → IsMirrored e → IsMirrored e'
unfolding write_op begin Engine.txn_put Engine.commit rollback
Step-IsMirrored (wrote e key p) h =
    apply_committed_write-IsMirrored key key (same-IsMirrored refl refl h)
Step-IsMirrored (began e) h = same-IsMirrored refl refl h
Step-IsMirrored (buffered_put e key value p q) h = same-IsMirrored refl refl h
Step-IsMirrored (committed e) h =
    same-IsMirrored refl refl (apply_all-IsMirrored e.txn_buf (same-IsMirrored refl refl h))
Step-IsMirrored (rolled_back e) h = same-IsMirrored refl refl h

-- Writes, transactions and rollbacks keep the store valid and the index its contents in ascending
-- order of the keys.
pub Run-IsMirrored : {e e' : Engine} → Run e e' → IsMirrored e → IsMirrored e'
Run-IsMirrored (done e) h = h
Run-IsMirrored (after s r) h = Run-IsMirrored r (Step-IsMirrored s h)

lookup-range_of :
    (lo hi key : ℕ) (ps : List (ℕ × ℕ))
    → lookup key (range_of lo hi ps) ≡ (if leb lo key && leb key hi then lookup key ps else none)
unfolding lookup range_of
lookup-range_of lo hi key [] = ground arith
lookup-range_of lo hi key (p ∷ ps) = ground (arith, lookup-range_of lo hi key ps)

lookup-lower_bound :
    (lo key : ℕ) (index : List (ℕ × ℕ))
    → IsAscending index
    → lookup key (lower_bound lo index) ≡ (if leb lo key then lookup key index else none)
unfolding lookup lower_bound IsAscending
lookup-lower_bound lo key [] h = ground arith
lookup-lower_bound lo key (p ∷ index) h =
    ground (arith, lookup-lower_bound lo key index h.1, lookup-Above p.0 key index h.0)

lookup-up_to :
    (hi key : ℕ) (index : List (ℕ × ℕ))
    → IsAscending index
    → lookup key (up_to hi index) ≡ (if leb key hi then lookup key index else none)
unfolding lookup up_to IsAscending
lookup-up_to hi key [] h = ground arith
lookup-up_to hi key (p ∷ index) h =
    ground (arith, lookup-up_to hi key index h.1, lookup-Above p.0 key index h.0)

Above-up_to : (b hi : ℕ) (index : List (ℕ × ℕ)) → Above b index → Above b (up_to hi index)
unfolding Above up_to
Above-up_to b hi [] h = tt
Above-up_to b hi (p ∷ index) h = elim (Bool-cases (leb p.0 hi)) [
  | inl inside ↦ rw inside (h.0, Above-up_to b hi index h.1)
  | inr outside ↦ rw outside tt
]

up_to-IsAscending :
    (hi : ℕ) (index : List (ℕ × ℕ)) → IsAscending index → IsAscending (up_to hi index)
unfolding IsAscending up_to
up_to-IsAscending hi [] h = tt
up_to-IsAscending hi (p ∷ index) h = elim (Bool-cases (leb p.0 hi)) [
  | inl inside ↦ rw inside (Above-up_to p.0 hi index h.0, up_to-IsAscending hi index h.1)
  | inr outside ↦ rw outside tt
]

lower_bound-IsAscending :
    (lo : ℕ) (index : List (ℕ × ℕ)) → IsAscending index → IsAscending (lower_bound lo index)
unfolding IsAscending lower_bound
lower_bound-IsAscending lo [] h = tt
lower_bound-IsAscending lo (p ∷ index) h = elim (Bool-cases (ltb p.0 lo)) [
  | inl below ↦ rw below (lower_bound-IsAscending lo index h.1)
  | inr found ↦ rw found h
]

-- Of an engine whose index mirrors the store: the range scan over the index is in ascending order of
-- the keys, shows for each key in the range what `get` returns and nothing else, and has the same
-- contents as the range scan over the table.
pub lookup-kv_range_sorted :
    {e : Engine} (lo hi key : ℕ)
    → IsMirrored e
    → IsAscending (kv_range_sorted e lo hi)
      × (lookup key (kv_range_sorted e lo hi)
          ≡ (if leb lo key && leb key hi then get e.kv key else none))
      × (lookup key (kv_range e lo hi) ≡ lookup key (kv_range_sorted e lo hi))
unfolding kv_range_sorted kv_range
lookup-kv_range_sorted {e} lo hi key h = (
  up_to-IsAscending hi (lower_bound lo e.key_index) ascending,
  sorted,
  rw (lookup-range_of, lookup-for_each h.valid key) (sym sorted),
)
  where
    ascending : IsAscending (lower_bound lo e.key_index)
    ascending = lower_bound-IsAscending lo e.key_index h.ascending

    sorted :
        lookup key (up_to hi (lower_bound lo e.key_index))
        ≡ (if leb lo key && leb key hi then get e.kv key else none)
    sorted =
        rw
          (
            lookup-up_to hi key (lower_bound lo e.key_index) ascending,
            lookup-lower_bound lo key e.key_index h.ascending,
            h.mirror key,
          )
          (ground arith)
