-- ===== src/Query/Pairs.antt =====
-- The hash joins of compute_mock.cpp against the pairs of rows with equal keys.
use matrixdb.Prelude.{
  ℕ, suc, ◌+◌, ◌%◌, ◌^◌, ◌<◌, ◌≡◌, inl, inr, refl, sym, ap, subst, ◌∙◌, Bool, true, false, List, [],
  ◌∷◌, ◌++◌, length, length-append, append_assoc, append-nil, ◌==◌, if◌then◌else◌, arith,
  Bool-cases, ==_iff,
}
use matrixdb.Prelude.Maps.{◌>>◌, guard, find, assign, find-assign_self, find-assign_ne}
use matrixdb.Engine.{count_up}
use matrixdb.Catalog.{
  MatrixType, t_u32, t_i64, TierApi, Catalog, u32_values, i64_values, catalog_has, read_two,
}
use matrixdb.Catalog.Borrow.{CpuTiers}
use matrixdb.Query.Shared.{column_bytes}
use matrixdb.Query.Joins.{
  rows_or_nil, push_row, build_rows, pairs_with, probe_rows, join_rows, count_or_0, build_counts,
  probe_counts, join_count, both_of_type, hash_join, hash_join_count, hash_join_i64,
}
use matrixdb.Query.Runs.{Executed, IsRunning, read_Executed, two_columns}

-- the rows from `i` on that hold `k`
unfoldable pub rows_where : ℕ → ℕ → List ℕ → List ℕ
rows_where k i [] = []
rows_where k i (x ∷ xs) = let rest = rows_where k (suc i) xs in if k == x then i ∷ rest else rest

-- Each right row with every left row that holds the same key: the loop in a loop.
unfoldable pub matching_pairs : List ℕ → ℕ → List ℕ → List (ℕ × ℕ)
matching_pairs lk j [] = []
matching_pairs lk j (k ∷ ks) = pairs_with j (rows_where k 0 lk) ++ matching_pairs lk (suc j) ks

rows-push_row :
    (k x i : ℕ) (m : List (ℕ × List ℕ))
    → rows_or_nil (find k (push_row x i m))
      ≡ rows_or_nil (find k m) ++ (if k == x then i ∷ [] else [])
unfolding push_row
rows-push_row k x i m = elim (Bool-cases (k == x)) [
  | inl e ↦
      grind (arith, e, (==_iff k x).0 e, find-assign_self x (rows_or_nil (find x m) ++ (i ∷ [])) m)
  | inr e ↦ grind (
    arith,
    e,
    append-nil (rows_or_nil (find k m)),
    find-assign_ne x k (rows_or_nil (find x m) ++ (i ∷ [])) m e,
  )
]

append_found :
    (b : Bool) (i : ℕ) (xs ys : List ℕ)
    → (xs ++ (if b then i ∷ [] else [])) ++ ys ≡ xs ++ (if b then i ∷ ys else ys)
append_found true i xs ys = append_assoc xs (i ∷ []) ys
append_found false i xs ys = ap (λ zs. zs ++ ys) (append-nil xs)

find-build_rows :
    (k i : ℕ) (ks : List ℕ) (m : List (ℕ × List ℕ))
    → rows_or_nil (find k (build_rows i ks m)) ≡ rows_or_nil (find k m) ++ rows_where k i ks
unfolding build_rows push_row rows_where
find-build_rows k i [] m = sym (append-nil (rows_or_nil (find k m)))
find-build_rows k i (x ∷ xs) m =
    find-build_rows k (suc i) xs (push_row x i m)
    ∙ ap (λ r. r ++ rows_where k (suc i) xs) (rows-push_row k x i m)
    ∙ append_found (k == x) i (rows_or_nil (find k m)) (rows_where k (suc i) xs)

probe_rows-build_rows :
    (lk : List ℕ) (j : ℕ) (rk : List ℕ)
    → probe_rows (build_rows 0 lk []) j rk ≡ matching_pairs lk j rk
unfolding probe_rows matching_pairs
probe_rows-build_rows lk j [] = refl
probe_rows-build_rows lk j (k ∷ ks) =
    rw (find-build_rows k 0 lk [], probe_rows-build_rows lk (suc j) ks) refl

count-build_counts :
    (k i : ℕ) (ks : List ℕ) (m : List (ℕ × ℕ))
    → count_or_0 (find k (build_counts ks m)) % 2 ^ 64
      ≡ (count_or_0 (find k m) + length (rows_where k i ks)) % 2 ^ 64
unfolding build_counts rows_where
count-build_counts k i [] m = omega arith
count-build_counts k i (x ∷ xs) m = elim (Bool-cases (k == x)) [
  | inl e ↦ ground (
    arith,
    (==_iff k x).0 e,
    count-build_counts k (suc i) xs (assign x (count_up (count_or_0 (find x m))) m),
    find-assign_self x (count_up (count_or_0 (find x m))) m,
  )
  | inr e ↦ ground (
    arith,
    count-build_counts k (suc i) xs (assign x (count_up (count_or_0 (find x m))) m),
    find-assign_ne x k (count_up (count_or_0 (find x m))) m e,
  )
]

length-pairs_with : (j : ℕ) (rows : List ℕ) → length (pairs_with j rows) ≡ length rows
unfolding pairs_with
length-pairs_with j [] = refl
length-pairs_with j (i ∷ rows) = ap suc (length-pairs_with j rows)

probe_counts-build_counts :
    (lk : List ℕ) (j : ℕ) (rk : List ℕ) (pairs : ℕ)
    → probe_counts (build_counts lk []) rk pairs % 2 ^ 64
      ≡ (pairs + length (matching_pairs lk j rk)) % 2 ^ 64
unfolding probe_counts matching_pairs
probe_counts-build_counts lk j [] pairs = omega arith
probe_counts-build_counts lk j (k ∷ ks) pairs = omega (
  arith,
  probe_counts-build_counts lk (suc j) ks
      ((pairs + count_or_0 (find k (build_counts lk []))) % 2 ^ 64),
  count-build_counts k 0 lk [],
  length-append (pairs_with j (rows_where k 0 lk)) (matching_pairs lk (suc j) ks),
  length-pairs_with j (rows_where k 0 lk),
)

pub join_rows-pairs : (lk rk : List ℕ) → join_rows lk rk ≡ matching_pairs lk 0 rk
unfolding join_rows
join_rows-pairs lk rk = probe_rows-build_rows lk 0 rk

probe_counts-lt :
    (m : List (ℕ × ℕ)) (rk : List ℕ) (pairs : ℕ) → pairs < 2 ^ 64 → probe_counts m rk pairs < 2 ^ 64
unfolding probe_counts
probe_counts-lt m [] pairs h = h
probe_counts-lt m (k ∷ ks) pairs h =
    probe_counts-lt m ks ((pairs + count_or_0 (find k m)) % 2 ^ 64) (omega arith)

pub join_count-pairs :
    (lk rk : List ℕ) → join_count lk rk ≡ length (matching_pairs lk 0 rk) % 2 ^ 64
unfolding join_count
join_count-pairs lk rk = omega (
  arith,
  probe_counts-build_counts lk 0 rk 0,
  probe_counts-lt (build_counts lk []) rk 0 (omega arith),
)

module _ {T : Type 0} (api : TierApi T) (Safe : T → Type 0) (tiers : CpuTiers api Safe) where
  both_facts :
      (t : MatrixType) (left right : ℕ) (s : Catalog T)
      → both_of_type t left right s ≡ true
      → (catalog_has left s ≡ true) × (catalog_has right s ≡ true)
  unfolding both_of_type
  both_facts t left right s h = ground arith

  joined :
      {A : Type 0} (t : MatrixType) (left right : ℕ) (f : List ℕ → List ℕ → A) (s : Catalog T)
      → IsRunning Safe s
      → both_of_type t left right s ≡ true
      → (left == right) ≡ false
      → Executed Safe
          (guard (both_of_type t left right s) >> read_two api left right f s)
          (f (column_bytes left s) (column_bytes right s))
          s
  joined t left right f s run h n =
      let (hl, hr) = both_facts t left right s h in
      rw h (
        read_Executed api Safe tiers s _ _ run
          (two_columns api Safe tiers s left right f hl hr n run))

  -- On a catalog whose columns are all in memory or on disk, with a tier manager that plans no other tier, for two
  -- different uint32_t columns: hash_join gives each pair of a left row and a right row with equal keys, once each,
  -- and hash_join_count their number (modulo 2 ^ 64).
  pub hash_join-pairs :
      (s : Catalog T) (left right : ℕ)
      → IsRunning Safe s
      → both_of_type t_u32 left right s ≡ true
      → (left == right) ≡ false
      → let pairs =
          matching_pairs (u32_values (column_bytes left s)) 0 (u32_values (column_bytes right s)) in
        Executed Safe (hash_join api left right s) pairs s
        × Executed Safe (hash_join_count api left right s) (length pairs % 2 ^ 64) s
  unfolding hash_join hash_join_count
  hash_join-pairs s left right run h n = (
    subst (λ p. Executed Safe (hash_join api left right s) p s)
        (join_rows-pairs (u32_values (column_bytes left s)) (u32_values (column_bytes right s)))
        (joined t_u32 left right _ s run h n),
    subst (λ p. Executed Safe (hash_join_count api left right s) p s)
        (join_count-pairs (u32_values (column_bytes left s)) (u32_values (column_bytes right s)))
        (joined t_u32 left right _ s run h n),
  )

  -- The same of two distinct int64_t columns and hash_join_i64.
  pub hash_join_i64-pairs :
      (s : Catalog T) (left right : ℕ)
      → IsRunning Safe s
      → both_of_type t_i64 left right s ≡ true
      → (left == right) ≡ false
      → Executed Safe
          (hash_join_i64 api left right s)
          (matching_pairs (i64_values (column_bytes left s)) 0 (i64_values (column_bytes right s)))
          s
  unfolding hash_join_i64
  hash_join_i64-pairs s left right run h n =
      subst (λ p. Executed Safe (hash_join_i64 api left right s) p s)
        (join_rows-pairs (i64_values (column_bytes left s)) (i64_values (column_bytes right s)))
        (joined t_i64 left right _ s run h n)
