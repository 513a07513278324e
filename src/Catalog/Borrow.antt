-- ===== src/Catalog/Borrow.antt =====
-- Borrowing in compute_mock.cpp: a column that is on disk is brought into memory for a read and put back.
use matrixdb.Prelude.{
  ℕ, ◌≡◌, ◌≤◌, ◌<◌, ◌^◌, refl, ap, ◌∙◌, Bool, true, false, Option, some, List, length, ◌==◌,
  if◌then◌else◌,
}
use matrixdb.Prelude.Maps.{
  find, assign, find-assign_self, find-assign_ne, assign-assign, assign-find,
}
use mathlib.Core.List.{Memᴰ}
use matrixdb.Engine.{count_up}
use matrixdb.Tier.{
  MemorySpace, host, device, cold, unified, same_tier, Column, MigrationDecision, migrate_to,
  read_to_host, staged,
}
use matrixdb.Catalog.{
  TierApi, Catalog, with_columns, with_tier_mgr, borrow, give_back, host_bytes, heat, read_one,
  read_two,
}

-- the tiers that a build without CUDA has
abbrev pub on_cpu : MemorySpace → Bool
on_cpu host = true
on_cpu cold = true
on_cpu device = false
on_cpu unified = false

abbrev pub lent : MemorySpace → List ℕ → Column
lent t bytes = record { tier = t; bytes = bytes }

-- the columns while one of them is lent, and the count of borrows
abbrev pub lend : MemorySpace → ℕ → List ℕ → List (ℕ × Column) → List (ℕ × Column)
lend t id bytes columns = if same_tier t host then columns else assign id (lent host bytes) columns

abbrev pub back : MemorySpace → ℕ → List ℕ → List (ℕ × Column) → List (ℕ × Column)
back t id bytes columns = if same_tier t host then columns else assign id (lent t bytes) columns

abbrev pub borrow_count : MemorySpace → ℕ → ℕ
borrow_count t n = if same_tier t host then n else count_up n

pub lend-find :
    (t : MemorySpace) (id : ℕ) (bytes : List ℕ) (columns : List (ℕ × Column))
    → find id columns ≡ some (lent t bytes)
    → find id (lend t id bytes columns) ≡ some (lent host bytes)
lend-find host id bytes columns h = h
lend-find cold id bytes columns h = find-assign_self id (lent host bytes) columns
lend-find device id bytes columns h = find-assign_self id (lent host bytes) columns
lend-find unified id bytes columns h = find-assign_self id (lent host bytes) columns

pub lend-find_ne :
    (t : MemorySpace) (id j : ℕ) (bytes : List ℕ) (columns : List (ℕ × Column))
    → (j == id) ≡ false
    → find j (lend t id bytes columns) ≡ find j columns
lend-find_ne host id j bytes columns h = refl
lend-find_ne cold id j bytes columns h = find-assign_ne id j (lent host bytes) columns h
lend-find_ne device id j bytes columns h = find-assign_ne id j (lent host bytes) columns h
lend-find_ne unified id j bytes columns h = find-assign_ne id j (lent host bytes) columns h

-- A borrow that has been returned leaves the columns as they were.
pub back-lend :
    (t : MemorySpace) (id : ℕ) (bytes : List ℕ) (columns : List (ℕ × Column))
    → find id columns ≡ some (lent t bytes)
    → back t id bytes (lend t id bytes columns) ≡ columns
back-lend host id bytes columns h = refl
back-lend cold id bytes columns h =
    assign-assign id (lent host bytes) (lent cold bytes) columns
    ∙ assign-find id (lent cold bytes) columns h
back-lend device id bytes columns h =
    assign-assign id (lent host bytes) (lent device bytes) columns
    ∙ assign-find id (lent device bytes) columns h
back-lend unified id bytes columns h =
    assign-assign id (lent host bytes) (lent unified bytes) columns
    ∙ assign-find id (lent unified bytes) columns h

module _ {T : Type 0} (s : Catalog T) where
  pub borrow_found :
      (t : MemorySpace) (id : ℕ) (bytes : List ℕ)
      → on_cpu t ≡ true
      → find id s.columns ≡ some (lent t bytes)
      → borrow id s
        ≡ some (t, with_columns (lend t id bytes s.columns) (borrow_count t s.cold_borrows) s)
  unfolding borrow migrate_to read_to_host staged with_columns
  borrow_found host id bytes e h = rw h refl
  borrow_found cold id bytes e h = rw h refl
  borrow_found device id bytes e h = cc
  borrow_found unified id bytes e h = cc

  pub give_back_found :
      (t : MemorySpace) (id : ℕ) (bytes : List ℕ)
      → on_cpu t ≡ true
      → find id s.columns ≡ some (lent host bytes)
      → give_back id t s ≡ some (with_columns (back t id bytes s.columns) s.cold_borrows s)
  unfolding give_back migrate_to read_to_host staged with_columns
  give_back_found host id bytes e h = refl
  give_back_found cold id bytes e h = rw h refl
  give_back_found device id bytes e h = cc
  give_back_found unified id bytes e h = cc

  pub host_bytes_found :
      (id : ℕ) (bytes : List ℕ)
      → find id s.columns ≡ some (lent host bytes)
      → host_bytes id s ≡ some bytes
  unfolding host_bytes
  host_bytes_found id bytes h = rw h refl

  module _ (api : TierApi T) where
    pub heat_found :
        (id : ℕ) (t : MemorySpace) (bytes : List ℕ)
        → find id s.columns ≡ some (lent t bytes)
        → heat api id s ≡ some (with_tier_mgr (api.record_access id (length bytes) s.tier_mgr) s)
    unfolding heat
    heat_found id t bytes h = rw h refl

-- What a build without CUDA needs of the tier manager: in its safe states, which accesses, passes and
-- growing columns of more than one byte keep, no plan names a tier that the build does not have.
pub record CpuTiers {T : Type 0} (api : TierApi T) (Safe : T → Type 0) : Type 0 where
  pub record_access-Safe : (id n : ℕ) (t : T) → Safe t → Safe (api.record_access id n t)
  pub update_bytes-Safe :
      (id n : ℕ) (t : T) → 2 ≤ n → n < 2 ^ 64 → Safe t → Safe (api.update_bytes id n t)
  pub rebalance-Safe : (t : T) → Safe t → Safe (api.rebalance t).1
  pub rebalance-on_cpu :
      (t : T) → Safe t → (d : MigrationDecision) → Memᴰ d (api.rebalance t).0 → on_cpu d.to ≡ true

-- What a read leaves alone: the columns, each in its tier, and all that a query looks at.
pub record Kept {T : Type 0} (Safe : T → Type 0) (s s' : Catalog T) : Type 0 where
  pub columns : s'.columns ≡ s.columns
  pub col_types : s'.col_types ≡ s.col_types
  pub null_masks : s'.null_masks ≡ s.null_masks
  pub max_query_groups : s'.max_query_groups ≡ s.max_query_groups
  pub safe : Safe s.tier_mgr → Safe s'.tier_mgr

-- `m` gives `a`, and leaves those things alone.
pub record Reads {T A : Type 0} (Safe : T → Type 0) (m : Option (A × Catalog T)) (a : A)
    (s : Catalog T) : Type 0 where
  pub after : Catalog T
  pub result : m ≡ some (a, after)
  pub kept : Kept Safe s after

module _ {T : Type 0} (api : TierApi T) where
  read_one_chain :
      {A : Type 0} (id : ℕ) (f : List ℕ → A) (s s1 s2 s3 : Catalog T) (h : MemorySpace) (b : List ℕ)
      → heat api id s ≡ some s1
      → borrow id s1 ≡ some (h, s2)
      → host_bytes id s2 ≡ some b
      → give_back id h s2 ≡ some s3
      → read_one api id f s ≡ some (f b, s3)
  unfolding read_one
  read_one_chain id f s s1 s2 s3 h b e1 e2 e3 e4 = rw (e1, e2, e3, e4) refl

  read_two_chain :
      {A : Type 0} (l r : ℕ) (f : List ℕ → List ℕ → A) (s s1 s2 s3 s4 s5 s6 : Catalog T)
      (lh rh : MemorySpace) (lb rb : List ℕ)
      → heat api l s ≡ some s1
      → heat api r s1 ≡ some s2
      → borrow l s2 ≡ some (lh, s3)
      → borrow r s3 ≡ some (rh, s4)
      → host_bytes l s4 ≡ some lb
      → host_bytes r s4 ≡ some rb
      → give_back r rh s4 ≡ some s5
      → give_back l lh s5 ≡ some s6
      → read_two api l r f s ≡ some (f lb rb, s6)
  unfolding read_two
  read_two_chain l r f s s1 s2 s3 s4 s5 s6 lh rh lb rb e1 e2 e3 e4 e5 e6 e7 e8 =
      rw (e1, e2, e3, e4, e5, e6, e7, e8) refl

  module _ (Safe : T → Type 0) (tiers : CpuTiers api Safe) (s : Catalog T) where
    -- A read of a column that is in memory or on disk gives what `f` makes of its bytes, and the column is where
    -- it was.
    pub read_one_found :
        {A : Type 0} (id : ℕ) (f : List ℕ → A) (t : MemorySpace) (bytes : List ℕ)
        → on_cpu t ≡ true
        → find id s.columns ≡ some (lent t bytes)
        → Reads Safe (read_one api id f s) (f bytes) s
    unfolding with_columns with_tier_mgr
    read_one_found id f t bytes e h =
        let s1 = with_tier_mgr (api.record_access id (length bytes) s.tier_mgr) s in
        let s2 = with_columns (lend t id bytes s.columns) (borrow_count t s.cold_borrows) s1 in
        let there = lend-find t id bytes s.columns h in
        record {
          after = with_columns (back t id bytes s2.columns) s2.cold_borrows s2;
          result =
              read_one_chain id f s s1 s2
                (with_columns (back t id bytes s2.columns) s2.cold_borrows s2) t bytes
                (heat_found s api id t bytes h) (borrow_found s1 t id bytes e h)
                (host_bytes_found s2 id bytes there) (give_back_found s2 t id bytes e there);
          kept = record {
            columns = back-lend t id bytes s.columns h;
            col_types = refl;
            null_masks = refl;
            max_query_groups = refl;
            safe = tiers.record_access-Safe id (length bytes) s.tier_mgr;
          };
        }

    pub read_two_found :
        {A : Type 0} (l r : ℕ) (f : List ℕ → List ℕ → A) (lt rt : MemorySpace) (lb rb : List ℕ)
        → (l == r) ≡ false
        → (r == l) ≡ false
        → on_cpu lt ≡ true
        → on_cpu rt ≡ true
        → find l s.columns ≡ some (lent lt lb)
        → find r s.columns ≡ some (lent rt rb)
        → Reads Safe (read_two api l r f s) (f lb rb) s
    unfolding with_columns with_tier_mgr
    read_two_found l r f lt rt lb rb lr rl le re lh rh =
        let s1 = with_tier_mgr (api.record_access l (length lb) s.tier_mgr) s in
        let s2 = with_tier_mgr (api.record_access r (length rb) s1.tier_mgr) s1 in
        let s3 = with_columns (lend lt l lb s.columns) (borrow_count lt s.cold_borrows) s2 in
        let r3 = lend-find_ne lt l r lb s.columns rl ∙ rh in
        let s4 = with_columns (lend rt r rb s3.columns) (borrow_count rt s3.cold_borrows) s3 in
        let r4 = lend-find rt r rb s3.columns r3 in
        let l4 = lend-find_ne rt r l rb s3.columns lr ∙ lend-find lt l lb s.columns lh in
        let s5 = with_columns (back rt r rb s4.columns) s4.cold_borrows s4 in
        let c5 = back-lend rt r rb s3.columns r3 in
        let l5 = ap (find l) c5 ∙ lend-find lt l lb s.columns lh in
        let s6 = with_columns (back lt l lb s5.columns) s5.cold_borrows s5 in
        record {
          after = s6;
          result =
              read_two_chain l r f s s1 s2 s3 s4 s5 s6 lt rt lb rb (heat_found s api l lt lb lh)
                (heat_found s1 api r rt rb rh) (borrow_found s2 lt l lb le lh)
                (borrow_found s3 rt r rb re r3) (host_bytes_found s4 l lb l4)
                (host_bytes_found s4 r rb r4) (give_back_found s4 rt r rb re r4)
                (give_back_found s5 lt l lb le l5);
          kept = record {
            columns = ap (back lt l lb) c5 ∙ back-lend lt l lb s.columns lh;
            col_types = refl;
            null_masks = refl;
            max_query_groups = refl;
            safe = λ h.
                tiers.record_access-Safe r (length rb) s1.tier_mgr
                  (tiers.record_access-Safe l (length lb) s.tier_mgr h);
          };
        }
