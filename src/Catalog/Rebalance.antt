-- ===== src/Catalog/Rebalance.antt =====
-- `maybe_rebalance` (compute_mock.cpp) and `MigrationExecutor::apply` (migration_executor.hpp): what a pass of
-- the tier manager does to the catalog.
use matrixdb.Prelude.{
  ℕ, ◌+◌, ◌%◌, ◌^◌, ◌≡◌, inl, inr, refl, sym, ap, ◌∙◌, true, Option, none, some, List, [], ◌∷◌, leb,
  ◌==◌, arith, Bool-cases, Option-cases, ==_iff,
}
use mathlib.Core.List.{Memᴰ}
use matrixdb.Prelude.Maps.{find, assign, find-assign_self, find-assign_ne}
use matrixdb.Engine.{count_up}
use matrixdb.Tier.{
  MemorySpace, host, device, cold, unified, Column, MigrationDecision, migrate_to, read_to_host,
  staged, apply,
}
use matrixdb.Catalog.{TierApi, Catalog, run_plan, maybe_rebalance}
use matrixdb.Catalog.Borrow.{on_cpu, lent, CpuTiers}

-- the bytes of what `find` gives
abbrev pub bytes_at : Option Column → Option (List ℕ)
bytes_at none = none
bytes_at (some c) = some c.bytes

-- Every column is in memory or on disk.
unfoldable pub OnCpu : List (ℕ × Column) → Type 0
OnCpu columns =
    (id : ℕ) (t : MemorySpace) (bytes : List ℕ)
    → find id columns ≡ some (lent t bytes)
    → on_cpu t ≡ true

migrate_to-on_cpu :
    (d t : MemorySpace) (bytes : List ℕ)
    → on_cpu d ≡ true
    → on_cpu t ≡ true
    → migrate_to d (lent t bytes) ≡ some (lent d bytes)
unfolding migrate_to read_to_host staged
migrate_to-on_cpu host host bytes e h = refl
migrate_to-on_cpu cold host bytes e h = refl
migrate_to-on_cpu host cold bytes e h = refl
migrate_to-on_cpu cold cold bytes e h = refl
migrate_to-on_cpu device t bytes e h = cc
migrate_to-on_cpu unified t bytes e h = cc
migrate_to-on_cpu d device bytes e h = cc
migrate_to-on_cpu d unified bytes e h = cc

assign-OnCpu :
    (id : ℕ) (t : MemorySpace) (bytes : List ℕ) (columns : List (ℕ × Column))
    → on_cpu t ≡ true
    → OnCpu columns
    → OnCpu (assign id (lent t bytes) columns)
unfolding OnCpu
assign-OnCpu id t bytes columns e h j u bs f = elim (Bool-cases (j == id)) [
  | inl y ↦ grind (arith, e, y, f, find-assign_self id (lent t bytes) columns, (==_iff j id).0)
  | inr n ↦ h j u bs (sym (find-assign_ne id j (lent t bytes) columns n) ∙ f)
]

assign_bytes :
    (id j : ℕ) (c : Column) (t : MemorySpace) (columns : List (ℕ × Column))
    → find id columns ≡ some c
    → bytes_at (find j (assign id (lent t c.bytes) columns)) ≡ bytes_at (find j columns)
assign_bytes id j c t columns h = elim (Bool-cases (j == id)) [
  | inl y ↦ grind (arith, h, y, find-assign_self id (lent t c.bytes) columns, (==_iff j id).0)
  | inr n ↦ ap bytes_at (find-assign_ne id j (lent t c.bytes) columns n)
]

-- Carried out, a plan that names no tier but memory and disk leaves every column its bytes.
pub record Applied (m : Option (ℕ × List (ℕ × Column))) (columns : List (ℕ × Column)) : Type 0 where
  pub count : ℕ
  pub after : List (ℕ × Column)
  pub result : m ≡ some (count, after)
  pub bytes : (id : ℕ) → bytes_at (find id after) ≡ bytes_at (find id columns)
  pub cpu : OnCpu after

apply_found :
    (d : MigrationDecision) (plan : List MigrationDecision) (columns after : List (ℕ × Column))
    (c : Column) (n : ℕ)
    → find d.column_id columns ≡ some c
    → migrate_to d.to c ≡ some (lent d.to c.bytes)
    → apply plan (assign d.column_id (lent d.to c.bytes) columns) ≡ some (n, after)
    → apply (d ∷ plan) columns ≡ some (count_up n, after)
unfolding apply
apply_found d plan columns after c n e f g = ground arith

apply_missing :
    (d : MigrationDecision) (plan : List MigrationDecision) (columns : List (ℕ × Column))
    → find d.column_id columns ≡ none
    → apply (d ∷ plan) columns ≡ apply plan columns
unfolding apply
apply_missing d plan columns e = ground arith

pub apply_safe :
    (plan : List MigrationDecision) (columns : List (ℕ × Column))
    → ((d : MigrationDecision) → Memᴰ d plan → on_cpu d.to ≡ true)
    → OnCpu columns
    → Applied (apply plan columns) columns
unfolding apply OnCpu
apply_safe [] columns p h = record {
  count = 0;
  after = columns;
  result = refl;
  bytes = λ id. refl;
  cpu = h;
}
apply_safe (d ∷ plan) columns p h = elim (Option-cases (find d.column_id columns)) [
  | inl e ↦
      let r = apply_safe plan columns (λ x m. p x (Memᴰ.tail m)) h in
      record {
        count = r.count;
        after = r.after;
        result = apply_missing d plan columns e ∙ r.result;
        bytes = r.bytes;
        cpu = r.cpu;
      }
  | inr (c, e) ↦
      let there = p d (Memᴰ.head refl) in
      let next = assign d.column_id (lent d.to c.bytes) columns in
      let r =
        apply_safe plan next (λ x m. p x (Memᴰ.tail m))
          (assign-OnCpu d.column_id d.to c.bytes columns there h) in
      record {
        count = count_up r.count;
        after = r.after;
        result =
            apply_found d plan columns r.after c r.count e
              (migrate_to-on_cpu d.to c.tier c.bytes there (h d.column_id c.tier c.bytes e))
              r.result;
        bytes = λ id. r.bytes id ∙ assign_bytes d.column_id id c d.to columns e;
        cpu = r.cpu;
      }
]

-- What a query leaves alone: the bytes of every column, though not the tier, the types, the null flags
-- and the limit on groups.
pub record Preserved {T : Type 0} (Safe : T → Type 0) (s s' : Catalog T) : Type 0 where
  pub bytes : (id : ℕ) → bytes_at (find id s'.columns) ≡ bytes_at (find id s.columns)
  pub col_types : s'.col_types ≡ s.col_types
  pub null_masks : s'.null_masks ≡ s.null_masks
  pub max_query_groups : s'.max_query_groups ≡ s.max_query_groups
  pub cpu : OnCpu s'.columns
  pub safe : Safe s'.tier_mgr

module _ {T : Type 0} (api : TierApi T) (Safe : T → Type 0) (tiers : CpuTiers api Safe) where
  run_plan_safe :
      (s : Catalog T)
      → OnCpu s.columns
      → Safe s.tier_mgr
      → (s' : Catalog T) × (run_plan api s ≡ some s') × Preserved Safe s s'
  unfolding run_plan
  run_plan_safe s h i =
      let r =
        apply_safe (api.rebalance s.tier_mgr).0 s.columns (tiers.rebalance-on_cpu s.tier_mgr i) h in
      (
        record {
          columns = r.after;
          col_types = s.col_types;
          null_masks = s.null_masks;
          tier_mgr = (api.rebalance s.tier_mgr).1;
          max_query_groups = s.max_query_groups;
          rebalance_every = s.rebalance_every;
          scans_since_rebalance = 0;
          cold_borrows = s.cold_borrows;
          rebalances = count_up s.rebalances;
          migrations = (s.migrations + r.count) % 2 ^ 64;
        },
        rw r.result refl,
        record {
          bytes = r.bytes;
          col_types = refl;
          null_masks = refl;
          max_query_groups = refl;
          cpu = r.cpu;
          safe = tiers.rebalance-Safe s.tier_mgr i;
        },
      )

  -- A pass of the tier manager, if it is due, returns and leaves a query nothing else to see.
  pub maybe_rebalance_safe :
      (s : Catalog T)
      → OnCpu s.columns
      → Safe s.tier_mgr
      → (s' : Catalog T) × (maybe_rebalance api s ≡ some s') × Preserved Safe s s'
  unfolding maybe_rebalance
  maybe_rebalance_safe s h i =
      elim (Bool-cases (leb s.rebalance_every (count_up s.scans_since_rebalance))) [
        | inl e ↦ rw e (run_plan_safe s h i)
        | inr e ↦ rw e (
          _,
          refl,
          record {
            bytes = λ id. refl;
            col_types = refl;
            null_masks = refl;
            max_query_groups = refl;
            cpu = h;
            safe = i;
          },
        )
      ]
