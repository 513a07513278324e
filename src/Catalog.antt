-- ===== src/Catalog.antt =====
-- The analytical side of `CPUMockEngine` (compute_mock.cpp): the catalog of columns, each in its tier, the
-- types and the null flags, and the borrowing of a column that is not in memory, which every query
-- goes through. The tier manager is an interface here. `none` is a call without a result: an abort, a failed
-- `assert`, an exception of `at`.
pub mod Borrow
pub mod Load
pub mod Rebalance
use matrixdb.Prelude.{
  ℕ, zero, suc, ◌+◌, ◌*◌, ◌/◌, ◌%◌, ◌^◌, Bool, true, false, not, ◌&&◌, ◌||◌, Option, none, some,
  List, [], ◌∷◌, ◌++◌, length, leb, ltb, ◌==◌, if◌then◌else◌, map,
}
use matrixdb.Prelude.Bytes.{to_bytes, of_bytes}
use matrixdb.Prelude.Maps.{◌>>=◌, ◌>>◌, guard, find, assign}
use matrixdb.Engine.{count_up}
use matrixdb.Tier.{
  MemorySpace, host, device, cold, unified, same_tier, MigrationDecision, Column, migrate_to, apply,
}

pub data MatrixType : Type 0 where
  t_u32 t_i64 t_f64 : MatrixType

abbrev pub same_type : MatrixType → MatrixType → Bool
same_type t_u32 t_u32 = true
same_type t_i64 t_i64 = true
same_type t_f64 t_f64 = true
same_type _ _ = false

-- What the engine asks of the tier manager.
pub record TierApi (T : Type 0) : Type 0 where
  pub register_column : ℕ → ℕ → MemorySpace → T → T
  pub update_bytes : ℕ → ℕ → T → T
  pub record_access : ℕ → ℕ → T → T
  pub rebalance : T → List MigrationDecision × T

pub record Catalog (T : Type 0) : Type 0 where
  pub columns : List (ℕ × Column)
  pub col_types : List (ℕ × MatrixType)
  pub null_masks : List (ℕ × List ℕ)
  pub tier_mgr : T
  pub max_query_groups : ℕ
  pub rebalance_every : ℕ
  pub scans_since_rebalance : ℕ
  pub cold_borrows : ℕ
  pub rebalances : ℕ
  pub migrations : ℕ

-- The rows of a column, as `reinterpret_cast` reads them.
unfoldable pub u32_values : List ℕ → List ℕ
u32_values (a ∷ b ∷ c ∷ d ∷ rest) = of_bytes (a ∷ b ∷ c ∷ d ∷ []) ∷ u32_values rest
u32_values _ = []

unfoldable pub i64_values : List ℕ → List ℕ
i64_values (a ∷ b ∷ c ∷ d ∷ e ∷ f ∷ g ∷ h ∷ rest) =
    of_bytes (a ∷ b ∷ c ∷ d ∷ e ∷ f ∷ g ∷ h ∷ []) ∷ i64_values rest
i64_values _ = []

unfoldable pub u32_bytes : List ℕ → List ℕ
u32_bytes [] = []
u32_bytes (v ∷ vs) = to_bytes 4 v ++ u32_bytes vs

unfoldable pub i64_bytes : List ℕ → List ℕ
i64_bytes [] = []
i64_bytes (v ∷ vs) = to_bytes 8 v ++ i64_bytes vs

abbrev pub type_or_u32 : Option MatrixType → MatrixType
type_or_u32 none = t_u32
type_or_u32 (some t) = t

abbrev pub is_some {ℓ} : {A : Type ℓ} → Option A → Bool
is_some none = false
is_some (some a) = true

-- `size_bytes` of what `find` gives; the callers have checked that the column is there.
abbrev pub size_or_0 : Option Column → ℕ
size_or_0 none = 0
size_or_0 (some c) = length c.bytes

module _ {T : Type 0} where
  unfoldable pub catalog_has : ℕ → Catalog T → Bool
  catalog_has id s = not (id == 0) && is_some (find id s.columns)

  unfoldable pub column_type : ℕ → Catalog T → MatrixType
  column_type id s = type_or_u32 (find id s.col_types)

  unfoldable pub size_bytes : ℕ → Catalog T → ℕ
  size_bytes id s = size_or_0 (find id s.columns)

  unfoldable pub column_rows : ℕ → Catalog T → ℕ
  column_rows id s = size_bytes id s / elim (column_type id s) [ t_u32 ↦ 4 | t_i64 ↦ 8 | t_f64 ↦ 8 ]

  -- A mask counts only if it covers all `n` rows.
  unfoldable pub value_nulls : ℕ → ℕ → Catalog T → Option (List ℕ)
  value_nulls id n s = elim (find id s.null_masks) [
    | none ↦ none
    | some mask ↦ if length mask == n then some mask else none
  ]

  unfoldable pub with_columns : List (ℕ × Column) → ℕ → Catalog T → Catalog T
  with_columns columns cold_borrows s = record {
    columns = columns;
    col_types = s.col_types;
    null_masks = s.null_masks;
    tier_mgr = s.tier_mgr;
    max_query_groups = s.max_query_groups;
    rebalance_every = s.rebalance_every;
    scans_since_rebalance = s.scans_since_rebalance;
    cold_borrows = cold_borrows;
    rebalances = s.rebalances;
    migrations = s.migrations;
  }

  unfoldable pub with_tier_mgr : T → Catalog T → Catalog T
  with_tier_mgr t s = record {
    columns = s.columns;
    col_types = s.col_types;
    null_masks = s.null_masks;
    tier_mgr = t;
    max_query_groups = s.max_query_groups;
    rebalance_every = s.rebalance_every;
    scans_since_rebalance = s.scans_since_rebalance;
    cold_borrows = s.cold_borrows;
    rebalances = s.rebalances;
    migrations = s.migrations;
  }

  -- A column that is not in memory is brought there; the tier it came from is the first result.
  unfoldable pub borrow : ℕ → Catalog T → Option (MemorySpace × Catalog T)
  borrow id s = do
    c ← find id s.columns
    if same_tier c.tier host
        then some (c.tier, s)
        else migrate_to host c >>= λ lent.
            some (c.tier, with_columns (assign id lent s.columns) (count_up s.cold_borrows) s)

  unfoldable pub give_back : ℕ → MemorySpace → Catalog T → Option (Catalog T)
  give_back id home s =
      if same_tier home host
      then some s
      else find id s.columns >>= λ c. migrate_to home c >>= λ back.
          some (with_columns (assign id back s.columns) s.cold_borrows s)

  -- `host_ptr`, where the column is
  unfoldable pub host_bytes : ℕ → Catalog T → Option (List ℕ)
  host_bytes id s = do c ← find id s.columns; guard (same_tier c.tier host); some c.bytes

  module _ (api : TierApi T) where
    unfoldable pub heat : ℕ → Catalog T → Option (Catalog T)
    heat id s = do
      c ← find id s.columns
      some (with_tier_mgr (api.record_access id (length c.bytes) s.tier_mgr) s)

    -- A read of one column, borrowed and returned; and of two, which are returned in the opposite order.
    unfoldable pub read_one {κ} :
        {A : Type κ} → ℕ → (List ℕ → A) → Catalog T → Option (A × Catalog T)
    read_one id f s = do
      s ← heat id s
      lent ← borrow id s
      bytes ← host_bytes id lent.1
      s ← give_back id lent.0 lent.1
      some (f bytes, s)

    unfoldable pub read_two {κ} :
        {A : Type κ} → ℕ → ℕ → (List ℕ → List ℕ → A) → Catalog T → Option (A × Catalog T)
    read_two left right f s = do
      s ← heat left s
      s ← heat right s
      l ← borrow left s
      r ← borrow right l.1
      xs ← host_bytes left r.1
      ys ← host_bytes right r.1
      s ← give_back right r.0 r.1
      s ← give_back left l.0 s
      some (f xs ys, s)

    unfoldable pub run_plan : Catalog T → Option (Catalog T)
    run_plan s = do
      let (plan, tier_mgr) = api.rebalance s.tier_mgr
      moved ← apply plan s.columns
      some (record {
        columns = moved.1;
        col_types = s.col_types;
        null_masks = s.null_masks;
        tier_mgr = tier_mgr;
        max_query_groups = s.max_query_groups;
        rebalance_every = s.rebalance_every;
        scans_since_rebalance = 0;
        cold_borrows = s.cold_borrows;
        rebalances = count_up s.rebalances;
        migrations = (s.migrations + moved.0) % 2 ^ 64;
      })

    unfoldable pub maybe_rebalance : Catalog T → Option (Catalog T)
    maybe_rebalance s =
        let scans = count_up s.scans_since_rebalance in
        if leb s.rebalance_every scans
        then run_plan s
        else some (record {
          columns = s.columns;
          col_types = s.col_types;
          null_masks = s.null_masks;
          tier_mgr = s.tier_mgr;
          max_query_groups = s.max_query_groups;
          rebalance_every = s.rebalance_every;
          scans_since_rebalance = scans;
          cold_borrows = s.cold_borrows;
          rebalances = s.rebalances;
          migrations = s.migrations;
        })
