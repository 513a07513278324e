-- ===== src/Catalog/Load.antt =====
-- Loading and growing of columns in compute_mock.cpp: load_scan_column and its variants, set_column_nulls,
-- append_to_column and its variants, append_raw. A double is its bit pattern here, eight bytes as an int64_t.
use matrixdb.Prelude.{
  ℕ, ◌≡◌, refl, ◌∙◌, true, false, not, ◌&&◌, Option, some, List, ◌++◌, length, ◌==◌,
}
use matrixdb.Prelude.Maps.{◌>>=◌, ◌>>◌, guard, find, assign, find-assign_self, find-assign_ne}
use matrixdb.Tier.{MemorySpace, host, device, cold, unified, same_tier, Column}
use matrixdb.Catalog.{
  MatrixType, t_u32, t_i64, t_f64, same_type, TierApi, Catalog, u32_bytes, i64_bytes, is_some,
  catalog_has, column_type, size_bytes, column_rows, with_columns, with_tier_mgr, borrow, give_back,
}
use matrixdb.Catalog.Borrow.{
  on_cpu, lent, lend, back, borrow_count, lend-find, lend-find_ne, borrow_found, give_back_found,
}

module _ {T : Type 0} where
  unfoldable pub with_col_type : ℕ → MatrixType → Catalog T → Catalog T
  with_col_type id t s = record {
    columns = s.columns;
    col_types = assign id t s.col_types;
    null_masks = s.null_masks;
    tier_mgr = s.tier_mgr;
    max_query_groups = s.max_query_groups;
    rebalance_every = s.rebalance_every;
    scans_since_rebalance = s.scans_since_rebalance;
    cold_borrows = s.cold_borrows;
    rebalances = s.rebalances;
    migrations = s.migrations;
  }

  unfoldable pub set_column_nulls : ℕ → List ℕ → Catalog T → Option (Catalog T)
  set_column_nulls id is_null s = do
    guard (catalog_has id s)
    guard (length is_null == column_rows id s)
    some (record {
      columns = s.columns;
      col_types = s.col_types;
      null_masks = assign id is_null s.null_masks;
      tier_mgr = s.tier_mgr;
      max_query_groups = s.max_query_groups;
      rebalance_every = s.rebalance_every;
      scans_since_rebalance = s.scans_since_rebalance;
      cold_borrows = s.cold_borrows;
      rebalances = s.rebalances;
      migrations = s.migrations;
    })

  -- `append_bytes` on the column of an id
  unfoldable pub append_bytes : ℕ → List ℕ → Catalog T → Option (Catalog T)
  append_bytes id b s = do
    c ← find id s.columns
    guard (same_tier c.tier host)
    some (
        with_columns (assign id (record { tier = c.tier; bytes = c.bytes ++ b }) s.columns)
          s.cold_borrows s)

  module _ (api : TierApi T) where
    -- What the three loads share: the two asserts, the new column in memory, and the tier manager told.
    unfoldable pub load_bytes : ℕ → List ℕ → Catalog T → Option (Catalog T)
    load_bytes id bytes s = do
      guard (not (id == 0))
      guard (not (is_some (find id s.columns)))
      some (
          with_tier_mgr (api.register_column id (length bytes) host s.tier_mgr) (
            with_columns (assign id (record { tier = host; bytes = bytes }) s.columns)
              s.cold_borrows s))

    unfoldable pub load_scan_column : ℕ → List ℕ → Catalog T → Option (Catalog T)
    load_scan_column id rows s = load_bytes id (u32_bytes rows) s

    unfoldable pub load_scan_column_i64 : ℕ → List ℕ → Catalog T → Option (Catalog T)
    load_scan_column_i64 id rows s = do
      s ← load_bytes id (i64_bytes rows) s
      some (with_col_type id t_i64 s)

    unfoldable pub load_scan_column_f64 : ℕ → List ℕ → Catalog T → Option (Catalog T)
    load_scan_column_f64 id rows s = do
      s ← load_bytes id (i64_bytes rows) s
      some (with_col_type id t_f64 s)

    unfoldable pub append_raw : ℕ → List ℕ → Catalog T → Option (Catalog T)
    append_raw id bytes s = do
      borrowed ← borrow id s
      s ← append_bytes id bytes borrowed.1
      s ← give_back id borrowed.0 s
      some (with_tier_mgr (api.update_bytes id (size_bytes id s) s.tier_mgr) s)

    unfoldable pub append_to_column : ℕ → List ℕ → Catalog T → Option (Catalog T)
    append_to_column id rows s = do
      guard (catalog_has id s && same_type (column_type id s) t_u32)
      append_raw id (u32_bytes rows) s

    unfoldable pub append_to_column_i64 : ℕ → List ℕ → Catalog T → Option (Catalog T)
    append_to_column_i64 id rows s = do
      guard (catalog_has id s && same_type (column_type id s) t_i64)
      append_raw id (i64_bytes rows) s

    unfoldable pub append_to_column_f64 : ℕ → List ℕ → Catalog T → Option (Catalog T)
    append_to_column_f64 id rows s = do
      guard (catalog_has id s && same_type (column_type id s) t_f64)
      append_raw id (i64_bytes rows) s

-- What growing a column means: the new rows are behind the old ones, in the tier that the column was in, the tier
-- manager knows the size, and all else is as it was.
pub record Grown {T : Type 0} (api : TierApi T) (id : ℕ) (c : Column) (b : List ℕ)
    (s s' : Catalog T) : Type 0 where
  pub column : find id s'.columns ≡ some (lent c.tier (c.bytes ++ b))
  pub others : (j : ℕ) → (j == id) ≡ false → find j s'.columns ≡ find j s.columns
  pub told : s'.tier_mgr ≡ api.update_bytes id (length (c.bytes ++ b)) s.tier_mgr
  pub col_types : s'.col_types ≡ s.col_types
  pub null_masks : s'.null_masks ≡ s.null_masks

module _ {T : Type 0} (api : TierApi T) (id : ℕ) (b : List ℕ) where
  back-find :
      (t : MemorySpace) (bytes : List ℕ) (columns : List (ℕ × Column))
      → find id columns ≡ some (lent host bytes)
      → find id (back t id bytes columns) ≡ some (lent t bytes)
  back-find host bytes columns h = h
  back-find cold bytes columns h = find-assign_self id (lent cold bytes) columns
  back-find device bytes columns h = find-assign_self id (lent device bytes) columns
  back-find unified bytes columns h = find-assign_self id (lent unified bytes) columns

  back-find_ne :
      (t : MemorySpace) (j : ℕ) (bytes : List ℕ) (columns : List (ℕ × Column))
      → (j == id) ≡ false
      → find j (back t id bytes columns) ≡ find j columns
  back-find_ne host j bytes columns h = refl
  back-find_ne cold j bytes columns h = find-assign_ne id j (lent cold bytes) columns h
  back-find_ne device j bytes columns h = find-assign_ne id j (lent device bytes) columns h
  back-find_ne unified j bytes columns h = find-assign_ne id j (lent unified bytes) columns h

  append_bytes_found :
      (s : Catalog T) (bytes : List ℕ)
      → find id s.columns ≡ some (lent host bytes)
      → append_bytes id b s
        ≡ some (with_columns (assign id (lent host (bytes ++ b)) s.columns) s.cold_borrows s)
  unfolding append_bytes
  append_bytes_found s bytes h = rw h refl

  -- A column of the catalog that is in memory or on disk grows by the bytes that are appended: they are behind its
  -- old bytes, it is in its tier again, the tier manager is told its new size, and the other columns, the types and
  -- the null masks are as they were.
  pub append_raw-Grown :
      (s : Catalog T) (c : Column)
      → on_cpu c.tier ≡ true
      → find id s.columns ≡ some c
      → (s' : Catalog T) × (append_raw api id b s ≡ some s') × Grown api id c b s s'
  unfolding append_raw with_columns with_tier_mgr size_bytes
  append_raw-Grown s c e h =
      let columns = lend c.tier id c.bytes s.columns in
      let grown = assign id (lent host (c.bytes ++ b)) columns in
      let s1 = with_columns columns (borrow_count c.tier s.cold_borrows) s in
      let s2 = with_columns grown s1.cold_borrows s1 in
      let there = find-assign_self id (lent host (c.bytes ++ b)) columns in
      let s3 = with_columns (back c.tier id (c.bytes ++ b) grown) s2.cold_borrows s2 in
      let home = back-find c.tier (c.bytes ++ b) grown there in
      (
        with_tier_mgr (api.update_bytes id (length (c.bytes ++ b)) s.tier_mgr) s3,
        rw
            (
              borrow_found s c.tier id c.bytes e h,
              append_bytes_found s1 c.bytes (lend-find c.tier id c.bytes s.columns h),
              give_back_found s2 c.tier id (c.bytes ++ b) e there,
              home,
            )
            refl,
        record {
          column = home;
          others = λ j n.
              back-find_ne c.tier j (c.bytes ++ b) grown n
              ∙ find-assign_ne id j (lent host (c.bytes ++ b)) columns n
              ∙ lend-find_ne c.tier id j c.bytes s.columns n;
          told = refl;
          col_types = refl;
          null_masks = refl;
        },
      )
