-- ===== src/Tier/Manager.antt =====
-- `TierManager` of tier_manager.hpp: the heat of the columns, and the plan of migrations that a pass makes. The
-- map of columns is a list of pairs, so that its order of iteration is any; `size_t` wraps at 2 ^ 64.
use matrixdb.Prelude.{
  ℕ, ◌+◌, ◌-◌, ◌%◌, ◌^◌, Bool, not, ◌&&◌, none, some, List, [], ◌∷◌, ◌++◌, ltb, ◌==◌, if◌then◌else◌,
}
use matrixdb.Prelude.Maps.{find, assign}
use matrixdb.Tier.{MemorySpace, host, device, cold, unified, same_tier, MigrationDecision}
use matrixdb.Tier.Cost.{Real, CostModel, scan_us, migration_us}

pub record Managed (F : Type 0) : Type 0 where
  pub bytes : ℕ
  pub tier : MemorySpace
  pub heat : F
  pub recent_bytes : ℕ
  pub arrived_tick : ℕ

pub record TierManager (F : Type 0) : Type 0 where
  pub cm : CostModel
  pub device_cap : ℕ
  pub host_cap : ℕ
  pub tick : ℕ
  pub cols : List (ℕ × Managed F)

unfoldable pub faster_tier : MemorySpace → MemorySpace
faster_tier cold = host
faster_tier host = device
faster_tier device = device
faster_tier unified = unified

unfoldable pub slower_tier : MemorySpace → MemorySpace
slower_tier device = host
slower_tier host = cold
slower_tier cold = cold
slower_tier unified = unified

abbrev pub min_residency_ticks : ℕ
min_residency_ticks = 2

abbrev pub scan_horizon : ℕ
scan_horizon = 8

abbrev pub minus64 : ℕ → ℕ → ℕ
minus64 a b = (a + (2 ^ 64 - b)) % 2 ^ 64

module _ {F : Type 0} where
  unfoldable pub with_cols : List (ℕ × Managed F) → TierManager F → TierManager F
  with_cols cols m = record {
    cm = m.cm;
    device_cap = m.device_cap;
    host_cap = m.host_cap;
    tick = m.tick;
    cols = cols;
  }

  unfoldable pub update_bytes : ℕ → ℕ → TierManager F → TierManager F
  update_bytes id bytes m = elim (find id m.cols) [
    | none ↦ m
    | some c ↦
        with_cols
          (assign id
            (record {
              bytes = bytes;
              tier = c.tier;
              heat = c.heat;
              recent_bytes = c.recent_bytes;
              arrived_tick = c.arrived_tick;
            })
            m.cols)
          m
  ]

  unfoldable pub record_access : ℕ → ℕ → TierManager F → TierManager F
  record_access id bytes m = elim (find id m.cols) [
    | none ↦ m
    | some c ↦
        with_cols
          (assign id
            (record {
              bytes = c.bytes;
              tier = c.tier;
              heat = c.heat;
              recent_bytes = (c.recent_bytes + bytes) % 2 ^ 64;
              arrived_tick = c.arrived_tick;
            })
            m.cols)
          m
  ]

  unfoldable pub resident_bytes : MemorySpace → List (ℕ × Managed F) → ℕ
  resident_bytes tier [] = 0
  resident_bytes tier ((id, c) ∷ cols) =
      let rest = resident_bytes tier cols in
      if same_tier c.tier tier then (c.bytes + rest) % 2 ^ 64 else rest

  unfoldable pub capacity_of : TierManager F → MemorySpace → ℕ
  capacity_of m device = m.device_cap
  capacity_of m host = m.host_cap
  capacity_of m cold = 0
  capacity_of m unified = 0

  -- A move that has been decided: the column as it then is.
  unfoldable pub moved : MemorySpace → ℕ → Managed F → Managed F
  moved to tick c = record {
    bytes = c.bytes;
    tier = to;
    heat = c.heat;
    recent_bytes = c.recent_bytes;
    arrived_tick = tick;
  }

  unfoldable pub keys : List (ℕ × Managed F) → List ℕ
  keys [] = []
  keys ((id, c) ∷ cols) = id ∷ keys cols

-- the decisions so far, and the columns after them
pub record Plan (F : Type 0) : Type 0 where
  pub decisions : List MigrationDecision
  pub cols : List (ℕ × Managed F)

unfoldable pub decide : {F : Type 0} → ℕ → MemorySpace → ℕ → Managed F → Plan F → Plan F
decide id to tick c p = record {
  decisions = p.decisions ++ (record { column_id = id; from = c.tier; to = to } ∷ []);
  cols = assign id (moved to tick c) p.cols;
}

module _ {F : Type 0} (real : Real F) where
  unfoldable pub register_column : ℕ → ℕ → MemorySpace → TierManager F → TierManager F
  register_column id bytes initial_tier m =
      with_cols
        (assign id
          (record {
            bytes = bytes;
            tier = initial_tier;
            heat = real.of_size 0;
            recent_bytes = 0;
            arrived_tick = m.tick;
          })
          m.cols)
        m

  -- HEAT_ALPHA is a half, HYSTERESIS and SWAP_MARGIN are one and a half.
  unfoldable pub half : F
  half = real.div (real.of_size 1) (real.of_size 2)

  unfoldable pub three_halves : F
  three_halves = real.div (real.of_size 3) (real.of_size 2)

  unfoldable pub aged : Managed F → Managed F
  aged c = record {
    bytes = c.bytes;
    tier = c.tier;
    heat =
        real.add (real.mul half (real.of_size c.recent_bytes))
          (real.mul (real.sub (real.of_size 1) half) c.heat);
    recent_bytes = 0;
    arrived_tick = c.arrived_tick;
  }

  unfoldable pub age : List (ℕ × Managed F) → List (ℕ × Managed F)
  age [] = []
  age ((id, c) ∷ cols) = (id, aged c) ∷ age cols

  unfoldable pub est_future_scans : Managed F → ℕ
  est_future_scans c =
      let scans = real.div c.heat (real.of_size c.bytes) in
      let n = real.truncate (real.add scans half) in
      if c.bytes == 0 then 0 else if ltb scan_horizon n then scan_horizon else n

  module _ (cm : CostModel) where
    unfoldable pub promote_benefit : Managed F → F
    promote_benefit c =
        let faster = faster_tier c.tier in
        if same_tier faster c.tier
        then real.of_size 0
        else real.mul (real.sub (scan_us real c.tier c.bytes) (scan_us real faster c.bytes))
            (real.of_size (est_future_scans c))

    unfoldable pub promote_cost : Managed F → F
    promote_cost c =
        let faster = faster_tier c.tier in
        if same_tier faster c.tier
        then real.of_size 0
        else migration_us real cm c.tier faster c.bytes

    unfoldable pub should_promote : Managed F → Bool
    should_promote c =
        not (same_tier (faster_tier c.tier) c.tier)
        && real.less (real.mul three_halves (promote_cost c)) (promote_benefit c)

    unfoldable pub promote_net_benefit : Managed F → F
    promote_net_benefit c = real.sub (promote_benefit c) (promote_cost c)

    unfoldable pub keep_score : Managed F → F
    keep_score c =
        let slower = slower_tier c.tier in
        if same_tier slower c.tier
        then real.of_size (10 ^ 300)
        else real.mul (real.sub (scan_us real slower c.bytes) (scan_us real c.tier c.bytes))
            (real.of_size (est_future_scans c))
