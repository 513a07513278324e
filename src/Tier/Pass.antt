-- ===== src/Tier/Pass.antt =====
-- `TierManager::rebalance` of tier_manager.hpp: ageing, promotion where there is room or a colder resident to
-- displace, and eviction from a tier that is over its capacity.
use matrixdb.Prelude.{
  ℕ, zero, suc, ◌+◌, ◌%◌, ◌^◌, Bool, not, ◌&&◌, ◌||◌, Option, none, some, List, [], ◌∷◌, length,
  leb, ltb, ◌==◌, if◌then◌else◌, map,
}
use matrixdb.Prelude.Maps.{find}
use matrixdb.Engine.{count_up}
use matrixdb.Catalog.{TierApi}
use matrixdb.Tier.{MemorySpace, host, device, same_tier, MigrationDecision}
use matrixdb.Tier.Cost.{Real, CostModel}
use matrixdb.Tier.Manager
use matrixdb.Tier.Manager.{
  Managed, TierManager, faster_tier, slower_tier, min_residency_ticks, minus64, with_cols,
  resident_bytes, capacity_of, moved, keys, Plan, decide, age, half, three_halves, promote_benefit,
  should_promote, promote_net_benefit, keep_score,
}

module _ {F : Type 0} where
  unfoldable pub evictable : MemorySpace → ℕ → Managed F → Bool
  evictable tier tick c =
      same_tier c.tier tier && not (ltb (minus64 tick c.arrived_tick) min_residency_ticks)

module _ {F : Type 0} (real : Real F) (cm : CostModel) where
  -- Promotion candidates, the best first, equal ones by id.
  unfoldable pub candidates : List (ℕ × Managed F) → List (ℕ × F)
  candidates [] = []
  candidates ((id, c) ∷ cols) =
      let rest = candidates cols in
      if should_promote real cm c then (id, promote_net_benefit real cm c) ∷ rest else rest

  unfoldable pub before : ℕ → F → ℕ → F → Bool
  before a na b nb = if not (real.equal na nb) then real.less nb na else ltb a b

  unfoldable pub insert_candidate : ℕ → F → List (ℕ × F) → List (ℕ × F)
  insert_candidate a na [] = (a, na) ∷ []
  insert_candidate a na ((b, nb) ∷ rest) =
      let later = insert_candidate a na rest in
      if before a na b nb then (a, na) ∷ (b, nb) ∷ rest else (b, nb) ∷ later

  unfoldable pub sort_candidates : List (ℕ × F) → List (ℕ × F)
  sort_candidates [] = []
  sort_candidates ((a, na) ∷ rest) = insert_candidate a na (sort_candidates rest)

  unfoldable pub sorted_candidates : List (ℕ × F) → List ℕ
  sorted_candidates cs = map (λ c. c.0) (sort_candidates cs)

  -- The resident of a tier that is least worth keeping, of those that have been there long enough.
  unfoldable pub pick_victim :
      MemorySpace
      → ℕ
      → List (ℕ × Managed F)
      → List ℕ
      → Option (ℕ × Managed F)
      → F
      → Option (ℕ × Managed F)
  pick_victim tier tick cols [] victim worst = victim
  pick_victim tier tick cols (id ∷ ids) victim worst = elim (find id cols) [
    | none ↦ pick_victim tier tick cols ids victim worst
    | some c ↦
        if evictable tier tick c && real.less (keep_score real cm c) worst
        then pick_victim tier tick cols ids (some (id, c)) (keep_score real cm c)
        else pick_victim tier tick cols ids victim worst
  ]

  unfoldable pub coldest : MemorySpace → ℕ → List (ℕ × Managed F) → Option (ℕ × Managed F)
  coldest tier tick cols = pick_victim tier tick cols (keys cols) none (real.of_size (10 ^ 301))

  unfoldable pub try_swap_promote : ℕ → Managed F → MemorySpace → ℕ → ℕ → Plan F → Plan F
  try_swap_promote id c to room tick p = elim (coldest to tick p.cols) [
    | none ↦ p
    | some (v, victim) ↦
        if real.at_most (promote_benefit real cm c)
          (real.mul (three_halves real) (keep_score real cm victim))
        then p
        else if ltb room ((minus64 (resident_bytes to p.cols) victim.bytes + c.bytes) % 2 ^ 64)
        then p
        else decide id to tick c (decide v (slower_tier to) tick victim p)
  ]

  unfoldable pub promote_one : TierManager F → ℕ → Plan F → Plan F
  promote_one m id p = elim (find id p.cols) [
    | none ↦ p
    | some c ↦
        let to = faster_tier c.tier in
        let cap = capacity_of m to in
        if (cap == 0) || leb ((resident_bytes to p.cols + c.bytes) % 2 ^ 64) cap
        then decide id to m.tick c p
        else try_swap_promote id c to cap m.tick p
  ]

  unfoldable pub promote_all : TierManager F → List ℕ → Plan F → Plan F
  promote_all m [] p = p
  promote_all m (id ∷ ids) p = promote_all m ids (promote_one m id p)

  -- The loop for one tier of capacity `cap`; the first argument bounds its rounds.
  unfoldable pub evict_loop : ℕ → MemorySpace → ℕ → ℕ → Plan F → Plan F
  evict_loop zero tier cap tick p = p
  evict_loop (suc fuel) tier cap tick p = elim (coldest tier tick p.cols) [
    | none ↦ p
    | some (v, victim) ↦
        let rest = evict_loop fuel tier cap tick (decide v (slower_tier tier) tick victim p) in
        if leb (resident_bytes tier p.cols) cap then p else rest
  ]

  unfoldable pub evict : TierManager F → MemorySpace → Plan F → Plan F
  evict m tier p =
      let evicted = evict_loop (length p.cols) tier (capacity_of m tier) m.tick p in
      if capacity_of m tier == 0 then p else evicted

  -- a pass at the tick of `m`, over columns that have aged
  unfoldable pub pass : TierManager F → Plan F
  pass m =
      let start : Plan F = record { decisions = []; cols = m.cols } in
      let promoted = promote_all m (sorted_candidates (candidates m.cols)) start in
      evict m host (evict m device promoted)

module _ {F : Type 0} (real : Real F) where
  unfoldable pub ticked : TierManager F → TierManager F
  ticked m = record {
    cm = m.cm;
    device_cap = m.device_cap;
    host_cap = m.host_cap;
    tick = count_up m.tick;
    cols = age real m.cols;
  }

  unfoldable pub rebalance : TierManager F → List MigrationDecision × TierManager F
  rebalance m = let p = pass real m.cm (ticked m) in (p.decisions, with_cols p.cols (ticked m))

  -- What the engine asks of the manager, answered by this one.
  abbrev pub tier_manager : TierApi (TierManager F)
  tier_manager = record {
    register_column = Manager.register_column real;
    update_bytes = Manager.update_bytes;
    record_access = Manager.record_access;
    rebalance = rebalance;
  }
