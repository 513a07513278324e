-- ===== src/Tier/Tests.antt =====
-- Columns and a tier manager at concrete inputs.
use matrixdb.Prelude.{
  ℕ, ◌+◌, ◌-◌, ◌*◌, ◌/◌, ◌^◌, ◌≡◌, ◌⊎◌, refl, true, false, none, some, List, [], ◌∷◌, take, length,
  ltb, leb, ◌==◌, arith,
}
use matrixdb.Tier
use matrixdb.Tier.{MemorySpace, host, cold, Column}
use matrixdb.Tier.Columns
use matrixdb.Tier.Columns.{Disk, Truthful, Reliable, TieredColumn}
use matrixdb.Tier.Refine.{Shows, Stored, Follows, migrate_to-refines, migrate_to-Truthful}
use matrixdb.Tier.Cost.{Real, CostModel}
use matrixdb.Tier.Cost
use matrixdb.Tier.Manager
use matrixdb.Tier.Pass
use matrixdb.Tier.Manager.{Managed, TierManager, resident_bytes, keep_score, minus64}
use matrixdb.Tier.Pass.{tier_manager, rebalance}
use matrixdb.Prelude.Maps.{find}
use matrixdb.Tier.Lockstep.{IsLockstep, run_plan-IsLockstep}
use matrixdb.Tier.Victims.{rebalance-fits}
use matrixdb.Tier.Cpu.{IsCpuManager, tier_manager-CpuTiers}
use matrixdb.Catalog.{Catalog, run_plan}
use matrixdb.Catalog.Borrow.{CpuTiers}

abbrev disk_tests : Disk
disk_tests = record { written = λ b. some (length b, b); fread = λ f. some f }

abbrev column_in_memory : TieredColumn
column_in_memory = record { id = 1; size = 2; tier = host; host_ = 7 ∷ 8 ∷ []; file = none }

disk_is_Reliable : Reliable disk_tests
disk_is_Reliable = record { written_all = λ b. refl; fread_all = λ f. refl }

-- a disk that takes two bytes at most
abbrev full_disk : Disk
full_disk = record {
  written = λ b. some (length (take 2 b), take 2 b);
  fread = λ f. some (take 2 f);
}

two_taken : (b : List ℕ) → take 2 b ≡ take (length (take 2 b)) b
two_taken [] = refl
two_taken (x ∷ []) = refl
two_taken (x ∷ y ∷ b) = refl

full_disk_is_Truthful : Truthful full_disk
full_disk_is_Truthful = record {
  written-prefix = λ b f n e. ground (arith, two_taken b);
  fread-prefix = λ f b e. (2, ground arith);
}

-- a disk that loses everything when the file is closed
abbrev lossy_disk : Disk
lossy_disk = record { written = λ b. some (length b, []); fread = λ f. some f }

-- The migration returns all the same, and the bytes are gone.
lost :
    Columns.migrate_to lossy_disk cold column_in_memory
    ≡ some (record { id = 1; size = 2; tier = cold; host_ = []; file = some [] })
unfolding Columns.migrate_to Columns.read_to_host Columns.push Columns.write_cold
lost = refl

column_is_shown : Shows column_in_memory (record { tier = host; bytes = 7 ∷ 8 ∷ [] })
unfolding Shows Stored
column_is_shown = (refl, refl, (refl, refl))

migrate_to-refines_example :
    Follows
      (Columns.migrate_to disk_tests cold column_in_memory)
      (Tier.migrate_to cold (record { tier = host; bytes = 7 ∷ 8 ∷ [] }))
migrate_to-refines_example =
    migrate_to-refines disk_tests disk_is_Reliable column_in_memory
      (record { tier = host; bytes = 7 ∷ 8 ∷ [] }) column_is_shown cold

migrate_to-Truthful_example :
    Shows
      (record { id = 1; size = 2; tier = cold; host_ = []; file = some (7 ∷ 8 ∷ []) })
      (record { tier = cold; bytes = 7 ∷ 8 ∷ [] })
unfolding Columns.migrate_to Columns.read_to_host Columns.push Columns.write_cold
migrate_to-Truthful_example =
    migrate_to-Truthful full_disk full_disk_is_Truthful column_in_memory
      (record { tier = host; bytes = 7 ∷ 8 ∷ [] }) column_is_shown cold refl

abbrev real_of_numbers : Real ℕ
real_of_numbers = record {
  of_size = λ n. n;
  add = λ a b. a + b;
  sub = λ a b. a - b;
  mul = λ a b. a * b;
  div = λ a b. a / b;
  less = ltb;
  at_most = leb;
  equal = λ a b. a == b;
  truncate = λ n. n;
}

abbrev old_column : MemorySpace → ℕ → Managed ℕ
old_column t n = record { bytes = n; tier = t; heat = 0; recent_bytes = 0; arrived_tick = 0 }

-- twelve bytes in memory, of which eight are allowed
abbrev crowded_manager : TierManager ℕ
crowded_manager = record {
  cm = record { is_unified = false; gpu_available = false };
  device_cap = 1;
  host_cap = 8;
  tick = 5;
  cols = (1, old_column host 4) ∷ (2, old_column host 8) ∷ [];
}

rebalance-fits_example :
    (leb (resident_bytes host (rebalance real_of_numbers crowded_manager).1.cols) 8 ≡ true)
    ⊎ ((id : ℕ) (c : Managed ℕ)
        → find id (rebalance real_of_numbers crowded_manager).1.cols ≡ some c
        → c.tier ≡ host
        → (ltb (minus64 (rebalance real_of_numbers crowded_manager).1.tick c.arrived_tick) 2 ≡ true)
          ⊎ (ltb (keep_score real_of_numbers crowded_manager.cm c) (10 ^ 301) ≡ false))
rebalance-fits_example = rebalance-fits real_of_numbers crowded_manager refl

tier_manager-CpuTiers_example : CpuTiers (tier_manager real_of_numbers) IsCpuManager
tier_manager-CpuTiers_example = tier_manager-CpuTiers real_of_numbers

abbrev crowded_catalog : Catalog (TierManager ℕ)
crowded_catalog = record {
  columns =
      (1, record { tier = host; bytes = 1 ∷ 0 ∷ 0 ∷ 0 ∷ [] })
      ∷ (2, record { tier = host; bytes = 1 ∷ 0 ∷ 0 ∷ 0 ∷ 2 ∷ 0 ∷ 0 ∷ 0 ∷ [] })
      ∷ [];
  col_types = [];
  null_masks = [];
  tier_mgr = crowded_manager;
  max_query_groups = 16;
  rebalance_every = 1;
  scans_since_rebalance = 0;
  cold_borrows = 0;
  rebalances = 0;
  migrations = 0;
}

crowded-IsLockstep : IsLockstep crowded_catalog
unfolding IsLockstep
crowded-IsLockstep = λ j. ground arith

-- after the pass, which puts the first column on disk
abbrev relieved_catalog : Catalog (TierManager ℕ)
relieved_catalog = record {
  columns =
      (1, record { tier = cold; bytes = 1 ∷ 0 ∷ 0 ∷ 0 ∷ [] })
      ∷ (2, record { tier = host; bytes = 1 ∷ 0 ∷ 0 ∷ 0 ∷ 2 ∷ 0 ∷ 0 ∷ 0 ∷ [] })
      ∷ [];
  col_types = [];
  null_masks = [];
  tier_mgr = record {
    cm = record { is_unified = false; gpu_available = false };
    device_cap = 1;
    host_cap = 8;
    tick = 6;
    cols =
        (1, record { bytes = 4; tier = cold; heat = 0; recent_bytes = 0; arrived_tick = 6 })
        ∷ (2, old_column host 8)
        ∷ [];
  };
  max_query_groups = 16;
  rebalance_every = 1;
  scans_since_rebalance = 0;
  cold_borrows = 0;
  rebalances = 1;
  migrations = 1;
}

run_plan_of_crowded :
    run_plan (tier_manager real_of_numbers) crowded_catalog ≡ some relieved_catalog
unfolding run_plan rebalance Pass.ticked Pass.pass Pass.candidates Pass.sorted_candidates
    Pass.sort_candidates Pass.promote_all Pass.evict Pass.evict_loop Pass.coldest Pass.pick_victim
    Pass.evictable Manager.age Manager.aged Manager.half Manager.keys Manager.should_promote
    Manager.promote_benefit Manager.promote_cost Manager.keep_score Manager.est_future_scans
    Manager.decide Manager.moved Manager.with_cols Manager.capacity_of Manager.resident_bytes
    Manager.faster_tier Manager.slower_tier Manager.three_halves Cost.scan_us Cost.scan_bytes_per_us
    Cost.migration_us Tier.apply Tier.migrate_to Tier.read_to_host Tier.staged
run_plan_of_crowded = refl

run_plan-IsLockstep_example : IsLockstep relieved_catalog
run_plan-IsLockstep_example =
    run_plan-IsLockstep real_of_numbers crowded_catalog crowded-IsLockstep run_plan_of_crowded
