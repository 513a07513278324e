-- ===== src/Tier/Cpu.antt =====
-- The tier manager of tier_manager.hpp in a build without CUDA, where the engine gives the tier DEVICE one byte.
use matrixdb.Prelude.{
  ℕ, ◌+◌, ◌%◌, ◌^◌, ◌≡◌, ◌≤◌, ◌<◌, inl, inr, refl, sym, subst, true, none, some, List, [], ◌∷◌,
  ◌++◌, arith, Bool-cases, Option-cases,
}
use mathlib.Core.List.{Memᴰ}
use matrixdb.Prelude.Maps.{find, assign}
use matrixdb.Tier.{MemorySpace, host, device, cold, unified, same_tier, MigrationDecision}
use matrixdb.Catalog.Borrow.{on_cpu, CpuTiers}
use matrixdb.Tier.Cost.{Real}
use matrixdb.Tier.Manager.{
  Managed, TierManager, faster_tier, slower_tier, moved, Plan, decide, age, aged, with_cols,
  resident_bytes, capacity_of, record_access, update_bytes,
}
use matrixdb.Tier.Pass.{ticked, rebalance, tier_manager}
use matrixdb.Tier.Plans.{KeptBySteps, pass_keeps, fits}
use matrixdb.Tier.Capacity.{AllCols, assign-AllCols, find-AllCols}

-- in memory or on disk, and too large for one byte
unfoldable pub IsCpuColumn : {F : Type 0} → Managed F → Type 0
IsCpuColumn c = (on_cpu c.tier ≡ true) × (2 ≤ c.bytes) × (c.bytes < 2 ^ 64)

unfoldable pub IsCpuManager : {F : Type 0} → TierManager F → Type 0
IsCpuManager m = (m.device_cap ≡ 1) × AllCols IsCpuColumn m.cols

-- Each decision names memory or disk.
unfoldable pub AllOnCpu : List MigrationDecision → Type 0
AllOnCpu [] = Unit
AllOnCpu (d ∷ plan) = (on_cpu d.to ≡ true) × AllOnCpu plan

append-AllOnCpu : (xs ys : List MigrationDecision) → AllOnCpu xs → AllOnCpu ys → AllOnCpu (xs ++ ys)
unfolding AllOnCpu
append-AllOnCpu [] ys h k = k
append-AllOnCpu (x ∷ xs) ys h k = (h.0, append-AllOnCpu xs ys h.1 k)

AllOnCpu-on_cpu :
    (plan : List MigrationDecision)
    → AllOnCpu plan
    → (d : MigrationDecision) → Memᴰ d plan
    → on_cpu d.to ≡ true
unfolding AllOnCpu
AllOnCpu-on_cpu [] h d k = elim k [ ]
AllOnCpu-on_cpu (x ∷ xs) h d (Memᴰ.head e) = subst (λ y. on_cpu y.to ≡ true) (sym e) h.0
AllOnCpu-on_cpu (x ∷ xs) h d (Memᴰ.tail k) = AllOnCpu-on_cpu xs h.1 d k

slower_cpu : (t : MemorySpace) → on_cpu t ≡ true → on_cpu (slower_tier t) ≡ true
unfolding slower_tier
slower_cpu host h = refl
slower_cpu cold h = refl
slower_cpu device h = cc
slower_cpu unified h = cc

not_device : (t : MemorySpace) → same_tier t device ≡ true → on_cpu t ≡ true → ⊥
not_device host e h = cc
not_device device e h = cc
not_device cold e h = cc
not_device unified e h = cc

module _ {F : Type 0} where
  unfoldable pub IsCpuPlan : Plan F → Type 0
  IsCpuPlan p = AllOnCpu p.decisions × AllCols IsCpuColumn p.cols

  decide_Cpu :
      (id tick : ℕ) (to : MemorySpace) (c : Managed F) (p : Plan F)
      → IsCpuPlan p
      → IsCpuColumn c
      → on_cpu to ≡ true
      → IsCpuPlan (decide id to tick c p)
  unfolding IsCpuPlan IsCpuColumn decide moved AllOnCpu
  decide_Cpu id tick to c p h here t = (
    append-AllOnCpu p.decisions _ h.0 (t, tt),
    assign-AllCols IsCpuColumn id (moved to tick c) p.cols (t, here.1, here.2) h.1,
  )

  -- No column is counted in DEVICE.
  no_device :
      (cols : List (ℕ × Managed F)) → AllCols IsCpuColumn cols → resident_bytes device cols ≡ 0
  unfolding AllCols IsCpuColumn resident_bytes
  no_device [] h = refl
  no_device ((id, c) ∷ cols) h = elim (Bool-cases (same_tier c.tier device)) [
    | inl e ↦ absurd (not_device c.tier e h.0.0)
    | inr e ↦ rw e (no_device cols h.1)
  ]

  module _ (real : Real F) (m : TierManager F) (one : m.device_cap ≡ 1) where
    -- Nothing fits in DEVICE.
    faster_cpu :
        (t : MemorySpace) (c : Managed F) (p : Plan F)
        → IsCpuPlan p
        → IsCpuColumn c
        → on_cpu t ≡ true
        → fits real m (faster_tier t) c p ≡ true
        → on_cpu (faster_tier t) ≡ true
    unfolding faster_tier fits IsCpuPlan IsCpuColumn capacity_of
    faster_cpu cold c p h b o f = refl
    faster_cpu host c p h b o f = absurd (ground (arith, no_device p.cols h.1, one))
    faster_cpu device c p h b o f = cc
    faster_cpu unified c p h b o f = cc

    IsCpuPlan-IsKept : KeptBySteps real m IsCpuPlan
    unfolding IsCpuPlan IsCpuColumn
    IsCpuPlan-IsKept = record {
      down = λ p id c h e.
          let here = find-AllCols IsCpuColumn id p.cols h.1 e in
          decide_Cpu id m.tick (slower_tier c.tier) c p h here (slower_cpu c.tier here.0);
      up = λ p id c h e f.
          let here = find-AllCols IsCpuColumn id p.cols h.1 e in
          decide_Cpu id m.tick (faster_tier c.tier) c p h here
            (faster_cpu c.tier c p h here here.0 f);
      swap = λ p id v c w h e f t.
          let here = find-AllCols IsCpuColumn id p.cols h.1 e in
          let there = find-AllCols IsCpuColumn v p.cols h.1 f in
          decide_Cpu id m.tick (faster_tier c.tier) c (decide v (slower_tier w.tier) m.tick w p)
            (decide_Cpu v m.tick (slower_tier w.tier) w p h there (slower_cpu w.tier there.0)) here
            (subst (λ x. on_cpu x ≡ true) t there.0);
    }

  age_Cpu :
      (real : Real F) (cols : List (ℕ × Managed F))
      → AllCols IsCpuColumn cols
      → AllCols IsCpuColumn (age real cols)
  unfolding AllCols age aged IsCpuColumn
  age_Cpu real [] h = tt
  age_Cpu real ((id, c) ∷ cols) h = (h.0, age_Cpu real cols h.1)

  rebalance_Cpu :
      (real : Real F) (m : TierManager F)
      → IsCpuManager m
      → AllOnCpu (rebalance real m).0 × IsCpuManager (rebalance real m).1
  unfolding IsCpuManager rebalance ticked with_cols IsCpuPlan AllOnCpu
  rebalance_Cpu real m h =
      let p =
        pass_keeps real (ticked real m) IsCpuPlan (IsCpuPlan-IsKept real (ticked real m) h.0)
          (tt, age_Cpu real m.cols h.1) in
      (p.0, (h.0, p.1))

  accessed : ℕ → Managed F → Managed F
  accessed n c = record {
    bytes = c.bytes;
    tier = c.tier;
    heat = c.heat;
    recent_bytes = (c.recent_bytes + n) % 2 ^ 64;
    arrived_tick = c.arrived_tick;
  }

  access_found :
      (id n : ℕ) (m : TierManager F) (c : Managed F)
      → find id m.cols ≡ some c
      → record_access id n m ≡ with_cols (assign id (accessed n c) m.cols) m
  unfolding record_access accessed
  access_found id n m c e = ground arith

  access_missing : (id n : ℕ) (m : TierManager F) → find id m.cols ≡ none → record_access id n m ≡ m
  unfolding record_access
  access_missing id n m e = ground arith

  access_Cpu : (id n : ℕ) (m : TierManager F) → IsCpuManager m → IsCpuManager (record_access id n m)
  unfolding IsCpuManager with_cols IsCpuColumn accessed
  access_Cpu id n m h = elim (Option-cases (find id m.cols)) [
    | inl e ↦ subst IsCpuManager (sym (access_missing id n m e)) h
    | inr (c, e) ↦ subst IsCpuManager (sym (access_found id n m c e)) (
      h.0,
      assign-AllCols IsCpuColumn id (accessed n c) m.cols (find-AllCols IsCpuColumn id m.cols h.1 e)
          h.1,
    )
  ]

  resized : ℕ → Managed F → Managed F
  resized n c = record {
    bytes = n;
    tier = c.tier;
    heat = c.heat;
    recent_bytes = c.recent_bytes;
    arrived_tick = c.arrived_tick;
  }

  update_found :
      (id n : ℕ) (m : TierManager F) (c : Managed F)
      → find id m.cols ≡ some c
      → update_bytes id n m ≡ with_cols (assign id (resized n c) m.cols) m
  unfolding update_bytes resized
  update_found id n m c e = ground arith

  update_missing : (id n : ℕ) (m : TierManager F) → find id m.cols ≡ none → update_bytes id n m ≡ m
  unfolding update_bytes
  update_missing id n m e = ground arith

  update_Cpu :
      (id n : ℕ) (m : TierManager F)
      → 2 ≤ n
      → n < 2 ^ 64
      → IsCpuManager m
      → IsCpuManager (update_bytes id n m)
  unfolding IsCpuManager with_cols IsCpuColumn resized
  update_Cpu id n m l u h = elim (Option-cases (find id m.cols)) [
    | inl e ↦ subst IsCpuManager (sym (update_missing id n m e)) h
    | inr (c, e) ↦ subst IsCpuManager (sym (update_found id n m c e)) (
      h.0,
      assign-AllCols IsCpuColumn id (resized n c) m.cols
          ((find-AllCols IsCpuColumn id m.cols h.1 e).0, l, u) h.1,
    )
  ]

  -- In a build without CUDA, where DEVICE has one byte, and for columns that are in memory or on disk and
  -- have from 2 to 2 ^ 64 - 1 bytes: no pass plans a move to a tier that the build does not have, and
  -- accesses, passes and columns that grow within those sizes keep that so.
  pub tier_manager-CpuTiers : (real : Real F) → CpuTiers (tier_manager real) IsCpuManager
  tier_manager-CpuTiers real = record {
    record_access-Safe = access_Cpu;
    update_bytes-Safe = update_Cpu;
    rebalance-Safe = λ m h. (rebalance_Cpu real m h).1;
    rebalance-on_cpu = λ m h. AllOnCpu-on_cpu (rebalance real m).0 (rebalance_Cpu real m h).0;
  }
