-- ===== src/Tier/Lockstep.antt =====
-- The plan of `TierManager::rebalance` (tier_manager.hpp) carried out by `MigrationExecutor::apply`
-- (migration_executor.hpp): where the manager believes the columns to be, and where they are.
use matrixdb.Prelude.{
  ℕ, ◌≡◌, inl, inr, refl, sym, ap, ◌∙◌, Option, none, some, List, [], ◌∷◌, ◌++◌, ◌==◌,
  if◌then◌else◌, arith, Bool-cases, Option-cases, ==_iff,
}
use matrixdb.Prelude.Maps.{find, assign, find-assign_self, find-assign_ne}
use matrixdb.Tier.{
  MemorySpace, host, device, cold, unified, MigrationDecision, Column, migrate_to, staged,
  read_to_host, apply,
}
use matrixdb.Tier.Cost.{Real}
use matrixdb.Tier.Manager.{
  Managed, TierManager, faster_tier, slower_tier, moved, Plan, decide, age, aged, with_cols,
}
use matrixdb.Catalog.{Catalog, run_plan}
use matrixdb.Tier.Pass.{ticked, rebalance, tier_manager}
use matrixdb.Tier.Plans.{KeptBySteps, pass_keeps}

-- what a decision makes of the tier of the column `j`, and a plan
unfoldable pub retier : MigrationDecision → ℕ → Option MemorySpace → Option MemorySpace
retier d j none = none
retier d j (some t) = if j == d.column_id then some d.to else some t

unfoldable pub replay : List MigrationDecision → ℕ → Option MemorySpace → Option MemorySpace
replay [] j t = t
replay (d ∷ plan) j t = replay plan j (retier d j t)

replay-append :
    (xs ys : List MigrationDecision) (j : ℕ) (t : Option MemorySpace)
    → replay (xs ++ ys) j t ≡ replay ys j (replay xs j t)
unfolding replay
replay-append [] ys j t = refl
replay-append (x ∷ xs) ys j t = replay-append xs ys j (retier x j t)

abbrev pub tier_at : Option Column → Option MemorySpace
tier_at none = none
tier_at (some c) = some c.tier

retier_missing :
    (d : MigrationDecision) (columns : List (ℕ × Column)) (j : ℕ)
    → find d.column_id columns ≡ none
    → retier d j (tier_at (find j columns)) ≡ tier_at (find j columns)
unfolding retier
retier_missing d columns j e = elim (Bool-cases (j == d.column_id)) [
  | inl y ↦ grind (arith, e, (==_iff j d.column_id).0)
  | inr n ↦ elim (Option-cases (find j columns)) [ inl f ↦ rw f refl | inr (c, f) ↦ rw (f, n) refl ]
]

assign-retier :
    (d : MigrationDecision) (columns : List (ℕ × Column)) (c c0 : Column) (j : ℕ)
    → find d.column_id columns ≡ some c0
    → c.tier ≡ d.to
    → tier_at (find j (assign d.column_id c columns)) ≡ retier d j (tier_at (find j columns))
unfolding retier
assign-retier d columns c c0 j e t = elim (Bool-cases (j == d.column_id)) [
  | inl y ↦ grind (arith, e, t, y, (==_iff j d.column_id).0, find-assign_self d.column_id c columns)
  | inr n ↦
      ap tier_at (find-assign_ne d.column_id j c columns n)
      ∙ elim (Option-cases (find j columns)) [ inl f ↦ rw f refl | inr (x, f) ↦ rw (f, n) refl ]
]

migrated_tier :
    (d t : MemorySpace) (bytes : List ℕ) {m : Column}
    → migrate_to d (record { tier = t; bytes = bytes }) ≡ some m
    → m.tier ≡ d
unfolding migrate_to staged read_to_host
migrated_tier host host bytes h = ground arith
migrated_tier host cold bytes h = ground arith
migrated_tier cold host bytes h = ground arith
migrated_tier cold cold bytes h = ground arith
migrated_tier device device bytes h = ground arith
migrated_tier unified unified bytes h = ground arith
migrated_tier host device bytes h = absurd (ground arith)
migrated_tier host unified bytes h = absurd (ground arith)
migrated_tier cold device bytes h = absurd (ground arith)
migrated_tier cold unified bytes h = absurd (ground arith)
migrated_tier device host bytes h = absurd (ground arith)
migrated_tier device cold bytes h = absurd (ground arith)
migrated_tier device unified bytes h = absurd (ground arith)
migrated_tier unified host bytes h = absurd (ground arith)
migrated_tier unified cold bytes h = absurd (ground arith)
migrated_tier unified device bytes h = absurd (ground arith)

migrate_to-tier : (d : MemorySpace) (c : Column) {m : Column} → migrate_to d c ≡ some m → m.tier ≡ d
migrate_to-tier d c h = migrated_tier d c.tier c.bytes h

apply_parts :
    (d : MigrationDecision) (plan : List MigrationDecision) (columns : List (ℕ × Column))
    (c : Column) {n : ℕ} {after : List (ℕ × Column)}
    → find d.column_id columns ≡ some c
    → apply (d ∷ plan) columns ≡ some (n, after)
    → (m : Column) × (migrate_to d.to c ≡ some m)
      × (k : ℕ) × (apply plan (assign d.column_id m columns) ≡ some (k, after))
unfolding apply
apply_parts d plan columns c e h = elim (Option-cases (migrate_to d.to c)) [
  | inl f ↦ absurd (ground arith)
  | inr (m, f) ↦ elim (Option-cases (apply plan (assign d.column_id m columns))) [
    | inl g ↦ absurd (ground arith)
    | inr ((k, r), g) ↦ (m, f, k, ground arith)
  ]
]

-- A plan that is carried out moves the columns as it says.
pub apply-replay :
    (plan : List MigrationDecision) (columns : List (ℕ × Column)) {n : ℕ}
    {after : List (ℕ × Column)}
    → apply plan columns ≡ some (n, after)
    → (j : ℕ) → tier_at (find j after) ≡ replay plan j (tier_at (find j columns))
unfolding apply replay retier
apply-replay [] columns h j = ground arith
apply-replay (d ∷ plan) columns {n = n} {after = after} h j =
    elim (Option-cases (find d.column_id columns)) [
      | inl e ↦
          let g : apply plan columns ≡ some (n, after) = ground arith in
          rw (retier_missing d columns j e) (apply-replay plan columns g j)
      | inr (c, e) ↦
          let (m, f, k, g) = apply_parts d plan columns c e h in
          rw (sym (assign-retier d columns m c j e (migrate_to-tier d.to c f)))
            (apply-replay plan (assign d.column_id m columns) g j)
    ]

module _ {F : Type 0} where
  abbrev pub managed_at : Option (Managed F) → Option MemorySpace
  managed_at none = none
  managed_at (some c) = some c.tier

  age_tier :
      (real : Real F) (cols : List (ℕ × Managed F)) (j : ℕ)
      → managed_at (find j (age real cols)) ≡ managed_at (find j cols)
  unfolding age aged
  age_tier real [] j = refl
  age_tier real ((id, c) ∷ cols) j = ground (arith, age_tier real cols j)

  -- The columns of a plan are those at its start, moved as its decisions say.
  unfoldable pub Replays : List (ℕ × Managed F) → Plan F → Type 0
  Replays start p =
      (j : ℕ) → managed_at (find j p.cols) ≡ replay p.decisions j (managed_at (find j start))

  moved_retier :
      (d : MigrationDecision) (cols : List (ℕ × Managed F)) (c c0 : Managed F) (j : ℕ)
      → find d.column_id cols ≡ some c0
      → c.tier ≡ d.to
      → managed_at (find j (assign d.column_id c cols)) ≡ retier d j (managed_at (find j cols))
  unfolding retier
  moved_retier d cols c c0 j e t = elim (Bool-cases (j == d.column_id)) [
    | inl y ↦ grind (arith, e, t, y, (==_iff j d.column_id).0, find-assign_self d.column_id c cols)
    | inr n ↦
        ap managed_at (find-assign_ne d.column_id j c cols n)
        ∙ elim (Option-cases (find j cols)) [ inl f ↦ rw f refl | inr (x, f) ↦ rw (f, n) refl ]
  ]

  still_there :
      (id v tick : ℕ) (to : MemorySpace) (c w : Managed F) (p : Plan F)
      → find id p.cols ≡ some c
      → (c0 : Managed F) × (find id (decide v to tick w p).cols ≡ some c0)
  unfolding decide
  still_there id v tick to c w p e = elim (Bool-cases (id == v)) [
    | inl y ↦ (
      moved to tick w,
      grind (arith, (==_iff id v).0, find-assign_self v (moved to tick w) p.cols),
    )
    | inr n ↦ (c, find-assign_ne v id (moved to tick w) p.cols n ∙ e)
  ]

  decide-Replays :
      (start : List (ℕ × Managed F)) (id tick : ℕ) (to : MemorySpace) (c c0 : Managed F)
      (p : Plan F)
      → Replays start p
      → find id p.cols ≡ some c0
      → Replays start (decide id to tick c p)
  unfolding Replays decide replay moved
  decide-Replays start id tick to c c0 p h e j =
      let d : MigrationDecision = record { column_id = id; from = c.tier; to = to } in
      moved_retier d p.cols (moved to tick c) c0 j e refl
      ∙ ap (retier d j) (h j)
      ∙ sym (replay-append p.decisions (d ∷ []) j (managed_at (find j start)))

  Replays-IsKept :
      (real : Real F) (m : TierManager F) (start : List (ℕ × Managed F))
      → KeptBySteps real m (Replays start)
  unfolding decide
  Replays-IsKept real m start = record {
    down = λ p id c h e. decide-Replays start id m.tick (slower_tier c.tier) c c p h e;
    up = λ p id c h e f. decide-Replays start id m.tick (faster_tier c.tier) c c p h e;
    swap = λ p id v c w h e f t.
        let (c0, g) = still_there id v m.tick (slower_tier w.tier) c w p e in
        decide-Replays start id m.tick (faster_tier c.tier) c c0
          (decide v (slower_tier w.tier) m.tick w p)
          (decide-Replays start v m.tick (slower_tier w.tier) w w p h f) g;
  }

-- Where the manager believes a column to be is where it is.
unfoldable pub IsLockstep : {F : Type 0} → Catalog (TierManager F) → Type 0
IsLockstep s = (j : ℕ) → managed_at (find j s.tier_mgr.cols) ≡ tier_at (find j s.columns)

module _ {F : Type 0} (real : Real F) where
  rebalance_Replays :
      (m : TierManager F) (j : ℕ)
      → managed_at (find j (rebalance real m).1.cols)
        ≡ replay (rebalance real m).0 j (managed_at (find j m.cols))
  unfolding rebalance ticked with_cols Replays replay
  rebalance_Replays m j =
      pass_keeps real (ticked real m) (Replays (age real m.cols))
        (Replays-IsKept real (ticked real m) (age real m.cols)) (λ i. refl) j
      ∙ ap (replay (rebalance real m).0 j) (age_tier real m.cols j)

  -- If the tier manager knows where the columns are, and the engine carries out the plan of a pass, the tier manager
  -- knows it afterwards.
  pub run_plan-IsLockstep :
      (s : Catalog (TierManager F)) {s' : Catalog (TierManager F)}
      → IsLockstep s
      → run_plan (tier_manager real) s ≡ some s'
      → IsLockstep s'
  unfolding IsLockstep run_plan
  run_plan-IsLockstep s {s' = s'} h e j =
      elim (Option-cases (apply (rebalance real s.tier_mgr).0 s.columns)) [
        | inl f ↦ absurd (ground arith)
        | inr ((n, after), f) ↦
            let manager : s'.tier_mgr ≡ (rebalance real s.tier_mgr).1 = ground arith in
            let columns : s'.columns ≡ after = ground arith in
            ap (λ m. managed_at (find j m.cols)) manager
            ∙ rebalance_Replays s.tier_mgr j
            ∙ ap (replay (rebalance real s.tier_mgr).0 j) (h j)
            ∙ sym (apply-replay (rebalance real s.tier_mgr).0 s.columns f j)
            ∙ sym (ap (λ c. tier_at (find j c)) columns)
      ]
