-- ===== src/Tier/Victims.antt =====
-- What a pass of the tier manager (tier_manager.hpp) leaves in memory beyond the bound: only columns that may not leave.
use matrixdb.Prelude.{
  ℕ, ◌^◌, ◌≡◌, ◌⊎◌, inl, inr, Bool, true, false, ◌&&◌, ◌||◌, none, some, List, [], ◌∷◌, ltb, leb,
  ◌==◌, arith, Bool-cases, Option-cases, ==_iff, subst,
}
use matrixdb.Prelude.Maps.{find}
use matrixdb.Tier.{MemorySpace, host, same_tier}
use matrixdb.Tier.Cost.{Real, CostModel}
use matrixdb.Tier.Manager.{
  Managed, TierManager, keep_score, minus64, keys, resident_bytes, with_cols,
}
use matrixdb.Tier.Pass.{evictable, pick_victim, coldest, pass, ticked, rebalance}
use matrixdb.Tier.Capacity.{same_tier_refl, evict_done}

has_key : ℕ → List ℕ → Bool
has_key id [] = false
has_key id (k ∷ ks) = id == k || has_key id ks

has_key-keys :
    {F : Type 0} (id : ℕ) (cols : List (ℕ × Managed F)) (c : Managed F)
    → find id cols ≡ some c
    → has_key id (keys cols) ≡ true
unfolding has_key keys
has_key-keys id [] c e = absurd (ground arith)
has_key-keys id ((k, b) ∷ cols) c e = ground (arith, has_key-keys id cols c)

module _ {F : Type 0} (real : Real F) (cm : CostModel) (tier : MemorySpace) (tick : ℕ)
    (cols : List (ℕ × Managed F)) where
  -- Once there is a victim, there is one.
  pick_victim_found :
      (ids : List ℕ) (v : ℕ × Managed F) (worst : F)
      → pick_victim real cm tier tick cols ids (some v) worst ≡ none
      → ⊥
  unfolding pick_victim
  pick_victim_found [] v worst e = ground arith
  pick_victim_found (id ∷ ids) v worst e = elim (Option-cases (find id cols)) [
    | inl f ↦ pick_victim_found ids v worst (ground arith)
    | inr (c, f) ↦
        elim (Bool-cases (evictable tier tick c && real.less (keep_score real cm c) worst)) [
          | inl b ↦ pick_victim_found ids (id, c) (keep_score real cm c) (ground arith)
          | inr b ↦ pick_victim_found ids v worst (ground arith)
        ]
  ]

  pick_victim-none :
      (ids : List ℕ) (worst : F)
      → pick_victim real cm tier tick cols ids none worst ≡ none
      → (id : ℕ) (c : Managed F) → has_key id ids ≡ true
      → find id cols ≡ some c
      → (evictable tier tick c && real.less (keep_score real cm c) worst) ≡ false
  unfolding pick_victim has_key
  pick_victim-none [] worst e id c h f = absurd (ground arith)
  pick_victim-none (k ∷ ids) worst e id c h f = elim (Option-cases (find k cols)) [
    | inl g ↦ elim (Bool-cases (id == k)) [
      | inl y ↦ absurd (cc (f, g, (==_iff id k).0 y))
      | inr n ↦ pick_victim-none ids worst (ground arith) id c (ground arith) f
    ]
    | inr (d, g) ↦
        elim (Bool-cases (evictable tier tick d && real.less (keep_score real cm d) worst)) [
          | inl b ↦ absurd (pick_victim_found ids (k, d) (keep_score real cm d) (ground arith))
          | inr b ↦ elim (Bool-cases (id == k)) [
            | inl y ↦
                let same : d ≡ c = cc (f, g, (==_iff id k).0 y) in
                subst
                  (λ x. (evictable tier tick x && real.less (keep_score real cm x) worst) ≡ false)
                  same b
            | inr n ↦ pick_victim-none ids worst (ground arith) id c (ground arith) f
          ]
        ]
  ]

  pub settled :
      coldest real cm tier tick cols ≡ none
      → (id : ℕ) (c : Managed F) → find id cols ≡ some c
      → c.tier ≡ tier
      → (ltb (minus64 tick c.arrived_tick) 2 ≡ true)
        ⊎ (real.less (keep_score real cm c) (real.of_size (10 ^ 301)) ≡ false)
  unfolding coldest evictable
  settled e id c f t =
      let stays =
        pick_victim-none (keys cols) (real.of_size (10 ^ 301)) e id c (has_key-keys id cols c f)
          f in
      let here : same_tier c.tier tier ≡ true =
        subst (λ x. same_tier c.tier x ≡ true) t (same_tier_refl c.tier) in
      elim (Bool-cases (ltb (minus64 tick c.arrived_tick) 2)) [
        | inl y ↦ inl y
        | inr n ↦ inr (ground arith)
      ]

-- After a pass with a bound on the memory for columns: the columns that the manager counts in memory fit within it, or
-- none of them may leave: each has arrived within the last two ticks, or its worth is not below 10 ^ 301. The bound that
-- the model puts on the rounds of the eviction loop is never what ends it.
pub rebalance-fits :
    {F : Type 0} (real : Real F) (m : TierManager F)
    → (m.host_cap == 0) ≡ false
    → let after = (rebalance real m).1 in
      (leb (resident_bytes host after.cols) m.host_cap ≡ true)
      ⊎ ((id : ℕ) (c : Managed F)
          → find id after.cols ≡ some c
          → c.tier ≡ host
          → (ltb (minus64 after.tick c.arrived_tick) 2 ≡ true)
            ⊎ (real.less (keep_score real m.cm c) (real.of_size (10 ^ 301)) ≡ false))
unfolding rebalance pass ticked with_cols
rebalance-fits real m h = elim (evict_done real (ticked real m) _ h) [
  | inl fits ↦ inl fits
  | inr e ↦ inr (settled real m.cm host _ _ e)
]
