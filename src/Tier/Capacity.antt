-- ===== src/Tier/Capacity.antt =====
-- Capacities in `TierManager::rebalance` (tier_manager.hpp): the eviction loop, and the tier DEVICE of a build that
-- has none.
use matrixdb.Prelude.{
  ℕ, zero, suc, ◌+◌, ◌≡◌, ◌≤◌, ◌<◌, ◌⊎◌, inl, inr, refl, subst, true, false, none, some, List, [],
  ◌∷◌, length, leb, ◌==◌, if◌then◌else◌, arith, Bool-cases, Option-cases,
}
use matrixdb.Prelude.Maps.{find, assign}
use matrixdb.Tier.{MemorySpace, host, device, cold, unified, same_tier}
use matrixdb.Tier.Cost.{Real}
use matrixdb.Tier.Manager.{
  Managed, TierManager, slower_tier, moved, Plan, decide, resident_bytes, capacity_of,
}
use matrixdb.Tier.Pass.{coldest, evict_loop, evict}
use matrixdb.Tier.Plans.{evict_loop_cases, victim_found}

pub same_tier_refl : (t : MemorySpace) → same_tier t t ≡ true
same_tier_refl host = refl
same_tier_refl device = refl
same_tier_refl cold = refl
same_tier_refl unified = refl

module _ {F : Type 0} where
  -- a fact of every column
  unfoldable pub AllCols : (Managed F → Type 0) → List (ℕ × Managed F) → Type 0
  AllCols P [] = Unit
  AllCols P ((id, c) ∷ cols) = P c × AllCols P cols

  pub assign-AllCols :
      (P : Managed F → Type 0) (id : ℕ) (c : Managed F) (cols : List (ℕ × Managed F))
      → P c
      → AllCols P cols
      → AllCols P (assign id c cols)
  unfolding AllCols
  assign-AllCols P id c [] p h = (p, tt)
  assign-AllCols P id c ((i, b) ∷ cols) p h = elim (Bool-cases (id == i)) [
    | inl e ↦ rw e (p, h.1)
    | inr e ↦ rw e (h.0, assign-AllCols P id c cols p h.1)
  ]

  pub find-AllCols :
      (P : Managed F → Type 0) (id : ℕ) (cols : List (ℕ × Managed F)) {c : Managed F}
      → AllCols P cols
      → find id cols ≡ some c
      → P c
  unfolding AllCols
  find-AllCols P id [] h e = absurd (ground arith)
  find-AllCols P id ((i, b) ∷ cols) {c = c} h e = elim (Bool-cases (id == i)) [
    | inl y ↦ let same : b ≡ c = ground arith in subst P same h.0
    | inr n ↦ find-AllCols P id cols h.1 (ground arith)
  ]

  count_in : MemorySpace → List (ℕ × Managed F) → ℕ
  count_in tier [] = 0
  count_in tier ((id, c) ∷ cols) = (if same_tier c.tier tier then 1 else 0) + count_in tier cols

  count_in-length :
      (tier : MemorySpace) (cols : List (ℕ × Managed F)) → count_in tier cols ≤ length cols
  unfolding count_in
  count_in-length tier [] = omega arith
  count_in-length tier ((id, c) ∷ cols) = ground (arith, count_in-length tier cols)

  -- A move out of a tier leaves one column less in it.
  count_in-assign :
      (tier : MemorySpace) (id : ℕ) (c d : Managed F) (cols : List (ℕ × Managed F))
      → find id cols ≡ some c
      → same_tier c.tier tier ≡ true
      → same_tier d.tier tier ≡ false
      → suc (count_in tier (assign id d cols)) ≡ count_in tier cols
  unfolding count_in
  count_in-assign tier id c d [] e s n = cc
  count_in-assign tier id c d ((i, b) ∷ cols) e s n =
      ground (arith, count_in-assign tier id c d cols)

  count_in-find :
      (tier : MemorySpace) (id : ℕ) (c : Managed F) (cols : List (ℕ × Managed F))
      → find id cols ≡ some c
      → same_tier c.tier tier ≡ true
      → 0 < count_in tier cols
  unfolding count_in
  count_in-find tier id c [] e s = cc
  count_in-find tier id c ((i, b) ∷ cols) e s = ground (arith, count_in-find tier id c cols)

module _ {F : Type 0} (real : Real F) (m : TierManager F) where
  in_tier : {t tier : MemorySpace} → t ≡ tier → same_tier t tier ≡ true
  in_tier {t = t} e = subst (λ x. same_tier t x ≡ true) e (same_tier_refl t)

  fewer :
      (fuel : ℕ) (tier : MemorySpace) (v : ℕ) (w : Managed F) (p : Plan F)
      → same_tier (slower_tier tier) tier ≡ false
      → count_in tier p.cols ≤ suc fuel
      → find v p.cols ≡ some w
      → w.tier ≡ tier
      → count_in tier (decide v (slower_tier tier) m.tick w p).cols ≤ fuel
  unfolding decide moved
  fewer fuel tier v w p d h f t =
      omega
        (arith, count_in-assign tier v w (moved (slower_tier tier) m.tick w) p.cols f (in_tier t) d)

  -- Enough rounds: then the tier fits, or nothing in it may be evicted.
  evict_loop_done :
      (fuel : ℕ) (tier : MemorySpace) (room : ℕ) (p : Plan F)
      → same_tier (slower_tier tier) tier ≡ false
      → count_in tier p.cols ≤ fuel
      → (leb (resident_bytes tier (evict_loop real m.cm fuel tier room m.tick p).cols) room ≡ true)
        ⊎ (coldest real m.cm tier m.tick (evict_loop real m.cm fuel tier room m.tick p).cols ≡ none)
  unfolding evict_loop
  evict_loop_done zero tier room p d h =
      elim (Option-cases (coldest real m.cm tier m.tick p.cols)) [
        | inl e ↦ inr e
        | inr ((v, w), e) ↦
            let (f, t) = victim_found real m tier p v w e in
            absurd (ground (arith, count_in-find tier v w p.cols f (in_tier t)))
      ]
  evict_loop_done (suc fuel) tier room p d h = elim (evict_loop_cases real m fuel tier room p) [
    | inl (e, stop) ↦ rw e stop
    | inr (v, w, e, n) ↦
        let (f, t) = victim_found real m tier p v w e in
        let next = decide v (slower_tier tier) m.tick w p in
        rw n (evict_loop_done fuel tier room next d (fewer fuel tier v w p d h f t))
  ]

  pub evict_done :
      (p : Plan F)
      → (m.host_cap == 0) ≡ false
      → (leb (resident_bytes host (evict real m.cm m host p).cols) m.host_cap ≡ true)
        ⊎ (coldest real m.cm host m.tick (evict real m.cm m host p).cols ≡ none)
  unfolding evict capacity_of slower_tier
  evict_done p h =
      rw h (evict_loop_done (length p.cols) host m.host_cap p refl (count_in-length host p.cols))
