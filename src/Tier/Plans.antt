-- ===== src/Tier/Plans.antt =====
-- What a pass of `TierManager::rebalance` (tier_manager.hpp) consists of: moves down a tier, moves up where there is
-- room, and swaps of a resident for a column from below.
use matrixdb.Prelude.{
  ℕ, zero, suc, ◌+◌, ◌%◌, ◌^◌, ◌≡◌, ◌⊎◌, inl, inr, refl, sym, subst, ◌∙◌, Bool, true, false, ◌&&◌,
  ◌||◌, Option, none, some, List, [], ◌∷◌, length, leb, ltb, ◌==◌, arith, Bool-cases, Option-cases,
}
use matrixdb.Prelude.Maps.{find}
use matrixdb.Tier.{MemorySpace, host, device, cold, unified, same_tier}
use matrixdb.Tier.Cost.{Real}
use matrixdb.Tier.Manager.{
  Managed, TierManager, faster_tier, slower_tier, resident_bytes, capacity_of, keys, Plan, decide,
  keep_score, promote_benefit, three_halves, minus64,
}
use matrixdb.Tier.Pass.{
  evictable, pick_victim, coldest, try_swap_promote, promote_one, promote_all, evict_loop, evict,
  pass,
}

pub same_tier_eq : (a b : MemorySpace) → same_tier a b ≡ true → a ≡ b
same_tier_eq host host h = refl
same_tier_eq device device h = refl
same_tier_eq cold cold h = refl
same_tier_eq unified unified h = refl
same_tier_eq host device h = cc
same_tier_eq host cold h = cc
same_tier_eq host unified h = cc
same_tier_eq device host h = cc
same_tier_eq device cold h = cc
same_tier_eq device unified h = cc
same_tier_eq cold host h = cc
same_tier_eq cold device h = cc
same_tier_eq cold unified h = cc
same_tier_eq unified host h = cc
same_tier_eq unified device h = cc
same_tier_eq unified cold h = cc

module _ {F : Type 0} (real : Real F) (m : TierManager F) where
  unfoldable pub fits : MemorySpace → Managed F → Plan F → Bool
  fits to c p =
      (capacity_of m to == 0)
      || leb ((resident_bytes to p.cols + c.bytes) % 2 ^ 64) (capacity_of m to)

  -- An invariant of plans that every kind of step of a pass keeps.
  pub record KeptBySteps (I : Plan F → Type 0) : Type 0 where
    pub down :
        (p : Plan F) (id : ℕ) (c : Managed F)
        → I p
        → find id p.cols ≡ some c
        → I (decide id (slower_tier c.tier) m.tick c p)
    pub up :
        (p : Plan F) (id : ℕ) (c : Managed F)
        → I p
        → find id p.cols ≡ some c
        → fits (faster_tier c.tier) c p ≡ true
        → I (decide id (faster_tier c.tier) m.tick c p)
    pub swap :
        (p : Plan F) (id v : ℕ) (c w : Managed F)
        → I p
        → find id p.cols ≡ some c
        → find v p.cols ≡ some w
        → w.tier ≡ faster_tier c.tier
        → I (decide id (faster_tier c.tier) m.tick c (decide v (slower_tier w.tier) m.tick w p))

  -- what pick_victim returns, if it returns something
  unfoldable pub Victim : MemorySpace → List (ℕ × Managed F) → Option (ℕ × Managed F) → Type 0
  Victim tier cols none = Unit
  Victim tier cols (some (v, w)) = (find v cols ≡ some w) × (w.tier ≡ tier)

  module _ (tier : MemorySpace) (cols : List (ℕ × Managed F)) (id : ℕ) (ids : List ℕ)
      (o : Option (ℕ × Managed F)) (worst : F) where
    pick_missing :
        find id cols ≡ none
        → pick_victim real m.cm tier m.tick cols (id ∷ ids) o worst
          ≡ pick_victim real m.cm tier m.tick cols ids o worst
    unfolding pick_victim
    pick_missing e = ground arith

    pick_colder :
        (c : Managed F)
        → find id cols ≡ some c
        → (evictable tier m.tick c && real.less (keep_score real m.cm c) worst) ≡ true
        → pick_victim real m.cm tier m.tick cols (id ∷ ids) o worst
          ≡ pick_victim real m.cm tier m.tick cols ids (some (id, c)) (keep_score real m.cm c)
    unfolding pick_victim
    pick_colder c e b = ground arith

    pick_other :
        (c : Managed F)
        → find id cols ≡ some c
        → (evictable tier m.tick c && real.less (keep_score real m.cm c) worst) ≡ false
        → pick_victim real m.cm tier m.tick cols (id ∷ ids) o worst
          ≡ pick_victim real m.cm tier m.tick cols ids o worst
    unfolding pick_victim
    pick_other c e b = ground arith

  evictable-tier :
      (tier : MemorySpace) (c : Managed F) → evictable tier m.tick c ≡ true → c.tier ≡ tier
  unfolding evictable
  evictable-tier tier c h = same_tier_eq c.tier tier (ground arith)

  pick_victim-Victim :
      (tier : MemorySpace) (cols : List (ℕ × Managed F)) (ids : List ℕ) (o : Option (ℕ × Managed F))
      (worst : F)
      → Victim tier cols o
      → Victim tier cols (pick_victim real m.cm tier m.tick cols ids o worst)
  unfolding pick_victim Victim
  pick_victim-Victim tier cols [] o worst h = h
  pick_victim-Victim tier cols (id ∷ ids) o worst h = elim (Option-cases (find id cols)) [
    | inl e ↦
        rw (pick_missing tier cols id ids o worst e) (pick_victim-Victim tier cols ids o worst h)
    | inr (c, e) ↦
        elim (Bool-cases (evictable tier m.tick c && real.less (keep_score real m.cm c) worst)) [
          | inl b ↦ rw (pick_colder tier cols id ids o worst c e b) (
              pick_victim-Victim tier cols ids (some (id, c)) (keep_score real m.cm c)
                (e, evictable-tier tier c (ground arith)))
          | inr b ↦
              rw (pick_other tier cols id ids o worst c e b)
                (pick_victim-Victim tier cols ids o worst h)
        ]
  ]

  coldest-Victim :
      (tier : MemorySpace) (cols : List (ℕ × Managed F))
      → Victim tier cols (coldest real m.cm tier m.tick cols)
  unfolding coldest Victim
  coldest-Victim tier cols =
      pick_victim-Victim tier cols (keys cols) none (real.of_size (10 ^ 301)) tt

  pub evict_loop_cases :
      (fuel : ℕ) (tier : MemorySpace) (room : ℕ) (p : Plan F)
      → ((evict_loop real m.cm (suc fuel) tier room m.tick p ≡ p)
          × ((leb (resident_bytes tier p.cols) room ≡ true)
              ⊎ (coldest real m.cm tier m.tick p.cols ≡ none)))
        ⊎ ((v : ℕ) × (w : Managed F) × (coldest real m.cm tier m.tick p.cols ≡ some (v, w))
            × (evict_loop real m.cm (suc fuel) tier room m.tick p
                ≡ evict_loop real m.cm fuel tier room m.tick
                    (decide v (slower_tier tier) m.tick w p)))
  unfolding evict_loop
  evict_loop_cases fuel tier room p = elim (Option-cases (coldest real m.cm tier m.tick p.cols)) [
    | inl e ↦ inl (ground arith, inr e)
    | inr ((v, w), e) ↦ elim (Bool-cases (leb (resident_bytes tier p.cols) room)) [
      | inl b ↦ inl (ground arith, inl b)
      | inr b ↦ inr (v, w, e, ground arith)
    ]
  ]

  pub victim_found :
      (tier : MemorySpace) (p : Plan F) (v : ℕ) (w : Managed F)
      → coldest real m.cm tier m.tick p.cols ≡ some (v, w)
      → (find v p.cols ≡ some w) × (w.tier ≡ tier)
  unfolding Victim
  victim_found tier p v w e = subst (Victim tier p.cols) e (coldest-Victim tier p.cols)

  -- Every invariant that the steps keep holds of what the parts of a pass make.
  module _ (I : Plan F → Type 0) (k : KeptBySteps I) where
    swapped :
        (p : Plan F) (id v : ℕ) (c w : Managed F) (to : MemorySpace)
        → I p
        → find id p.cols ≡ some c
        → faster_tier c.tier ≡ to
        → (find v p.cols ≡ some w) × (w.tier ≡ to)
        → I (decide id to m.tick c (decide v (slower_tier to) m.tick w p))
    swapped p id v c w to h e t f =
        subst (λ x. I (decide id x m.tick c (decide v (slower_tier x) m.tick w p))) t
          (subst
            (λ x. I (decide id (faster_tier c.tier) m.tick c (decide v (slower_tier x) m.tick w p)))
            (f.1 ∙ sym t) (k.swap p id v c w h e f.0 (f.1 ∙ sym t)))

    try_swap_cases :
        (id : ℕ) (c : Managed F) (to : MemorySpace) (room : ℕ) (p : Plan F)
        → (try_swap_promote real m.cm id c to room m.tick p ≡ p)
          ⊎ ((v : ℕ) × (w : Managed F) × (coldest real m.cm to m.tick p.cols ≡ some (v, w))
              × (try_swap_promote real m.cm id c to room m.tick p
                  ≡ decide id to m.tick c (decide v (slower_tier to) m.tick w p)))
    unfolding try_swap_promote
    try_swap_cases id c to room p = elim (Option-cases (coldest real m.cm to m.tick p.cols)) [
      | inl e ↦ inl (ground arith)
      | inr ((v, w), e) ↦
          elim (Bool-cases (
            real.at_most (promote_benefit real m.cm c)
              (real.mul (three_halves real) (keep_score real m.cm w)))) [
                | inl a ↦ inl (ground arith)
                | inr a ↦
                    elim (Bool-cases (
                      ltb room ((minus64 (resident_bytes to p.cols) w.bytes + c.bytes) % 2 ^ 64))) [
                        | inl b ↦ inl (ground arith)
                        | inr b ↦ inr (v, w, e, ground arith)
                      ]
              ]
    ]

    promote_one_cases :
        (id : ℕ) (p : Plan F)
        → (promote_one real m.cm m id p ≡ p)
          ⊎ ((c : Managed F) × (find id p.cols ≡ some c)
              × (((fits (faster_tier c.tier) c p ≡ true)
                    × (promote_one real m.cm m id p ≡ decide id (faster_tier c.tier) m.tick c p))
                  ⊎ (promote_one real m.cm m id p
                      ≡ try_swap_promote real m.cm id c
                          (faster_tier c.tier)
                          (capacity_of m (faster_tier c.tier))
                          m.tick
                          p)))
    unfolding promote_one fits
    promote_one_cases id p = elim (Option-cases (find id p.cols)) [
      | inl e ↦ inl (ground arith)
      | inr (c, e) ↦ inr (
        c,
        e,
        elim (Bool-cases (fits (faster_tier c.tier) c p)) [
          | inl f ↦ inl (f, ground arith)
          | inr f ↦ inr (ground arith)
        ],
      )
    ]

    promote_one_keeps : (id : ℕ) (p : Plan F) → I p → I (promote_one real m.cm m id p)
    promote_one_keeps id p h = elim (promote_one_cases id p) [
      | inl e ↦ rw e h
      | inr (c, e, inl (f, g)) ↦ rw g (k.up p id c h e f)
      | inr (c, e, inr g) ↦
          rw g
            (elim (try_swap_cases id c (faster_tier c.tier) (capacity_of m (faster_tier c.tier))
              p) [
                | inl n ↦ rw n h
                | inr (v, w, f, n) ↦ rw n (
                    swapped p id v c w (faster_tier c.tier) h e refl
                      (victim_found (faster_tier c.tier) p v w f))
              ])
    ]

    promote_all_keeps : (ids : List ℕ) (p : Plan F) → I p → I (promote_all real m.cm m ids p)
    unfolding promote_all
    promote_all_keeps [] p h = h
    promote_all_keeps (id ∷ ids) p h =
        promote_all_keeps ids (promote_one real m.cm m id p) (promote_one_keeps id p h)

    evict_loop_keeps :
        (fuel : ℕ) (tier : MemorySpace) (room : ℕ) (p : Plan F)
        → I p
        → I (evict_loop real m.cm fuel tier room m.tick p)
    unfolding evict_loop
    evict_loop_keeps zero tier room p h = h
    evict_loop_keeps (suc fuel) tier room p h = elim (evict_loop_cases fuel tier room p) [
      | inl (e, stop) ↦ rw e h
      | inr (v, w, f, n) ↦
          let (g, t) = victim_found tier p v w f in
          rw n (
            evict_loop_keeps fuel tier room (decide v (slower_tier tier) m.tick w p)
              (subst (λ x. I (decide v (slower_tier x) m.tick w p)) t (k.down p v w h g)))
    ]

    evict_keeps : (tier : MemorySpace) (p : Plan F) → I p → I (evict real m.cm m tier p)
    unfolding evict
    evict_keeps tier p h = elim (Bool-cases (capacity_of m tier == 0)) [
      | inl e ↦ rw e h
      | inr e ↦ rw e (evict_loop_keeps (length p.cols) tier (capacity_of m tier) p h)
    ]

    pub pass_keeps : I (record { decisions = []; cols = m.cols }) → I (pass real m.cm m)
    unfolding pass
    pass_keeps h = evict_keeps host _ (evict_keeps device _ (promote_all_keeps _ _ h))
