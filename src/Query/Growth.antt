-- ===== src/Query/Growth.antt =====
-- append_raw of compute_mock.cpp and the states in which queries are answered.
use matrixdb.Prelude.{
  ℕ, ◌≤◌, ◌<◌, ◌^◌, ◌≡◌, ◌∙◌, inl, inr, ap, sym, subst, true, some, List, ◌++◌, length, ◌==◌, arith,
  Bool-cases,
}
use matrixdb.Prelude.Maps.{find}
use matrixdb.Tier.{Column}
use matrixdb.Catalog.{TierApi, Catalog}
use matrixdb.Catalog.Borrow.{on_cpu, lent, CpuTiers}
use matrixdb.Catalog.Load.{append_raw, Grown, append_raw-Grown}
use matrixdb.Catalog.Rebalance.{OnCpu}
use matrixdb.Query.Runs.{IsRunning}

module _ {T : Type 0} (api : TierApi T) (Safe : T → Type 0) (tiers : CpuTiers api Safe) (id : ℕ)
    (b : List ℕ) (s : Catalog T) where
  Grown-OnCpu :
      (c : Column) (s' : Catalog T)
      → on_cpu c.tier ≡ true
      → OnCpu s.columns
      → Grown api id c b s s'
      → OnCpu s'.columns
  unfolding OnCpu
  Grown-OnCpu c s' e h g j t bytes f = elim (Bool-cases (j == id)) [
    | inl same ↦
        let here : j ≡ id = ground arith in
        let one : some (lent c.tier (c.bytes ++ b)) ≡ some (lent t bytes) =
          sym g.column ∙ ap (λ k. find k s'.columns) (sym here) ∙ f in
        ground arith
    | inr other ↦ h j t bytes (sym (g.others j other) ∙ f)
  ]

  -- On a catalog whose columns are all in memory or on disk, with a tier manager that plans no other tier: a column of
  -- the catalog that has from 2 to 2 ^ 64 - 1 bytes with what is appended grows: the new bytes are behind the old ones,
  -- it is in its tier again, the tier manager is told its size, the other columns, the types and the null masks are as
  -- they were, and the catalog is again such a one.
  pub append_raw-IsRunning :
      IsRunning Safe s
      → (c : Column) → find id s.columns ≡ some c
      → 2 ≤ length (c.bytes ++ b)
      → length (c.bytes ++ b) < 2 ^ 64
      → (s' : Catalog T) × (append_raw api id b s ≡ some s')
        × Grown api id c b s s'
        × IsRunning Safe s'
  unfolding OnCpu
  append_raw-IsRunning run c f low high =
      let e = run.cpu id c.tier c.bytes f in
      let (s', r, g) = append_raw-Grown api id b s c e f in
      (
        s',
        r,
        g,
        record {
          cpu = Grown-OnCpu c s' e run.cpu g;
          safe =
              subst Safe (sym g.told)
                (tiers.update_bytes-Safe id (length (c.bytes ++ b)) s.tier_mgr low high run.safe);
        },
      )
