-- ===== src/Query/Runs.antt =====
-- What the steps of `execute_query` (compute_mock.cpp) have in common: a read gives what the columns hold, and
-- leaves what a query sees alone.
use matrixdb.Prelude.{
  ℕ, ◌≡◌, inl, inr, refl, sym, ap, ◌∙◌, Bool, true, false, Option, none, some, List, ◌==◌,
  if◌then◌else◌, arith, Option-cases,
}
use matrixdb.Prelude.Maps.{◌>>=◌, find}
use matrixdb.Tier.{MemorySpace}
use matrixdb.Catalog.{TierApi, Catalog, catalog_has, read_one, read_two, maybe_rebalance}
use matrixdb.Catalog.Borrow.{on_cpu, lent, CpuTiers, Kept, Reads, read_one_found, read_two_found}
use matrixdb.Catalog.Rebalance.{bytes_at, OnCpu, Preserved, maybe_rebalance_safe}
use matrixdb.Query.{MatrixQueryStatus, status_ok}
use matrixdb.Query.Execute.{Outcome, unless}
use matrixdb.Query.Shared.{column_bytes}
use matrixdb.Query.Answer.{judged}

-- `m` gives `a`, and leaves what a query sees alone.
pub record Executed {T A : Type 0} (Safe : T → Type 0) (m : Option (A × Catalog T)) (a : A)
    (s : Catalog T) : Type 0 where
  pub after : Catalog T
  pub result : m ≡ some (a, after)
  pub preserved : Preserved Safe s after

-- the states of a build without CUDA
pub record IsRunning {T : Type 0} (Safe : T → Type 0) (s : Catalog T) : Type 0 where
  pub cpu : OnCpu s.columns
  pub safe : Safe s.tier_mgr

module _ {T : Type 0} (api : TierApi T) (Safe : T → Type 0) (tiers : CpuTiers api Safe)
    (s : Catalog T) where
  pub untouched : IsRunning Safe s → Preserved Safe s s
  untouched r = record {
    bytes = λ id. refl;
    col_types = refl;
    null_masks = refl;
    max_query_groups = refl;
    cpu = r.cpu;
    safe = r.safe;
  }

  Kept-Preserved : IsRunning Safe s → (s' : Catalog T) → Kept Safe s s' → Preserved Safe s s'
  unfolding OnCpu
  Kept-Preserved r s' k = record {
    bytes = λ id. ap (λ c. bytes_at (find id c)) k.columns;
    col_types = k.col_types;
    null_masks = k.null_masks;
    max_query_groups = k.max_query_groups;
    cpu = λ id t bytes h. r.cpu id t bytes (sym (ap (find id) k.columns) ∙ h);
    safe = k.safe r.safe;
  }

  pub read_Executed :
      {A : Type 0} (m : Option (A × Catalog T)) (a : A)
      → IsRunning Safe s
      → Reads Safe m a s
      → Executed Safe m a s
  read_Executed m a r e = record {
    after = e.after;
    result = e.result;
    preserved = Kept-Preserved r e.after e.kept;
  }

  -- A read and then a pass of the tier manager, if it is due.
  pub read_rebalance_Executed :
      {A : Type 0} (m : Option (A × Catalog T)) (a : A)
      → IsRunning Safe s
      → Reads Safe m a s
      → Executed Safe (m >>= λ r. maybe_rebalance api r.1 >>= λ s. some (r.0, s)) a s
  read_rebalance_Executed m a r e =
      let k = Kept-Preserved r e.after e.kept in
      let (s', f, p) = maybe_rebalance_safe api Safe tiers e.after k.cpu k.safe in
      record {
        after = s';
        result = rw (e.result, f) refl;
        preserved = record {
          bytes = λ id. p.bytes id ∙ k.bytes id;
          col_types = p.col_types ∙ k.col_types;
          null_masks = p.null_masks ∙ k.null_masks;
          max_query_groups = p.max_query_groups ∙ k.max_query_groups;
          cpu = p.cpu;
          safe = p.safe;
        };
      }

  pub map_Executed :
      {A B : Type 0} (m : Option (A × Catalog T)) (a : A) (g : A → B)
      → Executed Safe m a s
      → Executed Safe (m >>= λ r. some (g r.0, r.1)) (g a) s
  map_Executed m a g e = record {
    after = e.after;
    result = rw e.result refl;
    preserved = e.preserved;
  }

  -- A query that is refused has changed nothing.
  pub unless-Executed :
      (check : Option MatrixQueryStatus) (k : Outcome T) (out : List ℕ)
      → IsRunning Safe s
      → (check ≡ none → Executed Safe k (status_ok, out) s)
      → Executed Safe (unless check s k) (judged check out) s
  unless-Executed none k out r h = h refl
  unless-Executed (some st) k out r h = record { after = s; result = refl; preserved = untouched r }

  -- A column that the catalog has is found, in a tier of the build.
  pub present :
      (id : ℕ)
      → catalog_has id s ≡ true
      → IsRunning Safe s
      → (t : MemorySpace) × (on_cpu t ≡ true)
        × (find id s.columns ≡ some (lent t (column_bytes id s)))
  unfolding catalog_has column_bytes OnCpu
  present id h r = elim (Option-cases (find id s.columns)) [
    | inl e ↦ absurd (ground arith)
    | inr (c, e) ↦ (c.tier, r.cpu id c.tier c.bytes e, rw e refl)
  ]

  pub one_column :
      {A : Type 0} (id : ℕ) (f : List ℕ → A)
      → catalog_has id s ≡ true
      → IsRunning Safe s
      → Reads Safe (read_one api id f s) (f (column_bytes id s)) s
  one_column id f h r =
      let (t, c, e) = present id h r in
      read_one_found api Safe tiers s id f t (column_bytes id s) c e

  pub two_columns :
      {A : Type 0} (l r : ℕ) (f : List ℕ → List ℕ → A)
      → catalog_has l s ≡ true
      → catalog_has r s ≡ true
      → (l == r) ≡ false
      → IsRunning Safe s
      → Reads Safe (read_two api l r f s) (f (column_bytes l s) (column_bytes r s)) s
  two_columns l r f hl hr n run =
      let (lt, lc, le) = present l hl run in
      let (rt, rc, re) = present r hr run in
      read_two_found api Safe tiers s l r f lt rt (column_bytes l s) (column_bytes r s) n
        (ground arith) lc rc le re

  -- a test, decided
  pub if_true-Executed :
      {A : Type 0} (b : Bool) (m m' : Option (A × Catalog T)) (a : A)
      → b ≡ true
      → Executed Safe m a s
      → Executed Safe (if b then m else m') a s
  if_true-Executed true m m' a h e = e
  if_true-Executed false m m' a h e = cc

  pub if_false-Executed :
      {A : Type 0} (b : Bool) (m m' : Option (A × Catalog T)) (a : A)
      → b ≡ false
      → Executed Safe m' a s
      → Executed Safe (if b then m else m') a s
  if_false-Executed true m m' a h e = cc
  if_false-Executed false m m' a h e = e

  pub out_true-Executed :
      (b : Bool) (m : Outcome T) (g : List ℕ → MatrixQueryStatus × List ℕ) (x y : List ℕ)
      → b ≡ true
      → Executed Safe m (g x) s
      → Executed Safe m (g (if b then x else y)) s
  out_true-Executed true m g x y h e = e
  out_true-Executed false m g x y h e = cc

  pub out_false-Executed :
      (b : Bool) (m : Outcome T) (g : List ℕ → MatrixQueryStatus × List ℕ) (x y : List ℕ)
      → b ≡ false
      → Executed Safe m (g y) s
      → Executed Safe m (g (if b then x else y)) s
  out_false-Executed true m g x y h e = cc
  out_false-Executed false m g x y h e = e
