-- ===== src/Query/Selected.antt =====
-- Projection of compute_mock.cpp against the values whose filter matches.
use matrixdb.Prelude.{
  ℕ, zero, suc, ◌-◌, ◌≡◌, ◌<◌, ◌⊎◌, inl, inr, refl, ap, ◌∙◌, true, not, ◌&&◌, some, List, [], ◌∷◌,
  length, take, leb, ◌==◌, if◌then◌else◌, arith, Bool-cases,
}
use matrixdb.Prelude.Maps.{find}
use matrixdb.Reduce.{Predicate, matrix_pred_match}
use matrixdb.Catalog.{TierApi, Catalog, u32_values, catalog_has, column_type}
use matrixdb.Tier.{MemorySpace}
use matrixdb.Catalog.{is_some, type_or_u32, with_columns, borrow, give_back, host_bytes}
use matrixdb.Catalog.Borrow.{
  CpuTiers, Reads, on_cpu, lent, lend, back, borrow_count, lend-find, back-lend, borrow_found,
  host_bytes_found, give_back_found,
}
use matrixdb.Query.Shared.{column_bytes}
use matrixdb.Query.Runs.{Executed, IsRunning, one_column, present, read_Executed}
use matrixdb.Query.Project.{encoded, pick_rows, match_rows, gather, matching_rows, project}

-- the values whose filter matches, in order
unfoldable pub selected : Predicate ℕ → List ℕ → List ℕ → List ℕ
selected pred (f ∷ fs) (v ∷ vs) =
    let rest = selected pred fs vs in if matrix_pred_match f pred then v ∷ rest else rest
selected pred _ _ = []

-- a limit of 0 is no limit
unfoldable pub limited : ℕ → List ℕ → List ℕ
limited limit vs = if limit == 0 then vs else take limit vs

-- rows moved up by one, past a value
pick_rows_past :
    (v : ℕ) (vs : List ℕ) (pred : Predicate ℕ) (limit found i : ℕ) (fs : List ℕ)
    → pick_rows (v ∷ vs) (match_rows pred limit found (suc i) fs)
      ≡ pick_rows vs (match_rows pred limit found i fs)
unfolding pick_rows match_rows
pick_rows_past v vs pred limit found i [] = refl
pick_rows_past v vs pred limit found i (f ∷ fs) = ground (
  arith,
  pick_rows_past v vs pred limit (suc found) (suc i) fs,
  pick_rows_past v vs pred limit found (suc i) fs,
)

-- what is left of the limit
unfoldable pub remaining : ℕ → ℕ → List ℕ → List ℕ
remaining limit found vs = if limit == 0 then vs else take (limit - found) vs

take_nil : (n : ℕ) → take {A = ℕ} n [] ≡ []
take_nil zero = refl
take_nil (suc n) = refl

take_cons : (n : ℕ) (v : ℕ) (xs : List ℕ) → 0 < n → take n (v ∷ xs) ≡ v ∷ take (n - 1) xs
take_cons zero v xs h = absurd (omega arith)
take_cons (suc n) v xs h = let same : n ≡ suc n - 1 = omega arith in ap (λ k. v ∷ take k xs) same

remaining_cons :
    (limit found v : ℕ) (xs : List ℕ)
    → (limit ≡ 0) ⊎ (found < limit)
    → remaining limit found (v ∷ xs)
      ≡ v
        ∷ (if not (limit == 0) && leb limit (suc found) then [] else remaining limit (suc found) xs)
unfolding remaining
remaining_cons limit found v xs h = elim (Bool-cases (limit == 0)) [
  | inl y ↦ ground arith
  | inr n ↦ elim (Bool-cases (leb limit (suc found))) [
    | inl l ↦ ground (arith, take_cons (limit - found) v xs (ground arith))
    | inr m ↦ ground (arith, take_cons (limit - found) v xs (ground arith))
  ]
]

pick_rows-match_rows :
    (pred : Predicate ℕ) (limit found : ℕ) (fs vs : List ℕ)
    → length fs ≡ length vs
    → (limit ≡ 0) ⊎ (found < limit)
    → pick_rows vs (match_rows pred limit found 0 fs)
      ≡ some (remaining limit found (selected pred fs vs))
unfolding pick_rows match_rows selected remaining
pick_rows-match_rows pred limit found [] [] e h = ground (arith, take_nil (limit - found))
pick_rows-match_rows pred limit found [] (v ∷ vs) e h = absurd (omega arith)
pick_rows-match_rows pred limit found (f ∷ fs) [] e h = absurd (omega arith)
pick_rows-match_rows pred limit found (f ∷ fs) (v ∷ vs) e h =
    elim (Bool-cases (matrix_pred_match f pred)) [
      | inl y ↦ elim (Bool-cases (not (limit == 0) && leb limit (suc found))) [
        | inl l ↦ ground (arith, remaining_cons limit found v (selected pred fs vs) h)
        | inr m ↦ ground (
          arith,
          remaining_cons limit found v (selected pred fs vs) h,
          pick_rows_past v vs pred limit (suc found) 0 fs,
          pick_rows-match_rows pred limit (suc found) fs vs (omega arith) (ground arith),
        )
      ]
      | inr n ↦ ground (
        arith,
        pick_rows_past v vs pred limit found 0 fs,
        pick_rows-match_rows pred limit found fs vs (omega arith) h,
      )
    ]

picked_limited :
    (pred : Predicate ℕ) (limit : ℕ) (fs vs : List ℕ)
    → length fs ≡ length vs
    → pick_rows vs (match_rows pred limit 0 0 fs) ≡ some (limited limit (selected pred fs vs))
unfolding limited remaining
picked_limited pred limit fs vs e = elim (Bool-cases (limit == 0)) [
  | inl y ↦ ground (arith, pick_rows-match_rows pred limit 0 fs vs e (inl (ground arith)))
  | inr n ↦ ground (arith, pick_rows-match_rows pred limit 0 fs vs e (inr (ground arith)))
]

module _ {T : Type 0} (Safe : T → Type 0) where
  gather_chain :
      (s s1 s2 : Catalog T) (id : ℕ) (rows out bytes : List ℕ) (t : MemorySpace)
      → catalog_has id s ≡ true
      → borrow id s ≡ some (t, s1)
      → host_bytes id s1 ≡ some bytes
      → pick_rows (encoded (column_type id s) bytes) rows ≡ some out
      → give_back id t s1 ≡ some s2
      → gather id rows s ≡ some (out, s2)
  unfolding gather
  gather_chain s s1 s2 id rows out bytes t e1 e2 e3 e4 e5 = rw (e1, e2, e3, e4, e5) refl

  gather-Reads :
      (s : Catalog T) (id : ℕ) (rows out bytes : List ℕ) (t : MemorySpace)
      → catalog_has id s ≡ true
      → on_cpu t ≡ true
      → find id s.columns ≡ some (lent t bytes)
      → pick_rows (encoded (column_type id s) bytes) rows ≡ some out
      → Reads Safe (gather id rows s) out s
  unfolding with_columns
  gather-Reads s id rows out bytes t h c e p =
      let s1 = with_columns (lend t id bytes s.columns) (borrow_count t s.cold_borrows) s in
      let there = lend-find t id bytes s.columns e in
      let s2 = with_columns (back t id bytes s1.columns) s1.cold_borrows s1 in
      record {
        after = s2;
        result =
            gather_chain s s1 s2 id rows out bytes t h (borrow_found s t id bytes c e)
              (host_bytes_found s1 id bytes there) p (give_back_found s1 t id bytes c there);
        kept = record {
          columns = back-lend t id bytes s.columns e;
          col_types = refl;
          null_masks = refl;
          max_query_groups = refl;
          safe = λ k. k;
        };
      }

  module _ (api : TierApi T) (tiers : CpuTiers api Safe) (s : Catalog T) (run : IsRunning Safe s)
      (col fcol limit : ℕ) (pred : Predicate ℕ) where
    project_chain :
        {rows out : List ℕ} (r : Reads Safe (matching_rows api fcol pred limit s) rows s)
        → Reads Safe (gather col rows r.after) out r.after
        → Reads Safe (project api col (some (fcol, pred)) limit s) out s
    unfolding project
    project_chain r g = record {
      after = g.after;
      result = rw r.result g.result;
      kept = record {
        columns = g.kept.columns ∙ r.kept.columns;
        col_types = g.kept.col_types ∙ r.kept.col_types;
        null_masks = g.kept.null_masks ∙ r.kept.null_masks;
        max_query_groups = g.kept.max_query_groups ∙ r.kept.max_query_groups;
        safe = λ k. g.kept.safe (r.kept.safe k);
      };
    }

    -- On a catalog whose columns are all in memory or on disk, with a tier manager that plans no other tier, for two
    -- columns of the catalog of which the filter column has as many rows as the projected one: a projection gives the
    -- values whose filter matches, in the order of the rows, the first of them up to the limit (0 is none), each
    -- encoded as a word.
    pub project-selected :
        catalog_has col s ≡ true
        → catalog_has fcol s ≡ true
        → let fs = u32_values (column_bytes fcol s) in
          let vs = encoded (column_type col s) (column_bytes col s) in
          length fs ≡ length vs
          → Executed Safe
              (project api col (some (fcol, pred)) limit s)
              (limited limit (
                selected pred
                  (u32_values (column_bytes fcol s))
                  (encoded (column_type col s) (column_bytes col s))))
              s
    unfolding matching_rows catalog_has column_type
    project-selected hc hf e =
        let vs = encoded (column_type col s) (column_bytes col s) in
        let fs = u32_values (column_bytes fcol s) in
        let rows = match_rows pred limit 0 0 fs in
        let r : Reads Safe (matching_rows api fcol pred limit s) rows s =
          one_column api Safe tiers s fcol (λ bytes. match_rows pred limit 0 0 (u32_values bytes))
            hf run in
        let (t, c, f) = present api Safe tiers s col hc run in
        let has = ap (λ m. not (col == 0) && is_some (find col m)) r.kept.columns ∙ hc in
        let picked =
          ap (λ m. pick_rows (encoded (type_or_u32 (find col m)) (column_bytes col s)) rows)
            r.kept.col_types
          ∙ picked_limited pred limit fs vs e in
        read_Executed api Safe tiers s _ _ run (
          project_chain r (
            gather-Reads r.after col rows (limited limit (selected pred fs vs)) (column_bytes col s)
              t has c (ap (find col) r.kept.columns ∙ f) picked))
