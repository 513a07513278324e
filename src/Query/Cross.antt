-- ===== src/Query/Cross.antt =====
-- `grouped_cross_filter` (compute_mock.cpp): values, filter and keys are borrowed, each column once, and returned in
-- the opposite order.
use matrixdb.Prelude.{
  ℕ, ◌≡◌, inl, inr, refl, sym, ap, ◌∙◌, true, none, some, List, [], ◌∷◌, length, ◌==◌, arith,
  Bool-cases, Option-cases, ==_iff,
}
use matrixdb.Prelude.Maps.{find}
use matrixdb.Tier.{MemorySpace, host, Column}
use matrixdb.Catalog.{
  TierApi, Catalog, with_columns, with_tier_mgr, heat, borrow, give_back, host_bytes,
}
use matrixdb.Catalog.Borrow.{
  on_cpu, lent, lend, back, borrow_count, lend-find, lend-find_ne, back-lend, heat_found,
  borrow_found, give_back_found, host_bytes_found, CpuTiers,
}
use matrixdb.Catalog.{catalog_has, column_type, type_or_u32, maybe_rebalance}
use matrixdb.Catalog.Rebalance.{OnCpu, maybe_rebalance_safe}
use matrixdb.Query.{MatrixQuery, Double}
use matrixdb.Query.Execute.{borrow_once, return_all, filtered_groups, grouped_cross_filter}
use matrixdb.Query.Shared.{column_bytes}
use matrixdb.Query.Runs.{Executed, IsRunning, present}

-- The columns `now`, some of them on loan from where they are in `home`: each loan can be returned, and
-- after the last one the columns are those of `home`.
record Loans (T : Type 0) (loans : List (ℕ × MemorySpace)) (home now : List (ℕ × Column))
    : Type 0 where
  held :
      (id : ℕ) (t : MemorySpace)
      → find id loans ≡ some t
      → (bytes : List ℕ) × (find id home ≡ some (lent t bytes))
        × (find id now ≡ some (lent host bytes))
  others : (id : ℕ) → find id loans ≡ none → find id now ≡ find id home
  returned :
      (s : Catalog T)
      → s.columns ≡ now
      → return_all loans s ≡ some (with_columns home s.cold_borrows s)

module _ {T : Type 0} (api : TierApi T) (Safe : T → Type 0) (tiers : CpuTiers api Safe) where
  no-Loans : (home : List (ℕ × Column)) → Loans T [] home home
  unfolding return_all with_columns
  no-Loans home = record {
    held = λ id t h. absurd (ground arith);
    others = λ id h. refl;
    returned = λ s h. rw (sym h) refl;
  }

  -- one more loan
  record Lent (id : ℕ) (bytes : List ℕ) (loans : List (ℕ × MemorySpace)) (home : List (ℕ × Column))
      (s : Catalog T) : Type 0 where
    loans' : List (ℕ × MemorySpace)
    after : Catalog T
    result : borrow_once api id loans s ≡ some (loans', after)
    loaned : Loans T loans' home after.columns
    here : find id after.columns ≡ some (lent host bytes)
    stays :
        (j : ℕ) (b : List ℕ)
        → find j s.columns ≡ some (lent host b)
        → find j after.columns ≡ some (lent host b)
    col_types : after.col_types ≡ s.col_types
    null_masks : after.null_masks ≡ s.null_masks
    max_query_groups : after.max_query_groups ≡ s.max_query_groups
    safe : Safe s.tier_mgr → Safe after.tier_mgr

  borrow_once_known :
      (id : ℕ) (loans : List (ℕ × MemorySpace)) (s : Catalog T) (t : MemorySpace)
      → find id loans ≡ some t
      → borrow_once api id loans s ≡ some (loans, s)
  unfolding borrow_once
  borrow_once_known id loans s t h = ground arith

  borrow_once_new :
      (id : ℕ) (loans : List (ℕ × MemorySpace)) (s s1 s2 : Catalog T) (t : MemorySpace)
      → find id loans ≡ none
      → heat api id s ≡ some s1
      → borrow id s1 ≡ some (t, s2)
      → borrow_once api id loans s ≡ some ((id, t) ∷ loans, s2)
  unfolding borrow_once
  borrow_once_new id loans s s1 s2 t h e f = ground arith

  return_all_step :
      (id : ℕ) (t : MemorySpace) (loans : List (ℕ × MemorySpace)) (s s1 s2 : Catalog T)
      → give_back id t s ≡ some s1
      → return_all loans s1 ≡ some s2
      → return_all ((id, t) ∷ loans) s ≡ some s2
  unfolding return_all
  return_all_step id t loans s s1 s2 e f = rw (e, f) refl

  module _ (id : ℕ) (t : MemorySpace) (bytes : List ℕ) (loans : List (ℕ × MemorySpace))
      (home : List (ℕ × Column)) (s : Catalog T) (l : Loans T loans home s.columns) where
    loaned_again :
        find id home ≡ some (lent t bytes)
        → (u : MemorySpace) → find id loans ≡ some u
        → Lent id bytes loans home s
    loaned_again h u e =
        let (b, f, g) = l.held id u e in
        record {
          loans' = loans;
          after = s;
          result = borrow_once_known id loans s u e;
          loaned = l;
          here = ground arith;
          stays = λ j b k. k;
          col_types = refl;
          null_masks = refl;
          max_query_groups = refl;
          safe = λ h. h;
        }

    loaned_first :
        find id home ≡ some (lent t bytes)
        → on_cpu t ≡ true
        → find id loans ≡ none
        → Lent id bytes loans home s
    unfolding with_columns with_tier_mgr
    loaned_first h c e =
        let now = l.others id e ∙ h in
        let s1 = with_tier_mgr (api.record_access id (length bytes) s.tier_mgr) s in
        let s2 = with_columns (lend t id bytes s.columns) (borrow_count t s.cold_borrows) s1 in
        let there = lend-find t id bytes s.columns now in
        record {
          loans' = (id, t) ∷ loans;
          after = s2;
          result =
              borrow_once_new id loans s s1 s2 t e (heat_found s api id t bytes now)
                (borrow_found s1 t id bytes c now);
          loaned = record {
            held = λ j u f. elim (Bool-cases (j == id)) [
              | inl y ↦ (
                bytes,
                ground (arith, h, (==_iff j id).0),
                ground (arith, there, (==_iff j id).0),
              )
              | inr n ↦
                  let (b, x, z) = l.held j u (ground arith) in
                  (b, x, lend-find_ne t id j bytes s.columns n ∙ z)
            ];
            others = λ j f. elim (Bool-cases (j == id)) [
              | inl y ↦ absurd (ground arith)
              | inr n ↦ lend-find_ne t id j bytes s.columns n ∙ l.others j (ground arith)
            ];
            returned = λ u f.
                let u1 = with_columns (back t id bytes u.columns) u.cold_borrows u in
                return_all_step id t loans u u1 (with_columns home u.cold_borrows u)
                  (give_back_found u t id bytes c (ap (find id) f ∙ there))
                  (l.returned u1 (ap (back t id bytes) f ∙ back-lend t id bytes s.columns now));
          };
          here = there;
          stays = λ j b k. elim (Bool-cases (j == id)) [
            | inl y ↦ grind (arith, k, now, there, (==_iff j id).0)
            | inr n ↦ lend-find_ne t id j bytes s.columns n ∙ k
          ];
          col_types = refl;
          null_masks = refl;
          max_query_groups = refl;
          safe = tiers.record_access-Safe id (length bytes) s.tier_mgr;
        }

    lent_once : find id home ≡ some (lent t bytes) → on_cpu t ≡ true → Lent id bytes loans home s
    lent_once h c = elim (Option-cases (find id loans)) [
      | inl e ↦ loaned_first h c e
      | inr (u, e) ↦ loaned_again h u e
    ]

  module _ {F : Type 0} (dbl : Double F) (q : MatrixQuery) (s : Catalog T) where
    -- The three columns borrowed and returned, before the pass of the tier manager.
    cross_chain :
        (v f k : List (ℕ × MemorySpace)) (sv sf sk s1 s2 : Catalog T) (kb fb vb : List ℕ)
        → borrow_once api q.value_col [] s ≡ some (v, sv)
        → borrow_once api q.filter_col v sv ≡ some (f, sf)
        → borrow_once api q.key_col f sf ≡ some (k, sk)
        → host_bytes q.key_col sk ≡ some kb
        → host_bytes q.filter_col sk ≡ some fb
        → host_bytes q.value_col sk ≡ some vb
        → return_all k sk ≡ some s1
        → maybe_rebalance api s1 ≡ some s2
        → grouped_cross_filter api dbl q s
          ≡ some (filtered_groups dbl (column_type q.value_col sk) q kb fb vb, s2)
    unfolding grouped_cross_filter
    cross_chain v f k sv sf sk s1 s2 kb fb vb e1 e2 e3 e4 e5 e6 e7 e8 =
        rw (e1, e2, e3, e4, e5, e6, e7, e8) refl

    pub grouped_cross_Executed :
        IsRunning Safe s
        → catalog_has q.value_col s ≡ true
        → catalog_has q.filter_col s ≡ true
        → catalog_has q.key_col s ≡ true
        → Executed Safe
            (grouped_cross_filter api dbl q s)
            (filtered_groups dbl
              (column_type q.value_col s)
              q
              (column_bytes q.key_col s)
              (column_bytes q.filter_col s)
              (column_bytes q.value_col s))
            s
    unfolding column_type with_columns OnCpu
    grouped_cross_Executed run hv hf hk =
        let (vt, vc, ve) = present api Safe tiers s q.value_col hv run in
        let (ft, fc, fe) = present api Safe tiers s q.filter_col hf run in
        let (kt, kc, ke) = present api Safe tiers s q.key_col hk run in
        let v =
          lent_once q.value_col vt (column_bytes q.value_col s) [] s.columns s (no-Loans s.columns)
            ve vc in
        let f =
          lent_once q.filter_col ft (column_bytes q.filter_col s) v.loans' s.columns v.after
            v.loaned fe fc in
        let k =
          lent_once q.key_col kt (column_bytes q.key_col s) f.loans' s.columns f.after f.loaned ke
            kc in
        let s1 = with_columns s.columns k.after.cold_borrows k.after in
        let types = k.col_types ∙ f.col_types ∙ v.col_types in
        let (s2, e, p) =
          maybe_rebalance_safe api Safe tiers s1 run.cpu (k.safe (f.safe (v.safe run.safe))) in
        record {
          after = s2;
          result =
              cross_chain v.loans' f.loans' k.loans' v.after f.after k.after s1 s2
                (column_bytes q.key_col s) (column_bytes q.filter_col s)
                (column_bytes q.value_col s) v.result f.result k.result
                (host_bytes_found k.after q.key_col (column_bytes q.key_col s) k.here)
                (host_bytes_found k.after q.filter_col (column_bytes q.filter_col s)
                  (k.stays q.filter_col _ f.here))
                (host_bytes_found k.after q.value_col (column_bytes q.value_col s)
                  (k.stays q.value_col _ (f.stays q.value_col _ v.here)))
                (k.loaned.returned k.after refl) e
              ∙ ap
                  (λ t. some (
                    filtered_groups dbl (type_or_u32 (find q.value_col t)) q
                        (column_bytes q.key_col s) (column_bytes q.filter_col s)
                        (column_bytes q.value_col s),
                    s2,
                  ))
                  types;
          preserved = record {
            bytes = p.bytes;
            col_types = p.col_types ∙ types;
            null_masks = p.null_masks ∙ k.null_masks ∙ f.null_masks ∙ v.null_masks;
            max_query_groups =
                p.max_query_groups ∙ k.max_query_groups ∙ f.max_query_groups ∙ v.max_query_groups;
            cpu = p.cpu;
            safe = p.safe;
          };
        }
