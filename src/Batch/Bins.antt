-- ===== src/Batch/Bins.antt =====
-- What matrix_bin_by_page (compute.hpp) leaves in its two buffers.
use matrixdb.Prelude.{
  ℕ, zero, suc, ◌+◌, ◌%◌, ◌^◌, ◌≤◌, ◌<◌, ◌≡◌, refl, ap, ap₂, sym, ◌∙◌, subst, List, [], ◌∷◌, ◌++◌,
  append_assoc, length, length-append, take, drop, length-take, length-drop, take-append-drop,
  arith,
}
use matrixdb.Prelude.Bits.{bit_and_mask}
use matrixdb.Batch.{
  DatabaseQuery, matrix_page_of, page_of_query, page_count, matrix_bin_by_page, scatter,
  offsets_from, bin_by,
}
use matrixdb.Batch.Counts.{of_page, by_page, sizes, AllPages, count_pages-sizes, length-by_page}
use matrixdb.Batch.Scatter.{Stretch, flatten, cursors, extent, Fits, filled, scatter-filled}

module _ {A : Type 0} (page_of : A → ℕ) (qs : List A) where
  -- the stretches of the pages from `p` on in a buffer, all empty
  stretches : ℕ → ℕ → List A → List (Stretch A)
  stretches p zero buf = []
  stretches p (suc pages) buf =
      let n = length (of_page page_of p qs) in
      ([], take n buf) ∷ stretches (suc p) pages (drop n buf)

  leftover : ℕ → ℕ → List A → List A
  leftover p zero buf = buf
  leftover p (suc pages) buf = leftover (suc p) pages (drop (length (of_page page_of p qs)) buf)

  flatten-stretches :
      (p pages : ℕ) (buf : List A) → flatten (leftover p pages buf) (stretches p pages buf) ≡ buf
  unfolding flatten stretches leftover
  flatten-stretches p zero buf = refl
  flatten-stretches p (suc pages) buf =
      let n = length (of_page page_of p qs) in
      ap (λ x. take n buf ++ x) (flatten-stretches (suc p) pages (drop n buf))
      ∙ take-append-drop n buf

  length-stretches : (p pages : ℕ) (buf : List A) → length (stretches p pages buf) ≡ pages
  unfolding stretches
  length-stretches p zero buf = refl
  length-stretches p (suc pages) buf =
      ap suc (length-stretches (suc p) pages (drop (length (of_page page_of p qs)) buf))

  -- the buffer is large enough
  Enough : ℕ → ℕ → List A → Type 0
  Enough p pages buf = length (by_page page_of p pages qs) ≤ length buf

  Enough-next :
      (p pages : ℕ) (buf : List A)
      → Enough p (suc pages) buf
      → (length (of_page page_of p qs) ≤ length buf)
        × Enough (suc p) pages (drop (length (of_page page_of p qs)) buf)
  unfolding Enough by_page
  Enough-next p pages buf h =
      let n = length (of_page page_of p qs) in
      let sum = length-append (of_page page_of p qs) (by_page page_of (suc p) pages qs) in
      (omega (arith, h, sum), omega (arith, h, sum, length-drop n buf))

  Fits-stretches :
      (p pages : ℕ) (buf : List A) → Enough p pages buf → Fits page_of p qs (stretches p pages buf)
  unfolding Fits stretches
  Fits-stretches p zero buf h = tt
  Fits-stretches p (suc pages) buf h =
      let n = length (of_page page_of p qs) in
      let (l, e) = Enough-next p pages buf h in
      (omega (arith, length-take n buf, l), Fits-stretches (suc p) pages (drop n buf) e)

  extent-stretches :
      (p pages : ℕ) (buf : List A)
      → Enough p pages buf
      → extent (stretches p pages buf) ≡ length (by_page page_of p pages qs)
  unfolding extent stretches by_page
  extent-stretches p zero buf h = refl
  extent-stretches p (suc pages) buf h =
      let n = length (of_page page_of p qs) in
      let (l, e) = Enough-next p pages buf h in
      omega (
        arith,
        l,
        length-take n buf,
        extent-stretches (suc p) pages (drop n buf) e,
        length-append (of_page page_of p qs) (by_page page_of (suc p) pages qs),
      )

  filled-stretches :
      (rest : List A) (p pages : ℕ) (buf : List A)
      → filled page_of rest p qs (stretches p pages buf) ≡ by_page page_of p pages qs ++ rest
  unfolding filled stretches by_page
  filled-stretches rest p zero buf = refl
  filled-stretches rest p (suc pages) buf =
      ap (λ x. of_page page_of p qs ++ x)
        (filled-stretches rest (suc p) pages (drop (length (of_page page_of p qs)) buf))
      ∙ sym (append_assoc (of_page page_of p qs) (by_page page_of (suc p) pages qs) rest)

  drop_nil : (n : ℕ) → drop {A = A} n [] ≡ []
  drop_nil zero = refl
  drop_nil (suc n) = refl

  drop-drop : (m n k : ℕ) (xs : List A) → k ≡ m + n → drop n (drop m xs) ≡ drop k xs
  drop-drop zero n k xs e = ap (λ j. drop j xs) (omega (arith, e))
  drop-drop (suc m) n k [] e = drop_nil n ∙ sym (drop_nil k)
  drop-drop (suc m) n zero (x ∷ xs) e = absurd (omega (arith, e))
  drop-drop (suc m) n (suc k) (x ∷ xs) e = drop-drop m n k xs (omega (arith, e))

  leftover-drop :
      (p pages : ℕ) (buf : List A)
      → leftover p pages buf ≡ drop (length (by_page page_of p pages qs)) buf
  unfolding leftover by_page
  leftover-drop p zero buf = refl
  leftover-drop p (suc pages) buf =
      let n = length (of_page page_of p qs) in
      leftover-drop (suc p) pages (drop n buf)
      ∙ drop-drop n (length (by_page page_of (suc p) pages qs)) _ buf
          (length-append (of_page page_of p qs) (by_page page_of (suc p) pages qs))

  cursors-stretches :
      (at p pages : ℕ) (buf : List A)
      → Enough p pages buf
      → at + length (by_page page_of p pages qs) < 2 ^ 32
      → take pages (offsets_from at (sizes page_of p pages qs)) ≡ cursors at (stretches p pages buf)
  unfolding offsets_from sizes cursors stretches by_page
  cursors-stretches at p zero buf h b = refl
  cursors-stretches at p (suc pages) buf h b =
      let n = length (of_page page_of p qs) in
      let sum = length-append (of_page page_of p qs) (by_page page_of (suc p) pages qs) in
      let (l, e) = Enough-next p pages buf h in
      let next : at + 0 + length (take n buf) ≡ (at + n) % 2 ^ 32 =
        omega (arith, l, b, sum, length-take n buf) in
      ap₂ (λ a c. a ∷ c) (omega arith)
        (cursors-stretches ((at + n) % 2 ^ 32) (suc p) pages (drop n buf) e (omega (arith, b, sum))
          ∙ ap (λ a. cursors a (stretches (suc p) pages (drop n buf))) (sym next))

  -- Both buffers, for any sort key below `pages`.
  pub bin_by-by_page :
      (pages : ℕ) (buf : List A)
      → AllPages page_of pages qs
      → length qs ≤ length buf
      → length qs < 2 ^ 32
      → bin_by page_of pages qs buf ≡ (
        by_page page_of 0 pages qs ++ drop (length qs) buf,
        offsets_from 0 (sizes page_of 0 pages qs),
      )
  unfolding bin_by Enough
  bin_by-by_page pages buf a l b =
      let total : length (by_page page_of 0 pages qs) ≡ length qs =
        length-by_page page_of pages qs a in
      let enough : Enough 0 pages buf = omega (arith, total, l) in
      let ss = stretches 0 pages buf in
      let rest = leftover 0 pages buf in
      let done : scatter page_of qs (cursors 0 ss) buf ≡ by_page page_of 0 pages qs ++ rest =
        ap (scatter page_of qs (cursors 0 ss)) (sym (flatten-stretches 0 pages buf))
        ∙ scatter-filled page_of qs ss rest
            (subst (λ n. AllPages page_of n qs) (sym (length-stretches 0 pages buf)) a)
            (omega (arith, extent-stretches 0 pages buf enough, total, b))
            (Fits-stretches 0 pages buf enough)
        ∙ filled-stretches rest 0 pages buf in
      rw
        (
          count_pages-sizes page_of pages qs a b,
          cursors-stretches 0 0 pages buf enough (omega (arith, total, b)),
          done,
          leftover-drop 0 pages buf,
          total,
        )
        refl

pub page_of_query_below : (q : DatabaseQuery) → page_of_query q < page_count
unfolding matrix_page_of
page_of_query_below q = omega (arith, bit_and_mask 16 q.query_id 65536 refl)

pub AllPages-queries : (batch : List DatabaseQuery) → AllPages page_of_query page_count batch
unfolding AllPages
AllPages-queries [] = tt
AllPages-queries (q ∷ batch) = (page_of_query_below q, AllPages-queries batch)

-- For a batch that the buffer has room for, of fewer than 2 ^ 32 queries: `binned` holds the queries page by page,
-- within a page in the order of the batch, and behind them what the buffer held; `offsets` holds where each page begins
-- and the end of the last.
pub matrix_bin_by_page-by_page :
    (batch binned : List DatabaseQuery)
    → length batch ≤ length binned
    → length batch < 2 ^ 32
    → matrix_bin_by_page batch binned ≡ (
      by_page page_of_query 0 page_count batch ++ drop (length batch) binned,
      offsets_from 0 (sizes page_of_query 0 page_count batch),
    )
unfolding matrix_bin_by_page
matrix_bin_by_page-by_page batch binned l b =
    bin_by-by_page page_of_query batch page_count binned (AllPages-queries batch) l b
