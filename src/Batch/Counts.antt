-- ===== src/Batch/Counts.antt =====
-- The counts and the offsets of matrix_bin_by_page (compute.hpp).
use matrixdb.Prelude.{
  ℕ, zero, suc, false, Bool-cases, inl, inr, ==_iff, length-set, length-replicate, length-append,
  ◌+◌, ◌%◌, ◌^◌, ◌≤◌, ◌<◌, ◌≡◌, refl, ap, ap₂, sym, ◌∙◌, subst, List, [], ◌∷◌, ◌++◌, length, get_or,
  set, replicate, ◌==◌, if◌then◌else◌, arith,
}
use matrixdb.Prelude.Maps.{==_refl}
use matrixdb.Batch.{count_pages}

module _ {A : Type 0} (page_of : A → ℕ) where
  -- the queries of a page, in the order of the batch
  unfoldable pub of_page : ℕ → List A → List A
  of_page p [] = []
  of_page p (q ∷ qs) = let rest = of_page p qs in if page_of q == p then q ∷ rest else rest

  pub of_page_here :
      (q : A) (qs : List A) → of_page (page_of q) (q ∷ qs) ≡ q ∷ of_page (page_of q) qs
  unfolding of_page
  of_page_here q qs = rw (==_refl (page_of q)) refl

  pub of_page_other :
      (p : ℕ) (q : A) (qs : List A) → (page_of q == p) ≡ false → of_page p (q ∷ qs) ≡ of_page p qs
  unfolding of_page
  of_page_other p q qs h = rw h refl

  -- the queries of the pages from `p` on, page by page
  unfoldable pub by_page : ℕ → ℕ → List A → List A
  by_page p zero qs = []
  by_page p (suc pages) qs = of_page p qs ++ by_page (suc p) pages qs

  unfoldable pub sizes : ℕ → ℕ → List A → List ℕ
  sizes p zero qs = []
  sizes p (suc pages) qs = length (of_page p qs) ∷ sizes (suc p) pages qs

  unfoldable pub AllPages : ℕ → List A → Type 0
  AllPages pages [] = Unit
  AllPages pages (q ∷ qs) = (page_of q < pages) × AllPages pages qs

  -- counters from the page `p` on, and what they become
  unfoldable pub counted : ℕ → List A → List ℕ → List ℕ
  counted p qs [] = []
  counted p qs (c ∷ cs) = (c + length (of_page p qs)) ∷ counted (suc p) qs cs

  unfoldable pub Small : ℕ → List ℕ → Type 0
  Small n [] = Unit
  Small n (c ∷ cs) = (c + n < 2 ^ 32) × Small n cs

  counted_skip :
      (p : ℕ) (q : A) (qs : List A) (cs : List ℕ)
      → page_of q < p
      → counted p (q ∷ qs) cs ≡ counted p qs cs
  unfolding counted
  counted_skip p q qs [] h = refl
  counted_skip p q qs (c ∷ cs) h =
      ap₂ (λ l r. (c + length l) ∷ r) (of_page_other p q qs (ground arith))
        (counted_skip (suc p) q qs cs (omega arith))

  counted_step :
      (p i : ℕ) (q : A) (qs : List A) (cs : List ℕ) (n : ℕ)
      → page_of q ≡ p + i
      → i < length cs
      → Small (suc n) cs
      → counted p qs (set cs i ((get_or cs i 0 + 1) % 2 ^ 32)) ≡ counted p (q ∷ qs) cs
  unfolding counted Small
  counted_step p i q qs [] n e h s = absurd (omega arith)
  counted_step p zero q qs (c ∷ cs) n e h s =
      let here : of_page p (q ∷ qs) ≡ q ∷ of_page p qs =
        subst (λ x. of_page x (q ∷ qs) ≡ q ∷ of_page x qs) (omega (arith, e)) (of_page_here q qs) in
      let grown : (c + 1) % 2 ^ 32 + length (of_page p qs) ≡ c + length (of_page p (q ∷ qs)) =
        omega (arith, s.0, ap length here) in
      ap₂ (λ l r. l ∷ r) grown (sym (counted_skip (suc p) q qs cs (omega (arith, e))))
  counted_step p (suc i) q qs (c ∷ cs) n e h s =
      ap₂ (λ l r. (c + length l) ∷ r) (sym (of_page_other p q qs (ground (arith, e))))
        (counted_step (suc p) i q qs cs n (omega (arith, e)) (omega arith) s.1)

  set-Small :
      (i n : ℕ) (cs : List ℕ) → Small (suc n) cs → Small n (set cs i ((get_or cs i 0 + 1) % 2 ^ 32))
  unfolding Small
  set-Small i n [] s = tt
  set-Small zero n (c ∷ cs) s = (omega (arith, s.0), less n cs s.1)
    where
      less : (n : ℕ) (cs : List ℕ) → Small (suc n) cs → Small n cs
      less n [] s = tt
      less n (c ∷ cs) s = (omega (arith, s.0), less n cs s.1)
  set-Small (suc i) n (c ∷ cs) s = (omega (arith, s.0), set-Small i n cs s.1)

  counted_none : (p : ℕ) (cs : List ℕ) → counted p [] cs ≡ cs
  unfolding counted of_page
  counted_none p [] = refl
  counted_none p (c ∷ cs) = ap₂ (λ l r. l ∷ r) (omega arith) (counted_none (suc p) cs)

  count_pages-counted :
      (qs : List A) (cs : List ℕ)
      → AllPages (length cs) qs
      → Small (length qs) cs
      → count_pages page_of qs cs ≡ counted 0 qs cs
  unfolding count_pages AllPages
  count_pages-counted [] cs a s = sym (counted_none 0 cs)
  count_pages-counted (q ∷ qs) cs a s =
      let next = set cs (page_of q) ((get_or cs (page_of q) 0 + 1) % 2 ^ 32) in
      count_pages-counted qs next
        (subst (λ n. AllPages n qs) (sym (length-set cs (page_of q) _)) a.1)
        (set-Small (page_of q) (length qs) cs s)
      ∙ counted_step 0 (page_of q) q qs cs (length qs) (omega arith) a.0 s

  counted_zeros : (p pages : ℕ) (qs : List A) → counted p qs (replicate pages 0) ≡ sizes p pages qs
  unfolding counted sizes
  counted_zeros p zero qs = refl
  counted_zeros p (suc pages) qs = ap₂ (λ l r. l ∷ r) (omega arith) (counted_zeros (suc p) pages qs)

  Small-zeros : (n pages : ℕ) → n < 2 ^ 32 → Small n (replicate pages 0)
  unfolding Small
  Small-zeros n zero h = tt
  Small-zeros n (suc pages) h = (omega (arith, h), Small-zeros n pages h)

  -- Each counter ends as the number of queries of its page.
  pub count_pages-sizes :
      (pages : ℕ) (qs : List A)
      → AllPages pages qs
      → length qs < 2 ^ 32
      → count_pages page_of qs (replicate pages 0) ≡ sizes 0 pages qs
  count_pages-sizes pages qs a h =
      count_pages-counted qs (replicate pages 0)
        (subst (λ n. AllPages n qs) (sym (length-replicate pages 0)) a)
        (Small-zeros (length qs) pages h)
      ∙ counted_zeros 0 pages qs

  length-by_page_skip :
      (p pages : ℕ) (q : A) (qs : List A)
      → page_of q < p
      → length (by_page p pages (q ∷ qs)) ≡ length (by_page p pages qs)
  unfolding by_page
  length-by_page_skip p zero q qs h = refl
  length-by_page_skip p (suc pages) q qs h = omega (
    arith,
    length-append (of_page p (q ∷ qs)) (by_page (suc p) pages (q ∷ qs)),
    length-append (of_page p qs) (by_page (suc p) pages qs),
    ap length (of_page_other p q qs (ground arith)),
    length-by_page_skip (suc p) pages q qs (omega arith),
  )

  length-by_page_step :
      (p pages : ℕ) (q : A) (qs : List A)
      → p ≤ page_of q
      → page_of q < p + pages
      → length (by_page p pages (q ∷ qs)) ≡ suc (length (by_page p pages qs))
  unfolding by_page
  length-by_page_step p zero q qs l h = absurd (omega arith)
  length-by_page_step p (suc pages) q qs l h = elim (Bool-cases (page_of q == p)) [
    | inl e ↦
        let same : page_of q ≡ p = (==_iff (page_of q) p).0 e in
        let here : of_page p (q ∷ qs) ≡ q ∷ of_page p qs =
          subst (λ x. of_page x (q ∷ qs) ≡ q ∷ of_page x qs) same (of_page_here q qs) in
        omega (
          arith,
          length-append (of_page p (q ∷ qs)) (by_page (suc p) pages (q ∷ qs)),
          length-append (of_page p qs) (by_page (suc p) pages qs),
          ap length here,
          length-by_page_skip (suc p) pages q qs (omega (arith, same)),
        )
    | inr n ↦ omega (
      arith,
      length-append (of_page p (q ∷ qs)) (by_page (suc p) pages (q ∷ qs)),
      length-append (of_page p qs) (by_page (suc p) pages qs),
      ap length (of_page_other p q qs n),
      length-by_page_step (suc p) pages q qs (ground arith) (omega arith),
    )
  ]

  by_page_none : (p pages : ℕ) → by_page p pages [] ≡ []
  unfolding by_page of_page
  by_page_none p zero = refl
  by_page_none p (suc pages) = by_page_none (suc p) pages

  pub length-by_page :
      (pages : ℕ) (qs : List A) → AllPages pages qs → length (by_page 0 pages qs) ≡ length qs
  unfolding AllPages
  length-by_page pages [] a = ap length (by_page_none 0 pages)
  length-by_page pages (q ∷ qs) a =
      length-by_page_step 0 pages q qs (omega arith) (omega (arith, a.0))
      ∙ ap suc (length-by_page pages qs a.1)
