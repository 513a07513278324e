-- ===== src/Batch/Order.antt =====
-- The order in which `execute_batch` (compute_mock.cpp) carries out a batch.
use matrixdb.Prelude.{
  ℕ, zero, suc, ◌+◌, ◌-◌, ◌%◌, ◌^◌, ◌≤◌, ◌<◌, ◌≡◌, refl, ap, sym, ◌∙◌, inl, inr, Bool-cases, min,
  List, [], ◌∷◌, ◌++◌, append_assoc, append-nil, length, length-append, get_elem?, some, set, take,
  drop, length-take, ◌==◌, ◌&&◌, leb, ltb, if◌then◌else◌, arith,
}
use matrixdb.Engine.{Engine}
use matrixdb.Batch.{
  DatabaseQuery, page_of_query, page_count, batch_max, matrix_page_of, matrix_bin_by_page,
  offsets_from, run_op, run_from, run_pages, execute_batch,
}
use matrixdb.Batch.Counts.{of_page, by_page, sizes, length-by_page}
use matrixdb.Batch.Bins.{matrix_bin_by_page-by_page, AllPages-queries, page_of_query_below}

-- queries one after the other, with what each read
unfoldable pub run_ops : List DatabaseQuery → Engine → List DatabaseQuery × Engine
run_ops [] e = ([], e)
run_ops (q ∷ qs) e = let (q', e') = run_op q e in let (qs', e'') = run_ops qs e' in (q' ∷ qs', e'')

run_ops-append :
    (xs ys : List DatabaseQuery) (e : Engine)
    → run_ops (xs ++ ys) e
      ≡ ((run_ops xs e).0 ++ (run_ops ys (run_ops xs e).1).0, (run_ops ys (run_ops xs e).1).1)
unfolding run_ops
run_ops-append [] ys e = refl
run_ops-append (x ∷ xs) ys e = rw (run_ops-append xs ys (run_op x e).1) refl

length-run_ops : (xs : List DatabaseQuery) (e : Engine) → length (run_ops xs e).0 ≡ length xs
unfolding run_ops
length-run_ops [] e = refl
length-run_ops (x ∷ xs) e = ap suc (length-run_ops xs (run_op x e).1)

module _ {A : Type 0} where
  get_behind :
      (ys xs : List A) (x : A) (n : ℕ) → n ≡ length ys → get_elem? (ys ++ (x ∷ xs)) n ≡ some x
  get_behind [] xs x zero h = refl
  get_behind [] xs x (suc n) h = absurd (omega (arith, h))
  get_behind (y ∷ ys) xs x zero h = absurd (omega (arith, h))
  get_behind (y ∷ ys) xs x (suc n) h = get_behind ys xs x n (omega (arith, h))

  set_there :
      (ys xs : List A) (x v : A) (n : ℕ)
      → n ≡ length ys
      → set (ys ++ (x ∷ xs)) n v ≡ (ys ++ (v ∷ [])) ++ xs
  set_there [] xs x v zero h = refl
  set_there [] xs x v (suc n) h = absurd (omega (arith, h))
  set_there (y ∷ ys) xs x v zero h = absurd (omega (arith, h))
  set_there (y ∷ ys) xs x v (suc n) h = ap (λ r. y ∷ r) (set_there ys xs x v n (omega (arith, h)))

run_from_found :
    (n j : ℕ) (b : List DatabaseQuery) (q : DatabaseQuery) (e : Engine)
    → get_elem? b j ≡ some q
    → run_from (suc n) j b e ≡ run_from n (j + 1) (set b j (run_op q e).0) (run_op q e).1
unfolding run_from
run_from_found n j b q e h = rw (run_from, h) refl

run_from-run_ops :
    (n j : ℕ) (ys xs zs : List DatabaseQuery) (e : Engine)
    → n ≡ length xs
    → j ≡ length ys
    → run_from n j (ys ++ (xs ++ zs)) e ≡ (ys ++ ((run_ops xs e).0 ++ zs), (run_ops xs e).1)
unfolding run_from run_ops
run_from-run_ops zero j ys [] zs e h k = refl
run_from-run_ops zero j ys (x ∷ xs) zs e h k = absurd (omega (arith, h))
run_from-run_ops (suc n) j ys [] zs e h k = absurd (omega (arith, h))
run_from-run_ops (suc n) j ys (x ∷ xs) zs e h k =
    let q' = (run_op x e).0 in
    let e' = (run_op x e).1 in
    let moved : length (ys ++ (q' ∷ [])) ≡ j + 1 = omega (arith, length-append ys (q' ∷ []), k) in
    run_from_found n j (ys ++ (x ∷ (xs ++ zs))) x e (get_behind ys (xs ++ zs) x j k)
    ∙ rw
        (
          set_there ys (xs ++ zs) x q' j k,
          run_from-run_ops n (j + 1) (ys ++ (q' ∷ [])) xs zs e' (omega (arith, h)) (sym moved),
        )
        (ap (λ l. (l, (run_ops xs e').1)) (append_assoc ys (q' ∷ []) ((run_ops xs e').0 ++ zs)))

module _ (qs : List DatabaseQuery) where
  abbrev page : ℕ → List DatabaseQuery
  page p = of_page page_of_query p qs

  abbrev pages_from : ℕ → ℕ → List DatabaseQuery
  pages_from p pages = by_page page_of_query p pages qs

  run_pages_cons :
      (at p pages : ℕ) (b : List DatabaseQuery) (e : Engine)
      → let to = (at + length (page p)) % 2 ^ 32 in
        let r = run_from (to - at) at b e in
        run_pages (offsets_from at (sizes page_of_query p (suc pages) qs)) b e
        ≡ run_pages (offsets_from to (sizes page_of_query (suc p) pages qs)) r.0 r.1
  unfolding run_pages offsets_from sizes
  run_pages_cons at p zero b e = refl
  run_pages_cons at p (suc pages) b e = refl

  run_pages-run_ops :
      (pages p at : ℕ) (ys zs : List DatabaseQuery) (e : Engine)
      → at ≡ length ys
      → at + length (pages_from p pages) < 2 ^ 32
      → run_pages
          (offsets_from at (sizes page_of_query p pages qs))
          (ys ++ (pages_from p pages ++ zs))
          e
        ≡ (ys ++ ((run_ops (pages_from p pages) e).0 ++ zs), (run_ops (pages_from p pages) e).1)
  unfolding run_pages offsets_from sizes by_page run_ops
  run_pages-run_ops zero p at ys zs e h b = refl
  run_pages-run_ops (suc pages) p at ys zs e h b =
      let later = pages_from (suc p) pages in
      let total = length-append (page p) later in
      let to = (at + length (page p)) % 2 ^ 32 in
      let first = run_ops (page p) e in
      let ran : run_from (to - at) at (ys ++ (page p ++ (later ++ zs))) e
          ≡ (ys ++ (first.0 ++ (later ++ zs)), first.1) =
        run_from-run_ops (to - at) at ys (page p) (later ++ zs) e (omega (arith, b, total)) h in
      let end : to ≡ length (ys ++ first.0) =
        omega (arith, b, total, h, length-append ys first.0, length-run_ops (page p) e) in
      run_pages_cons at p pages (ys ++ ((page p ++ later) ++ zs)) e
      ∙ rw
          (
            append_assoc (page p) later zs,
            ran,
            ← append_assoc ys first.0 (later ++ zs),
            run_pages-run_ops pages (suc p) to (ys ++ first.0) zs first.1 end
                (omega (arith, b, total)),
            run_ops-append (page p) later e,
          )
          (ap (λ l. (l, (run_ops later first.1).1))
            (append_assoc ys first.0 ((run_ops later first.1).0 ++ zs)
              ∙ ap (λ l. ys ++ l) (sym (append_assoc first.0 (run_ops later first.1).0 zs))))

-- the queries of one key
abbrev pub of_key : ℕ → List DatabaseQuery → List DatabaseQuery
of_key key ops = of_page (λ q. q.query_id) key ops

of_key-append :
    (key : ℕ) (xs ys : List DatabaseQuery) → of_key key (xs ++ ys) ≡ of_key key xs ++ of_key key ys
unfolding of_page
of_key-append key [] ys = refl
of_key-append key (x ∷ xs) ys = elim (Bool-cases (x.query_id == key)) [
  | inl e ↦ rw e (ap (λ l. x ∷ l) (of_key-append key xs ys))
  | inr n ↦ rw n (of_key-append key xs ys)
]

-- A page has all queries of its keys and no others, in the order of the batch.
of_key-of_page :
    (key p : ℕ) (qs : List DatabaseQuery)
    → of_key key (of_page page_of_query p qs)
      ≡ (if matrix_page_of key == p then of_key key qs else [])
unfolding of_page
of_key-of_page key p [] = elim (Bool-cases (matrix_page_of key == p)) [
  | inl e ↦ rw e refl
  | inr n ↦ rw n refl
]
of_key-of_page key p (q ∷ qs) = ground (arith, ap matrix_page_of, of_key-of_page key p qs)

of_key-by_page :
    (key p pages : ℕ) (qs : List DatabaseQuery)
    → of_key key (by_page page_of_query p pages qs) ≡ (
        if leb p (matrix_page_of key) && ltb (matrix_page_of key) (p + pages)
        then of_key key qs
        else [])
unfolding by_page of_page
of_key-by_page key p zero qs = ground arith
of_key-by_page key p (suc pages) qs =
    of_key-append key (of_page page_of_query p qs) (by_page page_of_query (suc p) pages qs)
    ∙ rw (of_key-of_page key p qs, of_key-by_page key (suc p) pages qs)
        (ground (arith, append-nil (of_key key qs)))

of_key-pages :
    (key : ℕ) (qs : List DatabaseQuery)
    → of_key key (by_page page_of_query 0 page_count qs) ≡ of_key key qs
of_key-pages key qs =
    of_key-by_page key 0 page_count qs
    ∙ ground (
      arith,
      page_of_query_below (record {
        query_id = key;
        timestamp_us = 0;
        transaction_id = 0;
        opcode = 0;
        payload_size = 0;
        payload = [];
      }),
    )

module _ (batch binned : List DatabaseQuery) (e : Engine) where
  -- what a batch comes to: the operations `ops`, one after the other
  unfoldable pub Runs : List DatabaseQuery → Type 0
  Runs ops =
      execute_batch batch binned e
      ≡ ((run_ops ops e).0 ++ drop (length ops) binned, (run_ops ops e).1)

  batch_runs :
      (qs : List DatabaseQuery)
      → length qs ≤ length binned
      → length qs < 2 ^ 32
      → let ops = by_page page_of_query 0 page_count qs in
        let b = matrix_bin_by_page qs binned in
        run_pages b.1 b.0 e ≡ ((run_ops ops e).0 ++ drop (length qs) binned, (run_ops ops e).1)
  batch_runs qs l b = rw (matrix_bin_by_page-by_page qs binned l b) (
      run_pages-run_ops qs page_count 0 0 [] (drop (length qs) binned) e refl
        (omega (arith, length-by_page page_of_query page_count qs (AllPages-queries qs), b)))

-- With a scratch buffer of the engine's size: execute_batch carries out its first 65536 queries, each once and one after the
-- other, the queries of each key in the order of the batch, and leaves what they read in the front of the scratch buffer.
pub execute_batch-Runs :
    (batch binned : List DatabaseQuery) (e : Engine)
    → length binned ≡ batch_max
    → (ops : List DatabaseQuery) × Runs batch binned e ops
      × ((key : ℕ) → of_key key ops ≡ of_key key (take batch_max batch))
      × (length ops ≡ min batch_max (length batch))
unfolding Runs execute_batch run_ops of_page
execute_batch-Runs [] binned e h = ([], refl, λ key. refl, refl)
execute_batch-Runs (q ∷ qs) binned e h =
    let front = take batch_max (q ∷ qs) in
    let ops = by_page page_of_query 0 page_count front in
    let short : length front ≡ min batch_max (length (q ∷ qs)) = length-take batch_max (q ∷ qs) in
    let same : length ops ≡ length front =
      length-by_page page_of_query page_count front (AllPages-queries front) in
    (
      ops,
      rw same (batch_runs (q ∷ qs) binned e front (omega (arith, short, h)) (omega (arith, short))),
      λ key. of_key-pages key front,
      same ∙ short,
    )
