-- ===== src/Batch/Scatter.antt =====
-- The copies of matrix_bin_by_page (compute.hpp): each page has a stretch of the buffer, filled from its front.
use matrixdb.Prelude.{
  ℕ, zero, suc, ◌+◌, ◌%◌, ◌^◌, ◌≤◌, ◌<◌, ◌≡◌, refl, ap, ap₂, sym, ◌∙◌, subst, List, [], ◌∷◌, ◌++◌,
  append_assoc, length, length-append, get_or, set, drop, arith,
}
use matrixdb.Batch.{scatter}
use matrixdb.Batch.Counts.{of_page, of_page_here, of_page_other, AllPages}

-- what has been copied to a page, and the rest of its stretch
abbrev pub Stretch : Type 0 → Type 0
Stretch A = List A × List A

module _ {A : Type 0} where
  unfoldable pub flatten : List A → List (Stretch A) → List A
  flatten rest [] = rest
  flatten rest ((f, r) ∷ ss) = f ++ (r ++ flatten rest ss)

  unfoldable pub cursors : ℕ → List (Stretch A) → List ℕ
  cursors at [] = []
  cursors at ((f, r) ∷ ss) = (at + length f) ∷ cursors (at + length f + length r) ss

  -- `q` into the stretch `i`
  unfoldable pub put : ℕ → A → List (Stretch A) → List (Stretch A)
  put i q [] = []
  put zero q ((f, r) ∷ ss) = (f ++ (q ∷ []), drop 1 r) ∷ ss
  put (suc i) q (s ∷ ss) = s ∷ put i q ss

  -- there is room in the stretch `i`
  unfoldable pub HasRoom : ℕ → List (Stretch A) → Type 0
  HasRoom i [] = ⊥
  HasRoom zero ((f, r) ∷ ss) = 1 ≤ length r
  HasRoom (suc i) (s ∷ ss) = HasRoom i ss

  unfoldable pub extent : List (Stretch A) → ℕ
  extent [] = 0
  extent ((f, r) ∷ ss) = length f + length r + extent ss

  -- where the next copy to the stretch `i` goes
  unfoldable pub slot : ℕ → List (Stretch A) → ℕ
  slot i [] = 0
  slot zero ((f, r) ∷ ss) = length f
  slot (suc i) ((f, r) ∷ ss) = length f + length r + slot i ss

  set_behind :
      (xs ys : List A) (n k : ℕ) (v : A) → n ≡ length xs + k → set (xs ++ ys) n v ≡ xs ++ set ys k v
  set_behind [] ys n k v h = ap (λ j. set ys j v) (omega (arith, h))
  set_behind (x ∷ xs) ys zero k v h = absurd (omega (arith, h))
  set_behind (x ∷ xs) ys (suc n) k v h = ap (λ r. x ∷ r) (set_behind xs ys n k v (omega (arith, h)))

  put_first :
      (f r rest : List A) (q : A)
      → 1 ≤ length r
      → set (f ++ (r ++ rest)) (length f) q ≡ (f ++ (q ∷ [])) ++ (drop 1 r ++ rest)
  put_first f [] rest q h = absurd (omega arith)
  put_first f (x ∷ r) rest q h =
      set_behind f (x ∷ (r ++ rest)) (length f) 0 q (omega arith)
      ∙ sym (append_assoc f (q ∷ []) (r ++ rest))

  set-flatten :
      (i : ℕ) (q : A) (ss : List (Stretch A)) (rest : List A)
      → HasRoom i ss
      → set (flatten rest ss) (slot i ss) q ≡ flatten rest (put i q ss)
  unfolding flatten slot put HasRoom
  set-flatten i q [] rest h = elim h [ ]
  set-flatten zero q ((f, r) ∷ ss) rest h = put_first f r (flatten rest ss) q h
  set-flatten (suc i) q ((f, r) ∷ ss) rest h =
      set_behind f (r ++ flatten rest ss) (length f + length r + slot i ss) (length r + slot i ss) q
        (omega arith)
      ∙ ap (λ x. f ++ x)
          (set_behind r (flatten rest ss) (length r + slot i ss) (slot i ss) q refl
            ∙ ap (λ x. r ++ x) (set-flatten i q ss rest h))

  get_or-cursors :
      (i at : ℕ) (ss : List (Stretch A))
      → HasRoom i ss
      → get_or (cursors at ss) i 0 ≡ at + slot i ss
  unfolding cursors slot HasRoom
  get_or-cursors i at [] h = elim h [ ]
  get_or-cursors zero at ((f, r) ∷ ss) h = refl
  get_or-cursors (suc i) at ((f, r) ∷ ss) h =
      omega (arith, get_or-cursors i (at + length f + length r) ss h)

  set-cursors :
      (i at n : ℕ) (q : A) (ss : List (Stretch A))
      → HasRoom i ss
      → n ≡ at + slot i ss + 1
      → set (cursors at ss) i n ≡ cursors at (put i q ss)
  unfolding cursors slot put HasRoom
  set-cursors i at n q [] h e = elim h [ ]
  set-cursors zero at n q ((f, []) ∷ ss) h e = absurd (omega arith)
  set-cursors zero at n q ((f, x ∷ r) ∷ ss) h e =
      ap₂ (λ a b. a ∷ cursors b ss) (omega (arith, e, length-append f (q ∷ [])))
        (omega (arith, length-append f (q ∷ [])))
  set-cursors (suc i) at n q ((f, r) ∷ ss) h e =
      ap (λ x. (at + length f) ∷ x)
        (set-cursors i (at + length f + length r) n q ss h (omega (arith, e)))

  slot_within : (i : ℕ) (ss : List (Stretch A)) → HasRoom i ss → slot i ss < extent ss
  unfolding slot extent HasRoom
  slot_within i [] h = elim h [ ]
  slot_within zero ((f, r) ∷ ss) h = omega (arith, h)
  slot_within (suc i) ((f, r) ∷ ss) h = omega (arith, slot_within i ss h)

  extent-put :
      (i : ℕ) (q : A) (ss : List (Stretch A)) → HasRoom i ss → extent (put i q ss) ≡ extent ss
  unfolding put extent HasRoom
  extent-put i q [] h = elim h [ ]
  extent-put zero q ((f, []) ∷ ss) h = absurd (omega arith)
  extent-put zero q ((f, x ∷ r) ∷ ss) h = omega (arith, length-append f (q ∷ []))
  extent-put (suc i) q ((f, r) ∷ ss) h = omega (arith, extent-put i q ss h)

module _ {A : Type 0} (page_of : A → ℕ) where
  -- each stretch, from the page `p` on, has as much room as there are queries of its page
  unfoldable pub Fits : ℕ → List A → List (Stretch A) → Type 0
  Fits p qs [] = Unit
  Fits p qs ((f, r) ∷ ss) = (length r ≡ length (of_page page_of p qs)) × Fits (suc p) qs ss

  unfoldable pub filled : List A → ℕ → List A → List (Stretch A) → List A
  filled rest p qs [] = rest
  filled rest p qs ((f, r) ∷ ss) = f ++ (of_page page_of p qs ++ filled rest (suc p) qs ss)

  Fits-skip :
      (p : ℕ) (q : A) (qs : List A) (ss : List (Stretch A))
      → page_of q < p
      → Fits p (q ∷ qs) ss
      → Fits p qs ss
  unfolding Fits
  Fits-skip p q qs [] l h = tt
  Fits-skip p q qs ((f, r) ∷ ss) l h = (
    h.0 ∙ ap length (of_page_other page_of p q qs (ground arith)),
    Fits-skip (suc p) q qs ss (omega arith) h.1,
  )

  filled_skip :
      (rest : List A) (p : ℕ) (q : A) (qs : List A) (ss : List (Stretch A))
      → page_of q < p
      → filled rest p (q ∷ qs) ss ≡ filled rest p qs ss
  unfolding filled
  filled_skip rest p q qs [] l = refl
  filled_skip rest p q qs ((f, r) ∷ ss) l =
      ap₂ (λ a b. f ++ (a ++ b)) (of_page_other page_of p q qs (ground arith))
        (filled_skip rest (suc p) q qs ss (omega arith))

  of_page_same :
      (p : ℕ) (q : A) (qs : List A)
      → page_of q ≡ p
      → of_page page_of p (q ∷ qs) ≡ q ∷ of_page page_of p qs
  of_page_same p q qs e =
      subst (λ x. of_page page_of x (q ∷ qs) ≡ q ∷ of_page page_of x qs) e
        (of_page_here page_of q qs)

  -- A query goes to the stretch of its page.
  Fits-HasRoom :
      (p i : ℕ) (q : A) (qs : List A) (ss : List (Stretch A))
      → page_of q ≡ p + i
      → i < length ss
      → Fits p (q ∷ qs) ss
      → HasRoom i ss
  unfolding Fits HasRoom
  Fits-HasRoom p i q qs [] e l h = absurd (omega arith)
  Fits-HasRoom p zero q qs ((f, r) ∷ ss) e l h =
      omega (arith, h.0, ap length (of_page_same p q qs (omega (arith, e))))
  Fits-HasRoom p (suc i) q qs ((f, r) ∷ ss) e l h =
      Fits-HasRoom (suc p) i q qs ss (omega (arith, e)) (omega arith) h.1

  Fits-put :
      (p i : ℕ) (q : A) (qs : List A) (ss : List (Stretch A))
      → page_of q ≡ p + i
      → Fits p (q ∷ qs) ss
      → Fits p qs (put i q ss)
  unfolding Fits put
  Fits-put p i q qs [] e h = tt
  Fits-put p zero q qs ((f, []) ∷ ss) e h =
      absurd (omega (arith, h.0, ap length (of_page_same p q qs (omega (arith, e)))))
  Fits-put p zero q qs ((f, x ∷ r) ∷ ss) e h = (
    omega (arith, h.0, ap length (of_page_same p q qs (omega (arith, e)))),
    Fits-skip (suc p) q qs ss (omega (arith, e)) h.1,
  )
  Fits-put p (suc i) q qs ((f, r) ∷ ss) e h = (
    h.0 ∙ ap length (of_page_other page_of p q qs (ground (arith, e))),
    Fits-put (suc p) i q qs ss (omega (arith, e)) h.1,
  )

  filled-put :
      (rest : List A) (p i : ℕ) (q : A) (qs : List A) (ss : List (Stretch A))
      → page_of q ≡ p + i
      → i < length ss
      → filled rest p qs (put i q ss) ≡ filled rest p (q ∷ qs) ss
  unfolding filled put
  filled-put rest p i q qs [] e l = absurd (omega arith)
  filled-put rest p zero q qs ((f, r) ∷ ss) e l =
      append_assoc f (q ∷ []) (of_page page_of p qs ++ filled rest (suc p) qs ss)
      ∙ ap₂ (λ a b. f ++ (a ++ b)) (sym (of_page_same p q qs (omega (arith, e))))
          (sym (filled_skip rest (suc p) q qs ss (omega (arith, e))))
  filled-put rest p (suc i) q qs ((f, r) ∷ ss) e l =
      ap₂ (λ a b. f ++ (a ++ b)) (sym (of_page_other page_of p q qs (ground (arith, e))))
        (filled-put rest (suc p) i q qs ss (omega (arith, e)) (omega arith))

  length-put : (i : ℕ) (q : A) (ss : List (Stretch A)) → length (put i q ss) ≡ length ss
  unfolding put
  length-put i q [] = refl
  length-put zero q (s ∷ ss) = refl
  length-put (suc i) q (s ∷ ss) = ap suc (length-put i q ss)

  flatten-filled :
      (rest : List A) (p : ℕ) (ss : List (Stretch A))
      → Fits p [] ss
      → flatten rest ss ≡ filled rest p [] ss
  unfolding flatten filled Fits of_page
  flatten-filled rest p [] h = refl
  flatten-filled rest p ((f, []) ∷ ss) h = ap (λ x. f ++ x) (flatten-filled rest (suc p) ss h.1)
  flatten-filled rest p ((f, x ∷ r) ∷ ss) h = absurd (omega (arith, h.0))

  -- The copies, from stretches with just enough room.
  pub scatter-filled :
      (qs : List A) (ss : List (Stretch A)) (rest : List A)
      → AllPages page_of (length ss) qs
      → extent ss < 2 ^ 32
      → Fits 0 qs ss
      → scatter page_of qs (cursors 0 ss) (flatten rest ss) ≡ filled rest 0 qs ss
  unfolding scatter AllPages
  scatter-filled [] ss rest a b h = flatten-filled rest 0 ss h
  scatter-filled (q ∷ qs) ss rest a b h =
      let p = page_of q in
      let room : HasRoom p ss = Fits-HasRoom 0 p q qs ss (omega arith) a.0 h in
      let at : get_or (cursors 0 ss) p 0 ≡ slot p ss = get_or-cursors p 0 ss room ∙ omega arith in
      let next : set (cursors 0 ss) p ((slot p ss + 1) % 2 ^ 32) ≡ cursors 0 (put p q ss) =
        set-cursors p 0 ((slot p ss + 1) % 2 ^ 32) q ss room
          (omega (arith, slot_within p ss room, b)) in
      rw (at, next, set-flatten p q ss rest room)
        (scatter-filled qs (put p q ss) rest
            (subst (λ n. AllPages page_of n qs) (sym (length-put p q ss)) a.1)
            (omega (arith, extent-put p q ss room, b)) (Fits-put 0 p q qs ss (omega arith) h)
          ∙ filled-put rest 0 p q qs ss (omega arith) a.0)
