-- ===== src/Kv/Reload.antt =====
-- Putting what `for_each` shows of one store into an empty store.
use matrixdb.Prelude.{
  ℕ, zero, suc, ◌+◌, ◌≤◌, ◌<◌, ◌≡◌, refl, ap, sym, ◌∙◌, inl, inr, true, Option, none, some, List,
  [], ◌∷◌, length, ◌==◌, Bool-cases, Option-cases, arith,
}
use matrixdb.Kv.{Slot, KvStore, slot_at, put, get, capacity, entries_of, for_each}
use matrixdb.Kv.Probe.{place, written, home, put-place}
use matrixdb.Kv.Invariant.{IsValid}
use matrixdb.Kv.Lookup.{put-IsValid, get-put}
use matrixdb.Kv.Full.{put_fails_iff}
use matrixdb.Kv.Entries.{lookup, Absent, lookup-Absent, lookup-for_each, length-for_each}

-- no key twice
unfoldable pub IsDistinct : List (ℕ × ℕ) → Type 0
IsDistinct [] = Unit
IsDistinct (e ∷ es) = (lookup e.0 es ≡ none) × IsDistinct es

entries_of-IsDistinct :
    (slots : List Slot)
    → ((p q : ℕ)
        → p < length slots
        → q < length slots
        → (slot_at slots p).occupied ≡ true
        → (slot_at slots q).occupied ≡ true
        → (slot_at slots p).key ≡ (slot_at slots q).key
        → p ≡ q)
    → IsDistinct (entries_of slots)
unfolding entries_of IsDistinct
entries_of-IsDistinct [] once = tt
entries_of-IsDistinct (s ∷ slots) once =
    let rest : IsDistinct (entries_of slots) = entries_of-IsDistinct slots (λ p q lp lq op oq same.
      let e = once (suc p) (suc q) (omega arith) (omega arith) op oq same in omega arith) in
    elim (Bool-cases s.occupied) [
      | inr free ↦ rw free rest
      | inl taken ↦
          let absent : Absent s.key slots = (λ p lp op same.
            let e = once zero (suc p) (omega arith) (omega arith) taken op (sym same) in
            omega arith) in
          rw taken (lookup-Absent s.key slots absent, rest)
    ]

pub for_each-IsDistinct : {m : KvStore} → IsValid m → IsDistinct (for_each m)
unfolding for_each
for_each-IsDistinct {m} valid = entries_of-IsDistinct m.slots (λ p q lp lq op oq same.
    let fp = valid.reached p (rw valid.width at lp) op in
    let fq = valid.reached q (rw valid.width at lq) oq in cc (fp, fq, same))

-- A put leaves the capacity, and adds at most one entry.
size-put :
    (m : KvStore) (key value : ℕ)
    → ((put m key value).1.size ≤ m.size + 1) × (capacity (put m key value).1 ≡ capacity m)
unfolding capacity written
size-put m key value =
    rw put-place (elim (Option-cases (place m.mask m.slots key (m.mask + 1) (home m key))) [
      | inl e ↦ rw e (omega arith, refl)
      | inr (p, e) ↦ rw e (ground arith, refl)
    ])

unfoldable pub fill : KvStore → List (ℕ × ℕ) → KvStore
fill m [] = m
fill m (e ∷ es) = fill (put m e.0 e.1).1 es

-- what is found, or else what was there
found_or : Option ℕ → Option ℕ → Option ℕ
found_or none old = old
found_or (some v) old = some v

get-fill :
    (m : KvStore) (es : List (ℕ × ℕ)) (key : ℕ)
    → IsValid m
    → IsDistinct es
    → m.size + length es ≤ capacity m
    → get (fill m es) key ≡ found_or (lookup key es) (get m key)
unfolding fill lookup IsDistinct
get-fill m [] key valid d room = unfold found_or in refl
get-fill m (e ∷ es) key valid d room =
    let (grown, kept) = size-put m e.0 e.1 in
    let taken : (put m e.0 e.1).0 ≡ true = elim (Bool-cases (put m e.0 e.1).0) [
      | inl yes' ↦ yes'
      | inr no' ↦ let full = ((put_fails_iff valid e.0 e.1).0 no').0 in absurd (omega arith)
    ] in
    get-fill (put m e.0 e.1).1 es key (put-IsValid valid e.0 e.1) d.1 (omega arith)
    ∙ rw (get-put valid e.0 e.1 key, taken)
        (elim (Bool-cases (e.0 == key)) [
          | inl same ↦
              let here : e.0 ≡ key = ground arith in
              let absent : lookup key es ≡ none = ap (λ t. lookup t es) (sym here) ∙ d.0 in
              rw (same, absent) (unfold found_or in refl)
          | inr away ↦ rw away refl
        ])

-- Putting what `for_each` shows of a store into an empty one of enough capacity gives a store in
-- which every key reads the same.
pub get-fill-for_each :
    {m fresh : KvStore} (key : ℕ)
    → IsValid m
    → IsValid fresh
    → fresh.size ≡ 0
    → ((k : ℕ) → get fresh k ≡ none)
    → m.size ≤ capacity fresh
    → get (fill fresh (for_each m)) key ≡ get m key
get-fill-for_each {m} {fresh} key valid ready empty none' room =
    get-fill fresh (for_each m) key ready (for_each-IsDistinct valid)
      (omega (arith, length-for_each valid))
    ∙ elim (Option-cases (lookup key (for_each m))) [
      | inl e ↦ rw (e, none' key) (unfold found_or in sym e ∙ lookup-for_each valid key)
      | inr (v, e) ↦ rw e (unfold found_or in sym e ∙ lookup-for_each valid key)
    ]
