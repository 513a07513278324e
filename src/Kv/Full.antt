-- ===== src/Kv/Full.antt =====
-- When `put` fails.
use native.Mathlib.Nat.{mod-add-mod, mod-eq_of_lt}
use matrixdb.Prelude.{
  ℕ, zero, suc, ◌+◌, ◌-◌, ◌%◌, ◌≤◌, ◌<◌, ◌≡◌, refl, ap, sym, ◌∙◌, ◌↔◌, true, false, Option, none,
  some, List, [], ◌∷◌, length, arith,
}
use matrixdb.Kv.{Slot, KvStore, slot_at, next, put, get, capacity}
use matrixdb.Kv.Probe.{find, place, put_at, value_at, home, get-find, put-place}
use matrixdb.Kv.Invariant.{IsValid, count, mask-mod, home-lt, next-lt}

pub count-le-length : (slots : List Slot) → count slots ≤ length slots
unfolding count
count-le-length [] = omega arith
count-le-length (s ∷ slots) = ground (arith, count-le-length slots)

count_all :
    (slots : List Slot)
    → ((p : ℕ) → p < length slots → (slot_at slots p).occupied ≡ true)
    → count slots ≡ length slots
unfolding count
count_all [] h = refl
count_all (s ∷ slots) h = ground (arith, h 0, count_all slots (λ p lt. h (suc p) (omega arith)))

all_of_count :
    (slots : List Slot) (p : ℕ)
    → count slots ≡ length slots
    → p < length slots
    → (slot_at slots p).occupied ≡ true
unfolding count
all_of_count [] p h lt = absurd (omega arith)
all_of_count (s ∷ slots) zero h lt = ground (arith, count-le-length slots)
all_of_count (s ∷ slots) (suc p) h lt = ground (arith, count-le-length slots, all_of_count slots p)

-- the slot that a walk from `i` reaches after `j` probes
step : ℕ → ℕ → ℕ → ℕ
step mask i zero = i
step mask i (suc j) = step mask (next mask i) j

module _ {m : KvStore} (valid : IsValid m) where
  step-mod : (i j : ℕ) → i < m.mask + 1 → step m.mask i j ≡ (i + j) % (m.mask + 1)
  unfolding step next
  step-mod i zero h = sym (ap (λ t. t % (m.mask + 1)) (omega arith) ∙ mod-eq_of_lt h)
  step-mod i (suc j) h =
      step-mod (next m.mask i) j (next-lt valid i)
      ∙ rw (mask-mod valid (i + 1), mod-add-mod) (ap (λ t. t % (m.mask + 1)) (omega arith))

  -- The walk visits every slot.
  step_covers :
      (i p : ℕ)
      → i < m.mask + 1
      → p < m.mask + 1
      → (j : ℕ) × (j < m.mask + 1) × (step m.mask i j ≡ p)
  step_covers i p h k =
      let n = m.mask + 1 in
      ((p + n - i) % n, omega arith, step-mod i ((p + n - i) % n) h ∙ grind arith)

  place-none_occupied :
      (key left i j : ℕ)
      → place m.mask m.slots key left i ≡ none
      → j < left
      → (slot_at m.slots (step m.mask i j)).occupied ≡ true
  unfolding place step
  place-none_occupied key zero i j e h = absurd (omega arith)
  place-none_occupied key (suc left) i zero e h = ground arith
  place-none_occupied key (suc left) i (suc j) e h =
      ground (arith, place-none_occupied key left (next m.mask i) j)

  place-none-find :
      (key left i : ℕ)
      → place m.mask m.slots key left i ≡ none
      → find m.mask m.slots key left i ≡ none
  unfolding place find
  place-none-find key zero i e = refl
  place-none-find key (suc left) i e = ground (arith, place-none-find key left (next m.mask i))

  full_place-find :
      (key left i : ℕ)
      → m.size ≡ m.mask + 1
      → i < m.mask + 1
      → place m.mask m.slots key left i ≡ find m.mask m.slots key left i
  unfolding place find
  full_place-find key zero i full h = refl
  full_place-find key (suc left) i full h = ground (
    arith,
    next-lt valid i,
    full_place-find key left (next m.mask i),
    all_of_count m.slots i,
    valid.counted,
    valid.width,
  )

  full_of_none :
      (key : ℕ) → place m.mask m.slots key (m.mask + 1) (home m key) ≡ none → m.size ≡ m.mask + 1
  full_of_none key e =
      valid.counted ∙ count_all m.slots (λ p lt. occupied_at p (rw valid.width at lt)) ∙ valid.width
    where
      occupied_at : (p : ℕ) → p < m.mask + 1 → (slot_at m.slots p).occupied ≡ true
      occupied_at p lt =
          let (j, in_range, reaches) = step_covers (home m key) p (home-lt valid key) lt in
          rw reaches at (place-none_occupied key (m.mask + 1) (home m key) j e in_range)

  value_none : (o : Option ℕ) → value_at m.slots o ≡ none → o ≡ none
  value_none none e = refl
  value_none (some p) e = cc

  failed : (key value : ℕ) (o : Option ℕ) → (put_at m key value o).0 ≡ false → o ≡ none
  failed key value none e = refl
  failed key value (some p) e = cc

  -- For a valid store: `put` fails exactly when every slot is taken and the key is not stored.
  pub put_fails_iff :
      (key value : ℕ) → ((put m key value).0 ≡ false) ↔ ((m.size ≡ capacity m) × (get m key ≡ none))
  unfolding capacity
  put_fails_iff key value =
      rw (put-place, get-find)
        (
          (λ e.
              let full = failed key value _ e in
              (full_of_none key full, rw (place-none-find key (m.mask + 1) (home m key) full))),
          (λ h.
              let absent = value_none _ h.1 in
              rw (full_place-find key (m.mask + 1) (home m key) h.0 (home-lt valid key), absent)),
        )
