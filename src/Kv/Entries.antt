-- ===== src/Kv/Entries.antt =====
-- What `for_each` visits, against `get`, `size` and `checksum`.
use matrixdb.Prelude.{
  ℕ, zero, suc, ◌+◌, ◌%◌, ◌^◌, ◌<◌, ◌≡◌, refl, ◌≢◌, inl, inr, true, Option, none, some, List, [],
  ◌∷◌, length, arith, ◌==◌, if◌then◌else◌, Option-cases,
}
use matrixdb.Kv.{Slot, KvStore, slot_at, entries_of, for_each, checksum_from, checksum, get}
use matrixdb.Kv.Probe.{find, home, get-find}
use matrixdb.Kv.Invariant.{IsValid, count, home-lt, find_hit}

-- the value of the first pair with the key
unfoldable pub lookup : ℕ → List (ℕ × ℕ) → Option ℕ
lookup key [] = none
lookup key (e ∷ es) = if e.0 == key then some e.1 else lookup key es

length-entries_of : (slots : List Slot) → length (entries_of slots) ≡ count slots
unfolding entries_of count
length-entries_of [] = refl
length-entries_of (s ∷ slots) = ground (arith, length-entries_of slots)

abbrev pub Absent : ℕ → List Slot → Type 0
Absent key slots =
    (p : ℕ) → p < length slots → (slot_at slots p).occupied ≡ true → (slot_at slots p).key ≢ key

pub lookup-Absent :
    (key : ℕ) (slots : List Slot) → Absent key slots → lookup key (entries_of slots) ≡ none
unfolding entries_of lookup
lookup-Absent key [] h = refl
lookup-Absent key (s ∷ slots) h =
    ground (arith, h 0, lookup-Absent key slots (λ p lt. h (suc p) (omega arith)))

-- Where one slot alone holds the key, the visited entries show its value.
lookup_only :
    (key : ℕ) (slots : List Slot) (p : ℕ)
    → p < length slots
    → (slot_at slots p).occupied ≡ true
    → (slot_at slots p).key ≡ key
    → ((q : ℕ)
        → q < length slots
        → (slot_at slots q).occupied ≡ true
        → (slot_at slots q).key ≡ key
        → q ≡ p)
    → lookup key (entries_of slots) ≡ some (slot_at slots p).value
unfolding entries_of lookup
lookup_only key [] p lt occ same once = absurd (omega arith)
lookup_only key (s ∷ slots) zero lt occ same once = ground arith
lookup_only key (s ∷ slots) (suc p) lt occ same once = ground (
  arith,
  once 0,
  lookup_only key slots p (omega arith) occ same
      (λ q lt' occ' same'. let e = once (suc q) (omega arith) occ' same' in omega arith),
)

module _ {m : KvStore} (valid : IsValid m) (key : ℕ) where
  Absent-of_find : find m.mask m.slots key (m.mask + 1) (home m key) ≡ none → Absent key m.slots
  Absent-of_find e p lt occ same = cc (e, rw same at (valid.reached p (rw valid.width at lt) occ))

  only_of_find :
      (p q : ℕ)
      → find m.mask m.slots key (m.mask + 1) (home m key) ≡ some p
      → q < length m.slots
      → (slot_at m.slots q).occupied ≡ true
      → (slot_at m.slots q).key ≡ key
      → q ≡ p
  only_of_find p q e lt occ same =
      let f = rw same at (valid.reached q (rw valid.width at lt) occ) in ground arith

  -- For a valid store: `for_each` shows a key exactly when `get` finds it, and with the same value.
  pub lookup-for_each : lookup key (for_each m) ≡ get m key
  unfolding for_each
  lookup-for_each =
      rw get-find (elim (Option-cases (find m.mask m.slots key (m.mask + 1) (home m key))) [
        | inl e ↦ rw e (lookup-Absent key m.slots (Absent-of_find e))
        | inr (p, e) ↦
            let h = find_hit valid key (m.mask + 1) (home m key) p (home-lt valid key) e in
            rw e (lookup_only key m.slots p (rw valid.width h.0) h.1 h.2 (λ q. only_of_find p q e))
      ])

-- Of a valid store, `for_each` visits as many entries as `size` says.
pub length-for_each : {m : KvStore} → IsValid m → length (for_each m) ≡ m.size
unfolding for_each
length-for_each {m} valid = rw valid.counted (length-entries_of m.slots)

unfoldable pub sum_values : List (ℕ × ℕ) → ℕ
sum_values [] = 0
sum_values (e ∷ es) = e.1 + sum_values es

checksum_from-sum :
    (slots : List Slot) (sum : ℕ)
    → sum < 2 ^ 64
    → checksum_from sum slots ≡ (sum + sum_values (entries_of slots)) % 2 ^ 64
unfolding checksum_from sum_values entries_of
checksum_from-sum [] sum h = omega arith
checksum_from-sum (s ∷ slots) sum h =
    ground (arith, checksum_from-sum slots ((sum + s.value) % 2 ^ 64), checksum_from-sum slots sum)

-- The checksum is the sum, modulo 2 ^ 64, of the values of the visited entries, whatever the
-- slots that they stand in.
pub checksum-for_each : (m : KvStore) → checksum m ≡ sum_values (for_each m) % 2 ^ 64
unfolding checksum for_each
checksum-for_each m = omega (arith, checksum_from-sum m.slots 0 (omega arith))
