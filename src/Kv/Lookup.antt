-- ===== src/Kv/Lookup.antt =====
-- `put` against the invariant and against `get`.
use matrixdb.Prelude.{
  ℕ, ◌+◌, ◌<◌, ◌≡◌, ap, ◌∙◌, ◌≢◌, ◌⊎◌, inl, inr, true, false, Option, some, arith, ◌==◌, ◌&&◌,
  if◌then◌else◌, Bool-cases, Option-cases, length-set,
}
use matrixdb.Kv.{KvStore, slot_at, put, get}
use matrixdb.Kv.Probe.{find, place, written, value_at, home, get-find, put-place}
use matrixdb.Kv.Invariant.{
  IsValid, count-set, home-lt, find_hit, place_hit, written_slot, find-written_self,
  find-written_other,
}

abbrev found : KvStore → ℕ → Option ℕ
found m key = find m.mask m.slots key (m.mask + 1) (home m key)

abbrev free : KvStore → ℕ → Option ℕ
free m key = place m.mask m.slots key (m.mask + 1) (home m key)

module _ {m : KvStore} (valid : IsValid m) (key value p : ℕ) (at : free m key ≡ some p) where
  hit :
      (p < m.mask + 1) × (((slot_at m.slots p).occupied ≡ false) ⊎ ((slot_at m.slots p).key ≡ key))
  hit = place_hit valid key (m.mask + 1) (home m key) p (home-lt valid key) at

  written_slots :
      (i : ℕ)
      → slot_at (written m key value p).slots i ≡ (
          if i == p
          then record { key = key; value = value; occupied = true }
          else slot_at m.slots i)
  written_slots = written_slot valid key value p hit.0

  kept :
      (other q : ℕ) → p ≢ q → found m other ≡ some q → found (written m key value p) other ≡ some q
  unfolding written
  kept other q ne e =
      find-written_other valid key value p hit.0 other (m.mask + 1) (home m other) q hit.1 ne
        (home-lt valid other) e

  stored : found (written m key value p) key ≡ some p
  unfolding written
  stored =
      find-written_self valid key value p hit.0 (m.mask + 1) (home m key) (home-lt valid key) at

  reached_after :
      (i : ℕ)
      → i < m.mask + 1
      → (slot_at (written m key value p).slots i).occupied ≡ true
      → found (written m key value p) (slot_at (written m key value p).slots i).key ≡ some i
  reached_after i h occ = elim (Bool-cases (i == p)) [
    | inl same ↦ rw (written_slots i, same) (rw stored (ap some (ground arith)))
    | inr other ↦
        let e : slot_at (written m key value p).slots i ≡ slot_at m.slots i =
          rw (written_slots i, other) in
        rw e (kept _ i (ground arith) (valid.reached i h (rw e at occ)))
  ]

  pub written-IsValid : IsValid (written m key value p)
  unfolding written
  written-IsValid = record {
    bits = valid.bits;
    power = valid.power;
    width = length-set m.slots p _ ∙ valid.width;
    counted = ground (arith, count-set m.slots p key value, hit, valid.width, valid.counted);
    reached = reached_after;
  }

  pub found-written_self :
      value_at (written m key value p).slots (found (written m key value p) key) ≡ some value
  found-written_self = rw (stored, written_slots p) (ground arith)

  other_slot :
      (other q : ℕ)
      → key ≢ other
      → found (written m key value p) other ≡ some q
      → found m other ≡ some q
  unfolding written
  other_slot other q ne e =
      let h =
        find_hit written-IsValid other (m.mask + 1) (home m other) q (home-lt valid other) e in
      ground (arith, written_slots q, h, valid.reached q)

  pub found-written_ne :
      (other : ℕ)
      → key ≢ other
      → value_at (written m key value p).slots (found (written m key value p) other)
        ≡ value_at m.slots (found m other)
  found-written_ne other ne = elim (Option-cases (found m other)) [
    | inr (q, e) ↦
        let h = find_hit valid other (m.mask + 1) (home m other) q (home-lt valid other) e in
        let apart : p ≢ q = ground (arith, hit, h) in
        rw (kept other q apart e, e, written_slots q) (ground arith)
    | inl e ↦ elim (Option-cases (found (written m key value p) other)) [
      | inl e' ↦ rw (e, e')
      | inr (q, e') ↦ cc (e, other_slot other q ne e')
    ]
  ]

module _ {m : KvStore} (valid : IsValid m) (key value : ℕ) where
  -- Of a valid store, `put` leaves a valid store, whether it succeeds or fails.
  pub put-IsValid : IsValid (put m key value).1
  put-IsValid = rw put-place (elim (Option-cases (free m key)) [
    | inl e ↦ rw e valid
    | inr (p, e) ↦ rw e (written-IsValid valid key value p e)
  ])

  -- For a valid store: after a put that succeeded its key reads back the value, and every other key reads as
  -- before; after a put that failed every key reads as before.
  pub get-put :
      (other : ℕ)
      → get (put m key value).1 other
        ≡ (if (put m key value).0 && key == other then some value else get m other)
  get-put other =
      rw (put-place, get-find, get-find)
        (elim (Option-cases (free m key)) [
          | inl e ↦ rw e
          | inr (p, e) ↦ elim (Bool-cases (key == other)) [
            | inl same ↦
                let here : key ≡ other = ground arith in
                rw (e, same, ← here) (found-written_self valid key value p e)
            | inr ne ↦ rw (e, ne) (found-written_ne valid key value p e other (ground arith))
          ]
        ])
