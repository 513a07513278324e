-- ===== src/Kv/Invariant.antt =====
-- The representation invariant of the table.
use matrixdb.Prelude.{
  ℕ, zero, suc, ◌+◌, ◌-◌, ◌%◌, ◌^◌, ◌<◌, ◌≡◌, ap, ◌∙◌, ◌≢◌, ◌⊎◌, true, false, some, List, [], ◌∷◌,
  length, set, arith, ◌==◌, if◌then◌else◌, bit_and,
}
use matrixdb.Prelude.Bits.{bit_and_mask}
use matrixdb.Kv.{Slot, KvStore, slot_at, next}
use matrixdb.Kv.Probe.{find, place, written, home}

pub slot_at-set :
    (slots : List Slot) (p i : ℕ) (s : Slot)
    → p < length slots
    → slot_at (set slots p s) i ≡ (if i == p then s else slot_at slots i)
slot_at-set [] p i s h = absurd (omega arith)
slot_at-set (x ∷ slots) zero zero s h = ground arith
slot_at-set (x ∷ slots) zero (suc i) s h = ground arith
slot_at-set (x ∷ slots) (suc p) zero s h = ground arith
slot_at-set (x ∷ slots) (suc p) (suc i) s h = ground (arith, slot_at-set slots p i s)

unfoldable pub count : List Slot → ℕ
count [] = 0
count (s ∷ slots) = if s.occupied then count slots + 1 else count slots

pub count-set :
    (slots : List Slot) (p key value : ℕ)
    → p < length slots
    → count (set slots p (record { key = key; value = value; occupied = true }))
      ≡ (if (slot_at slots p).occupied then count slots else count slots + 1)
unfolding count
count-set [] p k v h = absurd (omega arith)
count-set (x ∷ slots) zero k v h = ground arith
count-set (x ∷ slots) (suc p) k v h = ground (arith, count-set slots p k v)

-- The capacity is a power of two, the size counts the occupied slots, and the walk of every
-- stored key ends at its own slot.
pub record IsValid (m : KvStore) : Type 0 where
  pub bits : ℕ
  pub power : m.mask + 1 ≡ 2 ^ bits
  pub width : length m.slots ≡ m.mask + 1
  pub counted : m.size ≡ count m.slots
  pub reached :
      (p : ℕ)
      → p < m.mask + 1
      → (slot_at m.slots p).occupied ≡ true
      → find m.mask m.slots (slot_at m.slots p).key (m.mask + 1) (home m (slot_at m.slots p).key)
        ≡ some p

pub mask-mod : {m : KvStore} → IsValid m → (i : ℕ) → bit_and i m.mask ≡ i % (m.mask + 1)
mask-mod {m} v i =
    let e : m.mask ≡ m.mask + 1 - 1 = omega arith in
    ap (bit_and i) e ∙ bit_and_mask v.bits i (m.mask + 1) v.power

pub home-lt : {m : KvStore} → IsValid m → (key : ℕ) → home m key < m.mask + 1
home-lt v key = omega (arith, mask-mod v key)

pub next-lt : {m : KvStore} → IsValid m → (i : ℕ) → next m.mask i < m.mask + 1
unfolding next
next-lt v i = omega (arith, mask-mod v (i + 1))

module _ {m : KvStore} (valid : IsValid m) (key : ℕ) where
  pub find_hit :
      (left i p : ℕ)
      → i < m.mask + 1
      → find m.mask m.slots key left i ≡ some p
      → (p < m.mask + 1) × ((slot_at m.slots p).occupied ≡ true) × ((slot_at m.slots p).key ≡ key)
  unfolding find
  find_hit zero i p h e = cc
  find_hit (suc left) i p h e = ground (arith, next-lt valid i, find_hit left (next m.mask i) p)

  -- A slot that `put` may write at: free, or holding the key already.
  pub place_hit :
      (left i p : ℕ)
      → i < m.mask + 1
      → place m.mask m.slots key left i ≡ some p
      → (p < m.mask + 1)
        × (((slot_at m.slots p).occupied ≡ false) ⊎ ((slot_at m.slots p).key ≡ key))
  unfolding place
  place_hit zero i p h e = cc
  place_hit (suc left) i p h e = ground (arith, next-lt valid i, place_hit left (next m.mask i) p)

  module _ (value p : ℕ) (inside : p < m.mask + 1) where
    pub written_slot :
        (i : ℕ)
        → slot_at (written m key value p).slots i ≡ (
            if i == p
            then record { key = key; value = value; occupied = true }
            else slot_at m.slots i)
    unfolding written
    written_slot i = slot_at-set m.slots p i _ (omega (arith, valid.width))

    -- The written key is found where it was written.
    pub find-written_self :
        (left i : ℕ)
        → i < m.mask + 1
        → place m.mask m.slots key left i ≡ some p
        → find m.mask (written m key value p).slots key left i ≡ some p
    unfolding find place
    find-written_self zero i h e = cc
    find-written_self (suc left) i h e =
        ground (arith, written_slot i, next-lt valid i, find-written_self left (next m.mask i))

    -- A key found elsewhere is still found there.
    pub find-written_other :
        (other left i q : ℕ)
        → ((slot_at m.slots p).occupied ≡ false) ⊎ ((slot_at m.slots p).key ≡ key)
        → p ≢ q
        → i < m.mask + 1
        → find m.mask m.slots other left i ≡ some q
        → find m.mask (written m key value p).slots other left i ≡ some q
    unfolding find
    find-written_other other zero i q w ne h e = cc
    find-written_other other (suc left) i q w ne h e = ground (
      arith,
      written_slot i,
      next-lt valid i,
      find-written_other other left (next m.mask i) q w ne,
    )
