-- ===== src/Kv/Tests.antt =====
-- The store's theorems at a table of four slots in which two keys share their home slot.
use matrixdb.Prelude.{
  ℕ, zero, suc, ◌≡◌, refl, ◌≤◌, max, ◌+◌, ◌*◌, ◌<◌, ◌↔◌, true, false, none, some, [], ◌∷◌, arith,
}
use matrixdb.Kv.{empty_slot, KvStore, slot_at, new, put, put_loop, get, get_loop, next, capacity}
use matrixdb.Kv.Probe.{find, home}
use matrixdb.Kv.Invariant.{IsValid, count}
use matrixdb.Kv.Lookup.{put-IsValid, get-put}
use matrixdb.Kv.Full.{put_fails_iff}
use matrixdb.Kv.Capacity.{new-IsValid}

abbrev two : KvStore
two = record {
  mask = 3;
  size = 2;
  slots =
      record { key = 4; value = 40; occupied = true }
      ∷ record { key = 8; value = 80; occupied = true }
      ∷ empty_slot
      ∷ empty_slot
      ∷ [];
}

two_reached :
    (p : ℕ)
    → p < two.mask + 1
    → (slot_at two.slots p).occupied ≡ true
    → find two.mask two.slots
        (slot_at two.slots p).key
        (two.mask + 1)
        (home two (slot_at two.slots p).key)
      ≡ some p
unfolding find next
two_reached zero h o = refl
two_reached (suc zero) h o = refl
two_reached (suc (suc zero)) h o = absurd (ground arith)
two_reached (suc (suc (suc zero))) h o = absurd (ground arith)
two_reached (suc (suc (suc (suc p)))) h o = absurd (omega arith)

two-IsValid : IsValid two
unfolding count
two-IsValid = record { bits = 2; power = refl; width = refl; counted = refl; reached = two_reached }

get-put_example : get (put two 8 9).1 8 ≡ some 9
unfolding put put_loop get get_loop next
get-put_example = get-put two-IsValid 8 9 8

put-IsValid_example : IsValid (put two 12 1).1
put-IsValid_example = put-IsValid two-IsValid 12 1

put_fails_iff_example :
    ((put two 12 1).0 ≡ false) ↔ ((two.size ≡ capacity two) × (get two 12 ≡ none))
put_fails_iff_example = put_fails_iff two-IsValid 12 1

new-IsValid_example :
    (m : KvStore) × (new 5 ≡ some m)
    × IsValid m
    × ((key : ℕ) → get m key ≡ none)
    × (5 ≤ capacity m)
    × (capacity m ≤ max 2 (2 * 5))
new-IsValid_example = new-IsValid 5 (omega arith)
