-- ===== src/Kv/Probe.antt =====
-- One probe walk serves `get` and `put`: where `get` would hit, and where `put` would write.
use matrixdb.Prelude.{
  ℕ, zero, suc, ◌+◌, ◌≡◌, refl, Bool, true, false, Option, none, some, List, set, arith, ◌==◌,
  if◌then◌else◌, bit_and,
}
use matrixdb.Kv.{Slot, KvStore, slot_at, next, put_loop, put, get_loop, get}

module _ (mask : ℕ) (slots : List Slot) (key : ℕ) where
  -- the index of the slot that holds `key`, on a walk of at most `left` probes from `i`
  unfoldable pub find : ℕ → ℕ → Option ℕ
  find zero i = none
  find (suc left) i =
      let s = slot_at slots i in
      let rest = find left (next mask i) in
      if s.occupied then (if s.key == key then some i else rest) else none

  -- the index of the first slot that is free or holds `key`
  unfoldable pub place : ℕ → ℕ → Option ℕ
  place zero i = none
  place (suc left) i =
      let s = slot_at slots i in
      let rest = place left (next mask i) in
      if s.occupied then (if s.key == key then some i else rest) else some i

-- what `put` leaves when it writes at `p`
unfoldable pub written : KvStore → ℕ → ℕ → ℕ → KvStore
written m key value p =
    let s = slot_at m.slots p in
    record m {
      size = if s.occupied then m.size else m.size + 1;
      slots = set m.slots p (record { key = key; value = value; occupied = true });
    }

abbrev pub put_at : KvStore → ℕ → ℕ → Option ℕ → Bool × KvStore
put_at m key value none = (false, m)
put_at m key value (some p) = (true, written m key value p)

abbrev pub value_at : List Slot → Option ℕ → Option ℕ
value_at slots none = none
value_at slots (some p) = some (slot_at slots p).value

get_loop-find :
    (left : ℕ) (m : KvStore) (key i : ℕ)
    → get_loop left m key i ≡ value_at m.slots (find m.mask m.slots key left i)
unfolding get_loop find
get_loop-find zero m key i = refl
get_loop-find (suc left) m key i = ground (arith, get_loop-find left m key (next m.mask i))

put_loop-place :
    (left : ℕ) (m : KvStore) (key value i : ℕ)
    → put_loop left m key value i ≡ put_at m key value (place m.mask m.slots key left i)
unfolding put_loop place written
put_loop-place zero m key value i = refl
put_loop-place (suc left) m key value i =
    ground (arith, put_loop-place left m key value (next m.mask i))

abbrev pub home : KvStore → ℕ → ℕ
home m key = bit_and key m.mask

pub get-find :
    (m : KvStore) (key : ℕ)
    → get m key ≡ value_at m.slots (find m.mask m.slots key (m.mask + 1) (home m key))
unfolding get
get-find m key = get_loop-find (m.mask + 1) m key (home m key)

pub put-place :
    (m : KvStore) (key value : ℕ)
    → put m key value ≡ put_at m key value (place m.mask m.slots key (m.mask + 1) (home m key))
unfolding put
put-place m key value = put_loop-place (m.mask + 1) m key value (home m key)
