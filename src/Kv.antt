-- ===== src/Kv.antt =====
-- The point-op store of kv_store.hpp: an open-addressing hash table with linear probing.
-- A `uint64_t` is a number below 2 ^ 64; keys and values are only moved and compared.
pub mod Probe
pub mod Invariant
pub mod Lookup
pub mod Full
pub mod Capacity
pub mod Entries
pub mod Reload
mod Tests
use matrixdb.Prelude.{
  ℕ, zero, suc, ◌+◌, ◌-◌, ◌*◌, ◌%◌, ◌^◌, bit_and, Bool, true, false, not, Option, none, some, List,
  [], ◌∷◌, get_or, set, replicate, ltb, ◌==◌, if◌then◌else◌,
}

pub record Slot : Type 0 where
  pub key : ℕ
  pub value : ℕ
  pub occupied : Bool

abbrev pub empty_slot : Slot
empty_slot = record { key = 0; value = 0; occupied = false }

pub record KvStore : Type 0 where
  pub mask : ℕ
  pub size : ℕ
  pub slots : List Slot

-- `while (p < n) p <<= 1`, where the shift of a `size_t` drops the top bit. `none`: out of fuel.
double_until : ℕ → ℕ → ℕ → Option ℕ
double_until zero p n = none
double_until (suc fuel) p n =
    let rest = double_until fuel (p * 2 % 2 ^ 64) n in if ltb p n then rest else some p

-- 64 rounds are enough for every `n` that a power of two in a `size_t` reaches.
pub round_up_pow2 : ℕ → Option ℕ
unfolding double_until
round_up_pow2 n = elim (double_until 64 1 n) [
  | none ↦ none
  | some p ↦ some (if ltb p 2 then 2 else p)
]

pub new : ℕ → Option KvStore
unfolding round_up_pow2
new capacity = elim (round_up_pow2 capacity) [
  | none ↦ none
  | some n ↦ some (record { mask = n - 1; size = 0; slots = replicate n empty_slot })
]

-- A read of `slots_[i]`; every index that a valid table reads is in range.
abbrev pub slot_at : List Slot → ℕ → Slot
slot_at slots i = get_or slots i empty_slot

pub next : ℕ → ℕ → ℕ
next mask i = bit_and (i + 1) mask

-- The loop of `put`, with the probes that are left.
pub put_loop : ℕ → KvStore → ℕ → ℕ → ℕ → Bool × KvStore
unfolding next
put_loop zero m key value i = (false, m)
put_loop (suc left) m key value i =
    let s = slot_at m.slots i in
    let rest = put_loop left m key value (next m.mask i) in
    if s.occupied
    then (if s.key == key
        then (true, record m { slots = set m.slots i (record s { value = value }) })
        else rest)
    else (
      true,
      record m {
        size = m.size + 1;
        slots = set m.slots i (record { key = key; value = value; occupied = true });
      },
    )

unfoldable pub put : KvStore → ℕ → ℕ → Bool × KvStore
unfolding put_loop
put m key value = put_loop (m.mask + 1) m key value (bit_and key m.mask)

pub get_loop : ℕ → KvStore → ℕ → ℕ → Option ℕ
unfolding next
get_loop zero m key i = none
get_loop (suc left) m key i =
    let s = slot_at m.slots i in
    let rest = get_loop left m key (next m.mask i) in
    if s.occupied then (if s.key == key then some s.value else rest) else none

unfoldable pub get : KvStore → ℕ → Option ℕ
unfolding get_loop
get m key = get_loop (m.mask + 1) m key (bit_and key m.mask)

unfoldable pub capacity : KvStore → ℕ
capacity m = m.mask + 1

checksum_from : ℕ → List Slot → ℕ
checksum_from sum [] = sum
checksum_from sum (s ∷ slots) =
    checksum_from (if s.occupied then (sum + s.value) % 2 ^ 64 else sum) slots

pub checksum : KvStore → ℕ
unfolding checksum_from
checksum m = checksum_from 0 m.slots

pub entries_of : List Slot → List (ℕ × ℕ)
entries_of [] = []
entries_of (s ∷ slots) =
    let rest = entries_of slots in if s.occupied then (s.key, s.value) ∷ rest else rest

-- What `for_each` visits, in its order.
unfoldable pub for_each : KvStore → List (ℕ × ℕ)
unfolding entries_of
for_each m = entries_of m.slots
