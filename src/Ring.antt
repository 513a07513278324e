-- ===== src/Ring.antt =====
-- The single-producer single-consumer ring of ring_buffer.hpp. Each method is three steps, the ones
-- between which the other thread can act: the look at the cursors, the access to the slot, the store
-- of the own cursor. The loads and stores of the cursors are in one order for both threads, which is
-- what acquire and release give these two threads; a slot access is one step.
pub mod Slots
pub mod World
pub mod Inv
pub mod Cursors
pub mod Fifo
mod Tests
use matrixdb.Prelude.{
  ℕ, zero, suc, ◌+◌, ◌-◌, ◌%◌, ◌^◌, bit_and, Bool, true, false, Option, none, some, List, [], ◌∷◌,
  ◌++◌, get_or, set, replicate, length, ltb, leb, ◌==◌, if◌then◌else◌,
}

-- Where a thread stands in its method, with the item that it carries.
pub data Producer {ℓ} (A : Type ℓ) : Type ℓ where
  resting : Producer A
  emplacing publishing : A → Producer A

pub data Consumer {ℓ} (A : Type ℓ) : Type ℓ where
  idle taking : Consumer A
  releasing : A → Consumer A

pub record Ring {ℓ} (A : Type ℓ) : Type ℓ where
  pub buffer : List A
  pub head : ℕ
  pub tail : ℕ
  pub cached_head : ℕ
  pub cached_tail : ℕ
  pub producer : Producer A
  pub consumer : Consumer A

module _ {ℓ} {A : Type ℓ} (capacity : ℕ) (blank : A) where
  unfoldable pub new : Ring A
  new = record {
    buffer = replicate capacity blank;
    head = 0;
    tail = 0;
    cached_head = 0;
    cached_tail = 0;
    producer = resting;
    consumer = idle;
  }

  -- `current_tail - cached_head_ >= Capacity` on `size_t`
  abbrev pub looks_full : ℕ → ℕ → Bool
  looks_full tail head = leb capacity ((tail + (2 ^ 64 - head)) % 2 ^ 64)

  -- The first part of `try_emplace`: with room it goes on to the slot, else the call returns false.
  unfoldable pub emplace_look : Ring A → A → Ring A
  emplace_look r v =
      if looks_full r.tail r.cached_head
      then (let r' : Ring A = record r { cached_head = r.head } in
          if looks_full r.tail r.head then r' else record r' { producer = emplacing v })
      else record r { producer = emplacing v }

  unfoldable pub emplace_write : Ring A → A → Ring A
  emplace_write r v = record r {
    buffer = set r.buffer (bit_and r.tail (capacity - 1)) v;
    producer = publishing v;
  }

  unfoldable pub emplace_publish : Ring A → Ring A
  emplace_publish r = record r { tail = (r.tail + 1) % 2 ^ 64; producer = resting }

  -- The first part of `try_pop`.
  unfoldable pub pop_look : Ring A → Ring A
  pop_look r =
      if leb r.cached_tail r.head
      then (let r' : Ring A = record r { cached_tail = r.tail } in
          if leb r.tail r.head then r' else record r' { consumer = taking })
      else record r { consumer = taking }

  unfoldable pub pop_read : Ring A → Ring A
  pop_read r = record r {
    consumer = releasing (get_or r.buffer (bit_and r.head (capacity - 1)) blank);
  }

  unfoldable pub pop_release : Ring A → Ring A
  pop_release r = record r { head = (r.head + 1) % 2 ^ 64; consumer = idle }

unfoldable pub empty {ℓ} : {A : Type ℓ} → Ring A → Bool
empty r = r.head == r.tail

unfoldable pub size {ℓ} : {A : Type ℓ} → Ring A → ℕ
size r = if leb r.head r.tail then r.tail - r.head else 0
