-- ===== src/Ring/Inv.antt =====
-- The invariant of the ring of ring_buffer.hpp, and the steps that move no cursor.
use native.Mathlib.Nat.{mod-lt}
use matrixdb.Prelude.{
  ℕ, ◌+◌, ◌-◌, ◌%◌, ◌^◌, ◌≤◌, ◌<◌, ◌≡◌, refl, ap, sym, ◌∙◌, inl, inr, bit_and, List, get_or, take,
  length, length-set, length-replicate, leb, Bool-cases, arith,
}
use matrixdb.Prelude.Bits.{bit_and_mask}
use matrixdb.Ring.Slots.{mod-ne, get_or-set_here, get_or-set_away}
use matrixdb.Ring.{
  Producer, resting, emplacing, publishing, Consumer, idle, taking, releasing, Ring, new,
  looks_full, emplace_look, emplace_write, pop_look, pop_read,
}
use matrixdb.Ring.World.{World, fresh}

module _ {ℓ} {A : Type ℓ} (capacity : ℕ) (blank : A) where
  -- a producer past its look has room, and what it has written stands in its slot
  unfoldable pub ProducerOk : Ring A → Producer A → Type ℓ
  ProducerOk r resting = Unit
  ProducerOk r (emplacing v) = (r.tail < r.head + capacity) × Unit {ℓ}
  ProducerOk r (publishing v) =
      (r.tail < r.head + capacity) × (get_or r.buffer (r.tail % capacity) blank ≡ v)

  -- a consumer past its look has an item, and what it has read is the next one
  unfoldable pub ConsumerOk : List A → Ring A → Consumer A → Type ℓ
  ConsumerOk pushed r idle = Unit
  ConsumerOk pushed r taking = (r.head < r.tail) × Unit {ℓ}
  ConsumerOk pushed r (releasing v) = (r.head < r.tail) × (get_or pushed r.head blank ≡ v)

  pub record IsFifo (w : World A) : Type ℓ where
    pub bits : ℕ
    pub power : capacity ≡ 2 ^ bits
    pub width : length w.ring.buffer ≡ capacity
    pub order : w.ring.head ≤ w.ring.tail
    pub room : w.ring.tail ≤ w.ring.head + capacity
    pub below : w.ring.tail < 2 ^ 64
    pub behind_head : w.ring.cached_head ≤ w.ring.head
    pub behind_tail : w.ring.cached_tail ≤ w.ring.tail
    pub count : length w.pushed ≡ w.ring.tail
    pub fifo : w.popped ≡ take w.ring.head w.pushed
    pub slots :
        (i : ℕ)
        → w.ring.head ≤ i
        → i < w.ring.tail
        → get_or w.ring.buffer (i % capacity) blank ≡ get_or w.pushed i blank
    pub producing : ProducerOk w.ring w.ring.producer
    pub consuming : ConsumerOk w.pushed w.ring w.ring.consumer

  pub looks_full_lem :
      (tail head : ℕ)
      → head ≤ tail
      → tail < 2 ^ 64
      → looks_full capacity blank tail head ≡ leb capacity (tail - head)
  looks_full_lem tail head h k = ap (leb capacity) (omega arith)

  -- Another look with the same cursors, buffer and histories.
  relook :
      {w : World A} (f : IsFifo w) (cached_head cached_tail : ℕ) (p : Producer A) (c : Consumer A)
      → cached_head ≤ w.ring.head
      → cached_tail ≤ w.ring.tail
      → ProducerOk w.ring p
      → ConsumerOk w.pushed w.ring c
      → IsFifo (record w {
        ring = record w.ring {
          cached_head = cached_head;
          cached_tail = cached_tail;
          producer = p;
          consumer = c;
        };
      })
  unfolding ProducerOk ConsumerOk
  relook {w} f cached_head cached_tail p c h k pok cok = record {
    bits = f.bits;
    power = f.power;
    width = f.width;
    order = f.order;
    room = f.room;
    below = f.below;
    behind_head = h;
    behind_tail = k;
    count = f.count;
    fifo = f.fifo;
    slots = f.slots;
    producing = pok;
    consuming = cok;
  }

  pub looks-IsFifo :
      (w : World A) (v : A)
      → w.ring.producer ≡ resting
      → IsFifo w
      → IsFifo (record w { ring = emplace_look capacity blank w.ring v })
  unfolding emplace_look ProducerOk
  looks-IsFifo w v at f =
      let r : Ring A = w.ring in
      elim (Bool-cases (looks_full capacity blank r.tail r.cached_head)) [
        | inr free ↦
            let less : r.tail < r.head + capacity = ground (
              arith,
              looks_full_lem r.tail r.cached_head (omega (arith, f.behind_head, f.order)) f.below,
              f.behind_head,
            ) in
            rw free (
              relook f r.cached_head r.cached_tail (emplacing v) r.consumer f.behind_head
                f.behind_tail (less, tt) f.consuming)
        | inl stale ↦ elim (Bool-cases (looks_full capacity blank r.tail r.head)) [
          | inl full ↦
              rw (stale, full)
                (relook f r.head r.cached_tail r.producer r.consumer (omega arith) f.behind_tail
                  f.producing f.consuming)
          | inr free ↦
              let less : r.tail < r.head + capacity =
                ground (arith, looks_full_lem r.tail r.head f.order f.below) in
              rw (stale, free)
                (relook f r.head r.cached_tail (emplacing v) r.consumer (omega arith) f.behind_tail
                  (less, tt) f.consuming)
        ]
      ]

  pub peeks-IsFifo :
      (w : World A)
      → w.ring.consumer ≡ idle
      → IsFifo w
      → IsFifo (record w { ring = pop_look capacity blank w.ring })
  unfolding pop_look ConsumerOk
  peeks-IsFifo w at f =
      let r : Ring A = w.ring in
      elim (Bool-cases (leb r.cached_tail r.head)) [
        | inr some' ↦
            let less : r.head < r.tail = ground (arith, f.behind_tail) in
            rw some' (
              relook f r.cached_head r.cached_tail r.producer taking f.behind_head f.behind_tail
                f.producing (less, tt))
        | inl stale ↦ elim (Bool-cases (leb r.tail r.head)) [
          | inl none' ↦
              rw (stale, none')
                (relook f r.cached_head r.tail r.producer r.consumer f.behind_head (omega arith)
                  f.producing f.consuming)
          | inr some' ↦
              let less : r.head < r.tail = ground arith in
              rw (stale, some')
                (relook f r.cached_head r.tail r.producer taking f.behind_head (omega arith)
                  f.producing (less, tt))
        ]
      ]

  pub writes-IsFifo :
      (w : World A) (v : A)
      → w.ring.producer ≡ emplacing v
      → IsFifo w
      → IsFifo (record w { ring = emplace_write capacity blank w.ring v })
  unfolding emplace_write ProducerOk ConsumerOk
  writes-IsFifo w v at f =
      let r : Ring A = w.ring in
      let ok : (r.tail < r.head + capacity) × Unit {ℓ} = rw at at f.producing in
      let slot : bit_and r.tail (capacity - 1) ≡ r.tail % capacity =
        bit_and_mask f.bits r.tail capacity f.power in
      let inside : r.tail % capacity < length r.buffer =
        omega (arith, mod-lt r.tail {m = capacity} (omega (arith, ok.0, f.order)), f.width) in
      rw slot (record {
        bits = f.bits;
        power = f.power;
        width = length-set r.buffer (r.tail % capacity) v ∙ f.width;
        order = f.order;
        room = f.room;
        below = f.below;
        behind_head = f.behind_head;
        behind_tail = f.behind_tail;
        count = f.count;
        fifo = f.fifo;
        slots = λ i from to.
            get_or-set_away r.buffer (r.tail % capacity) (i % capacity) v blank
              (λ e. mod-ne i r.tail capacity to (omega (arith, ok.0)) (sym e))
            ∙ f.slots i from to;
        producing = (ok.0, get_or-set_here r.buffer (r.tail % capacity) v blank inside);
        consuming = f.consuming;
      })

  pub reads-IsFifo :
      (w : World A)
      → w.ring.consumer ≡ taking
      → IsFifo w
      → IsFifo (record w { ring = pop_read capacity blank w.ring })
  unfolding pop_read ProducerOk ConsumerOk
  reads-IsFifo w at f =
      let r : Ring A = w.ring in
      let ok : (r.head < r.tail) × Unit {ℓ} = rw at at f.consuming in
      let slot : bit_and r.head (capacity - 1) ≡ r.head % capacity =
        bit_and_mask f.bits r.head capacity f.power in
      rw slot (
        relook f r.cached_head r.cached_tail r.producer
          (releasing (get_or r.buffer (r.head % capacity) blank)) f.behind_head f.behind_tail
          f.producing (ok.0, sym (f.slots r.head (omega arith) ok.0)))

  pub fresh-IsFifo : (bits : ℕ) → capacity ≡ 2 ^ bits → IsFifo (fresh capacity blank)
  unfolding new ProducerOk ConsumerOk
  fresh-IsFifo bits power = record {
    bits = bits;
    power = power;
    width = length-replicate capacity blank;
    order = omega arith;
    room = omega arith;
    below = omega arith;
    behind_head = omega arith;
    behind_tail = omega arith;
    count = refl;
    fifo = refl;
    slots = λ i from to. absurd (omega arith);
    producing = tt;
    consuming = tt;
  }
