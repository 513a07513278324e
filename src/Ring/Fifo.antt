-- ===== src/Ring/Fifo.antt =====
-- The ring against the history of its items.
use matrixdb.Prelude.{
  ℕ, ◌+◌, ◌-◌, ◌^◌, ◌≤◌, ◌≡◌, ◌≢◌, ap, sym, ◌∙◌, inl, inr, take, length, length-take, leb,
  Bool-cases, arith,
}
use matrixdb.Ring.Slots.{take-length}
use matrixdb.Ring.{
  resting, emplacing, Consumer, idle, taking, Ring, looks_full, emplace_look, pop_look, size,
}
use matrixdb.Ring.World.{World, Run, fresh}
use matrixdb.Ring.Inv.{IsFifo, looks_full_lem, fresh-IsFifo}
use matrixdb.Ring.Cursors.{Run-IsFifo}

module _ {ℓ} {A : Type ℓ} (capacity : ℕ) (blank : A) where
  -- For a capacity that is a power of two, after any interleaving of the two threads from an empty
  -- ring in which fewer than 2 ^ 64 items have been pushed: what has been popped is the front of what
  -- has been pushed, in order, without loss or repetition, and at most a capacity of items is between.
  pub delivers_in_order :
      (bits : ℕ) (w : World A)
      → capacity ≡ 2 ^ bits
      → Run capacity blank (fresh capacity blank) w
      → (w.popped ≡ take (length w.popped) w.pushed)
        × (length w.popped ≤ length w.pushed)
        × (length w.pushed ≤ length w.popped + capacity)
        × (size w.ring ≡ length w.pushed - length w.popped)
  unfolding size
  delivers_in_order bits w power run =
      let f = Run-IsFifo capacity blank run (fresh-IsFifo capacity blank bits power) in
      let popped : length w.popped ≡ w.ring.head =
        ap length f.fifo ∙ length-take w.ring.head w.pushed ∙ omega (arith, f.order, f.count) in
      (
        f.fifo ∙ ap (λ n. take n w.pushed) (sym popped),
        omega (arith, popped, f.count, f.order),
        omega (arith, popped, f.count, f.room),
        ground (arith, popped, f.count, f.order),
      )

  popped_lem : (w : World A) → IsFifo capacity blank w → length w.popped ≡ w.ring.head
  popped_lem w f =
      ap length f.fifo ∙ length-take w.ring.head w.pushed ∙ omega (arith, f.order, f.count)

  resting-ne-emplacing : {v : A} → emplacing v ≢ resting
  resting-ne-emplacing e = cc

  idle-ne-taking : ◌≢◌ {A = Consumer A} taking idle
  idle-ne-taking e = cc

  -- For a capacity that is a power of two and after any such interleaving: `try_emplace` gives up only
  -- where a capacity of items is between what has been pushed and what has been popped.
  pub emplace_look_full :
      (bits : ℕ) (w : World A) (v : A)
      → capacity ≡ 2 ^ bits
      → Run capacity blank (fresh capacity blank) w
      → w.ring.producer ≡ resting
      → (emplace_look capacity blank w.ring v).producer ≡ resting
      → length w.pushed ≡ length w.popped + capacity
  unfolding emplace_look
  emplace_look_full bits w v power run at gave_up =
      let f = Run-IsFifo capacity blank run (fresh-IsFifo capacity blank bits power) in
      let r : Ring A = w.ring in
      elim (Bool-cases (looks_full capacity blank r.tail r.cached_head)) [
        | inr free ↦ absurd (resting-ne-emplacing (rw free at gave_up))
        | inl stale ↦ elim (Bool-cases (looks_full capacity blank r.tail r.head)) [
          | inr free ↦ absurd (resting-ne-emplacing (rw (stale, free) at gave_up))
          | inl full ↦ ground (
            arith,
            looks_full_lem capacity blank r.tail r.head f.order f.below,
            popped_lem w f,
            f.count,
            f.room,
          )
        ]
      ]

  -- For a capacity that is a power of two and after any such interleaving: `try_pop` gives up only
  -- where all that has been pushed has been popped.
  pub pop_look_empty :
      (bits : ℕ) (w : World A)
      → capacity ≡ 2 ^ bits
      → Run capacity blank (fresh capacity blank) w
      → w.ring.consumer ≡ idle
      → (pop_look capacity blank w.ring).consumer ≡ idle
      → w.popped ≡ w.pushed
  unfolding pop_look
  pop_look_empty bits w power run at gave_up =
      let f = Run-IsFifo capacity blank run (fresh-IsFifo capacity blank bits power) in
      let r : Ring A = w.ring in
      elim (Bool-cases (leb r.cached_tail r.head)) [
        | inr some' ↦ absurd (idle-ne-taking (rw some' at gave_up))
        | inl stale ↦ elim (Bool-cases (leb r.tail r.head)) [
          | inr some' ↦ absurd (idle-ne-taking (rw (stale, some') at gave_up))
          | inl none' ↦
              let all : r.head ≡ length w.pushed = ground (arith, f.count, f.order) in
              f.fifo ∙ ap (λ n. take n w.pushed) all ∙ take-length w.pushed
        ]
      ]
