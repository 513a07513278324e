-- ===== src/Ring/Cursors.antt =====
-- The two steps of the ring of ring_buffer.hpp that move a cursor, and whole interleavings.
use matrixdb.Prelude.{
  ℕ, suc, ◌+◌, ◌%◌, ◌^◌, ◌<◌, ◌≡◌, refl, ap, sym, ◌∙◌, List, [], ◌∷◌, ◌++◌, get_or, take, length,
  length-append, arith,
}
use native.Mathlib.Decide.{dec_lt}
use matrixdb.Ring.Slots.{get_or-append_front, get_or-append_last, take-append_front, take_next}
use matrixdb.Ring.{
  Producer, resting, emplacing, publishing, Consumer, idle, taking, releasing, Ring,
  emplace_publish, pop_release,
}
use matrixdb.Ring.World.{
  World, Step, looks, writes, publishes, peeks, reads, releases, Run, done, after,
}
use matrixdb.Ring.Inv.{
  ProducerOk, ConsumerOk, IsFifo, looks-IsFifo, peeks-IsFifo, writes-IsFifo, reads-IsFifo,
}

module _ {ℓ} {A : Type ℓ} (capacity : ℕ) (blank : A) where
  ConsumerOk-push :
      (pushed : List A) (v : A) (r r' : Ring A) (c : Consumer A)
      → r'.head ≡ r.head
      → r'.tail ≡ r.tail + 1
      → length pushed ≡ r.tail
      → ConsumerOk capacity blank pushed r c
      → ConsumerOk capacity blank (pushed ++ (v ∷ [])) r' c
  unfolding ConsumerOk
  ConsumerOk-push pushed v r r' idle h t n ok = tt
  ConsumerOk-push pushed v r r' taking h t n ok = (omega (arith, ok.0), tt)
  ConsumerOk-push pushed v r r' (releasing x) h t n ok = (
    omega (arith, ok.0),
    rw h (get_or-append_front pushed (v ∷ []) r.head blank (omega (arith, ok.0)) ∙ ok.1),
  )

  ProducerOk-release :
      (r r' : Ring A) (p : Producer A)
      → r'.buffer ≡ r.buffer
      → r'.head ≡ r.head + 1
      → r'.tail ≡ r.tail
      → ProducerOk capacity blank r p
      → ProducerOk capacity blank r' p
  unfolding ProducerOk
  ProducerOk-release r r' resting b h t ok = tt
  ProducerOk-release r r' (emplacing v) b h t ok = (omega (arith, ok.0), tt)
  ProducerOk-release r r' (publishing v) b h t ok = (omega (arith, ok.0), rw (b, t) ok.1)

  pub publishes-IsFifo :
      (w : World A) (v : A)
      → w.ring.producer ≡ publishing v
      → w.ring.tail + 1 < 2 ^ 64
      → IsFifo capacity blank w
      → IsFifo capacity blank
          (record w { ring = emplace_publish capacity blank w.ring; pushed = w.pushed ++ (v ∷ []) })
  unfolding emplace_publish ProducerOk ConsumerOk
  publishes-IsFifo w v at small f =
      let r : Ring A = w.ring in
      let ok : (r.tail < r.head + capacity) × (get_or r.buffer (r.tail % capacity) blank ≡ v) =
        rw at at f.producing in
      let next : (r.tail + 1) % 2 ^ 64 ≡ r.tail + 1 = omega arith in
      rw next (record {
        bits = f.bits;
        power = f.power;
        width = f.width;
        order = omega (arith, f.order);
        room = omega (arith, ok.0);
        below = small;
        behind_head = f.behind_head;
        behind_tail = omega (arith, f.behind_tail);
        count = length-append w.pushed (v ∷ []) ∙ omega (arith, f.count);
        fifo =
            f.fifo
            ∙ sym (take-append_front r.head w.pushed (v ∷ []) (omega (arith, f.order, f.count)));
        slots = λ i from to. elim (dec_lt i r.tail) [
          | yes old ↦
              f.slots i from old
              ∙ sym (get_or-append_front w.pushed (v ∷ []) i blank (omega (arith, f.count)))
          | no new' ↦
              let last : i ≡ r.tail = omega arith in
              ap (λ k. get_or r.buffer (k % capacity) blank) last
              ∙ ok.1
              ∙ sym (get_or-append_last w.pushed v blank i (omega (arith, f.count)))
        ];
        producing = tt;
        consuming =
            ConsumerOk-push w.pushed v r (record r { tail = r.tail + 1; producer = resting })
              r.consumer refl refl f.count f.consuming;
      })

  pub releases-IsFifo :
      (w : World A) (v : A)
      → w.ring.consumer ≡ releasing v
      → IsFifo capacity blank w
      → IsFifo capacity blank
          (record w { ring = pop_release capacity blank w.ring; popped = w.popped ++ (v ∷ []) })
  unfolding pop_release ProducerOk ConsumerOk
  releases-IsFifo w v at f =
      let r : Ring A = w.ring in
      let ok : (r.head < r.tail) × (get_or w.pushed r.head blank ≡ v) = rw at at f.consuming in
      let next : (r.head + 1) % 2 ^ 64 ≡ r.head + 1 = omega (arith, ok.0, f.below) in
      let step : r.head + 1 ≡ suc r.head = omega arith in
      rw next (record {
        bits = f.bits;
        power = f.power;
        width = f.width;
        order = omega (arith, ok.0);
        room = omega (arith, f.room);
        below = f.below;
        behind_head = omega (arith, f.behind_head);
        behind_tail = f.behind_tail;
        count = f.count;
        fifo =
            ap (λ t. t ++ (v ∷ [])) f.fifo
            ∙ ap (λ x. take r.head w.pushed ++ (x ∷ [])) (sym ok.1)
            ∙ sym (take_next r.head w.pushed blank (omega (arith, ok.0, f.count)))
            ∙ ap (λ n. take n w.pushed) (sym step);
        slots = λ i from to. f.slots i (omega arith) to;
        producing =
            ProducerOk-release r (record r { head = r.head + 1; consumer = idle }) r.producer refl
              refl refl f.producing;
        consuming = tt;
      })

  Step-IsFifo :
      {w w' : World A}
      → Step capacity blank w w'
      → IsFifo capacity blank w
      → IsFifo capacity blank w'
  Step-IsFifo (looks w v at) f = looks-IsFifo capacity blank w v at f
  Step-IsFifo (writes w v at) f = writes-IsFifo capacity blank w v at f
  Step-IsFifo (publishes w v at small) f = publishes-IsFifo w v at small f
  Step-IsFifo (peeks w at) f = peeks-IsFifo capacity blank w at f
  Step-IsFifo (reads w at) f = reads-IsFifo capacity blank w at f
  Step-IsFifo (releases w v at) f = releases-IsFifo w v at f

  pub Run-IsFifo :
      {w w' : World A}
      → Run capacity blank w w'
      → IsFifo capacity blank w
      → IsFifo capacity blank w'
  Run-IsFifo (done w) f = f
  Run-IsFifo (after s r) f = Run-IsFifo r (Step-IsFifo s f)
