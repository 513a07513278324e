-- ===== src/Ring/World.antt =====
-- The ring of ring_buffer.hpp with its histories, and the interleavings of its two threads.
use matrixdb.Prelude.{ℕ, ◌+◌, ◌^◌, ◌<◌, ◌≡◌, List, [], ◌∷◌, ◌++◌}
use matrixdb.Ring.{
  resting, emplacing, publishing, idle, taking, releasing, Ring, new, emplace_look, emplace_write,
  emplace_publish, pop_look, pop_read, pop_release,
}

-- the ring, what has been published and what has been handed out
pub record World {ℓ} (A : Type ℓ) : Type ℓ where
  pub ring : Ring A
  pub pushed : List A
  pub popped : List A

module _ {ℓ} {A : Type ℓ} (capacity : ℕ) (blank : A) where
  -- The steps of the two threads, in any order; a cursor does not reach 2 ^ 64.
  pub data Step : World A → World A → Type ℓ where
    looks :
        (w : World A) (v : A)
        → w.ring.producer ≡ resting
        → Step w (record w { ring = emplace_look capacity blank w.ring v })
    writes :
        (w : World A) (v : A)
        → w.ring.producer ≡ emplacing v
        → Step w (record w { ring = emplace_write capacity blank w.ring v })
    publishes :
        (w : World A) (v : A)
        → w.ring.producer ≡ publishing v
        → w.ring.tail + 1 < 2 ^ 64
        → Step w (record w {
          ring = emplace_publish capacity blank w.ring;
          pushed = w.pushed ++ (v ∷ []);
        })
    peeks :
        (w : World A)
        → w.ring.consumer ≡ idle
        → Step w (record w { ring = pop_look capacity blank w.ring })
    reads :
        (w : World A)
        → w.ring.consumer ≡ taking
        → Step w (record w { ring = pop_read capacity blank w.ring })
    releases :
        (w : World A) (v : A)
        → w.ring.consumer ≡ releasing v
        → Step w
            (record w { ring = pop_release capacity blank w.ring; popped = w.popped ++ (v ∷ []) })

  pub data Run : World A → World A → Type ℓ where
    done : (w : World A) → Run w w
    after : {w w' w'' : World A} → Step w w' → Run w' w'' → Run w w''

  abbrev pub fresh : World A
  fresh = record { ring = new capacity blank; pushed = []; popped = [] }
