-- ===== src/Ring/Tests.antt =====
-- The ring's theorems at a ring of two slots through which one item goes.
use matrixdb.Prelude.{ℕ, ◌+◌, ◌-◌, ◌≤◌, ◌≡◌, refl, [], ◌∷◌, length, take, arith}
use matrixdb.Ring.{
  new, emplace_look, emplace_write, emplace_publish, pop_look, pop_read, pop_release, size,
}
use matrixdb.Ring.Fifo.{delivers_in_order}
use matrixdb.Ring.World.{
  World, looks, writes, publishes, peeks, reads, releases, Run, done, after, fresh,
}

abbrev empty : World ℕ
empty = fresh 2 0

abbrev looked : World ℕ
looked = record empty { ring = emplace_look 2 0 empty.ring 7 }

abbrev written : World ℕ
written = record looked { ring = emplace_write 2 0 looked.ring 7 }

abbrev published : World ℕ
published = record written { ring = emplace_publish 2 0 written.ring; pushed = 7 ∷ [] }

abbrev peeked : World ℕ
peeked = record published { ring = pop_look 2 0 published.ring }

abbrev read : World ℕ
read = record peeked { ring = pop_read 2 0 peeked.ring }

abbrev released : World ℕ
released = record read { ring = pop_release 2 0 read.ring; popped = 7 ∷ [] }

through : Run 2 0 empty released
unfolding new emplace_look emplace_write emplace_publish pop_look pop_read pop_release
through = after (looks empty 7 refl) (
    after (writes looked 7 refl) (
      after (publishes written 7 refl (omega arith)) (
        after (peeks published refl)
          (after (reads peeked refl) (after (releases read 7 refl) (done released))))))

delivers_in_order_example :
    (released.popped ≡ take (length released.popped) released.pushed)
    × (length released.popped ≤ length released.pushed)
    × (length released.pushed ≤ length released.popped + 2)
    × (size released.ring ≡ length released.pushed - length released.popped)
delivers_in_order_example = delivers_in_order 2 0 1 released refl through

-- a ring with both slots taken
abbrev looked_again : World ℕ
looked_again = record published { ring = emplace_look 2 0 published.ring 8 }

abbrev written_again : World ℕ
written_again = record looked_again { ring = emplace_write 2 0 looked_again.ring 8 }

abbrev full : World ℕ
full = record written_again { ring = emplace_publish 2 0 written_again.ring; pushed = 7 ∷ 8 ∷ [] }

filled : Run 2 0 empty full
unfolding new emplace_look emplace_write emplace_publish
filled = after (looks empty 7 refl) (
    after (writes looked 7 refl) (
      after (publishes written 7 refl (omega arith)) (
        after (looks published 8 refl) (
          after (writes looked_again 8 refl)
            (after (publishes written_again 8 refl (omega arith)) (done full))))))
