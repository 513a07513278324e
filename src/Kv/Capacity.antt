-- ===== src/Kv/Capacity.antt =====
-- The constructor and the capacity that it chooses.
use native.Mathlib.Nat.{pow-suc, pow-zero}
use matrixdb.Prelude.{
  ℕ, zero, suc, ◌+◌, ◌-◌, ◌*◌, ◌%◌, ◌^◌, ◌≤◌, max, ◌≡◌, refl, ap, sym, ◌∙◌, inl, inr, none, some,
  replicate, length-replicate, arith, ltb, Bool-cases,
}
use matrixdb.Kv.{empty_slot, KvStore, slot_at, double_until, round_up_pow2, new, get, capacity}
use matrixdb.Kv.Probe.{find, get-find}
use matrixdb.Kv.Invariant.{IsValid, count}

-- The loop from `2 ^ k`, with one round of fuel for each doubling up to `2 ^ 63`.
double_until_lem :
    (fuel k p n : ℕ)
    → k + suc fuel ≡ 64
    → p ≡ 2 ^ k
    → n ≤ 2 ^ 63
    → (j : ℕ) × (double_until (suc fuel) p n ≡ some (2 ^ j)) × (n ≤ 2 ^ j) × (2 ^ j ≤ max p (2 * n))
unfolding double_until
double_until_lem zero k p n e pk h =
    let k' : k ≡ 63 = omega arith in
    let top : p ≡ 2 ^ 63 = pk ∙ ap (λ t. 2 ^ t) k' in (63, rw top (ground arith), h, omega arith)
double_until_lem (suc fuel) k p n e pk h = elim (Bool-cases (ltb p n)) [
  | inr enough ↦ (k, rw enough (ap some pk), ground arith, omega arith)
  | inl more ↦
      let small : p * 2 % 2 ^ 64 ≡ p * 2 = ground arith in
      let doubled : p * 2 % 2 ^ 64 ≡ 2 ^ suc k = omega (arith, pow-suc 2 k) in
      let (j, run, above, below) =
        double_until_lem fuel (suc k) (p * 2 % 2 ^ 64) n (omega arith) doubled h in
      (j, rw more run, above, ground arith)
]

round_up_pow2_lem :
    (n : ℕ)
    → n ≤ 2 ^ 63
    → (j : ℕ) × (round_up_pow2 n ≡ some (2 ^ j))
      × (n ≤ 2 ^ j)
      × (2 ^ j ≤ max 2 (2 * n))
      × (2 ≤ 2 ^ j)
unfolding round_up_pow2
round_up_pow2_lem n h =
    let (j, run, above, below) = double_until_lem 63 0 1 n refl (sym (pow-zero 2)) h in
    elim (Bool-cases (ltb (2 ^ j) 2)) [
      | inl tiny ↦ (1, rw (run, round_up_pow2, tiny), ground arith, omega arith, omega arith)
      | inr fine ↦ (j, rw (run, round_up_pow2, fine), above, omega arith, ground arith)
    ]

slot_at-replicate : (n i : ℕ) → slot_at (replicate n empty_slot) i ≡ empty_slot
slot_at-replicate zero i = refl
slot_at-replicate (suc n) zero = refl
slot_at-replicate (suc n) (suc i) = slot_at-replicate n i

count-replicate : (n : ℕ) → count (replicate n empty_slot) ≡ 0
unfolding count
count-replicate zero = refl
count-replicate (suc n) = count-replicate n

find-replicate : (n mask key left i : ℕ) → find mask (replicate n empty_slot) key left i ≡ none
unfolding find
find-replicate n mask key zero i = refl
find-replicate n mask key (suc left) i = rw slot_at-replicate

-- For every capacity up to 2 ^ 63 the constructor returns a valid store in which no key is
-- found, whose capacity is a power of two, at least the one asked for and at most twice it (or 2).
pub new-IsValid :
    (n : ℕ)
    → n ≤ 2 ^ 63
    → (m : KvStore) × (new n ≡ some m)
      × IsValid m
      × ((key : ℕ) → get m key ≡ none)
      × (n ≤ capacity m)
      × (capacity m ≤ max 2 (2 * n))
unfolding new capacity
new-IsValid n h =
    let (j, run, above, below, two) = round_up_pow2_lem n h in
    let slots = replicate (2 ^ j) empty_slot in
    (
      record { mask = 2 ^ j - 1; size = 0; slots = slots },
      rw (run, new),
      record {
        bits = j;
        power = omega arith;
        width = length-replicate (2 ^ j) empty_slot ∙ omega arith;
        counted = sym (count-replicate (2 ^ j));
        reached = λ p lt occ. cc (occ, slot_at-replicate (2 ^ j) p);
      },
      (λ key. rw (get-find, find-replicate)),
      omega arith,
      omega arith,
    )
