-- ===== src/Prelude/Bytes.antt =====
-- Integers laid out as bytes, lowest first: what `memcpy` and `fwrite` of a `uint32_t` or a
-- `uint64_t` do on the little-endian machines that the program runs on. A byte is a number
-- below 256.
use Prim.Native.Nat.{ℕ, zero, suc, ◌+◌, ◌*◌, ◌/◌, ◌%◌, ◌^◌, ◌<◌}
use mathlib.Core.Path.{◌≡◌, refl, ap}
use mathlib.Core.List.{List, [], ◌∷◌, ◌++◌}
use mathlib.Core.Option.{Option, none, some}
use native.Mathlib.Nat.{pow-suc, pow-zero}
use native.Mathlib.Omega.{arith}
use mathlib.Core.Logic.{inl, inr}
use matrixdb.Prelude.Lists.{length}
use matrixdb.Prelude.Tests.{Option-cases}

-- the `n` low bytes of `v`
unfoldable pub to_bytes : ℕ → ℕ → List ℕ
to_bytes zero v = []
to_bytes (suc n) v = (v % 256) ∷ to_bytes n (v / 256)

unfoldable pub of_bytes : List ℕ → ℕ
of_bytes [] = 0
of_bytes (b ∷ bs) = b + 256 * of_bytes bs

-- Exactly `n` bytes from the front, with what is left; `none` when fewer remain.
unfoldable pub split_exact : ℕ → List ℕ → Option (List ℕ × List ℕ)
split_exact zero bs = some ([], bs)
split_exact (suc n) [] = none
split_exact (suc n) (b ∷ bs) = elim (split_exact n bs) [
  | none ↦ none
  | some p ↦ some (b ∷ p.0, p.1)
]

pub length-to_bytes : (n v : ℕ) → length (to_bytes n v) ≡ n
unfolding to_bytes
length-to_bytes zero v = refl
length-to_bytes (suc n) v = ap suc (length-to_bytes n (v / 256))

pub of_bytes-to_bytes : (n v : ℕ) → v < 256 ^ n → of_bytes (to_bytes n v) ≡ v
unfolding to_bytes of_bytes
of_bytes-to_bytes zero v h = omega (arith, pow-zero 256)
of_bytes-to_bytes (suc n) v h =
    omega (arith, pow-suc 256 n, of_bytes-to_bytes n (v / 256) (omega (arith, pow-suc 256 n)))

pub split_exact-append :
    (n : ℕ) (xs ys : List ℕ) → length xs ≡ n → split_exact n (xs ++ ys) ≡ some (xs, ys)
unfolding split_exact
split_exact-append zero [] ys h = refl
split_exact-append zero (x ∷ xs) ys h = absurd (omega arith)
split_exact-append (suc n) [] ys h = absurd (omega arith)
split_exact-append (suc n) (x ∷ xs) ys h = ground (arith, split_exact-append n xs ys)

pub split_exact_short : (n : ℕ) (bs : List ℕ) → length bs < n → split_exact n bs ≡ none
unfolding split_exact
split_exact_short zero bs h = absurd (omega arith)
split_exact_short (suc n) [] h = refl
split_exact_short (suc n) (b ∷ bs) h = ground (arith, split_exact_short n bs)

-- What was read, put back before the rest, is the input.
pub split_exact_sound :
    (n : ℕ) (bs xs ys : List ℕ)
    → split_exact n bs ≡ some (xs, ys)
    → (bs ≡ xs ++ ys) × (length xs ≡ n)
unfolding split_exact
split_exact_sound zero bs xs ys h = ground arith
split_exact_sound (suc n) [] xs ys h = cc
split_exact_sound (suc n) (b ∷ bs) xs ys h = elim (Option-cases (split_exact n bs)) [
  | inl e ↦ ground arith
  | inr (p, e) ↦ ground (arith, split_exact_sound n bs p.0 p.1)
]
