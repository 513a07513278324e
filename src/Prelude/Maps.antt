-- ===== src/Prelude/Maps.antt =====
-- Maps as lists of pairs, as in `std::unordered_map` where its order does not matter, and chains of
-- calls that may have no result.
use Prim.Native.Nat.{ℕ}
use mathlib.Core.Path.{◌≡◌}
use mathlib.Core.Bool.{Bool, true, false}
use mathlib.Core.List.{List, [], ◌∷◌}
use mathlib.Core.Option.{Option, none, some}
use native.Mathlib.Omega.{arith}
use matrixdb.Prelude.Tests.{◌==◌, if◌then◌else◌}

infixl 5 ◌>>=◌ ◌>>◌
abbrev pub ◌>>=◌ {ℓ κ} : {A : Type ℓ} {B : Type κ} → Option A → (A → Option B) → Option B
none >>= f = none
some a >>= f = f a

abbrev pub ◌>>◌ {ℓ} : {B : Type ℓ} → Option (Unit {0}) → Option B → Option B
m >> k = m >>= λ _. k

-- what an `assert` lets through
abbrev pub guard : Bool → Option (Unit {0})
guard true = some tt
guard false = none

module _ {ℓ} {A : Type ℓ} where
  abbrev pub find : ℕ → List (ℕ × A) → Option A
  find k [] = none
  find k ((i, a) ∷ m) = if k == i then some a else find k m

  -- `m[k] = a`
  abbrev pub assign : ℕ → A → List (ℕ × A) → List (ℕ × A)
  assign k a [] = (k, a) ∷ []
  assign k a ((i, b) ∷ m) = if k == i then (i, a) ∷ m else (i, b) ∷ assign k a m

pub ==_refl : (k : ℕ) → (k == k) ≡ true
==_refl k = ground arith

module _ {A : Type 0} where
  pub find-assign_self : (k : ℕ) (a : A) (m : List (ℕ × A)) → find k (assign k a m) ≡ some a
  find-assign_self k a [] = ground arith
  find-assign_self k a ((i, b) ∷ m) = ground (arith, find-assign_self k a m)

  pub find-assign_ne :
      (k j : ℕ) (a : A) (m : List (ℕ × A)) → (j == k) ≡ false → find j (assign k a m) ≡ find j m
  find-assign_ne k j a [] h = ground arith
  find-assign_ne k j a ((i, b) ∷ m) h = ground (arith, find-assign_ne k j a m h)

  -- Two writes under one key are the second.
  pub assign-assign :
      (k : ℕ) (a b : A) (m : List (ℕ × A)) → assign k b (assign k a m) ≡ assign k b m
  assign-assign k a b [] = ground arith
  assign-assign k a b ((i, c) ∷ m) = ground (arith, assign-assign k a b m)

  -- Writing what is there changes nothing.
  pub assign-find : (k : ℕ) (a : A) (m : List (ℕ × A)) → find k m ≡ some a → assign k a m ≡ m
  assign-find k a [] h = cc
  assign-find k a ((i, b) ∷ m) h = ground (arith, assign-find k a m)
