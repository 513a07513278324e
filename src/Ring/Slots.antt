-- ===== src/Ring/Slots.antt =====
-- Slots of the ring and items of the history, by their index.
use native.Mathlib.Nat.{mul-le-mul_left, div-add-mod, mul-suc}
use native.Mathlib.Decide.{dec_lt}
use matrixdb.Prelude.{
  ℕ, zero, suc, ◌+◌, ◌/◌, ◌%◌, ◌≤◌, ◌<◌, ◌≡◌, ◌≢◌, refl, ap, List, [], ◌∷◌, ◌++◌, get_or, set, take,
  length, arith,
}

-- Two indices less than a capacity apart have different slots.
pub mod-ne : (a b c : ℕ) → a < b → b < a + c → a % c ≢ b % c
mod-ne a b c h k e = elim (dec_lt (a / c) (b / c)) [
  | yes p ↦
      let far = mul-le-mul_left {m = suc (a / c)} {n = b / c} c (omega arith) in
      omega (arith, far, mul-suc c (a / c), div-add-mod a c, div-add-mod b c)
  | no p ↦
      let near = mul-le-mul_left {m = b / c} {n = a / c} c (omega arith) in
      omega (arith, near, div-add-mod a c, div-add-mod b c)
]

pub get_or-set_here {ℓ} :
    {A : Type ℓ} (xs : List A) (i : ℕ) (v d : A) → i < length xs → get_or (set xs i v) i d ≡ v
get_or-set_here [] i v d h = absurd (omega arith)
get_or-set_here (x ∷ xs) zero v d h = refl
get_or-set_here (x ∷ xs) (suc i) v d h = get_or-set_here xs i v d (omega arith)

pub get_or-set_away {ℓ} :
    {A : Type ℓ} (xs : List A) (i j : ℕ) (v d : A) → i ≢ j → get_or (set xs i v) j d ≡ get_or xs j d
get_or-set_away [] i j v d h = refl
get_or-set_away (x ∷ xs) zero zero v d h = absurd (h refl)
get_or-set_away (x ∷ xs) zero (suc j) v d h = refl
get_or-set_away (x ∷ xs) (suc i) zero v d h = refl
get_or-set_away (x ∷ xs) (suc i) (suc j) v d h = get_or-set_away xs i j v d (λ e. h (ap suc e))

pub get_or-append_front {ℓ} :
    {A : Type ℓ} (xs ys : List A) (i : ℕ) (d : A)
    → i < length xs
    → get_or (xs ++ ys) i d ≡ get_or xs i d
get_or-append_front [] ys i d h = absurd (omega arith)
get_or-append_front (x ∷ xs) ys zero d h = refl
get_or-append_front (x ∷ xs) ys (suc i) d h = get_or-append_front xs ys i d (omega arith)

pub get_or-append_last {ℓ} :
    {A : Type ℓ} (xs : List A) (v d : A) (i : ℕ) → i ≡ length xs → get_or (xs ++ (v ∷ [])) i d ≡ v
get_or-append_last [] v d zero h = refl
get_or-append_last [] v d (suc i) h = absurd (omega arith)
get_or-append_last (x ∷ xs) v d zero h = absurd (omega arith)
get_or-append_last (x ∷ xs) v d (suc i) h = get_or-append_last xs v d i (omega arith)

pub take-append_front {ℓ} :
    {A : Type ℓ} (n : ℕ) (xs ys : List A) → n ≤ length xs → take n (xs ++ ys) ≡ take n xs
take-append_front zero xs ys h = refl
take-append_front (suc n) [] ys h = absurd (omega arith)
take-append_front (suc n) (x ∷ xs) ys h = ap (λ t. x ∷ t) (take-append_front n xs ys (omega arith))

pub take_next {ℓ} :
    {A : Type ℓ} (n : ℕ) (xs : List A) (d : A)
    → n < length xs
    → take (suc n) xs ≡ take n xs ++ (get_or xs n d ∷ [])
take_next zero [] d h = absurd (omega arith)
take_next zero (x ∷ []) d h = refl
take_next zero (x ∷ y ∷ xs) d h = refl
take_next (suc n) [] d h = absurd (omega arith)
take_next (suc n) (x ∷ xs) d h = ap (λ t. x ∷ t) (take_next n xs d (omega arith))

pub take-length {ℓ} : {A : Type ℓ} (xs : List A) → take (length xs) xs ≡ xs
take-length [] = refl
take-length (x ∷ xs) = ap (λ t. x ∷ t) (take-length xs)
