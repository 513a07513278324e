-- ===== src/Prelude/Bits.antt =====
-- The bit operations of the source at variables: an index mask is a remainder, and what `^` and
-- `|` of two words say about the words. The native operations stand for a recursion on binary
-- digits with fuel (`bitwise`), from which one equation for the lowest digit follows.
use Prim.Native.Nat.{
  ℕ, zero, suc, ◌+◌, ◌-◌, ◌*◌, ◌/◌, ◌%◌, ◌^◌, ◌≤◌, ◌<◌, min, max, bit_and, bit_or, bit_xor, bitwise,
  digits, differ, bit_and-bitwise, bit_or-bitwise, bit_xor-bitwise,
}
use mathlib.Core.Path.{◌≡◌, refl, ap, sym, ◌∙◌}
use native.Mathlib.Nat.{pow-suc, pow-zero, mod-eq_of_lt, div-add-mod, add-mul-mod_self_left}
use native.Mathlib.Omega.{arith}

module _ (rest : ℕ → ℕ) (digit : ℕ → ℕ → ℕ) where
  -- Fuel beyond the first number changes nothing.
  spare_fuel : (a b k l : ℕ) → a ≤ k → a ≤ l → digits rest digit k a b ≡ digits rest digit l a b
  spare_fuel zero b zero zero p q = refl
  spare_fuel zero b zero (suc l) p q = refl
  spare_fuel zero b (suc k) zero p q = refl
  spare_fuel zero b (suc k) (suc l) p q = refl
  spare_fuel (suc a) b zero l p q = absurd (omega arith)
  spare_fuel (suc a) b (suc k) zero p q = absurd (omega arith)
  spare_fuel (suc a) b (suc k) (suc l) p q =
      ap (λ t. t * 2 + digit (suc a % 2) (b % 2))
        (spare_fuel (suc a / 2) (b / 2) k l (omega arith) (omega arith))

  lowest_digit :
      (a b : ℕ)
      → bitwise rest digit (suc a) b
        ≡ bitwise rest digit (suc a / 2) (b / 2) * 2 + digit (suc a % 2) (b % 2)
  lowest_digit a b =
      ap (λ t. t * 2 + digit (suc a % 2) (b % 2))
        (spare_fuel (suc a / 2) (b / 2) a (suc a / 2) (omega arith) (omega arith))

and_low : (a b : ℕ) → bit_and a b ≡ bit_and (a / 2) (b / 2) * 2 + min (a % 2) (b % 2)
and_low zero b = omega (arith, bit_and-bitwise 0 b, bit_and-bitwise 0 (b / 2))
and_low (suc a) b =
    bit_and-bitwise (suc a) b
    ∙ lowest_digit (λ y. 0) min a b
    ∙ ap (λ t. t * 2 + min (suc a % 2) (b % 2)) (sym (bit_and-bitwise (suc a / 2) (b / 2)))

or_low : (a b : ℕ) → bit_or a b ≡ bit_or (a / 2) (b / 2) * 2 + max (a % 2) (b % 2)
or_low zero b = omega (arith, bit_or-bitwise 0 b, bit_or-bitwise 0 (b / 2))
or_low (suc a) b =
    bit_or-bitwise (suc a) b
    ∙ lowest_digit (λ y. y) max a b
    ∙ ap (λ t. t * 2 + max (suc a % 2) (b % 2)) (sym (bit_or-bitwise (suc a / 2) (b / 2)))

xor_low : (a b : ℕ) → bit_xor a b ≡ bit_xor (a / 2) (b / 2) * 2 + differ (a % 2) (b % 2)
xor_low zero b = omega (arith, bit_xor-bitwise 0 b, bit_xor-bitwise 0 (b / 2))
xor_low (suc a) b =
    bit_xor-bitwise (suc a) b
    ∙ lowest_digit (λ y. y) differ a b
    ∙ ap (λ t. t * 2 + differ (suc a % 2) (b % 2)) (sym (bit_xor-bitwise (suc a / 2) (b / 2)))

-- two digits: the exclusive or is a digit, and tells whether they are the same
differ_digit : (x y : ℕ) → x < 2 → y < 2 → differ x y < 2
differ_digit zero y h k = k
differ_digit (suc x) zero h k = h
differ_digit (suc x) (suc y) h k = differ_digit x y (omega arith) (omega arith)

differ_zero : (x y : ℕ) → differ x y ≡ 0 → x ≡ y
differ_zero zero y e = omega arith
differ_zero (suc x) zero e = absurd (omega arith)
differ_zero (suc x) (suc y) e = ap suc (differ_zero x y e)

differ_self : (x : ℕ) → differ x x ≡ 0
differ_self zero = refl
differ_self (suc x) = differ_self x

pub bit_xor-lt : (k a b : ℕ) → a < 2 ^ k → b < 2 ^ k → bit_xor a b < 2 ^ k
bit_xor-lt zero a b h k =
    let a0 : a ≡ 0 = omega (arith, pow-zero 2) in
    let b0 : b ≡ 0 = omega (arith, pow-zero 2) in rw (a0, b0) (omega (arith, pow-zero 2))
bit_xor-lt (suc k) a b h h' = omega (
  arith,
  pow-suc 2 k,
  xor_low a b,
  differ_digit (a % 2) (b % 2) (omega arith) (omega arith),
  bit_xor-lt k (a / 2) (b / 2) (omega (arith, pow-suc 2 k)) (omega (arith, pow-suc 2 k)),
)

xor_zero_below : (n a b : ℕ) → a ≤ n → bit_xor a b ≡ 0 → a ≡ b
xor_zero_below zero zero b h e = omega (arith, bit_xor-bitwise 0 b)
xor_zero_below zero (suc a) b h e = absurd (omega arith)
xor_zero_below (suc n) zero b h e = omega (arith, bit_xor-bitwise 0 b)
xor_zero_below (suc n) (suc a) b h e = omega (
  arith,
  differ_zero (suc a % 2) (b % 2) (omega (arith, xor_low (suc a) b)),
  xor_zero_below n (suc a / 2) (b / 2) (omega arith) (omega (arith, xor_low (suc a) b)),
)

pub eq_of_bit_xor-zero : (a b : ℕ) → bit_xor a b ≡ 0 → a ≡ b
eq_of_bit_xor-zero a b = xor_zero_below a a b (omega arith)

xor_self_below : (n a : ℕ) → a ≤ n → bit_xor a a ≡ 0
xor_self_below zero zero h = refl
xor_self_below zero (suc a) h = absurd (omega arith)
xor_self_below (suc n) zero h = refl
xor_self_below (suc n) (suc a) h = omega (
  arith,
  xor_low (suc a) (suc a),
  differ_self (suc a % 2),
  xor_self_below n (suc a / 2) (omega arith),
)

pub bit_xor_self : (a : ℕ) → bit_xor a a ≡ 0
bit_xor_self a = xor_self_below a a (omega arith)

pub bit_or-zero_left : (b : ℕ) → bit_or 0 b ≡ b
bit_or-zero_left b = bit_or-bitwise 0 b

-- `|` only adds bits.
or_le_below : (n a b : ℕ) → a ≤ n → (a ≤ bit_or a b) × (b ≤ bit_or a b)
or_le_below zero zero b h = omega (arith, bit_or-bitwise 0 b)
or_le_below zero (suc a) b h = absurd (omega arith)
or_le_below (suc n) zero b h = omega (arith, bit_or-bitwise 0 b)
or_le_below (suc n) (suc a) b h =
    omega (arith, or_low (suc a) b, or_le_below n (suc a / 2) (b / 2) (omega arith))

pub le-bit_or : (a b : ℕ) → (a ≤ bit_or a b) × (b ≤ bit_or a b)
le-bit_or a b = or_le_below a a b (omega arith)

and_zero_below : (n a : ℕ) → a ≤ n → bit_and a 0 ≡ 0
and_zero_below zero zero h = refl
and_zero_below zero (suc a) h = absurd (omega arith)
and_zero_below (suc n) zero h = refl
and_zero_below (suc n) (suc a) h =
    omega (arith, and_low (suc a) 0, and_zero_below n (suc a / 2) (omega arith))

pow_pos : (k : ℕ) → 0 < 2 ^ k
pow_pos zero = omega (arith, pow-zero 2)
pow_pos (suc k) = omega (arith, pow-suc 2 k, pow_pos k)

mod-double : (a n : ℕ) → 0 < n → a % (n * 2) ≡ (a / 2) % n * 2 + a % 2
mod-double a n h =
    let r = (a / 2) % n in
    let q = a / 2 / n in
    ap (λ t. t % (n * 2)) split
    ∙ add-mul-mod_self_left (r * 2 + a % 2) (n * 2) q
    ∙ mod-eq_of_lt (omega arith)
  where
    split : a ≡ (a / 2) % n * 2 + a % 2 + n * 2 * (a / 2 / n)
    split = omega (arith, div-add-mod (a / 2) n)

-- `x & (2 ^ k - 1)`, the index mask of a power-of-two table.
pub bit_and_mask : (k a n : ℕ) → n ≡ 2 ^ k → bit_and a (n - 1) ≡ a % n
bit_and_mask zero a n e =
    let one : n ≡ 1 = omega (arith, pow-zero 2) in
    rw one (omega (arith, and_zero_below a a (omega arith)))
bit_and_mask (suc k) a n e =
    let m : ℕ = 2 ^ k in
    let even : n ≡ m * 2 = omega (arith, pow-suc 2 k) in
    let half : (m * 2 - 1) / 2 ≡ m - 1 = omega (arith, pow_pos k) in
    let odd : (m * 2 - 1) % 2 ≡ 1 = omega (arith, pow_pos k) in
    rw
      (
        even,
        mod-double a m (pow_pos k),
        and_low a (m * 2 - 1),
        half,
        odd,
        bit_and_mask k (a / 2) m refl,
      )
      (omega arith)
