-- ===== src/Server/Access.antt =====
-- `AccessPolicy` and `Authenticator` of server.hpp. The sets and the map of the policy are lists;
-- a token is its bytes.
use Prim.Native.Nat.{bit_xor, bit_or}
use mathlib.Core.List.{Memᴰ}
use matrixdb.Prelude.{
  ℕ, ◌≤◌, ◌<◌, ◌≡◌, refl, ap, ap₂, sym, ◌∙◌, ◌↔◌, ◌⊎◌, inl, inr, Bool, true, false, not, ◌&&◌, ◌||◌,
  Option, none, some, List, [], ◌∷◌, length, ◌==◌, if◌then◌else◌, Bool-cases, arith,
}
use matrixdb.Prelude.Bits.{eq_of_bit_xor-zero, bit_xor_self, bit_or-zero_left, le-bit_or}

pub record AccessPolicy : Type 0 where
  pub allow_all : Bool
  pub cols : List (ℕ × ℕ)
  pub read : List ℕ
  pub write : List ℕ

unfoldable pub contains : ℕ → List ℕ → Bool
contains x [] = false
contains x (y ∷ ys) = x == y || contains x ys

unfoldable pub contains_pair : ℕ → ℕ → List (ℕ × ℕ) → Bool
contains_pair x c [] = false
contains_pair x c (y ∷ ys) = (x == y.0 && c == y.1) || contains_pair x c ys

unfoldable pub no_grants : AccessPolicy
no_grants = record { allow_all = false; cols = []; read = []; write = [] }

unfoldable pub permissive : AccessPolicy
permissive = record { allow_all = true; cols = []; read = []; write = [] }

unfoldable pub allow_column : AccessPolicy → ℕ → ℕ → AccessPolicy
allow_column p principal col = record p { cols = (principal, col) ∷ p.cols }

unfoldable pub allow_read : AccessPolicy → ℕ → AccessPolicy
allow_read p principal = record p { read = principal ∷ p.read }

unfoldable pub allow_write : AccessPolicy → ℕ → AccessPolicy
allow_write p principal = record p { write = principal ∷ p.write }

unfoldable pub can_query : AccessPolicy → ℕ → ℕ → Bool
can_query p principal col = if p.allow_all then true else contains_pair principal col p.cols

unfoldable pub can_read : AccessPolicy → ℕ → Bool
can_read p principal = p.allow_all || contains principal p.read

unfoldable pub can_write : AccessPolicy → ℕ → Bool
can_write p principal = p.allow_all || contains principal p.write

unfoldable pub diff_loop : ℕ → List ℕ → List ℕ → ℕ
diff_loop diff [] b = diff
diff_loop diff (x ∷ a) [] = diff
diff_loop diff (x ∷ a) (y ∷ b) = diff_loop (bit_or diff (bit_xor x y)) a b

unfoldable pub timing_safe_equal : List ℕ → List ℕ → Bool
timing_safe_equal a b = if not (length a == length b) then false else diff_loop 0 a b == 0

-- The loop over the credentials, without an early exit; the last match counts.
unfoldable pub match_loop : List ℕ → List (List ℕ × ℕ) → Option ℕ → Option ℕ
match_loop token [] matched = matched
match_loop token (t ∷ tokens) matched =
    match_loop token tokens (if timing_safe_equal token t.0 then some t.1 else matched)

unfoldable pub authenticate : List (List ℕ × ℕ) → List ℕ → Option ℕ
authenticate tokens token = if length token == 0 then none else match_loop token tokens none

diff_loop-grows : (diff : ℕ) (a b : List ℕ) → diff ≤ diff_loop diff a b
unfolding diff_loop
diff_loop-grows diff [] b = omega arith
diff_loop-grows diff (x ∷ a) [] = omega arith
diff_loop-grows diff (x ∷ a) (y ∷ b) =
    omega (arith, diff_loop-grows (bit_or diff (bit_xor x y)) a b, le-bit_or diff (bit_xor x y))

diff_loop_self : (a : List ℕ) → diff_loop 0 a a ≡ 0
unfolding diff_loop
diff_loop_self [] = refl
diff_loop_self (x ∷ a) = rw (bit_xor_self x, bit_or-zero_left) (diff_loop_self a)

diff_loop-zero : (a b : List ℕ) → length a ≡ length b → diff_loop 0 a b ≡ 0 → a ≡ b
unfolding diff_loop
diff_loop-zero [] [] h e = refl
diff_loop-zero [] (y ∷ b) h e = absurd (omega arith)
diff_loop-zero (x ∷ a) [] h e = absurd (omega arith)
diff_loop-zero (x ∷ a) (y ∷ b) h e =
    let d : ℕ = bit_or 0 (bit_xor x y) in
    let none_differ : d ≡ 0 = omega (arith, diff_loop-grows d a b, e) in
    let same : x ≡ y =
      eq_of_bit_xor-zero x y (sym (bit_or-zero_left (bit_xor x y)) ∙ none_differ) in
    ap₂ (λ z c. z ∷ c) same
      (diff_loop-zero a b (omega arith) (sym (ap (λ k. diff_loop k a b) none_differ) ∙ e))

-- The comparison whose time does not depend on the contents says that two tokens are equal exactly
-- when they are.
pub timing_safe_equal_iff : (a b : List ℕ) → (timing_safe_equal a b ≡ true) ↔ (a ≡ b)
unfolding timing_safe_equal
timing_safe_equal_iff a b = (
  (λ e. diff_loop-zero a b (ground arith) (ground arith)),
  (λ e. rw (← e) (ground (arith, diff_loop_self a))),
)

none-ne-some : {p : ℕ} → none ≡ some p → ⊥
none-ne-some e = cc

match_loop-mem :
    (token : List ℕ) (tokens : List (List ℕ × ℕ)) (matched : Option ℕ) (p : ℕ)
    → match_loop token tokens matched ≡ some p
    → (matched ≡ some p) ⊎ Memᴰ (token, p) tokens
unfolding match_loop
match_loop-mem token [] matched p e = inl e
match_loop-mem token (t ∷ tokens) matched p e = elim (Bool-cases (timing_safe_equal token t.0)) [
  | inl hit ↦ elim (match_loop-mem token tokens (some t.1) p (rw hit at e)) [
    | inl this ↦ inr (
        Memᴰ.head (
          ap₂ (λ a b. (a, b)) ((timing_safe_equal_iff token t.0).0 hit)
            (sym (ap (λ o. elim o as (λ x. ℕ) [ none ↦ t.1 | some q ↦ q ]) this))))
    | inr later ↦ inr (Memᴰ.tail later)
  ]
  | inr miss ↦ elim (match_loop-mem token tokens matched p (rw miss at e)) [
    | inl this ↦ inl this
    | inr later ↦ inr (Memᴰ.tail later)
  ]
]

match_loop-some :
    (token : List ℕ) (tokens : List (List ℕ × ℕ)) (q : ℕ)
    → (p : ℕ) × (match_loop token tokens (some q) ≡ some p)
unfolding match_loop
match_loop-some token [] q = (q, refl)
match_loop-some token (t ∷ tokens) q = elim (Bool-cases (timing_safe_equal token t.0)) [
  | inl hit ↦ rw hit (match_loop-some token tokens t.1)
  | inr miss ↦ rw miss (match_loop-some token tokens q)
]

match_loop-known :
    (token : List ℕ) (tokens : List (List ℕ × ℕ)) (p : ℕ)
    → Memᴰ (token, p) tokens
    → (matched : Option ℕ) → (q : ℕ) × (match_loop token tokens matched ≡ some q)
unfolding match_loop
match_loop-known token [] p m matched = elim m [ ]
match_loop-known token (t ∷ tokens) p (Memᴰ.head e) matched =
    let hit : timing_safe_equal token t.0 ≡ true =
      (timing_safe_equal_iff token t.0).1 (ap (λ c. c.0) e) in
    rw hit (match_loop-some token tokens t.1)
match_loop-known token (t ∷ tokens) p (Memᴰ.tail m) matched =
    match_loop-known token tokens p m (if timing_safe_equal token t.0 then some t.1 else matched)

-- Who is authenticated presented a token that is not empty and stands in the credentials with that
-- principal; and a token that is not empty and stands there is authenticated.
pub authenticate-known :
    (tokens : List (List ℕ × ℕ)) (token : List ℕ)
    → ((p : ℕ) → authenticate tokens token ≡ some p → (0 < length token) × Memᴰ (token, p) tokens)
      × ((p : ℕ)
          → 0 < length token
          → Memᴰ (token, p) tokens
          → (q : ℕ) × (authenticate tokens token ≡ some q))
unfolding authenticate
authenticate-known tokens token = (sound, complete)
  where
    sound :
        (p : ℕ) → authenticate tokens token ≡ some p → (0 < length token) × Memᴰ (token, p) tokens
    sound p e = elim (Bool-cases (length token == 0)) [
      | inl empty ↦ absurd (none-ne-some (rw empty at e))
      | inr filled ↦ (
        ground arith,
        elim (match_loop-mem token tokens none p (rw filled at e)) [
          | inl this ↦ absurd (none-ne-some this)
          | inr found ↦ found
        ],
      )
    ]

    complete :
        (p : ℕ)
        → 0 < length token
        → Memᴰ (token, p) tokens
        → (q : ℕ) × (authenticate tokens token ≡ some q)
    complete p h m =
        let filled : (length token == 0) ≡ false = ground arith in
        rw filled (match_loop-known token tokens p m none)
