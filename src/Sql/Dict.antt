-- ===== src/Sql/Dict.antt =====
-- The dictionary of a string column (compute_mock.cpp) against the strings that its codes stand for.
use matrixdb.Prelude.{
  ℕ, zero, suc, ◌≡◌, refl, sym, subst, inl, inr, true, false, not, Bool-cases, some, List, [], ◌∷◌,
  get_elem?, ltb, arith,
}
use matrixdb.Sql.{Text, same_text}
use matrixdb.Sql.Strings.{
  lt_text, insert_text, sort_texts, unique_from, unique_texts, dict_of, lower_code, upper_code,
}

pub same_text_refl : (x : Text) → same_text x x ≡ true
unfolding same_text
same_text_refl [] = refl
same_text_refl (c ∷ x) = ground (arith, same_text_refl x)

pub same_text_eq : (x y : Text) → same_text x y ≡ true → x ≡ y
unfolding same_text
same_text_eq [] [] h = refl
same_text_eq [] (d ∷ y) h = cc
same_text_eq (c ∷ x) [] h = cc
same_text_eq (c ∷ x) (d ∷ y) h = ground (arith, same_text_eq x y)

lt_text_trans : (x y z : Text) → lt_text x y ≡ true → lt_text y z ≡ true → lt_text x z ≡ true
unfolding lt_text
lt_text_trans [] [] z h k = cc
lt_text_trans [] (b ∷ y) [] h k = cc
lt_text_trans [] (b ∷ y) (c ∷ z) h k = refl
lt_text_trans (a ∷ x) [] z h k = cc
lt_text_trans (a ∷ x) (b ∷ y) [] h k = cc
lt_text_trans (a ∷ x) (b ∷ y) (c ∷ z) h k = ground (arith, lt_text_trans x y z)

pub lt_text_irrefl : (x : Text) → lt_text x x ≡ false
unfolding lt_text
lt_text_irrefl [] = refl
lt_text_irrefl (a ∷ x) = ground (arith, lt_text_irrefl x)

-- of two texts that are not the same, one is before the other
lt_text_total : (x y : Text) → lt_text x y ≡ false → same_text x y ≡ false → lt_text y x ≡ true
unfolding lt_text same_text
lt_text_total [] [] h k = cc
lt_text_total [] (b ∷ y) h k = cc
lt_text_total (a ∷ x) [] h k = refl
lt_text_total (a ∷ x) (b ∷ y) h k = ground (arith, lt_text_total x y)

-- `x` is before all of `ds`
unfoldable pub Before : Text → List Text → Type 0
Before x [] = Unit
Before x (d ∷ ds) = (lt_text x d ≡ true) × Before x ds

unfoldable pub IsDict : List Text → Type 0
IsDict [] = Unit
IsDict (d ∷ ds) = Before d ds × IsDict ds

pub Before-get :
    (x : Text) (ds : List Text) (c : ℕ) (d : Text)
    → Before x ds
    → get_elem? ds c ≡ some d
    → lt_text x d ≡ true
unfolding Before
Before-get x [] c d h e = cc
Before-get x (y ∷ ds) zero d h e = ground arith
Before-get x (y ∷ ds) (suc c) d h e = Before-get x ds c d h.1 e

module _ (x : Text) where
  pub lower_code_lem :
      (ds : List Text) (c : ℕ) (d : Text)
      → IsDict ds
      → get_elem? ds c ≡ some d
      → ltb c (lower_code ds x) ≡ lt_text d x
  unfolding IsDict lower_code
  lower_code_lem [] c d h e = cc
  lower_code_lem (y ∷ ds) zero d h e = ground arith
  lower_code_lem (y ∷ ds) (suc c) d h e =
      ground (arith, lower_code_lem ds c d h.1 e, Before-get y ds c d h.0 e, lt_text_trans y d x)

  pub upper_code_lem :
      (ds : List Text) (c : ℕ) (d : Text)
      → IsDict ds
      → get_elem? ds c ≡ some d
      → ltb c (upper_code ds x) ≡ not (lt_text x d)
  unfolding IsDict upper_code
  upper_code_lem [] c d h e = cc
  upper_code_lem (y ∷ ds) zero d h e = ground arith
  upper_code_lem (y ∷ ds) (suc c) d h e =
      ground (arith, upper_code_lem ds c d h.1 e, Before-get y ds c d h.0 e, lt_text_trans x y d)

pub lt_text_asym : (x y : Text) → lt_text x y ≡ true → lt_text y x ≡ false
unfolding lt_text
lt_text_asym [] [] h = refl
lt_text_asym [] (b ∷ y) h = refl
lt_text_asym (a ∷ x) [] h = cc
lt_text_asym (a ∷ x) (b ∷ y) h = ground (arith, lt_text_asym x y)

not_before_trans : (x y z : Text) → lt_text y x ≡ false → lt_text z y ≡ false → lt_text z x ≡ false
unfolding lt_text
not_before_trans [] [] [] h k = refl
not_before_trans [] [] (c ∷ z) h k = refl
not_before_trans [] (b ∷ y) [] h k = refl
not_before_trans [] (b ∷ y) (c ∷ z) h k = refl
not_before_trans (a ∷ x) [] z h k = cc
not_before_trans (a ∷ x) (b ∷ y) [] h k = cc
not_before_trans (a ∷ x) (b ∷ y) (c ∷ z) h k = ground (arith, not_before_trans x y z)

lt_text_then : (x y z : Text) → lt_text x y ≡ true → lt_text z y ≡ false → lt_text x z ≡ true
unfolding lt_text
lt_text_then [] [] z h k = cc
lt_text_then [] (b ∷ y) [] h k = cc
lt_text_then [] (b ∷ y) (c ∷ z) h k = refl
lt_text_then (a ∷ x) [] z h k = cc
lt_text_then (a ∷ x) (b ∷ y) [] h k = cc
lt_text_then (a ∷ x) (b ∷ y) (c ∷ z) h k = ground (arith, lt_text_then x y z)

-- none of `ds` is before `x`
unfoldable pub NoneBefore : Text → List Text → Type 0
NoneBefore x [] = Unit
NoneBefore x (d ∷ ds) = (lt_text d x ≡ false) × NoneBefore x ds

unfoldable pub IsSorted : List Text → Type 0
IsSorted [] = Unit
IsSorted (d ∷ ds) = NoneBefore d ds × IsSorted ds

NoneBefore-trans :
    (x y : Text) (ds : List Text) → lt_text y x ≡ false → NoneBefore y ds → NoneBefore x ds
unfolding NoneBefore
NoneBefore-trans x y [] h k = tt
NoneBefore-trans x y (d ∷ ds) h k = (not_before_trans x y d h k.0, NoneBefore-trans x y ds h k.1)

insert_text-NoneBefore :
    (x y : Text) (ds : List Text)
    → lt_text y x ≡ false
    → NoneBefore x ds
    → NoneBefore x (insert_text y ds)
unfolding NoneBefore insert_text
insert_text-NoneBefore x y [] h k = (h, tt)
insert_text-NoneBefore x y (d ∷ ds) h k = ground (arith, insert_text-NoneBefore x y ds)

insert_text-IsSorted : (x : Text) (ds : List Text) → IsSorted ds → IsSorted (insert_text x ds)
unfolding IsSorted NoneBefore insert_text
insert_text-IsSorted x [] h = (tt, tt)
insert_text-IsSorted x (d ∷ ds) h = elim (Bool-cases (lt_text d x)) [
  | inl b ↦
      rw b (insert_text-NoneBefore d x ds (lt_text_asym d x b) h.0, insert_text-IsSorted x ds h.1)
  | inr b ↦ rw b ((b, NoneBefore-trans x d ds b h.0), h)
]

sort_texts-IsSorted : (xs : List Text) → IsSorted (sort_texts xs)
unfolding IsSorted sort_texts
sort_texts-IsSorted [] = tt
sort_texts-IsSorted (x ∷ xs) = insert_text-IsSorted x (sort_texts xs) (sort_texts-IsSorted xs)

unique_from-Before :
    (x d : Text) (ds : List Text)
    → lt_text x d ≡ true
    → NoneBefore d ds
    → IsSorted ds
    → Before x (unique_from d ds)
unfolding Before NoneBefore IsSorted unique_from
unique_from-Before x d [] h n s = (h, tt)
unique_from-Before x d (e ∷ ds) h n s =
    ground (arith, lt_text_then x d e, unique_from-Before x e ds)

unique_from-IsDict :
    (x : Text) (ds : List Text) → NoneBefore x ds → IsSorted ds → IsDict (unique_from x ds)
unfolding Before NoneBefore IsSorted unique_from IsDict
unique_from-IsDict x [] n s = (tt, tt)
unique_from-IsDict x (d ∷ ds) n s = elim (Bool-cases (same_text x d)) [
  | inl e ↦ rw e (unique_from-IsDict d ds s.0 s.1)
  | inr e ↦ rw e (
    unique_from-Before x d ds (lt_text_total d x n.0 (differ d x e)) s.0 s.1,
    unique_from-IsDict d ds s.0 s.1,
  )
]
  where
    differ : (d x : Text) → same_text x d ≡ false → same_text d x ≡ false
    differ d x e = elim (Bool-cases (same_text d x)) [
      | inl h ↦ absurd (
          ground (
            arith,
            same_text_eq d x h,
            same_text_refl x,
            subst (λ y. same_text x y ≡ true) (sym (same_text_eq d x h)) (same_text_refl x),
          ))
      | inr h ↦ h
    ]

unique_texts-IsDict : (ds : List Text) → IsSorted ds → IsDict (unique_texts ds)
unfolding unique_texts IsDict IsSorted
unique_texts-IsDict [] h = tt
unique_texts-IsDict (d ∷ ds) h = unique_from-IsDict d ds h.0 h.1

-- The dictionary of a column is strictly ascending.
pub dict_of-IsDict : (rows : List Text) → IsDict (dict_of rows)
unfolding dict_of
dict_of-IsDict rows = unique_texts-IsDict (sort_texts rows) (sort_texts-IsSorted rows)
