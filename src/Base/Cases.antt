-- ===== src/Base/Cases.antt =====
-- The two forms of an option and of a sum, with the equation.
use tcp_labs.Base.{◌≡◌, refl, ◌⊎◌, inl, inr, List, [], ◌∷◌, Option, none, some}

pub option-cases : {A : Type 0} → (o : Option A) → ((o ≡ none) ⊎ ((x : A) × (o ≡ some x)))
option-cases none = inl refl
option-cases (some x) = inr (x, refl)

pub sum-cases : {A B : Type 0} → (o : A ⊎ B) → (((x : A) × (o ≡ inl x)) ⊎ ((y : B) × (o ≡ inr y)))
sum-cases (inl x) = inl (x, refl)
sum-cases (inr y) = inr (y, refl)

pub list-cases :
    {A : Type 0} → (xs : List A) → ((xs ≡ []) ⊎ ((x : A) × (rest : List A) × (xs ≡ x ∷ rest)))
list-cases [] = inl refl
list-cases (x ∷ rest) = inr (x, rest, refl)
