-- ===== src/Prelude/Chains.antt =====
-- Lists whose neighbours are related.
use mathlib.Core.List.{List, [], ◌∷◌, ◌++◌}

-- Each two neighbours are related.
abbrev pub Next : {A : Type 0} → (A → A → Type 0) → A → List A → Type 0
Next R x [] = Unit
Next R x (y ∷ ys) = R x y

abbrev pub Chain : {A : Type 0} → (A → A → Type 0) → List A → Type 0
Chain R [] = Unit
Chain R (x ∷ xs) = Next R x xs × Chain R xs

-- The last element, if there is one, has the property.
abbrev pub Last : {A : Type 0} → (A → Type 0) → List A → Type 0
Last P [] = Unit
Last P (x ∷ []) = P x
Last P (x ∷ y ∷ ys) = Last P (y ∷ ys)

pub Last-append :
    {A : Type 0} (P : A → Type 0) (xs : List A) (a : A) → P a → Last P (xs ++ (a ∷ []))
Last-append P [] a h = h
Last-append P (x ∷ []) a h = h
Last-append P (x ∷ y ∷ ys) a h = Last-append P (y ∷ ys) a h

pub Last-map :
    {A : Type 0} (P Q : A → Type 0) (xs : List A) → ((a : A) → P a → Q a) → Last P xs → Last Q xs
Last-map P Q [] f h = h
Last-map P Q (x ∷ []) f h = f x h
Last-map P Q (x ∷ y ∷ ys) f h = Last-map P Q (y ∷ ys) f h

pub Chain-append :
    {A : Type 0} (R : A → A → Type 0) (xs : List A) (a : A)
    → Chain R xs
    → Last (λ x. R x a) xs
    → Chain R (xs ++ (a ∷ []))
Chain-append R [] a c h = (tt, tt)
Chain-append R (x ∷ []) a c h = (h, (tt, tt))
Chain-append R (x ∷ y ∷ ys) a c h = (c.0, Chain-append R (y ∷ ys) a c.1 h)
