-- ===== src/Prelude/Picked.antt =====
-- A list whose elements come from those of another, in order and each from one of its own.
use tradingmarketsimulator.Prelude.Lists.{All}
use mathlib.Core.List.{List, [], ◌∷◌, ◌++◌, map}
use mathlib.Core.Logic.{◌⊎◌, inl, inr}

module _ {A B : Type 0} (R : A → B → Type 0) where
  abbrev pub Picks : List A → List B → Type 0
  Picks xs [] = Unit
  Picks [] (b ∷ bs) = ⊥
  Picks (x ∷ xs) (b ∷ bs) = (R x b × Picks xs bs) ⊎ Picks xs (b ∷ bs)

  -- More to pick from
  pub Picks-more : (xs ys : List A) (bs : List B) → Picks xs bs → Picks (xs ++ ys) bs
  Picks-more xs ys [] h = tt
  Picks-more [] ys (b ∷ bs) h = absurd h
  Picks-more (x ∷ xs) ys (b ∷ bs) (inl (r, h)) = inl (r, Picks-more xs ys bs h)
  Picks-more (x ∷ xs) ys (b ∷ bs) (inr h) = inr (Picks-more xs ys (b ∷ bs) h)

  Picks-last : (xs : List A) (a : A) (b : B) → R a b → Picks (xs ++ (a ∷ [])) (b ∷ [])
  Picks-last [] a b r = inl (r, tt)
  Picks-last (x ∷ xs) a b r = inr (Picks-last xs a b r)

  -- One more, picked from one more
  pub Picks-append :
      (xs : List A) (bs : List B) (a : A) (b : B)
      → R a b
      → Picks xs bs
      → Picks (xs ++ (a ∷ [])) (bs ++ (b ∷ []))
  Picks-append xs [] a b r h = Picks-last xs a b r
  Picks-append [] (c ∷ bs) a b r h = absurd h
  Picks-append (x ∷ xs) (c ∷ bs) a b r (inl (s, h)) = inl (s, Picks-append xs bs a b r h)
  Picks-append (x ∷ xs) (c ∷ bs) a b r (inr h) = inr (Picks-append xs (c ∷ bs) a b r h)

  -- Fewer picks
  pub Picks-front : (xs : List A) (bs cs : List B) → Picks xs (bs ++ cs) → Picks xs bs
  Picks-front xs [] cs h = tt
  Picks-front [] (b ∷ bs) cs h = absurd h
  Picks-front (x ∷ xs) (b ∷ bs) cs (inl (r, h)) = inl (r, Picks-front xs bs cs h)
  Picks-front (x ∷ xs) (b ∷ bs) cs (inr h) = inr (Picks-front xs (b ∷ bs) cs h)

-- The picks under another relation, or as the values of a function
pub Picks-map :
    {A B C : Type 0} (R : A → B → Type 0) (S : A → C → Type 0) (f : B → C)
    → ((a : A) (b : B) → R a b → S a (f b))
    → (xs : List A) (bs : List B) → Picks R xs bs
    → Picks S xs (map f bs)
Picks-map R S f g xs [] h = tt
Picks-map R S f g [] (b ∷ bs) h = absurd h
Picks-map R S f g (x ∷ xs) (b ∷ bs) (inl (r, h)) = inl (g x b r, Picks-map R S f g xs bs h)
Picks-map R S f g (x ∷ xs) (b ∷ bs) (inr h) = inr (Picks-map R S f g xs (b ∷ bs) h)

pub Picks-of_map :
    {A B C : Type 0} (R : A → B → Type 0) (S : A → C → Type 0) (f : B → C)
    → ((a : A) (b : B) → S a (f b) → R a b)
    → (xs : List A) (bs : List B) → Picks S xs (map f bs)
    → Picks R xs bs
Picks-of_map R S f g xs [] h = tt
Picks-of_map R S f g [] (b ∷ bs) h = absurd h
Picks-of_map R S f g (x ∷ xs) (b ∷ bs) (inl (r, h)) = inl (g x b r, Picks-of_map R S f g xs bs h)
Picks-of_map R S f g (x ∷ xs) (b ∷ bs) (inr h) = inr (Picks-of_map R S f g xs (b ∷ bs) h)

-- What is picked from what was picked
pub Picks-trans :
    {A B C : Type 0} (R : A → B → Type 0) (S : B → C → Type 0) (xs : List A) (ys : List B)
    (zs : List C)
    → Picks R xs ys
    → Picks S ys zs
    → Picks (λ a c. (b : B) × R a b × S b c) xs zs
Picks-trans R S xs ys [] h k = tt
Picks-trans R S xs [] (z ∷ zs) h k = absurd k
Picks-trans R S [] (y ∷ ys) (z ∷ zs) h k = absurd h
Picks-trans R S (x ∷ xs) (y ∷ ys) (z ∷ zs) (inl (r, h)) (inl (s, k)) =
    inl ((y, r, s), Picks-trans R S xs ys zs h k)
Picks-trans R S (x ∷ xs) (y ∷ ys) (z ∷ zs) (inl (r, h)) (inr k) =
    inr (Picks-trans R S xs ys (z ∷ zs) h k)
Picks-trans R S (x ∷ xs) (y ∷ ys) (z ∷ zs) (inr h) k =
    inr (Picks-trans R S xs (y ∷ ys) (z ∷ zs) h k)

-- The picks with what holds of all that they are picked from, under a relation that follows
pub Picks-All :
    {A B : Type 0} (P : A → Type 0) (R S : A → B → Type 0)
    → ((a : A) (b : B) → P a → R a b → S a b)
    → (xs : List A) (ys : List B) → All P xs
    → Picks R xs ys
    → Picks S xs ys
Picks-All P R S f xs [] p h = tt
Picks-All P R S f [] (y ∷ ys) p h = absurd h
Picks-All P R S f (x ∷ xs) (y ∷ ys) p (inl (r, h)) =
    inl (f x y p.0 r, Picks-All P R S f xs ys p.1 h)
Picks-All P R S f (x ∷ xs) (y ∷ ys) p (inr h) = inr (Picks-All P R S f xs (y ∷ ys) p.1 h)
