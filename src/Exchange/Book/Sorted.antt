-- ===== src/Exchange/Book/Sorted.antt =====
-- The order of a container, and the predicates on its orders, through matching, insertion and
-- removal.
use tradingmarketsimulator.Prelude.{
  ℕ, ◌+◌, ◌-◌, ◌≤◌, ◌<◌, ◌≡◌, refl, Bool, true, false, List, [], ◌∷◌, arith, All, All-map, length,
  inl, inr, ◌==◌, Bool-cases, if◌then◌else◌,
}
use tradingmarketsimulator.Prelude.Int.{◌≤ℤ◌}
use tradingmarketsimulator.Market.Price.{Price, is_more_cons}
use tradingmarketsimulator.Structs.{Order, is_bid}
use tradingmarketsimulator.Exchange.Book.{erase_id, insert_order, goes_before}
use tradingmarketsimulator.Exchange.Book.Match.{residual, depth, count, tally}

-- The first price is at least as good for a resting order of this side as the second.
abbrev pub NoWorse : Bool → Price → Price → Type 0
NoWorse true p q = q ≤ℤ p
NoWorse false p q = p ≤ℤ q

-- Best price first.
abbrev pub IsSorted : Bool → List Order → Type 0
IsSorted bids [] = Unit {0}
IsSorted bids (o ∷ os) = All (λ p. NoWorse bids o.price p.price) os × IsSorted bids os

-- A predicate that a smaller quantity keeps.
abbrev pub IgnoresQty : (Order → Type 0) → Type 0
IgnoresQty P = (o : Order) (n : ℕ) → n < o.qty → P o → P (record o { qty = o.qty - n })

pub residual-All :
    (P : Order → Type 0) (keep : IgnoresQty P) (price : Price) (bids : Bool) (n : ℕ)
    (os : List Order)
    → All P os
    → All P (residual price bids n os)
residual-All P keep price bids n [] h = h
residual-All P keep price bids n (o ∷ os) h = ground (
  arith,
  keep o n,
  residual-All P keep price bids n os h.1,
  residual-All P keep price bids (n - o.qty) os h.1,
)

pub residual-IsSorted :
    (side : Bool) (price : Price) (bids : Bool) (n : ℕ) (os : List Order)
    → IsSorted side os
    → IsSorted side (residual price bids n os)
residual-IsSorted side price bids n [] h = h
residual-IsSorted side price bids n (o ∷ os) h = ground (
  arith,
  residual-IsSorted side price bids n os h.1,
  residual-IsSorted side price bids (n - o.qty) os h.1,
  residual-All (λ p. NoWorse side o.price p.price) (λ _ _ _ k. k) price bids n os h.0,
)

pub length-residual-le :
    (price : Price) (bids : Bool) (n : ℕ) (os : List Order)
    → length (residual price bids n os) ≤ length os
length-residual-le price bids n [] = omega arith
length-residual-le price bids n (o ∷ os) =
    ground (arith, length-residual-le price bids n os, length-residual-le price bids (n - o.qty) os)

-- Where the aggressor outlasts the depth, no order is left that trades with it.
pub residual_exhausted :
    (price : Price) (bids : Bool) (n : ℕ) (os : List Order)
    → depth price bids os < n
    → All (λ o. is_more_cons price o.price bids ≡ true) (residual price bids n os)
residual_exhausted price bids n [] h = tt
residual_exhausted price bids n (o ∷ os) h =
    ground (arith, residual_exhausted price bids n os, residual_exhausted price bids (n - o.qty) os)

pub insert_order-All :
    (P : Order → Type 0) (x : Order) (os : List Order) → P x → All P os → All P (insert_order x os)
unfolding insert_order
insert_order-All P x [] hx h = (hx, h)
insert_order-All P x (o ∷ os) hx h = ground (arith, insert_order-All P x os hx h.1)

pub length-insert_order : (x : Order) (os : List Order) → length (insert_order x os) ≡ length os + 1
unfolding insert_order
length-insert_order x [] = omega arith
length-insert_order x (o ∷ os) = ground (arith, length-insert_order x os)

pub count-insert_order :
    (k : ℕ) (x : Order) (os : List Order)
    → count k (insert_order x os) ≡ tally (x.id == k) + count k os
unfolding insert_order
count-insert_order k x [] = refl
count-insert_order k x (o ∷ os) = ground (arith, count-insert_order k x os)

NoWorse-trans : (s : Bool) (p q r : Price) → NoWorse s p q → NoWorse s q r → NoWorse s p r
NoWorse-trans true p q r h k = omega arith
NoWorse-trans false p q r h k = omega arith

goes_before-true : (s : Bool) (p q : Price) → goes_before s p q ≡ true → NoWorse s q p
unfolding goes_before
goes_before-true true p q h = ground arith
goes_before-true false p q h = ground arith

goes_before-false : (s : Bool) (p q : Price) → goes_before s p q ≡ false → NoWorse s p q
unfolding goes_before
goes_before-false true p q h = ground arith
goes_before-false false p q h = ground arith

-- `insert_order` keeps the best price first.
pub insert_order-IsSorted :
    (x : Order) (os : List Order) → IsSorted (is_bid x) os → IsSorted (is_bid x) (insert_order x os)
unfolding insert_order
insert_order-IsSorted x [] h = (tt, tt)
insert_order-IsSorted x (o ∷ os) h = elim (Bool-cases (goes_before (is_bid x) o.price x.price)) [
  | inl e ↦
      let better = goes_before-true (is_bid x) o.price x.price e in
      rw e ((better, All-map _ _ os (λ p. NoWorse-trans (is_bid x) _ _ p.price better) h.0), h)
  | inr e ↦ rw e (
    insert_order-All _ x os (goes_before-false (is_bid x) o.price x.price e) h.0,
    insert_order-IsSorted x os h.1,
  )
]

pub erase_id-All : (P : Order → Type 0) (k : ℕ) (os : List Order) → All P os → All P (erase_id k os)
unfolding erase_id
erase_id-All P k [] h = h
erase_id-All P k (o ∷ os) h = ground (arith, erase_id-All P k os h.1)

pub erase_id-IsSorted :
    (s : Bool) (k : ℕ) (os : List Order) → IsSorted s os → IsSorted s (erase_id k os)
unfolding erase_id
erase_id-IsSorted s k [] h = h
erase_id-IsSorted s k (o ∷ os) h =
    ground
      (arith, erase_id-IsSorted s k os h.1, erase_id-All (λ p. NoWorse s o.price p.price) k os h.0)

pub length-erase_id : (k : ℕ) (os : List Order) → length (erase_id k os) ≤ length os
unfolding erase_id
length-erase_id k [] = omega arith
length-erase_id k (o ∷ os) = ground (arith, length-erase_id k os)

-- The first order with the identifier goes, and no other.
pub count-erase_id :
    (j k : ℕ) (os : List Order) → count j (erase_id k os) ≡ count j os - (if k == j then 1 else 0)
unfolding erase_id
count-erase_id j k [] = ground arith
count-erase_id j k (o ∷ os) = ground (arith, count-erase_id j k os)
