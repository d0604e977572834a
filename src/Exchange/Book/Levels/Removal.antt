-- ===== src/Exchange/Book/Levels/Removal.antt =====
-- What a removal does to the levels.
use tradingmarketsimulator.Prelude.{
  ℕ, ◌<◌, ◌≡◌, refl, Bool, true, false, List, [], ◌∷◌, arith, if◌then◌else◌, All, Option, none,
  some, ◌==◌, ap, ◌∙◌, sym, Bool-cases, if-cases_eq, subst, ◌⊎◌, inl, inr,
}
use tradingmarketsimulator.Prelude.Int.{eq_of_parts}
use tradingmarketsimulator.Market.Price.{Price}
use tradingmarketsimulator.Structs.{Order}
use tradingmarketsimulator.Exchange.Book.{erase_id, goes_before}
use tradingmarketsimulator.Exchange.Book.Match.{count}
use tradingmarketsimulator.Exchange.Book.Sorted.{IsSorted, NoWorse, erase_id-All}
use tradingmarketsimulator.Exchange.Book.Levels.{
  Level, join_level, by_price, put_level, put_level-join_level,
}

-- The first order with the identifier, which `erase_id` takes out.
abbrev pub order_of : ℕ → List Order → Option Order
order_of id [] = none
order_of id (o ∷ os) = let rest = order_of id os in if o.id == id then some o else rest

put_level_first :
    (bids : Bool) (p : Price) (q : ℕ) (os : List Order)
    → All (λ o. NoWorse bids p o.price) os
    → put_level bids p q (by_price os) ≡ join_level p q (by_price os)
unfolding goes_before
put_level_first bids p q [] h = refl
put_level_first true p q (o ∷ os) h =
    ground (arith, put_level-join_level true p q o.price o.qty (by_price os))
put_level_first false p q (o ∷ os) h =
    ground (arith, put_level-join_level false p q o.price o.qty (by_price os))

join_level_comm :
    (p : Price) (q n : ℕ) (ls : List Level)
    → join_level p q (join_level p n ls) ≡ join_level p n (join_level p q ls)
join_level_comm p q n [] = ground arith
join_level_comm p q n ((r, m) ∷ ls) = ground arith

order_of-cons :
    (id : ℕ) (o : Order) (os : List Order) (x : Order)
    → order_of id (o ∷ os) ≡ some x
    → (((o.id == id) ≡ true) × (o ≡ x)) ⊎ (((o.id == id) ≡ false) × (order_of id os ≡ some x))
order_of-cons id o os x e = elim (Bool-cases (o.id == id)) [
  | inl here ↦ inl (here, ground arith)
  | inr later ↦ inr (later, ground arith)
]

pub order_of-found :
    (id : ℕ) (os : List Order)
    → 0 < count id os
    → (x : Order) × (order_of id os ≡ some x) × (x.id ≡ id)
order_of-found id [] h = absurd (omega arith)
order_of-found id (o ∷ os) h = elim (Bool-cases (o.id == id)) [
  | inl here ↦ (o, rw here refl, ground arith)
  | inr later ↦ let r = order_of-found id os (ground arith) in (r.0, (rw later r.1), r.2)
]

pub order_of-All :
    (P : Order → Type 0) (id : ℕ) (os : List Order) (x : Order)
    → order_of id os ≡ some x
    → All P os
    → P x
order_of-All P id [] x e h = absurd (cc)
order_of-All P id (o ∷ os) x e h = elim (order_of-cons id o os x e) [
  | inl (here, same) ↦ subst P same h.0
  | inr (later, e') ↦ order_of-All P id os x e' h.1
]

same_price : (bids : Bool) (p x : Price) → goes_before bids p x ≡ true → NoWorse bids p x → p ≡ x
unfolding goes_before
same_price true p x e h = eq_of_parts p x (ground arith)
same_price false p x e h = eq_of_parts p x (ground arith)

-- Removal, seen by price, undoes insertion: the quantity of the order, put back at its price, gives
-- the levels that were there.
pub put_level-erase_id :
    (bids : Bool) (id : ℕ) (os : List Order) (x : Order)
    → IsSorted bids os
    → order_of id os ≡ some x
    → put_level bids x.price x.qty (by_price (erase_id id os)) ≡ by_price os
unfolding erase_id
put_level-erase_id bids id [] x s e = absurd (cc)
put_level-erase_id bids id (o ∷ os) x s e = elim (order_of-cons id o os x e) [
  | inl (here, same) ↦ rw here (
      subst
        (λ y. put_level bids y.price y.qty (by_price os) ≡ join_level o.price o.qty (by_price os))
        same (put_level_first bids o.price o.qty os s.0))
  | inr (later, e') ↦
      let ls = by_price (erase_id id os) in
      let ih = put_level-erase_id bids id os x s.1 e' in
      let after = order_of-All (λ p. NoWorse bids o.price p.price) id os x e' s.0 in
      rw later (
        put_level-join_level bids x.price x.qty o.price o.qty ls
        ∙ if-cases_eq (λ r. r ≡ join_level o.price o.qty (by_price os))
            (goes_before bids o.price x.price)
            (λ first.
              let same = same_price bids o.price x.price first after in
              let front : put_level bids x.price x.qty ls ≡ join_level x.price x.qty ls =
                put_level_first bids x.price x.qty (erase_id id os) (
                  subst (λ p. All (λ r. NoWorse bids p r.price) (erase_id id os)) same
                    (erase_id-All (λ r. NoWorse bids o.price r.price) id os s.0)) in
              ap (λ p. join_level x.price x.qty (join_level p o.qty ls)) same
              ∙ join_level_comm x.price x.qty o.qty ls
              ∙ ap (λ p. join_level p o.qty (join_level x.price x.qty ls)) (sym same)
              ∙ ap (join_level o.price o.qty) (sym front ∙ ih))
            (λ behind. ap (join_level o.price o.qty) ih))
]
