-- ===== src/Exchange/Book/Priority.antt =====
-- Where `add` puts an order among those of its price, and who trades first then.
use tradingmarketsimulator.Prelude.{
  ℕ, ◌-◌, ◌<◌, ◌≡◌, refl, sym, ◌∙◌, Bool, true, false, Option, List, [], ◌∷◌, ◌++◌, arith, All,
  All-map, ap, inl, inr, Bool-cases,
}
use tradingmarketsimulator.Prelude.Int.{◌<ℤ◌}
use tradingmarketsimulator.Market.Price.{Price, is_more_cons}
use tradingmarketsimulator.Structs.{Side, bid, ask, Order, is_bid, opp_side, is_bid_side}
use tradingmarketsimulator.Exchange.SideMap.{SideMap}
use tradingmarketsimulator.Exchange.Book.{
  Book, get_container, insert_order, goes_before, try_match, add,
}
use tradingmarketsimulator.Exchange.Book.Match.{residual, with_qty}
use tradingmarketsimulator.Exchange.Book.Sorted.{IsSorted, NoWorse}
use tradingmarketsimulator.Exchange.Book.Invariant.{IsValid, matched, book-try_match}
use tradingmarketsimulator.Exchange.Book.Trades.{opposite_depth, get_container-matched_opposite}
use tradingmarketsimulator.Exchange.Book.Add.{add-IsValid}
use tradingmarketsimulator.Exchange.Book.Admission.{add_rests}

-- The first price is strictly better for a resting order of this side.
abbrev pub IsBetter : Bool → Price → Price → Type 0
IsBetter true p q = q <ℤ p
IsBetter false p q = p <ℤ q

-- A list with `x` put between the strictly better prices and all others, equal ones included.
pub record StandsFirst (bids : Bool) (x : Order) (os result : List Order) : Type 0 where
  pub before : List Order
  pub behind : List Order
  pub split : os ≡ before ++ behind
  pub placed : result ≡ before ++ x ∷ behind
  pub better : All (λ o. IsBetter bids o.price x.price) before
  pub not_better : All (λ o. NoWorse bids x.price o.price) behind

IsBetter-of_goes_before : (s : Bool) (p q : Price) → goes_before s p q ≡ false → IsBetter s p q
unfolding goes_before
IsBetter-of_goes_before true p q e = ground arith
IsBetter-of_goes_before false p q e = ground arith

NoWorse-of_goes_before :
    (s : Bool) (p q r : Price) → goes_before s p q ≡ true → NoWorse s p r → NoWorse s q r
unfolding goes_before
NoWorse-of_goes_before true p q r e h = ground arith
NoWorse-of_goes_before false p q r e h = ground arith

NoWorse-head : (s : Bool) (p : Price) → NoWorse s p p
NoWorse-head true p = omega arith
NoWorse-head false p = omega arith

insert_order-StandsFirst :
    (x : Order) (os : List Order)
    → IsSorted (is_bid x) os
    → StandsFirst (is_bid x) x os (insert_order x os)
unfolding insert_order
insert_order-StandsFirst x [] h = record {
  before = [];
  behind = [];
  split = refl;
  placed = refl;
  better = tt;
  not_better = tt;
}
insert_order-StandsFirst x (o ∷ os) h =
    let s = is_bid x in
    elim (Bool-cases (goes_before s o.price x.price)) [
      | inl e ↦
          let behind = NoWorse-of_goes_before s o.price x.price in
          record {
            before = [];
            behind = o ∷ os;
            split = refl;
            placed = rw (e, insert_order);
            better = tt;
            not_better = (
              behind o.price e (NoWorse-head s o.price),
              All-map _ _ os (λ p. behind p.price e) h.0,
            );
          }
      | inr e ↦
          let r = insert_order-StandsFirst x os h.1 in
          record {
            before = o ∷ r.before;
            behind = r.behind;
            split = ap (◌∷◌ o) r.split;
            placed = rw (e, insert_order) (ap (◌∷◌ o) r.placed);
            better = (IsBetter-of_goes_before s o.price x.price e, r.better);
            not_better = r.not_better;
          }
    ]

get_container-IsSorted :
    (M : SideMap) (size : ℕ) (b : Book M) (side : Side)
    → IsValid M size b
    → IsSorted (is_bid_side side) (get_container M b side)
unfolding get_container
get_container-IsSorted M size b bid v = v.bids_sorted
get_container-IsSorted M size b ask v = v.asks_sorted

-- Behind an equal price at the front, the new order is the front, and is hit first.
residual-insert_order :
    (x p : Order) (rest : List Order) (price : Price) (bids : Bool) (n : ℕ)
    → p.price ≡ x.price
    → is_more_cons price x.price bids ≡ false
    → n < x.qty
    → residual price bids n (insert_order x (p ∷ rest)) ≡ with_qty x (x.qty - n) ∷ p ∷ rest
unfolding insert_order goes_before
residual-insert_order x p rest price bids n e hits less = ground arith

module _ (M : SideMap) {S : Type 0} (fill_fn : Option (ℕ → S → S)) (size : ℕ) (b : Book M)
    (o : Order) (s : S) (v : IsValid M size b) where
  -- In a valid book an order that rests goes behind the strictly better prices of its side and in
  -- front of all other orders, those of the same price that came earlier included.
  pub add-StandsFirst :
      (add M fill_fn size b o s).added ≡ true
      → StandsFirst
          (is_bid o)
          (with_qty o (o.qty - opposite_depth M b o))
          (get_container M b o.side)
          (get_container M (add M fill_fn size b o s).book o.side)
  unfolding is_bid
  add-StandsFirst h = rw (add_rests M fill_fn size b o s v h).0 (
      insert_order-StandsFirst (with_qty o (o.qty - opposite_depth M b o))
        (get_container M b o.side) (get_container-IsSorted M size b o.side v))

  module _ (p : Order) (rest : List Order) (a : Order) where
    -- So time priority is the reverse of what a price-time book gives: in a valid book, with `p`
    -- at the front of a side, a new order that rests at the price of `p` is hit first, and an
    -- aggressor that wants less than it takes all from the new order and nothing from `p`.
    pub newest_trades_first :
        (add M fill_fn size b o s).added ≡ true
        → get_container M b o.side ≡ p ∷ rest
        → p.price ≡ o.price
        → opp_side a ≡ o.side
        → is_more_cons a.price o.price (is_bid a) ≡ false
        → a.qty < o.qty - opposite_depth M b o
        → let t = try_match M fill_fn (add M fill_fn size b o s).book a s in
          get_container M t.book o.side
          ≡ with_qty o (o.qty - opposite_depth M b o - a.qty) ∷ p ∷ rest
    unfolding matched opp_side is_bid
    newest_trades_first h front same facing hits less =
        let b' = (add M fill_fn size b o s).book in
        let v' = add-IsValid M fill_fn size b o s v in
        let left = with_qty o (o.qty - opposite_depth M b o) in
        ap (get_container M (try_match M fill_fn b' a s).book) (sym facing)
        ∙ ap (λ c. get_container M c (opp_side a)) (book-try_match M fill_fn b' a s v'.indexed)
        ∙ get_container-matched_opposite M b' a.side a.price a.qty
        ∙ ap (residual a.price (is_bid_side a.side) a.qty) (
            ap (get_container M b') facing
            ∙ (add_rests M fill_fn size b o s v h).0
            ∙ ap (insert_order left) front)
        ∙ residual-insert_order left p rest a.price (is_bid a) a.qty same hits less
