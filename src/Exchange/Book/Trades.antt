-- ===== src/Exchange/Book/Trades.antt =====
-- What `try_match` trades: how much, with whom, and what it leaves alone.
use tradingmarketsimulator.Prelude.{
  ℕ, ◌+◌, ◌-◌, ◌≡◌, refl, Bool, true, false, not, Option, List, [], ◌∷◌, ◌++◌, map, arith, All, ◌∙◌,
  ap, min,
}
use tradingmarketsimulator.Market.Price.{Price, is_more_cons}
use tradingmarketsimulator.Structs.{Side, bid, ask, Order, opposite, is_bid, is_bid_side, opp_side}
use tradingmarketsimulator.Exchange.SideMap.{SideMap}
use tradingmarketsimulator.Exchange.Book.{Book, match_loop, get_container, set_container, try_match}
use tradingmarketsimulator.Exchange.Book.Match.{
  residual, filled, depth, trades, with_qty, qty-match_loop, match_loop-aggressor,
  match_loop-removed,
}
use tradingmarketsimulator.Exchange.Book.Sorted.{IsSorted, NoWorse}
use tradingmarketsimulator.Exchange.Book.Sweep.{notify_all, remove_all-client}
use tradingmarketsimulator.Exchange.Book.Invariant.{matched_by}

abbrev pub total : List Order → ℕ
total [] = 0
total (o ∷ os) = o.qty + total os

abbrev pub ids : List Order → List ℕ
ids = map (λ o. o.id)

pub total-residual :
    (price : Price) (bids : Bool) (n : ℕ) (os : List Order)
    → total (residual price bids n os) + min n (depth price bids os) ≡ total os
total-residual price bids n [] = omega arith
total-residual price bids n (o ∷ os) =
    ground (arith, total-residual price bids n os, total-residual price bids (n - o.qty) os)

-- Behind an order that does not trade, in a sorted container on the other side, none does.
pub none_trades :
    (price : Price) (bids : Bool) (o : Order) (n : ℕ) (os : List Order)
    → trades o price bids ≡ false
    → All (λ p. NoWorse (not bids) o.price p.price) os
    → (filled price bids n os ≡ []) × (residual price bids n os ≡ os)
unfolding is_more_cons
none_trades price bids o n [] e h = (refl, refl)
none_trades price true o n (p ∷ os) e h = ground (arith, none_trades price true o n os e h.1)
none_trades price false o n (p ∷ os) e h = ground (arith, none_trades price false o n os e h.1)

-- The filled orders are the front of the queue.
pub filled-append-residual :
    (price : Price) (bids : Bool) (n : ℕ) (os : List Order)
    → IsSorted (not bids) os
    → filled price bids n os ++ ids (residual price bids n os) ≡ ids os
filled-append-residual price bids n [] h = refl
filled-append-residual price bids n (o ∷ os) h = ground (
  arith,
  filled-append-residual price bids n os h.1,
  filled-append-residual price bids (n - o.qty) os h.1,
  none_trades price bids o n os,
)

module _ (M : SideMap) where
  pub get_container-matched_opposite :
      (b : Book M) (side : Side) (price : Price) (qty : ℕ)
      → get_container M (matched_by M b side price qty) (opposite side)
        ≡ residual price (is_bid_side side) qty (get_container M b (opposite side))
  unfolding matched_by get_container set_container
  get_container-matched_opposite b bid price qty = refl
  get_container-matched_opposite b ask price qty = refl

  pub get_container-matched_own :
      (b : Book M) (side : Side) (price : Price) (qty : ℕ)
      → get_container M (matched_by M b side price qty) side ≡ get_container M b side
  unfolding matched_by get_container set_container
  get_container-matched_own b bid price qty = refl
  get_container-matched_own b ask price qty = refl

  -- The depth of the book against an aggressor.
  abbrev pub opposite_depth : Book M → Order → ℕ
  opposite_depth b a = depth a.price (is_bid a) (get_container M b (opp_side a))

  module _ {S : Type 0} (fill_fn : Option (ℕ → S → S)) where
    pub aggressor-try_match :
        (b : Book M) (a : Order) (s : S)
        → (try_match M fill_fn b a s).aggressor ≡ with_qty a (a.qty - opposite_depth b a)
    unfolding try_match
    aggressor-try_match b a s =
        let c = get_container M b (opp_side a) in
        match_loop-aggressor a c ∙ ap (with_qty a) (qty-match_loop a c)

    pub consumed_qty-try_match :
        (b : Book M) (a : Order) (s : S)
        → (try_match M fill_fn b a s).consumed_qty ≡ min a.qty (opposite_depth b a)
    unfolding try_match
    consumed_qty-try_match b a s = omega (arith, qty-match_loop a (get_container M b (opp_side a)))

    pub client-try_match :
        (b : Book M) (a : Order) (s : S)
        → (try_match M fill_fn b a s).client
          ≡ notify_all M fill_fn
              (filled a.price (is_bid a) a.qty (get_container M b (opp_side a)))
              s
    unfolding try_match
    client-try_match b a s =
        let c = get_container M b (opp_side a) in
        let m = match_loop a c in
        remove_all-client M fill_fn m.removed (set_container M b (opp_side a) m.container) s
        ∙ ap (λ is. notify_all M fill_fn is s) (match_loop-removed a c)
