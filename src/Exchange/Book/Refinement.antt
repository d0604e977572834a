-- ===== src/Exchange/Book/Refinement.antt =====
-- The operations of the book against the book by price: whatever `add` and `remove` do to orders is
-- what the abstract operations do to levels.
use tradingmarketsimulator.Prelude.{
  ℕ, ◌-◌, ◌<◌, ◌≡◌, refl, Bool, true, false, Option, some, List, [], ◌∷◌, arith, if◌then◌else◌, All,
  All-map, length, ap, ap₂, ◌∙◌, inl, inr, Option-cases,
}
use native.Mathlib.Decide.{ℕ_discrete}
use tradingmarketsimulator.Market.Price.{Price}
use tradingmarketsimulator.Structs.{
  Side, bid, ask, Order, opposite, is_bid, is_bid_side, opp_side, is_valid,
}
use tradingmarketsimulator.Exchange.SideMap.{SideMap}
use tradingmarketsimulator.Exchange.Book.{
  Book, Trade, get_container, set_container, insert_order, try_match, add_remainder, add, remove,
}
use tradingmarketsimulator.Exchange.Book.Match.{with_qty}
use tradingmarketsimulator.Exchange.Book.Invariant.{
  IsValid, IsResting, matched, matched_by, book-try_match,
}
use tradingmarketsimulator.Exchange.Book.Trades.{opposite_depth, aggressor-try_match}
use tradingmarketsimulator.Exchange.Book.Sweep.{sweep, remove_found}
use tradingmarketsimulator.Exchange.Book.Levels.Removal.{
  order_of, order_of-found, order_of-All, put_level-erase_id,
}
use tradingmarketsimulator.Exchange.Book.Add.{
  entered, add_remainder_duplicate, add_remainder_full, add_remainder_inserted, add_cases,
}
use tradingmarketsimulator.Exchange.Book.Levels.{
  Level, by_price, take_levels, level_depth, put_level, level_depth-by_price, by_price-residual,
  by_price-insert_order,
}

-- A book by price: of each side its levels, best first.
pub record PriceBook : Type 0 where
  pub bids : List Level
  pub asks : List Level

abbrev pub levels_of : PriceBook → Side → List Level
levels_of l bid = l.bids
levels_of l ask = l.asks

abbrev pub with_levels : PriceBook → Side → List Level → PriceBook
with_levels l bid ls = record l { bids = ls }
with_levels l ask ls = record l { asks = ls }

-- An order takes the levels within its price on the other side.
abbrev pub trade : Side → Price → ℕ → PriceBook → PriceBook
trade side price qty l =
    with_levels l (opposite side)
      (take_levels price (is_bid_side side) qty (levels_of l (opposite side)))

-- An order whose rest is accepted adds its quantity at its price.
abbrev pub place : Bool → Order → PriceBook → PriceBook
place accepted o l =
    if accepted
    then with_levels l o.side (put_level (is_bid_side o.side) o.price o.qty (levels_of l o.side))
    else l

-- The abstract `add`: nothing for an invalid order, else the trade, and what is left of the order.
-- Whether that is accepted depends on what the levels forget.
abbrev pub enter : Bool → Order → PriceBook → PriceBook
enter accepted o l =
    let left = o.qty - level_depth o.price (is_bid_side o.side) (levels_of l (opposite o.side)) in
    if is_valid o then place accepted (with_qty o left) (trade o.side o.price o.qty l) else l

resting_qty : (side : Side) (os : List Order) → All (IsResting side) os → All (λ o. 0 < o.qty) os
unfolding is_valid
resting_qty side os h = All-map (IsResting side) (λ o. 0 < o.qty) os (λ o r. ground arith) h

module _ (M : SideMap) where
  -- What of the book the abstract book shows
  abbrev pub view : Book M → PriceBook
  view b = record { bids = by_price b.bids; asks = by_price b.asks }

  view-matched_by :
      (size : ℕ) (b : Book M) (side : Side) (price : Price) (qty : ℕ)
      → IsValid M size b
      → view (matched_by M b side price qty) ≡ trade side price qty (view b)
  unfolding matched_by get_container set_container
  view-matched_by size b bid price qty v =
      ap (λ ls. record { bids = by_price b.bids; asks = ls })
        (by_price-residual price true qty b.asks v.asks_sorted
          (resting_qty ask b.asks v.asks_resting))
  view-matched_by size b ask price qty v =
      ap (λ ls. record { bids = ls; asks = by_price b.asks })
        (by_price-residual price false qty b.bids v.bids_sorted
          (resting_qty bid b.bids v.bids_resting))

  view-insert :
      (b : Book M) (m : M.Map) (side : Side) (x : Order)
      → view (
          set_container M
            (record b { order_ids_to_side = m })
            side
            (insert_order x (get_container M b side)))
        ≡ with_levels (view b) side (put_level (is_bid x) x.price x.qty (levels_of (view b) side))
  unfolding get_container set_container
  view-insert b m bid x = ap (λ ls. record (view b) { bids = ls }) (by_price-insert_order x b.bids)
  view-insert b m ask x = ap (λ ls. record (view b) { asks = ls }) (by_price-insert_order x b.asks)

  levels_of-view :
      (b : Book M) (side : Side) → levels_of (view b) side ≡ by_price (get_container M b side)
  unfolding get_container
  levels_of-view b bid = refl
  levels_of-view b ask = refl

  depth-view :
      (b : Book M) (o : Order)
      → level_depth o.price (is_bid_side o.side) (levels_of (view b) (opposite o.side))
        ≡ opposite_depth M b o
  unfolding opp_side is_bid
  depth-view b o =
      ap (level_depth o.price (is_bid_side o.side)) (levels_of-view b (opposite o.side))
      ∙ level_depth-by_price o.price (is_bid_side o.side) (get_container M b (opposite o.side))

  module _ {S : Type 0} (fill_fn : Option (ℕ → S → S)) (size : ℕ) where
    view-add_remainder :
        (t : Trade M S)
        → let r = add_remainder M fill_fn size t in
          view r.book ≡ place r.added t.aggressor (view t.book)
    unfolding is_bid
    view-add_remainder t = elim (Option-cases (M.find t.book.order_ids_to_side t.aggressor.id)) [
      | inr (side, e) ↦ rw (add_remainder_duplicate M fill_fn size t side e) refl
      | inl e ↦ elim (ℕ_discrete (length (get_container M t.book t.aggressor.side)) size) [
        | yes full ↦ rw (add_remainder_full M fill_fn size t e full) refl
        | no room ↦
            rw (add_remainder_inserted M fill_fn size t e room)
              (view-insert t.book (entered M fill_fn size t) t.aggressor.side t.aggressor)
      ]
    ]

    -- The book refines the book by price: in a valid book, whatever order is added, the levels are
    -- afterwards those that the abstract operation gives.
    pub add_refines :
        (b : Book M) (o : Order) (s : S)
        → IsValid M size b
        → let r = add M fill_fn size b o s in view r.book ≡ enter r.added o (view b)
    unfolding matched is_bid
    add_refines b o s v =
        let t = try_match M fill_fn b o s in
        let traded : view t.book ≡ trade o.side o.price o.qty (view b) =
          ap view (book-try_match M fill_fn b o s v.indexed)
          ∙ view-matched_by size b o.side o.price o.qty v in
        add_cases M fill_fn size (λ r. view r.book ≡ enter r.added o (view b)) b o s
          (λ bad. rw bad refl) (λ ok _. rw ok traded)
          (λ ok _.
            let added = (add_remainder M fill_fn size t).added in
            rw (ok, depth-view b o)
              (view-add_remainder t
                ∙ ap₂ (place added) (aggressor-try_match M fill_fn b o s) traded))

  -- An order of this identifier rests on this side, and putting it back undoes its removal.
  IsUndone : Book M → ℕ → Side → Type 0
  IsUndone b id side =
      (x : Order) × (order_of id (get_container M b side) ≡ some x)
      × (x.side ≡ side)
      × (place true x (view (sweep M side (id ∷ []) b)) ≡ view b)

  view-sweep :
      (size : ℕ) (b : Book M) (id : ℕ) (side : Side)
      → IsValid M size b
      → M.find b.order_ids_to_side id ≡ some side
      → IsUndone b id side
  unfolding IsUndone get_container set_container
  view-sweep size b id bid v e =
      let r = order_of-found id b.bids (ground (arith, v.indexed id)) in
      let (x, found, _) = r in
      let own : x.side ≡ bid = (order_of-All (IsResting bid) id b.bids x found v.bids_resting).0 in
      let l = view (sweep M bid (id ∷ []) b) in
      (
        x,
        found,
        own,
        ap (λ d. with_levels l d (put_level (is_bid_side d) x.price x.qty (levels_of l d))) own
            ∙ ap (λ ls. record (view b) { bids = ls })
                (put_level-erase_id true id b.bids x v.bids_sorted found),
      )
  view-sweep size b id ask v e =
      let r = order_of-found id b.asks (ground (arith, v.indexed id)) in
      let (x, found, _) = r in
      let own : x.side ≡ ask = (order_of-All (IsResting ask) id b.asks x found v.asks_resting).0 in
      let l = view (sweep M ask (id ∷ []) b) in
      (
        x,
        found,
        own,
        ap (λ d. with_levels l d (put_level (is_bid_side d) x.price x.qty (levels_of l d))) own
            ∙ ap (λ ls. record (view b) { asks = ls })
                (put_level-erase_id false id b.asks x v.asks_sorted found),
      )

  -- Removal, seen by price, is the inverse of insertion: in a valid book, an identifier that is found
  -- is that of an order on its side, and this order put back at its price gives the levels that were
  -- there. An identifier that is not found changes nothing.
  pub remove_refines :
      (size : ℕ) (b : Book M) (id : ℕ)
      → IsValid M size b
      → let (found, b') = remove M b id in
        (found ≡ false → view b' ≡ view b)
        × (found ≡ true
            → (x : Order) × (order_of id (get_container M b x.side) ≡ some x)
              × (place true x (view b') ≡ view b))
  unfolding IsUndone remove get_container
  remove_refines size b id v = elim (Option-cases (M.find b.order_ids_to_side id)) [
    | inl e ↦ rw (e, remove) (λ _. refl, λ h. absurd (cc))
    | inr (side, e) ↦
        let (x, found, own, undone) = view-sweep size b id side v e in
        rw (remove_found M b id side e) (λ h. absurd (cc), λ _. (x, (rw own found), undone))
  ]
