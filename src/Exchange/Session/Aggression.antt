-- ===== src/Exchange/Session/Aggression.antt =====
-- An aggressor of the generator trades whenever the other side is quoted.
use tradingmarketsimulator.Prelude.{
  ℕ, ◌+◌, ◌≤◌, ◌<◌, ◌≡◌, refl, sym, ap, ◌∙◌, true, List, ◌∷◌, arith, IsIn, inl, inr, min, not, ap₂,
  Option, Option-cases, length, subst,
}
use tradingmarketsimulator.Prelude.Int.{pos, ◌≤ℤ◌}
use tradingmarketsimulator.Market.Price.{Price, is_more_cons}
use tradingmarketsimulator.Structs.{Side, bid, ask, Order, opposite, is_valid, is_bid, opp_side}
use tradingmarketsimulator.Exchange.SideMap.{SideMap}
use tradingmarketsimulator.Exchange.Book.{
  Book, Trade, get_container, set_container, try_match, add_remainder, add,
}
use tradingmarketsimulator.Exchange.Book.Match.{trades}
use tradingmarketsimulator.Exchange.Book.Invariant.{IsValid}
use tradingmarketsimulator.Exchange.Book.Trades.{total, opposite_depth, aggressor-try_match}
use native.Mathlib.Decide.{ℕ_discrete}
use tradingmarketsimulator.Exchange.Book.Add.{
  add_remainder_duplicate, add_remainder_full, add_remainder_inserted, add_cases,
}
use tradingmarketsimulator.Exchange.Book.Matching.{try_match_conserves}
use tradingmarketsimulator.Outside.{Outside}
use tradingmarketsimulator.Exchange.Generator.{
  Generator, side_prices, generate_aggressor_order, make_order,
}
use tradingmarketsimulator.Exchange.Generator.Orders.{aggressor_is_bid, aggressor_reaches-IsBest}
use tradingmarketsimulator.Exchange.Session.{fill_fn}
use tradingmarketsimulator.Exchange.Session.Resting.{
  side_prices-IsIn, depth_positive, qty_of_valid, live_rests,
}
use tradingmarketsimulator.Exchange.Session.Tracking.{IsTracked}

module _ (M : SideMap) (E : Outside) (size : ℕ) where
  -- The side, and a quantity of at least one
  pub generated :
      (side : Side) (g : Generator E)
      → 1 ≤ g.config.aggressor_lot_max
      → let o = (generate_aggressor_order E (opposite side) g).0 in
        (is_bid o ≡ aggressor_is_bid side) × (opp_side o ≡ side) × (1 ≤ o.qty)
  unfolding generate_aggressor_order make_order is_bid opp_side
  generated bid g lot = (refl, refl, (E.draw_nat_bounds 1 g.config.aggressor_lot_max g.world lot).0)
  generated ask g lot = (refl, refl, (E.draw_nat_bounds 1 g.config.aggressor_lot_max g.world lot).0)

  aggressor_depth :
      (b : Book M) (g : Generator E) (side : Side) (p : Price) (ps : List Price)
      → IsTracked M E size b g
      → pos 0 ≤ℤ g.config.aggressor_offset
      → 1 ≤ g.config.aggressor_lot_max
      → side_prices side g.live_orders ≡ p ∷ ps
      → let o = (generate_aggressor_order E (opposite side) g).0 in 0 < opposite_depth M b o
  aggressor_depth b g side p ps t sure lot e =
      let o = (generate_aggressor_order E (opposite side) g).0 in
      let (bids, other, _) = generated side g lot in
      let (best, (_, _, among), reaches) = aggressor_reaches-IsBest E side g p ps sure e in
      let (l, there, on_side, l_price) =
        side_prices-IsIn side g.live_orders best (subst (IsIn best) (sym e) among) in
      let (x, here, x_price, ok) = live_rests M E size b g l t there in
      let in_place : IsIn x (get_container M b (opp_side o)) =
        subst (λ d. IsIn x (get_container M b d)) (on_side ∙ sym other) here in
      let reached : trades x o.price (is_bid o) ≡ true =
        ap not (ap₂ (is_more_cons o.price) (x_price ∙ l_price) bids ∙ reaches) in
      depth_positive o.price (is_bid o) (get_container M b (opp_side o)) x in_place reached
        (qty_of_valid x ok)

  same_container :
      (b : Book M) (m : M.Map) (side : Side)
      → get_container M (record b { order_ids_to_side = m }) side ≡ get_container M b side
  unfolding get_container
  same_container b m bid = refl
  same_container b m ask = refl

  other_container :
      (b : Book M) (m : M.Map) (side : Side) (os : List Order)
      → get_container M
          (set_container M (record b { order_ids_to_side = m }) side os)
          (opposite side)
        ≡ get_container M b (opposite side)
  unfolding get_container set_container
  other_container b m bid os = refl
  other_container b m ask os = refl

  -- The rest of an order goes to its own side.
  other_side-add_remainder :
      {S : Type 0} (fill_fn : Option (ℕ → S → S)) (t : Trade M S)
      → get_container M (add_remainder M fill_fn size t).book (opposite t.aggressor.side)
        ≡ get_container M t.book (opposite t.aggressor.side)
  other_side-add_remainder fill_fn t =
      elim (Option-cases (M.find t.book.order_ids_to_side t.aggressor.id)) [
        | inr (side, e) ↦ rw (add_remainder_duplicate M fill_fn size t side e) refl
        | inl e ↦ elim (ℕ_discrete (length (get_container M t.book t.aggressor.side)) size) [
          | yes full ↦
              rw (add_remainder_full M fill_fn size t e full)
                (same_container t.book _ (opposite t.aggressor.side))
          | no room ↦
              rw (add_remainder_inserted M fill_fn size t e room)
                (other_container t.book _ t.aggressor.side _)
        ]
      ]

  total-add :
      {S : Type 0} (fill_fn : Option (ℕ → S → S)) (b : Book M) (o : Order) (s : S)
      → IsValid M size b
      → is_valid o ≡ true
      → total (get_container M (add M fill_fn size b o s).book (opp_side o))
          + min o.qty (opposite_depth M b o)
        ≡ total (get_container M b (opp_side o))
  unfolding opp_side
  total-add fill_fn b o s v ok =
      let t = try_match M fill_fn b o s in
      let (used, taken, _) = try_match_conserves M fill_fn size b o s v in
      let conserved : total (get_container M t.book (opp_side o)) + min o.qty (opposite_depth M b o)
          ≡ total (get_container M b (opp_side o)) =
        omega (arith, used, taken) in
      let own : t.aggressor.side ≡ o.side =
        ap (λ (x : Order). x.side) (aggressor-try_match M fill_fn b o s) in
      let kept : get_container M (add_remainder M fill_fn size t).book (opp_side o)
          ≡ get_container M t.book (opp_side o) =
        subst
          (λ d.
            get_container M (add_remainder M fill_fn size t).book (opposite d)
            ≡ get_container M t.book (opposite d))
          own (other_side-add_remainder fill_fn t) in
      add_cases M fill_fn size
        (λ r.
          total (get_container M r.book (opp_side o)) + min o.qty (opposite_depth M b o)
          ≡ total (get_container M b (opp_side o)))
        b o s (λ bad. absurd cc) (λ _ _. conserved)
        (λ _ _. ap (λ os. total os + min o.qty (opposite_depth M b o)) kept ∙ conserved)

  -- In a session, where the generator's live orders are those that rest, an aggressor that the generator
  -- makes against a side with live orders always trades, if its offset is not negative, its lots are at
  -- least one and it is valid: when it is added, that side of the book gets smaller by what it takes,
  -- which is more than nothing.
  pub aggressor_trades :
      (b : Book M) (g : Generator E) (side : Side) (p : Price) (ps : List Price)
      → IsTracked M E size b g
      → pos 0 ≤ℤ g.config.aggressor_offset
      → 1 ≤ g.config.aggressor_lot_max
      → side_prices side g.live_orders ≡ p ∷ ps
      → let (o, g') = generate_aggressor_order E (opposite side) g in
        is_valid o ≡ true
        → let r = add M (fill_fn M E size) size b o g' in
          (0 < min o.qty (opposite_depth M b o))
          × (total (get_container M r.book side) + min o.qty (opposite_depth M b o)
              ≡ total (get_container M b side))
  aggressor_trades b g side p ps t sure lot e ok =
      let (o, g') = generate_aggressor_order E (opposite side) g in
      let (_, other, some_qty) = generated side g lot in
      let deep = aggressor_depth b g side p ps t sure lot e in
      (
        omega (arith, deep, some_qty),
        subst
            (λ d.
              total (get_container M (add M (fill_fn M E size) size b o g').book d)
                + min o.qty (opposite_depth M b o)
              ≡ total (get_container M b d))
            other (total-add (fill_fn M E size) b o g' t.valid ok),
      )
