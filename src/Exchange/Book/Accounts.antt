-- ===== src/Exchange/Book/Accounts.antt =====
-- Which identifiers rest before and after an operation, and which the client is told of.
use tradingmarketsimulator.Prelude.{
  ℕ, ◌+◌, ◌-◌, ◌≤◌, ◌≡◌, refl, ◌∙◌, true, false, Option, some, List, [], arith, ◌==◌, ap, inl, inr,
  Option-cases, if◌then◌else◌, length,
}
use native.Mathlib.Decide.{ℕ_discrete}
use tradingmarketsimulator.Market.Price.{Price}
use tradingmarketsimulator.Structs.{
  Side, bid, ask, Order, is_valid, is_bid, opp_side, opposite, is_bid_side,
}
use tradingmarketsimulator.Exchange.SideMap.{SideMap}
use tradingmarketsimulator.Exchange.Book.{
  Book, Trade, get_container, set_container, insert_order, erase_id, remove, try_match,
  add_remainder, add,
}
use tradingmarketsimulator.Exchange.Book.Match.{count, occurs, tally, filled, count-residual}
use tradingmarketsimulator.Exchange.Book.Sorted.{count-insert_order, count-erase_id}
use tradingmarketsimulator.Exchange.Book.Sweep.{notify_all}
use tradingmarketsimulator.Exchange.Book.Invariant.{
  IsValid, IsIndexed, matched, matched_by, book-try_match,
}
use tradingmarketsimulator.Exchange.Book.Trades.{aggressor-try_match, client-try_match}
use tradingmarketsimulator.Exchange.Book.Add.{
  add_remainder_duplicate, add_remainder_full, add_remainder_inserted, add_cases,
}

-- How often an identifier rests, on both sides together.
abbrev pub rests : (M : SideMap) → ℕ → Book M → ℕ
rests M k b = count k b.bids + count k b.asks

module _ (M : SideMap) where
  pub rests-matched_by :
      (k : ℕ) (b : Book M) (side : Side) (price : Price) (qty : ℕ)
      → rests M k (matched_by M b side price qty)
          + occurs k (filled price (is_bid_side side) qty (get_container M b (opposite side)))
        ≡ rests M k b
  unfolding matched_by get_container set_container
  rests-matched_by k b bid price qty = omega (arith, count-residual k price true qty b.asks)
  rests-matched_by k b ask price qty = omega (arith, count-residual k price false qty b.bids)

  rests-insert :
      (k : ℕ) (b : Book M) (m : M.Map) (side : Side) (x : Order)
      → rests M k (
          set_container M
            (record b { order_ids_to_side = m })
            side
            (insert_order x (get_container M b side)))
        ≡ tally (x.id == k) + rests M k b
  unfolding get_container set_container
  rests-insert k b m bid x = omega (arith, count-insert_order k x b.bids)
  rests-insert k b m ask x = omega (arith, count-insert_order k x b.asks)

  rests-erase :
      (k : ℕ) (b : Book M) (m : M.Map) (side : Side) (id : ℕ)
      → IsIndexed M b
      → M.find b.order_ids_to_side id ≡ some side
      → rests M k (record (set_container M b side (erase_id id (get_container M b side))) {
        order_ids_to_side = m;
      })
        ≡ rests M k b - (if id == k then 1 else 0)
  unfolding get_container set_container
  rests-erase k b m bid id v e = ground (arith, count-erase_id k id b.bids, v k)
  rests-erase k b m ask id v e = ground (arith, count-erase_id k id b.asks, v k)

  pub rests-remove :
      (k : ℕ) (b : Book M) (id : ℕ)
      → IsIndexed M b
      → rests M k (remove M b id).1 ≡ rests M k b - (if id == k then 1 else 0)
  unfolding remove
  rests-remove k b id v = elim (Option-cases (M.find b.order_ids_to_side id)) [
    | inl e ↦ rw (e, remove) (ground (arith, v k))
    | inr (side, e) ↦ rw (e, remove) (rests-erase k b (M.erase b.order_ids_to_side id) side id v e)
  ]

  -- The identifiers that `add` fills: those of the front of the other side, if the order is valid.
  unfoldable pub fills : Book M → Order → List ℕ
  fills b o =
      if is_valid o then filled o.price (is_bid o) o.qty (get_container M b (opp_side o)) else []

  -- Only what rests is filled.
  pub occurs-fills-le : (k : ℕ) (b : Book M) (o : Order) → occurs k (fills b o) ≤ rests M k b
  unfolding fills opp_side is_bid
  occurs-fills-le k b o = ground (arith, rests-matched_by k b o.side o.price o.qty)

  module _ {S : Type 0} (fill_fn : Option (ℕ → S → S)) (size : ℕ) where
    pub rests-add_remainder :
        (k : ℕ) (t : Trade M S)
        → let r = add_remainder M fill_fn size t in
          (rests M k r.book
            ≡ (if r.added then tally (t.aggressor.id == k) else 0) + rests M k t.book)
          × (r.client ≡ t.client)
    rests-add_remainder k t = elim (Option-cases (M.find t.book.order_ids_to_side t.aggressor.id)) [
      | inr (side, e) ↦ rw (add_remainder_duplicate M fill_fn size t side e) (omega arith, refl)
      | inl e ↦ elim (ℕ_discrete (length (get_container M t.book t.aggressor.side)) size) [
        | yes full ↦ rw (add_remainder_full M fill_fn size t e full) (omega arith, refl)
        | no room ↦
            rw (add_remainder_inserted M fill_fn size t e room)
              (rests-insert k t.book _ t.aggressor.side t.aggressor, refl)
      ]
    ]

    -- In a valid book `add` accounts for every order: the client is told once of each identifier
    -- that a fill takes out, an accepted order rests under its own, and nothing else comes or goes.
    pub add_accounts :
        (b : Book M) (o : Order) (s : S)
        → IsValid M size b
        → let r = add M fill_fn size b o s in
          (r.client ≡ notify_all M fill_fn (fills b o) s)
          × ((k : ℕ)
              → rests M k r.book + occurs k (fills b o)
                ≡ (if r.added then tally (o.id == k) else 0) + rests M k b)
    unfolding fills matched opp_side is_bid
    add_accounts b o s v =
        let told = client-try_match M fill_fn b o s in
        let books = book-try_match M fill_fn b o s v.indexed in
        let orders = aggressor-try_match M fill_fn b o s in
        let t = try_match M fill_fn b o s in
        add_cases M fill_fn size
          (λ r.
            (r.client ≡ notify_all M fill_fn (fills b o) s)
            × ((k : ℕ)
                → rests M k r.book + occurs k (fills b o)
                  ≡ (if r.added then tally (o.id == k) else 0) + rests M k b))
          b o s (λ bad. rw bad (refl, λ k. omega arith))
          (λ ok _. rw ok (
            told,
            λ k. omega (arith, ap (rests M k) books, rests-matched_by k b o.side o.price o.qty),
          ))
          (λ ok _. rw ok (
            (rests-add_remainder 0 t).1 ∙ told,
            λ k. ground (
              arith,
              (rests-add_remainder k t).0,
              ap (rests M k) books,
              ap (λ (x : Order). x.id) orders,
              rests-matched_by k b o.side o.price o.qty,
            ),
          ))
