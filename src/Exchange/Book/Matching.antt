-- ===== src/Exchange/Book/Matching.antt =====
-- The contract of `try_match`: quantity, conservation, and price priority.
use tradingmarketsimulator.Prelude.{ℕ, ◌+◌, ◌≡◌, not, Option, List, ◌++◌, min}
use tradingmarketsimulator.Structs.{Side, bid, ask, Order, opposite, is_bid, is_bid_side, opp_side}
use tradingmarketsimulator.Exchange.SideMap.{SideMap}
use tradingmarketsimulator.Exchange.Book.{Book, get_container, try_match}
use tradingmarketsimulator.Exchange.Book.Match.{filled}
use tradingmarketsimulator.Exchange.Book.Sorted.{IsSorted}
use tradingmarketsimulator.Exchange.Book.Sweep.{notify_all}
use tradingmarketsimulator.Exchange.Book.Invariant.{IsValid, matched, book-try_match}
use tradingmarketsimulator.Exchange.Book.Trades.{
  total, ids, total-residual, filled-append-residual, opposite_depth, consumed_qty-try_match,
  client-try_match, get_container-matched_opposite, get_container-matched_own,
}

get_container-IsSorted :
    (M : SideMap) (size : ℕ) (b : Book M) (side : Side)
    → IsValid M size b
    → IsSorted (not (is_bid_side side)) (get_container M b (opposite side))
unfolding get_container
get_container-IsSorted M size b bid v = v.asks_sorted
get_container-IsSorted M size b ask v = v.bids_sorted

module _ (M : SideMap) {S : Type 0} (fill_fn : Option (ℕ → S → S)) (size : ℕ) (b : Book M)
    (a : Order) (s : S) (v : IsValid M size b) where
  -- In a valid book `try_match` trades as much as the aggressor wants and the prices on the other
  -- side allow, takes exactly that quantity out of the other side, and leaves the own side alone.
  pub try_match_conserves :
      let t = try_match M fill_fn b a s in
      (t.consumed_qty ≡ min a.qty (opposite_depth M b a))
      × (total (get_container M t.book (opp_side a)) + t.consumed_qty
          ≡ total (get_container M b (opp_side a)))
      × (get_container M t.book a.side ≡ get_container M b a.side)
  unfolding matched opp_side is_bid
  try_match_conserves =
      let used = consumed_qty-try_match M fill_fn b a s in
      let books = book-try_match M fill_fn b a s v.indexed in
      let os = get_container M b (opp_side a) in
      (
        used,
        rw (used, books, get_container-matched_opposite M b a.side a.price a.qty)
            (total-residual a.price (is_bid a) a.qty os),
        rw books (get_container-matched_own M b a.side a.price a.qty),
      )

  -- In a valid book the orders that `try_match` fills are the front of the other side, best price
  -- first; `m_fill_fn` is called for each of them once and in that order; the rest keep their
  -- places.
  pub try_match_fills_front :
      let t = try_match M fill_fn b a s in
      (fills : List ℕ) × (t.client ≡ notify_all M fill_fn fills s)
      × (fills ++ ids (get_container M t.book (opp_side a)) ≡ ids (get_container M b (opp_side a)))
  unfolding matched opp_side is_bid
  try_match_fills_front =
      let os = get_container M b (opp_side a) in
      (
        filled a.price (is_bid a) a.qty os,
        client-try_match M fill_fn b a s,
        rw
            (
              book-try_match M fill_fn b a s v.indexed,
              get_container-matched_opposite M b a.side a.price a.qty,
            )
            (filled-append-residual a.price (is_bid a) a.qty os
              (get_container-IsSorted M size b a.side v)),
      )
