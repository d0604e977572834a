-- ===== src/Exchange/Tests.antt =====
-- The theorems on the exchange, applied to a small book and to a session of a few rounds.
use tradingmarketsimulator.Prelude.{
  ℕ, ◌+◌, ◌-◌, ◌≡◌, ◌↔◌, refl, true, false, not, ◌&&◌, some, List, [], ◌∷◌, ◌++◌, min, ◌==◌,
  if◌then◌else◌, arith,
}
use tradingmarketsimulator.Market.Price.{is_more_cons}
use tradingmarketsimulator.Structs.{Side, bid, ask, Order, opp_side, is_bid, is_valid}
use tradingmarketsimulator.Samples.{entry_map, order, told}
use tradingmarketsimulator.Exchange.Book
use tradingmarketsimulator.Exchange.Book.{
  Book, match_loop, erase_id, goes_before, insert_order, has, get_container, set_container, remove,
  remove_all, try_match, add_remainder, add,
}
use tradingmarketsimulator.Exchange.Book.Match.{tally, occurs, with_qty}
use tradingmarketsimulator.Exchange.Book.Sweep.{notify_all}
use tradingmarketsimulator.Exchange.Book.Invariant.{IsValid, init-IsValid}
use tradingmarketsimulator.Exchange.Book.Trades.{total, ids, opposite_depth}
use tradingmarketsimulator.Exchange.Book.Preservation.{remove-IsValid}
use tradingmarketsimulator.Exchange.Book.Add.{add-IsValid}
use tradingmarketsimulator.Exchange.Book.Matching.{try_match_conserves, try_match_fills_front}
use tradingmarketsimulator.Exchange.Book.Admission.{Admits, add_iff}
use tradingmarketsimulator.Exchange.Book.Lookup.{resting_total, without, remove_lem, remove-add}
use tradingmarketsimulator.Exchange.Book.Priority.{
  StandsFirst, add-StandsFirst, newest_trades_first,
}
use tradingmarketsimulator.Exchange.Book.Accounts.{rests, fills, add_accounts}
use tradingmarketsimulator.Exchange.Book.Levels.Removal.{order_of}
use tradingmarketsimulator.Exchange.Book.Refinement.{
  view, enter, place, add_refines, remove_refines,
}

abbrev with_order : Book entry_map → Order → Book entry_map
with_order b o = (add entry_map told 3 b o []).book

abbrev book_1 : Book entry_map
book_1 = with_order (Book.init entry_map) (order bid 1 100 5)

abbrev book_2 : Book entry_map
book_2 = with_order book_1 (order ask 2 103 4)

abbrev seller : Order
seller = order ask 3 99 8

abbrev buyer : Order
buyer = order bid 4 100 6

book_1-IsValid : IsValid entry_map 3 book_1
book_1-IsValid =
    add-IsValid entry_map told 3 (Book.init entry_map) (order bid 1 100 5) []
      (init-IsValid entry_map 3)

book_2-IsValid : IsValid entry_map 3 book_2
book_2-IsValid = add-IsValid entry_map told 3 book_1 (order ask 2 103 4) [] book_1-IsValid

-- Eight offered at 99 take the bid of five at 100, and three rest.
sell_through : (add entry_map told 3 book_2 seller []).client ≡ 1 ∷ []
unfolding add add_remainder try_match remove_all remove match_loop insert_order erase_id goes_before
    get_container set_container Book.init opp_side is_bid is_valid is_more_cons
    tradingmarketsimulator.Market.Price.is_valid
sell_through = refl

buyer_rests : (add entry_map told 3 book_2 buyer []).added ≡ true
unfolding add add_remainder try_match remove_all remove match_loop insert_order erase_id goes_before
    get_container set_container Book.init opp_side is_bid is_valid is_more_cons
    tradingmarketsimulator.Market.Price.is_valid
buyer_rests = refl

buyer_alone : opposite_depth entry_map book_2 buyer ≡ 0
unfolding add add_remainder try_match remove_all remove match_loop insert_order erase_id goes_before
    get_container set_container Book.init opp_side is_bid is_valid is_more_cons
    tradingmarketsimulator.Market.Price.is_valid
buyer_alone = refl

add-IsValid_example : IsValid entry_map 3 (add entry_map told 3 book_2 seller []).book
add-IsValid_example = add-IsValid entry_map told 3 book_2 seller [] book_2-IsValid

add_accounts_example :
    let r = add entry_map told 3 book_2 seller [] in
    (r.client ≡ notify_all entry_map told (fills entry_map book_2 seller) [])
    × ((k : ℕ)
        → rests entry_map k r.book + occurs k (fills entry_map book_2 seller)
          ≡ (if r.added then tally (seller.id == k) else 0) + rests entry_map k book_2)
add_accounts_example = add_accounts entry_map told 3 book_2 seller [] book_2-IsValid

try_match_conserves_example :
    let t = try_match entry_map told book_2 seller [] in
    (t.consumed_qty ≡ min seller.qty (opposite_depth entry_map book_2 seller))
    × (total (get_container entry_map t.book (opp_side seller)) + t.consumed_qty
        ≡ total (get_container entry_map book_2 (opp_side seller)))
    × (get_container entry_map t.book seller.side ≡ get_container entry_map book_2 seller.side)
try_match_conserves_example = try_match_conserves entry_map told 3 book_2 seller [] book_2-IsValid

try_match_fills_front_example :
    let t = try_match entry_map told book_2 seller [] in
    (fills : List ℕ) × (t.client ≡ notify_all entry_map told fills [])
    × (fills ++ ids (get_container entry_map t.book (opp_side seller))
        ≡ ids (get_container entry_map book_2 (opp_side seller)))
try_match_fills_front_example =
    try_match_fills_front entry_map told 3 book_2 seller [] book_2-IsValid

add_iff_example :
    ((add entry_map told 3 book_2 seller []).added ≡ true) ↔ Admits entry_map 3 book_2 seller
add_iff_example = add_iff entry_map told 3 book_2 seller [] book_2-IsValid

remove-IsValid_example : IsValid entry_map 3 (remove entry_map book_2 2).1
remove-IsValid_example = remove-IsValid entry_map 3 book_2 2 book_2-IsValid

remove_lem_example :
    let r = remove entry_map book_2 2 in
    (r.0 ≡ has entry_map book_2 2)
    × ((side : Side)
        → get_container entry_map r.1 side ≡ without 2 (get_container entry_map book_2 side))
    × ((k : ℕ) → has entry_map r.1 k ≡ (has entry_map book_2 k && not (k == 2)))
    × (resting_total entry_map r.1 + (if has entry_map book_2 2 then 1 else 0)
        ≡ resting_total entry_map book_2)
remove_lem_example = remove_lem entry_map 3 book_2 2 book_2-IsValid

remove-add_example :
    let r = remove entry_map (add entry_map told 3 book_2 buyer []).book 4 in
    (r.0 ≡ true)
    × ((side : Side) → get_container entry_map r.1 side ≡ get_container entry_map book_2 side)
    × ((k : ℕ) → entry_map.find r.1.order_ids_to_side k ≡ entry_map.find book_2.order_ids_to_side k)
remove-add_example =
    remove-add entry_map told 3 book_2 buyer [] book_2-IsValid buyer_rests buyer_alone

add-StandsFirst_example :
    StandsFirst true
      (with_qty buyer (6 - opposite_depth entry_map book_2 buyer))
      (get_container entry_map book_2 bid)
      (get_container entry_map (add entry_map told 3 book_2 buyer []).book bid)
unfolding is_bid
add-StandsFirst_example =
    add-StandsFirst entry_map told 3 book_2 buyer [] book_2-IsValid buyer_rests

-- The bid of 1 came first, and the seller of two takes from the later bid of 4.
newest_trades_first_example :
    let hit = order ask 9 100 2 in
    let t = try_match entry_map told (add entry_map told 3 book_2 buyer []).book hit [] in
    get_container entry_map t.book bid
    ≡ with_qty buyer (6 - opposite_depth entry_map book_2 buyer - 2) ∷ order bid 1 100 5 ∷ []
unfolding add add_remainder try_match remove_all remove match_loop insert_order erase_id goes_before
    get_container set_container Book.init opp_side is_bid is_valid is_more_cons
    tradingmarketsimulator.Market.Price.is_valid
newest_trades_first_example =
    newest_trades_first entry_map told 3 book_2 buyer [] book_2-IsValid (order bid 1 100 5) []
      (order ask 9 100 2) buyer_rests refl refl refl refl (omega arith)

add_refines_example :
    let r = add entry_map told 3 book_2 seller [] in
    view entry_map r.book ≡ enter r.added seller (view entry_map book_2)
add_refines_example = add_refines entry_map told 3 book_2 seller [] book_2-IsValid

remove_refines_example :
    let (found, b) = remove entry_map book_2 2 in
    (found ≡ false → view entry_map b ≡ view entry_map book_2)
    × (found ≡ true
        → (x : Order) × (order_of 2 (get_container entry_map book_2 x.side) ≡ some x)
          × (place true x (view entry_map b) ≡ view entry_map book_2))
remove_refines_example = remove_refines entry_map 3 book_2 2 book_2-IsValid
