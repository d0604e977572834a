-- ===== src/Exchange/Session/MainTests.antt =====
-- The theorems on the market of the program, applied to its first rounds.
use tradingmarketsimulator.Prelude.{◌+◌, ◌<◌, ◌≡◌, refl, [], ◌∷◌, min}
use tradingmarketsimulator.Prelude.Int.{pos, ◌+ℤ◌, ◌-ℤ◌}
use tradingmarketsimulator.Market.Price.{Price, is_more_cons}
use tradingmarketsimulator.Market.Price
use tradingmarketsimulator.Structs.{Side, bid, ask, opp_side, is_bid, is_valid}
use tradingmarketsimulator.Samples.{entry_map, lowest}
use tradingmarketsimulator.Exchange.Book
use tradingmarketsimulator.Exchange.Book.{
  Book, match_loop, erase_id, goes_before, insert_order, has, get_container, set_container, remove,
  remove_all, try_match, add_remainder, add,
}
use tradingmarketsimulator.Exchange.Book.Invariant.{IsValid}
use tradingmarketsimulator.Exchange.Book.Trades.{total, opposite_depth}
use tradingmarketsimulator.Exchange.Generator.{
  side_prices, generate_mm_order, generate_aggressor_order, submit, quote, cancel, aggress, round,
  run, track, make_order, best_bid, best_ask, untrack, notify_fill, pick_cancel_id,
}
use tradingmarketsimulator.Exchange.Session.{fill_fn, add_fn, remove_fn, session_round, session_run}
use tradingmarketsimulator.Exchange.Session.Live.{AllResting}
use tradingmarketsimulator.Exchange.Session.Main.{
  main_size, MainBand, main_generator, main_run, main_keeps_band, main_aggressor_trades,
}

main_keeps_band_example :
    let (b, g) = main_run entry_map lowest 1 0 4 2 in
    IsValid entry_map main_size b
    × AllResting entry_map (λ o. MainBand o.side o.price) b
    × ((side : Side) → MainBand side (generate_mm_order lowest side g).0.price)
    × ((side : Side) → MainBand side (generate_aggressor_order lowest side g).0.price)
main_keeps_band_example = main_keeps_band entry_map lowest 1 0 4 2

-- After three rounds an ask rests at 20.01.
quoted : side_prices ask (main_run entry_map lowest 1 0 3 2).1.live_orders ≡ pos 2001 ∷ []
unfolding side_prices main_run main_generator session_run run session_round round fill_fn add_fn
    remove_fn quote aggress cancel submit track make_order generate_mm_order
    generate_aggressor_order best_bid best_ask add add_remainder try_match remove_all remove
    match_loop insert_order erase_id goes_before get_container set_container Book.init opp_side
    is_bid is_valid is_more_cons Price.is_valid ◌+ℤ◌ ◌-ℤ◌ untrack notify_fill pick_cancel_id has
    tradingmarketsimulator.Exchange.Generator.min_price
quoted = refl

main_aggressor_trades_example :
    let (b, g) = main_run entry_map lowest 1 0 3 2 in
    let (o, g') = generate_aggressor_order lowest bid g in
    let r = add entry_map (fill_fn entry_map lowest main_size) main_size b o g' in
    (0 < min o.qty (opposite_depth entry_map b o))
    × (total (get_container entry_map r.book ask) + min o.qty (opposite_depth entry_map b o)
        ≡ total (get_container entry_map b ask))
main_aggressor_trades_example =
    main_aggressor_trades entry_map lowest 1 0 3 2 ask (pos 2001) [] quoted
