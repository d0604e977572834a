-- ===== src/Exchange/Session/Tests.antt =====
-- The theorems on a session, applied to one of a few rounds and to a book with one ask.
use tradingmarketsimulator.Prelude.{
  ℕ, subst, inl, ◌+◌, ◌-◌, ◌%◌, ◌^◌, ◌≤◌, ◌<◌, ◌≡◌, ◌↔◌, refl, true, false, not, ◌&&◌, Option, some,
  List, [], ◌∷◌, ◌++◌, min, ◌==◌, if◌then◌else◌, arith,
}
use tradingmarketsimulator.Prelude.Int.{ℤ, pos}
use tradingmarketsimulator.Market.Price.{is_more_cons}
use tradingmarketsimulator.Structs.{Side, bid, ask, Order, opp_side, is_bid, is_valid}
use tradingmarketsimulator.Samples.{entry_map, lowest, order, told}
use tradingmarketsimulator.Exchange.Book
use tradingmarketsimulator.Exchange.Book.{
  Book, match_loop, erase_id, goes_before, insert_order, has, get_container, set_container, remove,
  remove_all, try_match, add_remainder, add,
}
use tradingmarketsimulator.Exchange.Book.Invariant.{IsValid, init-IsValid}
use tradingmarketsimulator.Exchange.Book.Add.{add-IsValid}
use tradingmarketsimulator.Exchange.Generator.{
  Generator, generate_mm_order, generate_aggressor_order, side_prices,
}
use tradingmarketsimulator.Exchange.Session.{session_run}
use tradingmarketsimulator.Exchange.Session.Live.{AllResting}
use tradingmarketsimulator.Exchange.Session.Band.{InBand}
use tradingmarketsimulator.Exchange.Session.Prices.{session_prices}
use tradingmarketsimulator.Exchange.Session.Tracking.{IsTracked, session_stays-IsTracked}

abbrev generator : Generator lowest
generator = record {
  option = record { strike = pos 100; symbol = []; year = 26; month = 6; day = 19; flags = 1 };
  config = record {
    mid_price = pos 100;
    spread_half_width = pos 5;
    aggressor_offset = pos 1;
    mm_lot_max = 10;
    aggressor_lot_max = 5;
    aggressor_weight = 1;
    cancel_weight = 1;
  };
  live_orders = [];
  next_id = 0;
  world = 2;
}

session_stays-IsTracked_example :
    let (b, g) = session_run entry_map lowest 3 6 (Book.init entry_map) generator in
    IsTracked entry_map lowest 3 b g
session_stays-IsTracked_example = session_stays-IsTracked entry_map lowest 3 6 generator refl

abbrev quoted_book : Book entry_map
quoted_book = record { bids = []; asks = order ask 2 103 4 ∷ []; order_ids_to_side = (2, ask) ∷ [] }

abbrev quoting : Generator lowest
quoting = record generator { live_orders = order ask 2 103 4 ∷ [] }

add-init : (add entry_map told 3 (Book.init entry_map) (order ask 2 103 4) []).book ≡ quoted_book
unfolding add add_remainder try_match remove_all remove match_loop insert_order erase_id goes_before
    get_container set_container Book.init opp_side is_bid is_valid is_more_cons
    tradingmarketsimulator.Market.Price.is_valid
add-init = refl

quoted_book-IsTracked : IsTracked entry_map lowest 3 quoted_book quoting
quoted_book-IsTracked = record {
  valid = subst (IsValid entry_map 3) add-init (
      add-IsValid entry_map told 3 (Book.init entry_map) (order ask 2 103 4) []
        (init-IsValid entry_map 3));
  same = λ k. omega arith;
  agreed = (tt, (inl refl, tt));
}

abbrev hitter : Order
hitter = (generate_aggressor_order lowest bid quoting).0

quoting_asks : side_prices ask quoting.live_orders ≡ pos 103 ∷ []
unfolding side_prices
quoting_asks = refl

hitter-is_valid : is_valid hitter ≡ true
unfolding is_valid tradingmarketsimulator.Market.Price.is_valid generate_aggressor_order
    tradingmarketsimulator.Exchange.Generator.make_order tradingmarketsimulator.Prelude.Int.◌+ℤ◌
    tradingmarketsimulator.Exchange.Generator.best_ask
    tradingmarketsimulator.Exchange.Generator.min_price side_prices
hitter-is_valid = refl

-- The configuration of generator_main.cc
abbrev main_generator : Generator lowest
main_generator = record generator {
  config = record {
    mid_price = pos 2000;
    spread_half_width = pos 600;
    aggressor_offset = pos 400;
    mm_lot_max = 10;
    aggressor_lot_max = 20;
    aggressor_weight = 1;
    cancel_weight = 0;
  };
}

session_prices_example :
    let (b', g') = session_run entry_map lowest 10 8 (Book.init entry_map) main_generator in
    AllResting entry_map (λ o. InBand lowest main_generator.config o.side o.price) b'
    × ((side : Side)
        → InBand lowest main_generator.config side (generate_mm_order lowest side g').0.price)
    × ((side : Side)
        → InBand lowest main_generator.config side
            (generate_aggressor_order lowest side g').0.price)
session_prices_example =
    session_prices lowest entry_map 10 8 main_generator (omega arith, omega arith) refl
