-- ===== src/Exchange/Session.antt =====
-- src/mms/market_data/generator_main.cc: one thread that runs the generator against a book, which
-- tells the generator of every order that it fills.
pub mod Live
pub mod Tracking
pub mod Resting
pub mod Aggression
pub mod Band
pub mod Prices
pub mod Main
pub mod MainTests
pub mod Tests
use tradingmarketsimulator.Prelude.{ℕ, Bool, Option, some}
use tradingmarketsimulator.Structs.{Order}
use tradingmarketsimulator.Exchange.SideMap.{SideMap}
use tradingmarketsimulator.Exchange.Book
use tradingmarketsimulator.Exchange.Book.{Book}
use tradingmarketsimulator.Outside.{Outside}
use tradingmarketsimulator.Exchange.Generator.{Generator, notify_fill, round, run}

module _ (M : SideMap) (E : Outside) (size : ℕ) where
  -- `order_book.set_fill_fn([&order_gen](std::uint32_t id) { order_gen.notify_fill(id); })`
  unfoldable pub fill_fn : Option (ℕ → Generator E → Generator E)
  fill_fn = some (notify_fill E)

  -- `[&order_book](Order o) { return order_book.add(o); }`
  unfoldable pub add_fn : Order → Book M → Generator E → Bool × Book M × Generator E
  add_fn o b g = let r = Book.add M fill_fn size b o g in (r.added, r.book, r.client)

  -- `[&order_book](std::uint32_t id) { return order_book.remove(id); }`
  unfoldable pub remove_fn : ℕ → Book M → Generator E → Bool × Book M × Generator E
  remove_fn id b g = let (found, b') = Book.remove M b id in (found, b', g)

  unfoldable pub session_round : Book M → Generator E → Book M × Generator E
  session_round = round E add_fn remove_fn

  unfoldable pub session_run : ℕ → Book M → Generator E → Book M × Generator E
  session_run = run E add_fn remove_fn
