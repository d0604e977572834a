-- ===== src/Lib.antt =====
-- A verification library for the trading market simulator: an option exchange with its order
-- generator, a feed of depth messages over UDP, and a client that trades on ticks over TCP.
--
-- The parts, and the files that model them:
--
-- * Price and Structs model include/mms/market/Price.hh (in Market/Price) and the structs of
--   include/mms/structs/Structs.hh. A price is an integer; a symbol is a list of bytes.
-- * Exchange/Book is include/mms/exchange/OptionOrderBook.hh: `add`, `remove`, `try_match` and `has`
--   on a record of two sorted lists and the map from identifiers to sides. The map
--   (robin_hood::unordered_flat_map) is the parameter `SideMap` of Exchange/SideMap, with the laws
--   that its documentation gives. The callback `m_fill_fn` acts on a state `S` of the client. The
--   children hold the lemmas: Match (the loop of `try_match`), Sweep (the removal of filled orders),
--   Invariant, Preservation and Add (the invariant), Matching, Admission, Lookup, Priority and
--   Accounts. Levels is the abstract book, a list of quantities by price, and Refinement relates the
--   book to it. Exchange/Display is the formatter of a book, and of an order, over texts as lists of
--   character codes (Prelude/Decimal prints numbers); Display/Columns has a reader that knows the
--   columns only, and Display/Table reads the rows with it.
-- * Exchange/Generator is include/mms/exchange/OptionOrderGenerator.hh and
--   src/mms/exchange/OptionOrderGenerator.cc, over the parameter `Outside` (random draws within
--   their bounds, floats, ticks). Exchange/Session joins it to a book as
--   src/mms/market_data/generator_main.cc does. Exchange/Session/Tracking, with Live, relates the
--   two states, and Aggression, with Resting, follows an aggressor of the generator into the book.
--   Session/Band and Session/Prices bound the prices of a session by its configuration; Session/Main
--   is the market that the program sets up.
-- * MarketData/Wire is the encoding of a depth message (`_serialize`, `_deserialize`, the readers
--   and writers), MarketData/DepthGenerator and MarketData/DepthConsumer are
--   src/mms/market_data/MarketDepthGenerator.cc and MarketDepthConsumer.cc with their headers. The
--   queue fiah::SPSCQueue is the parameter `Spsc`, and a call of `recv` is a function from what it
--   is allowed to what it answers. A write beyond the buffer is the result `none`.
--   MarketData/Display holds the words that src/mms/market_data/consumer_main.cc prints of a
--   message, and MarketData/ConsumerMain is the loop of that program and its receiving thread, which
--   take turns in any order; ConsumerMain/Feed follows the messages from the generator to the
--   printed lines.
-- * Client/Strategy, Client/Pipeline and Client/Lifecycle are src/mms/app/Core.cc,
--   src/mms/app/Controller.cc and src/mms/market/MarketFeed.cc. The network, strategy and execution
--   threads take steps in any order (`Step`, `Run`): a step is one round of a loop. Doubles and the
--   TCP client are the parameters `Doubles` and `Tcp`. The lists `got`, `handled`, `pushed` and
--   `executed` hold what the program logs. Pipeline/Ticks and Pipeline/Delivery follow the ticks and
--   the orders, Lifecycle/Flags and Lifecycle/Start the flags of the core, Pipeline/Reconnect shows
--   how the loop of the network thread ends. Pipeline/Launch is the state that the threads start
--   from, Pipeline/Origin follows an order back to its tick, and Pipeline/Stale is about the memory
--   of a signal. Pipeline/Frame says which fields the steps of a thread write, and Pipeline/Drain
--   empties the queues. Client/Shutdown splits the round of the network thread at its wait in
--   `recv`. Pipeline/Reads compares the ticks with the answers of `recv`, whose record is the
--   parameter `Journal`, and Pipeline/Stream takes the ticks as bytes, in the parameter `Layout`.
-- * Programs is src/mms/client/main.cc and src/mms/server/main.cc, from the command line to the exit
--   status, over the parameter `System` (paths, the configuration of fiah::Config, connecting,
--   listening). The end of `Core` is its destructor and the order in which its members go.
-- * DepthBook is include/mms/structs/OptionDepthBook.hh on a store of arrays by address.
-- * Server is the side of the server in src/mms/app/Core.cc (`generate_market_data`, the loops of
--   `work_server`): a step is a round of the loop that accepts or of the one that sends.
--   Server/Start is how `work_server` and `Controller::start_server` begin. The socket and the
--   random draws are the parameter `Network`.
-- * Trading sets the client of Client/Pipeline against the server of Server.
-- * Errors is include/mms/error: the enumerations and the text of CoreException, over native
--   strings.
-- * Options is src/mms/options: the pay-offs, the distribution function `N` and the prices of an
--   option, over the parameter `Floats` with the laws of IEEE 754 that are used.
-- * Prelude holds what the others share, Samples concrete instances of the parameters, and the
--   modules Tests the examples.
--
-- Numbers are natural numbers with the wrap-around written out (`% 2 ^ 16`, `% 2 ^ 32`, `% 2 ^ 64`);
-- subtraction of quantities stands under the test that makes it exact. Prices are integers without a
-- bound; they fit the 32 bits of the program when the band of Session/Band does. Loops are recursion
-- on the list that they run over, and the endless loops of the threads are a number of rounds or a
-- sequence of steps. Only `N`, which calls itself, has fuel: two calls are enough for every argument
-- but NaN, for which none are. The printing of a number has ten digits as its bound, enough for 32
-- bits. A step of a thread is a whole round of its loop: what another thread does between the test
-- of the flag, the wait in `recv` and the push is taken before or after the round, so nothing is
-- said there of a flag that is cleared during a round, nor of counters that are read during one.
-- Client/Shutdown has the wait in `recv` as a step of its own.
--
-- Not modelled: logs (`print_client_stats` among them) and the exact text of the lines of
-- consumer_main, pauses, thread affinity, exceptions of the libraries, what is never used (`Task`,
-- `Worker`, the signal handler of the client), and what the repository only declares (TomlParser,
-- market/Order).
pub mod Prelude
pub mod Outside
pub mod Spsc
pub mod Market
pub mod Structs
pub mod Exchange
pub mod MarketData
pub mod Client
pub mod Server
pub mod Programs
pub mod DepthBook
pub mod Trading
pub mod Errors
pub mod Options
pub mod Samples
