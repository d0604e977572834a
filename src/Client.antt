-- ===== src/Client.antt =====
-- include/mms/structs/Structs.hh (the structs of the client) and include/mms/error/Error.hh, and what
-- the client takes from outside: `fiah::TcpClient`, `double`, and the clock.
pub mod Strategy
pub mod Pipeline
pub mod Shutdown
pub mod Lifecycle
pub mod Tests
use tradingmarketsimulator.Prelude.{ℕ, Bool, Option, List}

-- The arithmetic on `double` that the strategy uses, and its literals.
pub record Doubles : Type 1 where
  pub Double : Type 0
  pub less : Double → Double → Bool
  pub plus : Double → Double → Double
  pub minus : Double → Double → Double
  pub over_two : Double → Double
  -- 0.05, 190.0, 190.0005 and -1
  pub tight : Double
  pub low : Double
  pub high : Double
  pub minus_one : Double

pub record MarketData (D : Doubles) : Type 0 where
  pub seq_num : ℕ
  pub bid : D.Double
  pub ask : D.Double
  pub timestamp_ns : ℕ
  pub symbol : List ℕ

-- `sizeof(MarketData)`: the struct is packed.
abbrev pub market_data_size : ℕ
market_data_size = 40

-- `Signal::Type`
pub data SignalType : Type 0 where
  buy sell hold : SignalType

pub record Signal (D : Doubles) : Type 0 where
  pub symbol : List ℕ
  pub type : SignalType
  pub price : D.Double
  pub quantity : ℕ
  pub timestamp_ns : ℕ

-- `v1::Order::Side`
pub data OrderSide : Type 0 where
  buy sell : OrderSide

-- `v1::Order`
pub record ClientOrder (D : Doubles) : Type 0 where
  pub symbol : List ℕ
  pub side : OrderSide
  pub price : D.Double
  pub quantity : ℕ
  pub order_id : ℕ
  pub timestamp_ns : ℕ

pub data CoreError : Type 0 where
  init_client_fail server_not_online init_server_fail invalid_state : CoreError

-- `std::expected<void, CoreError>`
pub data Expected : Type 0 where
  ok : Expected
  unexpected : CoreError → Expected

-- `connect` is a new client and its `connect_to_server`: none if that fails. `recv` answers none if
-- the connection is lost, and otherwise the count of bytes and what a buffer with them in it reads as.
pub record Tcp (D : Doubles) : Type 1 where
  pub Socket : Type 0
  pub World : Type 0
  pub connect : World → Option Socket × World
  pub recv : Socket → World → Option (ℕ × MarketData D) × World
  pub now : World → ℕ × World
