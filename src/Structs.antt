-- ===== src/Structs.antt =====
-- include/mms/structs/Structs.hh: the order of the exchange (namespace v2) and the option contract.
use tradingmarketsimulator.Prelude.{ℕ, Bool, true, false, ◌&&◌, List, ltb}
use tradingmarketsimulator.Market.Price.{Price}
use tradingmarketsimulator.Market.Price

-- `Order::Side`
pub data Side : Type 0 where
  bid ask : Side

-- `Symbol::data`: six bytes. `qty` and `id` are 32 bits, `rcv_ts` 64, `flags` 8.
pub record Order : Type 0 where
  pub symbol : List ℕ
  pub side : Side
  pub price : Price
  pub qty : ℕ
  pub id : ℕ
  pub rcv_ts : ℕ
  pub flags : ℕ

-- `struct Option`, without its padding. The name `Option` is the library's.
pub record Contract : Type 0 where
  pub strike : Price
  pub symbol : List ℕ
  pub year : ℕ
  pub month : ℕ
  pub day : ℕ
  pub flags : ℕ

abbrev pub opposite : Side → Side
opposite bid = ask
opposite ask = bid

abbrev pub is_bid_side : Side → Bool
is_bid_side bid = true
is_bid_side ask = false

unfoldable pub opp_side : Order → Side
opp_side o = opposite o.side

unfoldable pub is_bid : Order → Bool
is_bid o = is_bid_side o.side

unfoldable pub is_valid : Order → Bool
is_valid o = Price.is_valid o.price && ltb 0 o.qty

-- `MarketDepthMessage::Header`, without the reserved bytes, and `MarketDepthMessage`, whose padding
-- byte is kept. Times have 64 bits, `seq` 16, `version` and `flags` 8.
pub record Header : Type 0 where
  pub ts_ns : ℕ
  pub seq : ℕ
  pub version : ℕ

pub record DepthMessage : Type 0 where
  pub header : Header
  pub option : Contract
  pub price : Price
  pub flags : ℕ
  pub pad : ℕ

-- `InternalDepthMessage`
pub record InternalMessage : Type 0 where
  pub option : Contract
  pub market_ts_ns : ℕ
  pub local_ts : ℕ
  pub price : Price
  pub seq : ℕ
  pub flags : ℕ
