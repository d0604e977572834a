-- ===== src/Client/Pipeline/Stale.antt =====
-- What the strategy thread makes of a signal whose members are not all set.
use tradingmarketsimulator.Prelude.{[]}
use tradingmarketsimulator.Spsc.{Spsc}
use tradingmarketsimulator.Client.{Doubles, MarketData, Signal, SignalType, Tcp}
use tradingmarketsimulator.Client.Pipeline.{Client}

module _ (D : Doubles) (T : Tcp D) (MQ : Spsc (MarketData D)) (SQ : Spsc (Signal D)) where
  -- Memory that reads as HOLD, and memory that does not
  abbrev of_type : SignalType → MarketData D → Signal D
  of_type type md = record {
    symbol = [];
    type = type;
    price = md.bid;
    quantity = 0;
    timestamp_ns = 0;
  }
