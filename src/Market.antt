-- ===== src/Market.antt =====
-- The market namespace of the simulator: prices and the feed of market data.
pub mod Price
