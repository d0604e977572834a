-- ===== src/MarketData.antt =====
-- The market_data namespace: depth messages on the wire, their generator and their consumer.
pub mod Wire
pub mod DepthGenerator
pub mod DepthConsumer
pub mod Display
pub mod ConsumerMain
pub mod Tests
