-- ===== src/Exchange.antt =====
-- The exchange namespace: the order book, the order generator, and the two running together.
pub mod SideMap
pub mod Book
pub mod Generator
pub mod Session
pub mod Display
pub mod Tests
