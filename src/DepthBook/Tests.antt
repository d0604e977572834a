-- ===== src/DepthBook/Tests.antt =====
-- The theorem on the depth book, applied to one of ten blocks that is created twice.
use tradingmarketsimulator.Prelude.{ℕ, none}
use tradingmarketsimulator.DepthBook.{Heap}

abbrev empty_heap : Heap ℕ
empty_heap = record { last = 0; at = λ p. none }
