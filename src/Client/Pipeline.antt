-- ===== src/Client/Pipeline.antt =====
-- src/mms/market/MarketFeed.cc with include/mms/market/MarketFeed.hh, and the thread loops of
-- src/mms/app/Core.cc: the network, the strategy and the execution thread on their two queues. A step
-- is one round of a loop of one thread; the pauses and the log's text are left out. What the log says
-- of each tick, signal and order is kept in four lists.
pub mod Frame
pub mod Delivery
pub mod Ticks
pub mod Reconnect
pub mod Launch
pub mod Origin
pub mod Drain
pub mod Reads
pub mod Stream
pub mod Stale
pub mod StreamTests
pub mod Tests
use tradingmarketsimulator.Prelude.{
  ℕ, zero, suc, ◌+◌, ◌%◌, ◌^◌, Bool, true, false, Option, none, some, List, [], ◌∷◌, ◌++◌, ltb,
  if◌then◌else◌, ◌==◌, ◌&&◌,
}
use tradingmarketsimulator.Spsc.{Spsc}
use tradingmarketsimulator.Client.{
  Doubles, MarketData, market_data_size, Signal, ClientOrder, CoreError, Expected, Tcp,
}
use tradingmarketsimulator.Client.Strategy.{compute_signal, generate_order, is_hold}

-- Where the network thread stands: before a `recv`, after so many failed attempts to reconnect,
-- with a tick that the full queue refused, or past its loop.
pub data Phase (D : Doubles) : Type 0 where
  receiving : Phase D
  retrying : ℕ → Phase D
  waiting : MarketData D → Phase D
  exited : Phase D

abbrev pub max_retries : ℕ
max_retries = 5

-- `fetch_add(1)` on a counter of 64 bits
abbrev pub count_on : ℕ → ℕ
count_on n = (n + 1) % 2 ^ 64

abbrev pub is_some : {A : Type 0} → Option A → Bool
is_some none = false
is_some (some _) = true

module _ (D : Doubles) (T : Tcp D) (MQ : Spsc (MarketData D)) (SQ : Spsc (Signal D)) where
  pub record Feed : Type 0 where
    pub tcp_client : Option T.Socket
    pub initialized : Bool
    pub ticks_received : ℕ
    pub queue_full_count : ℕ
    pub phase : Phase D
    -- the ticks that the log names
    pub got : List (MarketData D)

  pub record Client : Type 0 where
    pub feed : Feed
    pub running : Bool
    pub market_data_queue : MQ.Queue
    pub signal_queue : SQ.Queue
    pub signals_generated : ℕ
    pub orders_sent : ℕ
    -- `s_order_id_counter`
    pub order_id : ℕ
    pub world : T.World
    -- the ticks, signals and orders that the log names
    pub handled : List (MarketData D)
    pub pushed : List (Signal D)
    pub executed : List (ClientOrder D)

  abbrev pub in_phase : Phase D → Client → Client
  in_phase p c = record c { feed = record c.feed { phase = p } }

  -- `_reconnect`. `reset` and the failed connection leave no client.
  unfoldable pub reconnect : Feed → T.World → Expected × Feed × T.World
  reconnect f w =
      let (client, w') = T.connect w in
      elim client [
        | none ↦ (
          Expected.unexpected CoreError.server_not_online,
          record f { tcp_client = none; initialized = false },
          w',
        )
        | some s ↦ (Expected.ok, record f { tcp_client = some s; initialized = true }, w')
      ]

  -- `initialize`
  unfoldable pub initialize : Feed → T.World → Expected × Feed × T.World
  initialize f w =
      if f.initialized
      then (Expected.ok, f, w)
      else let (client, w') = T.connect w in
        elim client [
          | none ↦ (
            Expected.unexpected CoreError.server_not_online,
            record f { tcp_client = none; initialized = false },
            w',
          )
          | some s ↦ (Expected.ok, record f { tcp_client = some s; initialized = true }, w')
        ]

  -- `stop`
  unfoldable pub stop_feed : Feed → Feed
  stop_feed f = record f { tcp_client = none; initialized = false }

  -- `push`, and what follows when the queue is full
  unfoldable pub push_tick : MarketData D → Client → Client
  push_tick md c =
      let (pushed, q) = MQ.push md c.market_data_queue in
      if pushed
      then record c { market_data_queue = q; feed = record c.feed { phase = Phase.receiving } }
      else record c {
        market_data_queue = q;
        feed = record c.feed {
          queue_full_count = count_on c.feed.queue_full_count;
          phase = Phase.waiting md;
        };
      }

  -- What `recv` answered is handled: a lost connection, a packet of another size, a tick.
  unfoldable pub receive : Option (ℕ × MarketData D) → Client → Client
  unfolding push_tick
  receive none c = record c { feed = record c.feed { tcp_client = none; initialized = false } }
  receive (some (n, md)) c =
      if n == market_data_size
      then push_tick md (record c {
        feed = record c.feed {
          ticks_received = count_on c.feed.ticks_received;
          got = c.feed.got ++ (md ∷ []);
        };
      })
      else c

  -- A round of the outer loop of `receive_loop`
  unfoldable pub receive_step : Client → Client
  unfolding receive
  receive_step c =
      if c.running
      then elim c.feed.tcp_client [
        | none ↦ in_phase (Phase.retrying 0) c
        | some s ↦ let (got, w) = T.recv s c.world in receive got (record c { world = w })
      ]
      else in_phase Phase.exited c

  -- A round of the loop that reconnects, and what follows the loop
  unfoldable pub retry_step : ℕ → Client → Client
  unfolding reconnect
  retry_step retry_count c =
      let (result, f, w) = reconnect c.feed c.world in
      if ltb retry_count max_retries && c.running
      then elim result [
        | Expected.ok ↦ in_phase Phase.receiving (record c { feed = f; world = w })
        | Expected.unexpected _ ↦
            in_phase (Phase.retrying (suc retry_count)) (record c { feed = f; world = w })
      ]
      else if is_some c.feed.tcp_client
      then in_phase Phase.receiving c
      else record c { running = false; feed = record c.feed { phase = Phase.exited } }

  -- A round of the loop that waits for room
  unfoldable pub wait_step : MarketData D → Client → Client
  wait_step md c =
      let (pushed, q) = MQ.push md c.market_data_queue in
      if c.running
      then record c {
        market_data_queue = q;
        feed = record c.feed { phase = if pushed then Phase.receiving else Phase.waiting md };
      }
      else in_phase Phase.receiving c

  unfoldable pub network_step : Client → Client
  unfolding receive_step retry_step wait_step
  network_step c = elim c.feed.phase [
    | Phase.receiving ↦ receive_step c
    | Phase.retrying k ↦ retry_step k c
    | Phase.waiting md ↦ wait_step md c
    | Phase.exited ↦ c
  ]

  -- The signal is pushed, unless it is HOLD or the queue is full.
  unfoldable pub push_signal : Signal D → Client → Client
  push_signal signal c =
      if is_hold D signal.type
      then c
      else let (pushed, q) = SQ.push signal c.signal_queue in
        if pushed
        then record c {
          signal_queue = q;
          signals_generated = count_on c.signals_generated;
          pushed = c.pushed ++ (signal ∷ []);
        }
        else record c { signal_queue = q }

  -- A round of `_strategy_loop`; `stale` is what the memory of the signal holds.
  unfoldable pub strategy_step : Signal D → Client → Client
  unfolding push_signal
  strategy_step stale c =
      let (md, q) = MQ.pop c.market_data_queue in
      if c.running
      then elim md [
        | none ↦ record c { market_data_queue = q }
        | some md ↦
            push_signal (compute_signal D md stale)
              (record c { market_data_queue = q; handled = c.handled ++ (md ∷ []) })
      ]
      else c

  -- A round of `_execution_loop`
  unfoldable pub execution_step : Client → Client
  execution_step c =
      let (signal, q) = SQ.pop c.signal_queue in
      if c.running
      then elim signal [
        | none ↦ record c { signal_queue = q }
        | some signal ↦
            let (now, w) = T.now c.world in
            let (order, id) = generate_order D signal c.order_id now in
            record c {
              signal_queue = q;
              world = w;
              order_id = id;
              orders_sent = count_on c.orders_sent;
              executed = c.executed ++ (order ∷ []);
            }
      ]
      else c

  -- The threads take their steps in any order, and `stop_client` may clear the flag at any time.
  pub data Step : Client → Client → Type 0 where
    network : {c : Client} → Step c (network_step c)
    strategy : {c : Client} (stale : Signal D) → Step c (strategy_step stale c)
    execution : {c : Client} → Step c (execution_step c)
    cleared : {c : Client} → Step c (record c { running = false })

  pub data Run : Client → Client → Type 0 where
    here : {c : Client} → Run c c
    then_step : {c d e : Client} → Run c d → Step d e → Run c e
