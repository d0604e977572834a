-- ===== src/Client/Pipeline/Launch.antt =====
-- src/mms/market/MarketFeed.cc, the constructor, and src/mms/app/Core.cc, the start of the threads:
-- the state that they start from.
use tradingmarketsimulator.Prelude.{
  ◌≡◌, refl, sym, ap, ap₂, ◌∙◌, ◌++◌, ◌%◌, ◌^◌, length, true, false, none, List, [], Option-cases,
  inl, inr, map, subst,
}
use tradingmarketsimulator.Spsc.{Spsc}
use tradingmarketsimulator.Client.{Doubles, MarketData, Signal, Tcp, Expected}
use tradingmarketsimulator.Client.Pipeline.{Phase, Client, Feed, initialize, Run}
use tradingmarketsimulator.Client.Pipeline.Delivery.Orders.{OrdersFollow, signalled}
use tradingmarketsimulator.Client.Pipeline.Ticks.Arrival.{in_hand, TicksArrive}

module _ (D : Doubles) (T : Tcp D) (MQ : Spsc (MarketData D)) (SQ : Spsc (Signal D)) where
  -- The constructor
  abbrev pub construct_feed : Feed D T MQ SQ
  construct_feed = record {
    tcp_client = none;
    initialized = false;
    ticks_received = 0;
    queue_full_count = 0;
    phase = Phase.receiving;
    got = [];
  }

  -- The threads are started on a feed and two queues, with the counters as they were constructed.
  unfoldable pub launch : Feed D T MQ SQ → MQ.Queue → SQ.Queue → T.World → Client D T MQ SQ
  launch f q s w = record {
    feed = f;
    running = true;
    market_data_queue = q;
    signal_queue = s;
    signals_generated = 0;
    orders_sent = 0;
    order_id = 1;
    world = w;
    handled = [];
    pushed = [];
    executed = [];
  }

  -- A new feed was initialized, the queues were empty, and the threads have taken some steps.
  pub record Launched (d : Client D T MQ SQ) : Type 0 where
    pub feed : Feed D T MQ SQ
    pub before : T.World
    pub after : T.World
    pub ticks : MQ.Queue
    pub signals : SQ.Queue
    pub initialized : initialize D T MQ SQ construct_feed before ≡ (Expected.ok, feed, after)
    pub no_ticks : MQ.entries ticks ≡ []
    pub no_signals : SQ.entries signals ≡ []
    pub run : Run D T MQ SQ (launch feed ticks signals after) d

  IsNew : Feed D T MQ SQ → Type 0
  IsNew f = (f.got ≡ []) × (f.ticks_received ≡ 0) × (f.phase ≡ Phase.receiving)

  IsNew-initialize : (w : T.World) → IsNew (initialize D T MQ SQ construct_feed w).1
  unfolding initialize IsNew
  IsNew-initialize w = elim (Option-cases (T.connect w).0) [
    | inl e ↦ rw (e, initialize) (refl, refl, refl)
    | inr (s, e) ↦ rw (e, initialize) (refl, refl, refl)
  ]

  pub launch-TicksArrive :
      (d : Client D T MQ SQ) (l : Launched d)
      → TicksArrive D T MQ SQ (launch l.feed l.ticks l.signals l.after)
  unfolding launch IsNew
  launch-TicksArrive d l =
      let new =
        subst (λ (r : Expected × Feed D T MQ SQ × T.World). IsNew r.1) l.initialized
          (IsNew-initialize l.before) in
      record {
        dropped = [];
        in_order =
            ap₂ (λ (es hand : List (MarketData D)). es ++ (hand ++ [])) l.no_ticks
              (ap (in_hand D T MQ SQ) new.2)
            ∙ sym new.0;
        at_shutdown = inl refl;
        counted = new.1 ∙ ap (λ (xs : List (MarketData D)). length xs % 2 ^ 64) (sym new.0);
      }

  pub launch-OrdersFollow :
      (d : Client D T MQ SQ) (l : Launched d)
      → OrdersFollow D T MQ SQ (launch l.feed l.ticks l.signals l.after)
  unfolding launch
  launch-OrdersFollow d l = record {
    in_order = ap (map (signalled D T MQ SQ)) l.no_signals;
    generated = refl;
    sent = refl;
    numbered = refl;
  }
