-- ===== src/Client/Pipeline/Ticks/Arrival.antt =====
-- Where the ticks are that the network thread has received.
use tradingmarketsimulator.Prelude.{
  ◌%◌, ◌^◌, ◌≡◌, refl, sym, ap, ◌∙◌, Bool, true, false, List, [], ◌∷◌, ◌++◌, length, inl, inr, ◌⊎◌,
}
use tradingmarketsimulator.Spsc.{Spsc}
use tradingmarketsimulator.Client.{Doubles, MarketData, Signal, Tcp}
use tradingmarketsimulator.Client.Pipeline.{Phase, Client, Feed}

module _ (D : Doubles) (T : Tcp D) (MQ : Spsc (MarketData D)) (SQ : Spsc (Signal D)) where
  abbrev pub in_hand : Phase D → List (MarketData D)
  in_hand (Phase.waiting md) = md ∷ []
  in_hand Phase.receiving = []
  in_hand (Phase.retrying k) = []
  in_hand Phase.exited = []

  -- Every tick that was received went to the strategy, or is in the queue, or in the hand of the
  -- network thread, in order; or it is the one that was dropped because the flag was cleared.
  pub record TicksArrive (c : Client D T MQ SQ) : Type 0 where
    pub dropped : List (MarketData D)
    pub in_order :
        c.handled ++ (MQ.entries c.market_data_queue ++ (in_hand c.feed.phase ++ dropped))
        ≡ c.feed.got
    pub at_shutdown :
        (dropped ≡ []) ⊎ ((c.running ≡ false) × (in_hand c.feed.phase ≡ []) × (length dropped ≡ 1))
    pub counted : c.feed.ticks_received ≡ length c.feed.got % 2 ^ 64

  -- With nothing dropped
  pub arrive :
      (c : Client D T MQ SQ)
      → c.handled ++ (MQ.entries c.market_data_queue ++ (in_hand c.feed.phase ++ [])) ≡ c.feed.got
      → c.feed.ticks_received ≡ length c.feed.got % 2 ^ 64
      → TicksArrive c
  arrive c h n = record { dropped = []; in_order = h; at_shutdown = inl refl; counted = n }

  pub whole :
      (c : Client D T MQ SQ)
      → c.running ≡ true
      → (v : TicksArrive c)
      → c.handled ++ (MQ.entries c.market_data_queue ++ (in_hand c.feed.phase ++ [])) ≡ c.feed.got
  whole c e v =
      let hand : List (MarketData D) = in_hand c.feed.phase in
      let nothing : v.dropped ≡ [] = elim v.at_shutdown [ inl n ↦ n | inr x ↦ absurd cc ] in
      ap (λ ds. c.handled ++ (MQ.entries c.market_data_queue ++ (hand ++ ds))) (sym nothing)
      ∙ v.in_order

  -- A change of the connection, the phase or the flag that moves no tick
  pub quiet :
      (c : Client D T MQ SQ) (f : Feed D T MQ SQ) (r : Bool) (w : T.World)
      → f.got ≡ c.feed.got
      → f.ticks_received ≡ c.feed.ticks_received
      → in_hand f.phase ≡ in_hand c.feed.phase
      → (c.running ≡ false → r ≡ false)
      → TicksArrive c
      → TicksArrive (record c { feed = f; running = r; world = w })
  quiet c f r w got ticks hand running v = record {
    dropped = v.dropped;
    in_order =
        ap (λ h. c.handled ++ (MQ.entries c.market_data_queue ++ (h ++ v.dropped))) hand
        ∙ v.in_order
        ∙ sym got;
    at_shutdown = elim v.at_shutdown [
      | inl n ↦ inl n
      | inr (stopped, empty, one) ↦ inr (running stopped, hand ∙ empty, one)
    ];
    counted = ticks ∙ v.counted ∙ ap (λ xs. length xs % 2 ^ 64) (sym got);
  }
