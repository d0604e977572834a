-- ===== src/Trading.antt =====
-- The client against the server: src/mms/app/Core.cc on both ends of a connection.
pub mod Tests
use tradingmarketsimulator.Prelude.{
  ℕ, suc, ◌+◌, ◌%◌, ◌^◌, ◌<◌, ◌≡◌, refl, sym, ap, ◌∙◌, subst, true, List, [], ◌∷◌, All, Picks,
  Picks-trans, Picks-All,
}
use tradingmarketsimulator.Spsc.{Spsc}
use tradingmarketsimulator.Client.{Doubles, MarketData, Signal, ClientOrder, Tcp}
use tradingmarketsimulator.Client.Pipeline.{Client}
use tradingmarketsimulator.Client.Pipeline.Launch.{Launched}
use tradingmarketsimulator.Client.Pipeline.Origin.{Answers, orders_answer_ticks}
use tradingmarketsimulator.Server.{Network, Server, Attempt, aapl, serve}
use tradingmarketsimulator.Server.Symbol.{c_string}
use tradingmarketsimulator.Server.Sequence.{InOrder, serve_lem}

module _ (D : Doubles) (T : Tcp D) (MQ : Spsc (MarketData D)) (SQ : Spsc (Signal D))
    (N : Network D) where
  -- What TCP is for: a tick that the client receives is one that the server sent, and that went through.
  abbrev pub Carries : Attempt D N → MarketData D → Type 0
  Carries a md = (a.delivered ≡ true) × (a.tick ≡ md)

  -- The order answers the tick of this attempt, which went through, and is for AAPL.
  abbrev pub AnswersAttempt : Attempt D N → ClientOrder D → Type 0
  AnswersAttempt a o =
      (a.delivered ≡ true) × (c_string o.symbol ≡ aapl) × Answers D T MQ SQ a.tick o

  abbrev IsAapl : Attempt D N → Type 0
  IsAapl a = c_string a.tick.symbol ≡ aapl

  All-IsAapl : (k : ℕ) (as' : List (Attempt D N)) → InOrder D N k as' → All IsAapl as'
  All-IsAapl k [] h = tt
  All-IsAapl k (a ∷ as') h = (h.0.2, All-IsAapl (suc k) as' h.1)

  answers_attempt :
      (a : Attempt D N) (o : ClientOrder D)
      → IsAapl a
      → (md : MarketData D) × Carries a md × Answers D T MQ SQ md o
      → AnswersAttempt a o
  answers_attempt a o aapl_tick (md, (went, same), answer) =
      let e = sym same in
      let answer' = subst (λ (t : MarketData D). Answers D T MQ SQ t o) e answer in
      (went, ap c_string answer'.0 ∙ aapl_tick, answer')

  -- From end to end: where the client receives, in order and each once, ticks among those that a new server
  -- has sent and that went through, every order that the client executes answers one of these sends of
  -- its own, in the order of the sends, and is for AAPL; and unless the spread of its tick is wide it is
  -- for 100 across the market.
  pub orders_answer_server :
      (n : ℕ) (s : Server D N) (d : Client D T MQ SQ)
      → s.tick_counter < 2 ^ 64
      → s.i ≡ 0
      → s.attempts ≡ []
      → Launched D T MQ SQ d
      → Picks Carries (serve D N n s).attempts d.feed.got
      → Picks AnswersAttempt (serve D N n s).attempts d.executed
  orders_answer_server n s d small none_logged none_sent l carried =
      let sent = (serve D N n s).attempts in
      let (ordered, _) = serve_lem D N n s small none_logged none_sent in
      Picks-All IsAapl (λ a o. (md : MarketData D) × Carries a md × Answers D T MQ SQ md o)
        AnswersAttempt answers_attempt sent d.executed (All-IsAapl s.tick_counter sent ordered)
        (Picks-trans Carries (Answers D T MQ SQ) sent d.feed.got d.executed carried
          (orders_answer_ticks D T MQ SQ d l))
