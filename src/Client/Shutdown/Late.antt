-- ===== src/Client/Shutdown/Late.antt =====
-- What the network thread still receives when the flag has been cleared.
use mathlib.Core.List.{append-nil}
use tradingmarketsimulator.Prelude.{
  ℕ, ◌+◌, ◌≤◌, ◌≡◌, refl, sym, ap, ◌∙◌, false, Option, none, some, List, [], ◌∷◌, ◌++◌,
  append_assoc, length, length-append, ltb, ◌==◌, ◌&&◌, if-cases, if_false, subst, arith,
}
use tradingmarketsimulator.Spsc.{Spsc}
use tradingmarketsimulator.Client.{Doubles, MarketData, market_data_size, Signal, Tcp}
use tradingmarketsimulator.Client.Pipeline.{
  Phase, Client, receive, push_tick, retry_step, wait_step, strategy_step, execution_step,
  max_retries, is_some,
}
use tradingmarketsimulator.Client.Shutdown.{
  Waiting, test_step, answer_step, wait_or_answer, LateStep, LateRun,
}

module _ (D : Doubles) (T : Tcp D) (MQ : Spsc (MarketData D)) (SQ : Spsc (Signal D)) where
  -- The answers that the network thread waits for
  abbrev pub pending : Waiting D T MQ SQ → ℕ
  pending f = elim f.waits_on [ none ↦ 0 | some s ↦ 1 ]

  -- From the first state to the second these ticks were received, one at most for each answer that was
  -- waited for, and the flag is cleared.
  pub record Receives (f g : Waiting D T MQ SQ) : Type 0 where
    pub late : List (MarketData D)
    pub cleared : g.client.running ≡ false
    pub got : g.client.feed.got ≡ f.client.feed.got ++ late
    pub few : length late + pending g ≤ pending f

  abbrev Same : Client D T MQ SQ → Client D T MQ SQ → Type 0
  Same c d = (d.running ≡ false) × (d.feed.got ≡ c.feed.got)

  nothing :
      (f g : Waiting D T MQ SQ) → Same f.client g.client → pending g ≤ pending f → Receives f g
  nothing f g same h = record {
    late = [];
    cleared = same.0;
    got = same.1 ∙ sym (append-nil f.client.feed.got);
    few = omega (arith, h);
  }

  -- One answer gives one tick at most.
  abbrev OneMore : Client D T MQ SQ → Client D T MQ SQ → Type 0
  OneMore c d =
      (late : List (MarketData D)) × (d.running ≡ c.running)
      × (d.feed.got ≡ c.feed.got ++ late)
      × (length late ≤ 1)

  receive-OneMore :
      (got : Option (ℕ × MarketData D)) (c : Client D T MQ SQ) → OneMore c (receive D T MQ SQ got c)
  unfolding receive push_tick
  receive-OneMore none c = ([], refl, sym (append-nil c.feed.got), omega arith)
  receive-OneMore (some (n, md)) c =
      let one : length {A = MarketData D} (md ∷ []) ≤ 1 = omega arith in
      if-cases (OneMore c) (n == market_data_size)
        (if-cases (OneMore c) (MQ.push md c.market_data_queue).0 (md ∷ [], refl, refl, one)
          (md ∷ [], refl, refl, one))
        ([], refl, sym (append-nil c.feed.got), omega arith)

  retry_step-Same :
      (k : ℕ) (c : Client D T MQ SQ) → c.running ≡ false → Same c (retry_step D T MQ SQ k c)
  unfolding retry_step
  retry_step-Same k c off =
      let leaves : (ltb k max_retries && c.running) ≡ false = ground arith in
      rw leaves (if-cases (Same c) (is_some c.feed.tcp_client) (off, refl) (refl, refl))

  wait_step-Same :
      (md : MarketData D) (c : Client D T MQ SQ)
      → c.running ≡ false
      → Same c (wait_step D T MQ SQ md c)
  unfolding wait_step
  wait_step-Same md c off = if-cases (Same c) c.running (off, refl) (off, refl)

  strategy_step-Same :
      (stale : Signal D) (c : Client D T MQ SQ)
      → c.running ≡ false
      → Same c (strategy_step D T MQ SQ stale c)
  unfolding strategy_step
  strategy_step-Same stale c off = subst (Same c) (sym (if_false c.running _ c off)) (off, refl)

  execution_step-Same :
      (c : Client D T MQ SQ) → c.running ≡ false → Same c (execution_step D T MQ SQ c)
  unfolding execution_step
  execution_step-Same c off = subst (Same c) (sym (if_false c.running _ c off)) (off, refl)

  -- From the test of the flag on
  test_step-Receives :
      (f : Waiting D T MQ SQ) → f.client.running ≡ false → Receives f (test_step D T MQ SQ f.client)
  unfolding test_step
  test_step-Receives f off =
      let left : Waiting D T MQ SQ = record {
        client = record f.client { feed = record f.client.feed { phase = Phase.exited } };
        waits_on = none;
      } in
      subst (Receives f) (sym (if_false f.client.running _ left off))
        (nothing f left (off, refl) (omega arith))

  answer_step-Receives :
      (f : Waiting D T MQ SQ) (s : T.Socket)
      → f.client.running ≡ false
      → pending f ≡ 1
      → Receives f (answer_step D T MQ SQ s f.client)
  unfolding answer_step
  answer_step-Receives f s off one =
      let (got, w) = T.recv s f.client.world in
      let (late, same, more, few) = receive-OneMore got (record f.client { world = w }) in
      record { late = late; cleared = same ∙ off; got = more; few = omega (arith, few, one) }

  abbrev waiting : Client D T MQ SQ → Option T.Socket → Waiting D T MQ SQ
  waiting c o = record { client = c; waits_on = o }

  wait_or_answer-Receives :
      (c : Client D T MQ SQ) (o : Option T.Socket)
      → c.running ≡ false
      → Receives (waiting c o) (wait_or_answer D T MQ SQ (waiting c o))
  unfolding wait_or_answer
  wait_or_answer-Receives c (some s) off = answer_step-Receives (waiting c (some s)) s off refl
  wait_or_answer-Receives c none off =
      let f = waiting c none in
      let none_left : 0 ≤ 0 = omega arith in
      elim c.feed.phase
        as (λ p. Receives f (elim p [
          | Phase.receiving ↦ test_step D T MQ SQ c
          | Phase.retrying k ↦ waiting (retry_step D T MQ SQ k c) none
          | Phase.waiting md ↦ waiting (wait_step D T MQ SQ md c) none
          | Phase.exited ↦ f
        ])) [
          | Phase.receiving ↦ test_step-Receives f off
          | Phase.retrying k ↦
              nothing f (waiting (retry_step D T MQ SQ k c) none) (retry_step-Same k c off)
                none_left
          | Phase.waiting md ↦
              nothing f (waiting (wait_step D T MQ SQ md c) none) (wait_step-Same md c off)
                none_left
          | Phase.exited ↦ nothing f f (off, refl) none_left
        ]

  LateStep-Receives :
      (f g : Waiting D T MQ SQ) → LateStep D T MQ SQ f g → f.client.running ≡ false → Receives f g
  LateStep-Receives f _ LateStep.network off = wait_or_answer-Receives f.client f.waits_on off
  LateStep-Receives f _ (LateStep.strategy stale) off =
      nothing f (waiting (strategy_step D T MQ SQ stale f.client) f.waits_on)
        (strategy_step-Same stale f.client off) (omega arith)
  LateStep-Receives f _ LateStep.execution off =
      nothing f (waiting (execution_step D T MQ SQ f.client) f.waits_on)
        (execution_step-Same f.client off) (omega arith)
  LateStep-Receives f _ LateStep.cleared off =
      nothing f (waiting (record f.client { running = false }) f.waits_on) (refl, refl)
        (omega arith)

  Receives-trans : (f g h : Waiting D T MQ SQ) → Receives f g → Receives g h → Receives f h
  Receives-trans f g h v w = record {
    late = v.late ++ w.late;
    cleared = w.cleared;
    got = w.got ∙ ap (λ xs. xs ++ w.late) v.got ∙ append_assoc f.client.feed.got v.late w.late;
    few = omega (arith, v.few, w.few, length-append v.late w.late);
  }

  -- Once the flag is cleared, whatever the threads do, the network thread receives no tick but the one that it
  -- waited for in `recv` when the flag was cleared: what it got since then is one tick at most, and none
  -- if it did not wait; and the flag stays cleared.
  pub late_ticks :
      (f g : Waiting D T MQ SQ) → LateRun D T MQ SQ f g → f.client.running ≡ false → Receives f g
  late_ticks f _ LateRun.here off = nothing f f (off, refl) (omega arith)
  late_ticks f h (LateRun.then_step {g = g} r s) off =
      let v = late_ticks f g r off in Receives-trans f g h v (LateStep-Receives g h s v.cleared)
