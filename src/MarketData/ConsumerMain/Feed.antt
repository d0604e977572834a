-- ===== src/MarketData/ConsumerMain/Feed.antt =====
-- From the rounds of a generator to the lines of a consumer.
use mathlib.Core.List.{append-nil}
use tradingmarketsimulator.Prelude.{
  ℕ, zero, suc, ◌≡◌, refl, sym, ap, ap₂, ◌∙◌, Option, none, some, List, [], ◌∷◌, ◌++◌, append_assoc,
  map, length, All,
}
use tradingmarketsimulator.Outside.{Outside}
use tradingmarketsimulator.Spsc.{Spsc}
use tradingmarketsimulator.Structs.{DepthMessage, InternalMessage}
use tradingmarketsimulator.MarketData.Wire.{wire_size, serialize}
use tradingmarketsimulator.MarketData.Wire.RoundTrip.{Fits, received, serialize-header}
use tradingmarketsimulator.MarketData.DepthGenerator
use tradingmarketsimulator.MarketData.DepthGenerator.{DepthGenerator, Sent, generate_depth_message}
use tradingmarketsimulator.MarketData.DepthGenerator.Rounds.{IsIdle, round_sends}
use tradingmarketsimulator.MarketData.Display.{contract_word, side_word}
use tradingmarketsimulator.MarketData.DepthConsumer
use tradingmarketsimulator.MarketData.DepthConsumer.{Consumer, Recv, try_pop}
use tradingmarketsimulator.MarketData.DepthConsumer.Receive.{datagram, round_receives}
use tradingmarketsimulator.MarketData.ConsumerMain.{
  Micro, Line, line, line_up, Program, poll, accepted,
}

-- The packets come as datagrams, the `k`-th of them at the time `clock k`.
pub arrivals : (ℕ → ℕ) → ℕ → List Sent → List (Recv × ℕ)
arrivals clock k [] = []
arrivals clock k ((client, packet) ∷ ps) = (datagram packet, clock k) ∷ arrivals clock (suc k) ps

-- The messages as they are received then
pub all_received : (ℕ → ℕ) → ℕ → List DepthMessage → List InternalMessage
all_received clock k [] = []
all_received clock k (m ∷ ms) = received m (clock k) ∷ all_received clock (suc k) ms

module _ (Q : Spsc InternalMessage) (micro : Micro) where
  -- Each receipt is followed by a round of the loop.
  pub watch : List (Recv × ℕ) → Program Q micro → Option (Program Q micro)
  watch [] p = some p
  watch ((r, now) ∷ rest) p = elim (DepthConsumer.round Q r now p.consumer) [
    | none ↦ none
    | some c ↦ watch rest (
        poll Q micro
          (record p { consumer = c; arrived = p.arrived ++ accepted Q micro r now p.consumer }))
  ]

  -- Nothing is queued, and the buffer has its size.
  abbrev pub Waits : Program Q micro → Type 0
  Waits p = (Q.entries p.consumer.recv_queue ≡ []) × (length p.consumer.buf ≡ wire_size)

  -- The second program has printed one line more, of this message, and waits.
  abbrev PrintsNext : InternalMessage → Program Q micro → Program Q micro → Type 0
  PrintsNext i p p' =
      (p'.lines ≡ p.lines ++ (line micro p.t_last i ∷ [])) × (p'.t_last ≡ i.local_ts) × Waits p'

  poll_prints :
      (p : Program Q micro) (i : InternalMessage)
      → (try_pop Q p.consumer).0 ≡ some i
      → Q.entries (try_pop Q p.consumer).1.recv_queue ≡ []
      → length p.consumer.buf ≡ wire_size
      → PrintsNext i p (poll Q micro p)
  unfolding poll try_pop
  poll_prints p i popped empty size = rw (popped, poll) (refl, refl, (empty, size))

  watch_one :
      (m : DepthMessage) (now : ℕ) (rest : List (Recv × ℕ)) (p : Program Q micro)
      → Fits m
      → Waits p
      → (p' : Program Q micro) × (watch ((datagram (serialize m), now) ∷ rest) p ≡ watch rest p')
        × PrintsNext (received m now) p p'
  unfolding watch
  watch_one m now rest p fits (empty, size) =
      let r = round_receives Q m now p.consumer fits size empty in
      let p1 = record p {
        consumer = r.0;
        arrived = p.arrived ++ accepted Q micro (datagram (serialize m)) now p.consumer;
      } in
      let whole = ap length r.4 ∙ (serialize-header m fits.symbol).0 in
      (poll Q micro p1, rw (r.1, watch) refl, poll_prints p1 (received m now) r.2 r.3 whole)

  -- Messages that come one after the other
  watch-arrivals :
      (clock : ℕ → ℕ) (k client : ℕ) (ms : List DepthMessage) (p : Program Q micro)
      → All Fits ms
      → Waits p
      → (r : Program Q micro) × (watch (arrivals clock k (map (λ m. (client, serialize m)) ms)) p
          ≡ some r)
        × (r.lines ≡ p.lines ++ line_up micro p.t_last (all_received clock k ms))
  unfolding watch arrivals all_received line_up
  watch-arrivals clock k client [] p fits w = (p, refl, sym (append-nil p.lines))
  watch-arrivals clock k client (m ∷ ms) p fits w =
      let i = received m (clock k) in
      let later = arrivals clock (suc k) (map (λ m. (client, serialize m)) ms) in
      let (p', one, (lines, last, w')) = watch_one m (clock k) later p fits.0 w in
      let (r, all, shown) = watch-arrivals clock (suc k) client ms p' fits.1 w' in
      (
        r,
        one ∙ all,
        shown
            ∙ ap₂ (λ ls t. ls ++ line_up micro t (all_received clock (suc k) ms)) lines last
            ∙ append_assoc p.lines (line micro p.t_last i ∷ [])
                (line_up micro (clock k) (all_received clock (suc k) ms)),
      )

-- What the program prints of every message, whatever its contract and its side
abbrev pub CallsPutAndAsk : Line → Type 0
CallsPutAndAsk l = (l.contract ≡ "P") × (l.side ≡ "ask")

-- The wire drops the flags of the option.
line_up-CallsPutAndAsk :
    (micro : Micro) (clock : ℕ → ℕ) (k t : ℕ) (ms : List DepthMessage)
    → All (λ (m : DepthMessage). m.flags ≡ 0) ms
    → All CallsPutAndAsk (line_up micro t (all_received clock k ms))
unfolding line_up all_received line contract_word side_word
line_up-CallsPutAndAsk micro clock k t [] h = tt
line_up-CallsPutAndAsk micro clock k t (m ∷ ms) h =
    ((refl, rw h.0 refl), line_up-CallsPutAndAsk micro clock (suc k) (clock k) ms h.1)

module _ (E : Outside) (S : Spsc DepthMessage) (Q : Spsc InternalMessage) (micro : Micro) where
  -- The messages of so many rounds
  unfoldable pub made : ℕ → DepthGenerator E S → List DepthMessage
  made zero g = []
  made (suc n) g = (generate_depth_message E S g).0 ∷ made n (DepthGenerator.round E S g).1

  -- The generator sets no flag of a message.
  made-flags : (n : ℕ) (g : DepthGenerator E S) → All (λ (m : DepthMessage). m.flags ≡ 0) (made n g)
  unfolding made generate_depth_message
  made-flags zero g = tt
  made-flags (suc n) g = (refl, made-flags n (DepthGenerator.round E S g).1)

  packets-run :
      (n client : ℕ) (g : DepthGenerator E S)
      → IsIdle E S g
      → g.clients ≡ client ∷ []
      → (DepthGenerator.run E S n g).0 ≡ map (λ m. (client, serialize m)) (made n g)
  unfolding DepthGenerator.run made
  packets-run zero client g v one = refl
  packets-run (suc n) client g v one =
      let sends = round_sends E S g v in
      let m = (generate_depth_message E S g).0 in
      ap₂ ◌++◌ (sends.0 ∙ ap (map (λ c. (c, serialize m))) one)
        (packets-run n client (DepthGenerator.round E S g).1 sends.3 (sends.2 ∙ one))

  -- From the generator to the screen: with the consumer as its one client, where each packet of any number
  -- of rounds of an idle generator arrives in turn and is looked for at once, and the messages fit the
  -- wire, a consumer that waits gets through all of them without a fault, and prints a line for each
  -- message that was made, in order and each once; each line calls its message a put and an ask,
  -- whatever the contract and the drawn side.
  pub feed_prints :
      (n client : ℕ) (g : DepthGenerator E S) (clock : ℕ → ℕ) (p : Program Q micro)
      → IsIdle E S g
      → g.clients ≡ client ∷ []
      → All Fits (made n g)
      → Waits Q micro p
      → (r : Program Q micro) × (watch Q micro (arrivals clock 0 (DepthGenerator.run E S n g).0) p
          ≡ some r)
        × (r.lines ≡ p.lines ++ line_up micro p.t_last (all_received clock 0 (made n g)))
        × All CallsPutAndAsk (line_up micro p.t_last (all_received clock 0 (made n g)))
  feed_prints n client g clock p v one fits w =
      let (r, gets_through, lines) = watch-arrivals Q micro clock 0 client (made n g) p fits w in
      (
        r,
        ap (λ ps. watch Q micro (arrivals clock 0 ps) p) (packets-run n client g v one)
            ∙ gets_through,
        lines,
        line_up-CallsPutAndAsk micro clock 0 p.t_last (made n g) (made-flags n g),
      )
