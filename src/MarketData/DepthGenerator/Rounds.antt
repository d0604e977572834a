-- ===== src/MarketData/DepthGenerator/Rounds.antt =====
-- What the depth generator sends, round after round, and how it arrives.
use Prim.Native.Nat.{bit_and}
use tradingmarketsimulator.Prelude.{
  ℕ, zero, suc, ◌+◌, ◌-◌, ◌%◌, ◌^◌, ◌<◌, ◌≡◌, refl, ◌∙◌, ap, ap₂, List, [], ◌∷◌, ◌++◌, map, length,
  get_or, arith, All,
}
use mathlib.Core.List.{map-append}
use tradingmarketsimulator.Prelude.Int.{pos, ◌+ℤ◌, ◌-ℤ◌, ◌≤ℤ◌, int_laws}
use tradingmarketsimulator.Outside.{Outside}
use tradingmarketsimulator.Spsc.{Spsc}
use tradingmarketsimulator.Market.Price.{Price, invalid_price}
use tradingmarketsimulator.Structs.{DepthMessage}
use tradingmarketsimulator.MarketData.Wire.{serialize, deserialize, max_symbol_size}
use tradingmarketsimulator.MarketData.Wire.RoundTrip.{deserialize_flags}
use tradingmarketsimulator.MarketData.DepthGenerator.{
  DepthGenerator, Sent, generate_depth_message, enqueue, send_msg, round, run,
}

All-get_or :
    {A : Type 0} (P : A → Type 0) (xs : List A) (i : ℕ) (d : A)
    → i < length xs
    → All P xs
    → P (get_or xs i d)
All-get_or P [] i d h a = absurd (omega arith)
All-get_or P (x ∷ xs) zero d h a = a.0
All-get_or P (x ∷ xs) (suc i) d h a = All-get_or P xs i d (omega arith) a.1

below :
    (base modifier : Price)
    → (pos 1000 ≤ℤ modifier) × (modifier ≤ℤ pos 5000)
    → (base -ℤ modifier ≤ℤ base -ℤ pos 1000) × (base -ℤ pos 5000 ≤ℤ base -ℤ modifier)
below base modifier h = (omega int_laws, omega int_laws)

above :
    (base modifier : Price)
    → (pos 1000 ≤ℤ modifier) × (modifier ≤ℤ pos 5000)
    → (base +ℤ pos 1000 ≤ℤ base +ℤ modifier) × (base +ℤ modifier ≤ℤ base +ℤ pos 5000)
above base modifier h = (omega int_laws, omega int_laws)

module _ (E : Outside) (Q : Spsc DepthMessage) where
  -- Between two rounds: nothing is queued, there is a symbol, symbols have six bytes, and the
  -- sequence number has 16 bits.
  pub record IsIdle (g : DepthGenerator E Q) : Type 0 where
    pub drained : Q.entries g.send_q ≡ []
    pub some_symbol : 0 < length g.symbols
    pub symbols : All (λ s. length s ≡ max_symbol_size) g.symbols
    pub seq_fits : g.seq < 2 ^ 16

  -- The side that is drawn for the next message: one is a bid.
  abbrev pub drawn_side : DepthGenerator E Q → ℕ
  drawn_side g = (E.draw_nat 0 1 (E.draw_nat 0 (length g.symbols - 1) g.world).1).0

  abbrev pub drawn_base : DepthGenerator E Q → Price
  drawn_base g = get_or g.base_prices (E.draw_nat 0 (length g.symbols - 1) g.world).0 invalid_price

  symbol_of_generated :
      (g : DepthGenerator E Q)
      → IsIdle g
      → length (generate_depth_message E Q g).0.option.symbol ≡ max_symbol_size
  unfolding generate_depth_message
  symbol_of_generated g v =
      let bound = E.draw_nat_bounds 0 (length g.symbols - 1) g.world (omega arith) in
      All-get_or (λ s. length s ≡ max_symbol_size) g.symbols _ [] (omega (arith, v.some_symbol))
        v.symbols

  -- A generated message is priced within 1000 to 5000 of the base price, below it if a bid was drawn
  -- and above it otherwise; but whichever was drawn, the consumer finds the bid bit clear.
  pub side_is_lost :
      (g : DepthGenerator E Q) (now : ℕ)
      → IsIdle g
      → let m = (generate_depth_message E Q g).0 in
        (bit_and (deserialize (serialize m) now).flags 1 ≡ 0)
        × (drawn_side g ≡ 1
            → (m.price ≤ℤ drawn_base g -ℤ pos 1000) × (drawn_base g -ℤ pos 5000 ≤ℤ m.price))
        × (drawn_side g ≡ 0
            → (drawn_base g +ℤ pos 1000 ≤ℤ m.price) × (m.price ≤ℤ drawn_base g +ℤ pos 5000))
  unfolding generate_depth_message
  side_is_lost g now v =
      let m = (generate_depth_message E Q g).0 in
      let w = (E.draw_nat 0 1 (E.draw_nat 0 (length g.symbols - 1) g.world).1).1 in
      let modifier = (E.draw_int (pos 1000) (pos 5000) w).0 in
      let bounds = E.draw_int_bounds (pos 1000) (pos 5000) w (omega arith) in
      (
        ap (λ (f : ℕ). bit_and f 1) (deserialize_flags m now (symbol_of_generated g v)).0,
        λ e. rw e (below (drawn_base g) modifier bounds),
        λ e. rw e (above (drawn_base g) modifier bounds),
      )

  -- The clients and the sequence numbers of rounds that start at `s`
  abbrev pub numbered : ℕ → ℕ → List ℕ → List (ℕ × ℕ)
  numbered zero s cs = []
  numbered (suc n) s cs = map (λ client. (client, s)) cs ++ numbered n ((s + 1) % 2 ^ 16) cs

  pushed_alone :
      (m : DepthMessage) (q : Q.Queue) → Q.entries q ≡ [] → Q.entries (Q.push m q).1 ≡ m ∷ []
  pushed_alone m q e = Q.push_accepted m q (Q.push_empty m q e) ∙ ap (λ es. es ++ (m ∷ [])) e

  send_one :
      (m : DepthMessage) (g : DepthGenerator E Q)
      → Q.entries g.send_q ≡ []
      → send_msg E Q (enqueue E Q m g) ≡ (
        map (λ client. (client, serialize m)) g.clients,
        record g { send_q = (Q.pop (Q.push m g.send_q).1).1; seq = (g.seq + 1) % 2 ^ 16 },
      )
  unfolding enqueue send_msg
  send_one m g e =
      let front = Q.pop_front m [] (Q.push m g.send_q).1 (pushed_alone m g.send_q e) in
      rw (front.0, send_msg)

  -- A round from an idle generator sends the message that it made to every client, in order, counts
  -- on by one, and is idle again.
  pub round_sends :
      (g : DepthGenerator E Q)
      → IsIdle g
      → let (m, _) = generate_depth_message E Q g in
        let (out, g') = round E Q g in
        (out ≡ map (λ client. (client, serialize m)) g.clients)
        × (g'.seq ≡ (g.seq + 1) % 2 ^ 16)
        × (g'.clients ≡ g.clients)
        × IsIdle g'
  unfolding round generate_depth_message
  round_sends g v =
      let (m, g') = generate_depth_message E Q g in
      rw (send_one m g' v.drained) (
        refl,
        refl,
        refl,
        record {
          drained = (Q.pop_front m [] (Q.push m g.send_q).1 (pushed_alone m g.send_q v.drained)).1;
          some_symbol = v.some_symbol;
          symbols = v.symbols;
          seq_fits = omega arith;
        },
      )

  -- To whom a packet goes, and the sequence number that it carries
  abbrev pub addressed : Sent → ℕ × ℕ
  addressed (client, packet) = (client, (deserialize packet 0).seq)

  addressed-clients :
      (m : DepthMessage) (clients : List ℕ)
      → length m.option.symbol ≡ max_symbol_size
      → map addressed (map (λ client. (client, serialize m)) clients)
        ≡ map (λ client. (client, m.header.seq % 2 ^ 16)) clients
  addressed-clients m [] h = refl
  addressed-clients m (c ∷ cs) h =
      ap₂ ◌∷◌ (ap (λ s. (c, s)) (deserialize_flags m 0 h).1) (addressed-clients m cs h)

  seq_of_generated : (g : DepthGenerator E Q) → (generate_depth_message E Q g).0.header.seq ≡ g.seq
  unfolding generate_depth_message
  seq_of_generated g = refl

  -- From an idle generator on, any number of rounds send to every client, in the clients' order, one
  -- packet of each round, with consecutive sequence numbers modulo 2 ^ 16: no message is lost, repeated,
  -- reordered or sent elsewhere between generation and sending.
  pub run_numbers :
      (n : ℕ) (g : DepthGenerator E Q)
      → IsIdle g
      → map addressed (run E Q n g).0 ≡ numbered n g.seq g.clients
  unfolding run
  run_numbers zero g v = refl
  run_numbers (suc n) g v =
      let r = round_sends g v in
      let (out, g') = round E Q g in
      let first : map addressed out ≡ map (λ client. (client, g.seq)) g.clients =
        ap (map addressed) r.0
        ∙ addressed-clients (generate_depth_message E Q g).0 g.clients (symbol_of_generated g v)
        ∙ ap (λ (s : ℕ). map (λ client. (client, s)) g.clients)
            (omega (arith, seq_of_generated g, v.seq_fits)) in
      let later = run_numbers n g' r.3 in
      map-append addressed out (run E Q n g').0
      ∙ ap₂ ◌++◌ first
          (later ∙ ap (numbered n g'.seq) r.2 ∙ ap (λ (s : ℕ). numbered n s g.clients) r.1)
