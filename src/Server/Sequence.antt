-- ===== src/Server/Sequence.antt =====
-- What the server has sent after any number of rounds, and to whom.
use tradingmarketsimulator.Server.Symbol.{c_string, c_string-strncpy}
use tradingmarketsimulator.Prelude.{
  Chain, Last, Last-append, Last-map, Chain-append, ℕ, zero, suc, ◌+◌, ◌%◌, ◌^◌, ◌<◌, ◌≡◌, refl,
  sym, ap, subst, ◌∙◌, true, false, some, none, if◌then◌else◌, List, [], ◌∷◌, ◌++◌, length,
  length-append, if-cases_eq, Option-cases, inl, inr, arith,
}
use tradingmarketsimulator.Prelude.Int.{ℤ, pos, ltb_ℤ}
use tradingmarketsimulator.Client.{Doubles}
use tradingmarketsimulator.Server.{
  Network, Server, Attempt, ServerPhase, aapl, generate_market_data, accept_step, send_step,
  server_round, serve,
}

module _ (D : Doubles) (N : Network D) where
  -- An attempt with this number: it goes to a valid descriptor, and the log calls it zero, or does
  -- not name it if it was lost.
  abbrev pub IsNumbered : ℕ → Attempt D N → Type 0
  IsNumbered k a =
      (a.tick.seq_num ≡ k % 2 ^ 64)
      × (a.tick.timestamp_ns ≡ k % 2 ^ 64)
      × (c_string a.tick.symbol ≡ aapl)
      × (ltb_ℤ a.fd (pos 1) ≡ false)
      × (a.named ≡ (if a.delivered then some 0 else none))

  -- From this number on
  abbrev pub InOrder : ℕ → List (Attempt D N) → Type 0
  InOrder k [] = Unit
  InOrder k (a ∷ rest) = IsNumbered k a × InOrder (suc k) rest

  InOrder-append :
      (k : ℕ) (xs : List (Attempt D N)) (a : Attempt D N)
      → InOrder k xs
      → IsNumbered (k + length xs) a
      → InOrder k (xs ++ (a ∷ []))
  InOrder-append k [] a h n = (subst (λ j. IsNumbered j a) (omega arith) n, tt)
  InOrder-append k (x ∷ xs) a h n =
      (h.0, InOrder-append (suc k) xs a h.1 (subst (λ j. IsNumbered j a) (omega arith) n))

  -- After an attempt that went through, the next goes to the same client.
  abbrev pub SameClient : Attempt D N → Attempt D N → Type 0
  SameClient a b = a.delivered ≡ true → b.fd ≡ a.fd

  -- The client that the last attempt went to is still served, if it went through.
  abbrev IsServed : ServerPhase → Attempt D N → Type 0
  IsServed p a = a.delivered ≡ true → p ≡ ServerPhase.sending a.fd × (ltb_ℤ a.fd (pos 1) ≡ false)

  record Progress (k : ℕ) (s : Server D N) : Type 0 where
    numbered : InOrder k s.attempts
    counter : s.tick_counter ≡ (k + length s.attempts) % 2 ^ 64
    unnamed : s.i ≡ 0
    steady : Chain SameClient s.attempts
    served : Last (IsServed s.phase) s.attempts

  Progress-accept_step :
      (k : ℕ) (s : Server D N)
      → s.phase ≡ ServerPhase.accepting
      → Progress k s
      → Progress k (accept_step D N s)
  unfolding accept_step
  Progress-accept_step k s p v = elim (Option-cases (N.accept_client s.world).0) [
    | inl e ↦
        rw (e, accept_step)
          (record {
            numbered = v.numbered;
            counter = v.counter;
            unnamed = v.unnamed;
            steady = v.steady;
            served = v.served;
          })
    | inr (fd, e) ↦
        rw (e, accept_step)
          (record {
            numbered = v.numbered;
            counter = v.counter;
            unnamed = v.unnamed;
            steady = v.steady;
            served =
                Last-map (IsServed s.phase) (IsServed (ServerPhase.sending fd)) s.attempts
                  (λ a h d. let impossible = sym p ∙ (h d).0 in absurd cc) v.served;
          })
  ]

  Progress-send_step :
      (k : ℕ) (fd : ℤ) (s : Server D N)
      → s.phase ≡ ServerPhase.sending fd
      → Progress k s
      → Progress k (send_step D N fd s)
  unfolding send_step generate_market_data
  Progress-send_step k fd s p v =
      if-cases_eq (Progress k) (ltb_ℤ fd (pos 1))
        (λ invalid. record {
          numbered = v.numbered;
          counter = v.counter;
          unnamed = v.unnamed;
          steady = v.steady;
          served =
              Last-map (IsServed s.phase) (IsServed ServerPhase.accepting) s.attempts
                (λ a h d.
                  let to_a = sym p ∙ (h d).0 in
                  let same : fd ≡ a.fd = cc in
                  let valid : ltb_ℤ a.fd (pos 1) ≡ false = (h d).1 in absurd cc)
                v.served;
        })
        (λ valid.
          let (tick, s') = generate_market_data D N aapl s in
          let (sent, w) = N.send fd tick s'.world in
          let a : Attempt D N = record {
            fd = fd;
            tick = tick;
            delivered = sent;
            named = if sent then some s.i else none;
          } in
          record {
            numbered = InOrder-append k s.attempts a v.numbered (
              v.counter,
              v.counter,
              c_string-strncpy 7 aapl,
              valid,
              ap (λ (i : ℕ). if sent then some i else none) v.unnamed,
            );
            counter = omega (arith, v.counter, length-append s.attempts (a ∷ []));
            unnamed = v.unnamed;
            steady = Chain-append SameClient s.attempts a v.steady (
                Last-map (IsServed s.phase) (λ x. SameClient x a) s.attempts
                  (λ x h d. let to_x = sym p ∙ (h d).0 in cc) v.served);
            served = Last-append (IsServed _) s.attempts a (λ d. (rw d refl, valid));
          })

  Progress-server_round :
      (p : ServerPhase) (k : ℕ) (s : Server D N)
      → s.phase ≡ p
      → Progress k s
      → Progress k (server_round D N p s)
  unfolding server_round
  Progress-server_round ServerPhase.accepting k s e v = Progress-accept_step k s e v
  Progress-server_round (ServerPhase.sending fd) k s e v = Progress-send_step k fd s e v

  begun :
      (k : ℕ) (s : Server D N)
      → k < 2 ^ 64
      → s.tick_counter ≡ k
      → s.i ≡ 0
      → s.attempts ≡ []
      → Progress k s
  begun k s h c i e = record {
    numbered = rw e tt;
    counter = rw e (omega arith);
    unnamed = i;
    steady = rw e tt;
    served = rw e tt;
  }

  Progress-serve : (k n : ℕ) (s : Server D N) → Progress k s → Progress k (serve D N n s)
  unfolding serve
  Progress-serve k zero s v = v
  Progress-serve k (suc n) s v =
      let s' = serve D N n s in Progress-server_round s'.phase k s' refl (Progress-serve k n s v)

  -- From a server that has sent nothing yet, the ticks of any number of rounds are numbered from the
  -- counter on, one after the other modulo 2 ^ 64, whichever clients they went to and whether or not
  -- they arrived; each is of AAPL and is sent to a valid descriptor; the log calls each that went through
  -- zero, and does not name one that was lost; and after a tick that went through, the next goes to the same client.
  pub serve_lem :
      (n : ℕ) (s : Server D N)
      → s.tick_counter < 2 ^ 64
      → s.i ≡ 0
      → s.attempts ≡ []
      → let sent = (serve D N n s).attempts in InOrder s.tick_counter sent × Chain SameClient sent
  serve_lem n s h i e =
      let v = Progress-serve s.tick_counter n s (begun s.tick_counter s h refl i e) in
      (v.numbered, v.steady)
