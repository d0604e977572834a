-- ===== src/MarketData/DepthConsumer/Receive.antt =====
-- What the consumer makes of a receipt: a packet, a packet that is too long, and a failure.
use tradingmarketsimulator.Prelude.{
  ℕ, zero, suc, ◌+◌, ◌<◌, ◌≤◌, ◌≡◌, refl, sym, ◌∙◌, ap, true, false, none, some, List, [], ◌∷◌,
  ◌++◌, length, leb, take, drop, map, arith, All, length-append, append-nil, inl, inr, Bool-cases,
  ◌↔◌,
}
use tradingmarketsimulator.Prelude.Int.{pos, negsuc, eqb_ℤ}
use native.Mathlib.Decide.{dec_lt}
use tradingmarketsimulator.Spsc.{Spsc}
use tradingmarketsimulator.Structs.{DepthMessage, InternalMessage}
use tradingmarketsimulator.MarketData.Wire.{Buffer, wire_size, serialize, deserialize}
use tradingmarketsimulator.MarketData.Wire.RoundTrip.{
  Fits, received, deserialize-serialize, serialize-header,
}
use tradingmarketsimulator.MarketData.DepthConsumer.{
  Recv, init, IsReceipt, market_depth_msg_len, store, read_msg, Consumer, round, run, try_pop,
}

drop_all : {A : Type 0} (xs : List A) (n : ℕ) → length xs ≤ n → drop n xs ≡ []
drop_all [] zero h = refl
drop_all [] (suc n) h = refl
drop_all (x ∷ xs) zero h = absurd (omega arith)
drop_all (x ∷ xs) (suc n) h = drop_all xs n (omega arith)

length-drop :
    {A : Type 0} (xs : List A) (n : ℕ) → n ≤ length xs → n + length (drop n xs) ≡ length xs
length-drop xs zero h = omega arith
length-drop [] (suc n) h = absurd (omega arith)
length-drop (x ∷ xs) (suc n) h = omega (arith, length-drop xs n (omega arith))

store-whole :
    (bytes : List ℕ) (buf : Buffer) → length bytes ≡ length buf → store bytes buf ≡ some bytes
unfolding store
store-whole bytes buf h =
    let fits : leb (length bytes) (length buf) ≡ true = grind arith in
    rw (fits, drop_all buf (length bytes) (omega arith), append-nil bytes)

store-fits :
    (bytes : List ℕ) (buf : Buffer)
    → length bytes ≤ length buf
    → (store bytes buf ≡ some (bytes ++ drop (length bytes) buf))
      × (length (bytes ++ drop (length bytes) buf) ≡ length buf)
unfolding store
store-fits bytes buf h =
    let fits : leb (length bytes) (length buf) ≡ true = grind arith in
    (rw fits refl, length-append bytes (drop (length bytes) buf) ∙ length-drop buf (length bytes) h)

store-overrun : (bytes : List ℕ) (buf : Buffer) → length buf < length bytes → store bytes buf ≡ none
unfolding store
store-overrun bytes buf h =
    let over : leb (length bytes) (length buf) ≡ false = grind arith in rw over refl

read_msg-stored :
    (recv : Recv) (buf buf' : Buffer)
    → store (recv market_depth_msg_len).bytes buf ≡ some buf'
    → read_msg recv buf ≡ some ((recv market_depth_msg_len).count, buf')
unfolding read_msg
read_msg-stored recv buf buf' e = rw (e, read_msg)

read_msg-overrun :
    (recv : Recv) (buf : Buffer)
    → store (recv market_depth_msg_len).bytes buf ≡ none
    → read_msg recv buf ≡ none
unfolding read_msg
read_msg-overrun recv buf e = rw (e, read_msg)

-- What `recv` answers for a datagram, of which it stores no more than it is allowed, and what it answers
-- when it fails
abbrev pub datagram : List ℕ → Recv
datagram bytes allowance =
    let stored = take allowance bytes in record { count = pos (length stored); bytes = stored }

abbrev pub failure : ℕ → Recv
failure code allowance = record { count = negsuc code; bytes = [] }

take_all : {A : Type 0} (xs : List A) (n : ℕ) → length xs ≤ n → take n xs ≡ xs
take_all [] zero h = refl
take_all [] (suc n) h = refl
take_all (x ∷ xs) zero h = absurd (omega arith)
take_all (x ∷ xs) (suc n) h = ap (λ ys. x ∷ ys) (take_all xs n (omega arith))

length-take : {A : Type 0} (xs : List A) (n : ℕ) → n ≤ length xs → length (take n xs) ≡ n
length-take xs zero h = refl
length-take [] (suc n) h = absurd (omega arith)
length-take (x ∷ xs) (suc n) h = omega (arith, length-take xs n (omega arith))

-- What comes over the network: a datagram of any length, or a failure
pub data Arrival : Type 0 where
  packet : List ℕ → Arrival
  failed : ℕ → Arrival

abbrev pub answer : Arrival → Recv
answer (Arrival.packet bytes) = datagram bytes
answer (Arrival.failed code) = failure code

abbrev pub answers : List (Arrival × ℕ) → List (Recv × ℕ)
answers = map (λ p. (answer p.0, p.1))

-- A datagram no longer than a message on the wire
abbrev pub IsShort : Arrival → Type 0
IsShort (Arrival.packet bytes) = length bytes ≤ wire_size
IsShort (Arrival.failed code) = Unit

abbrev stored_bytes : Arrival → List ℕ
stored_bytes a = (answer a market_depth_msg_len).bytes

stored_bytes-IsShort : (a : Arrival) → IsShort a → length (stored_bytes a) ≤ wire_size
stored_bytes-IsShort (Arrival.packet bytes) h =
    omega (arith, ap length (take_all bytes market_depth_msg_len (omega arith)))
stored_bytes-IsShort (Arrival.failed code) h = omega arith

IsShort-stored_bytes : (a : Arrival) → length (stored_bytes a) ≤ wire_size → IsShort a
IsShort-stored_bytes (Arrival.packet bytes) h = elim (dec_lt market_depth_msg_len (length bytes)) [
  | yes long ↦ absurd (omega (arith, length-take bytes market_depth_msg_len (omega arith)))
  | no fits ↦ omega (arith, ap length (take_all bytes market_depth_msg_len (omega (arith, fits))))
]
IsShort-stored_bytes (Arrival.failed code) h = tt

module _ (Q : Spsc InternalMessage) where
  round-fits :
      (recv : Recv) (now : ℕ) (c : Consumer Q)
      → length c.buf ≡ wire_size
      → length (recv market_depth_msg_len).bytes ≤ wire_size
      → (c' : Consumer Q) × (round Q recv now c ≡ some c') × (length c'.buf ≡ wire_size)
  unfolding round
  round-fits recv now c h fits =
      let r = recv market_depth_msg_len in
      let buf' : Buffer = r.bytes ++ drop (length r.bytes) c.buf in
      let stored = store-fits r.bytes c.buf (omega (arith, h)) in
      let read = read_msg-stored recv c.buf buf' stored.0 in
      elim (Bool-cases (eqb_ℤ r.count (pos 0))) [
        | inl e ↦ (record c { buf = buf' }, rw (read, round, e), stored.1 ∙ h)
        | inr e ↦ (
          record { buf = buf'; recv_queue = (Q.push (deserialize buf' now) c.recv_queue).1 },
          rw (read, round, e),
          stored.1 ∙ h,
        )
      ]

  round-overrun :
      (recv : Recv) (now : ℕ) (c : Consumer Q)
      → length c.buf ≡ wire_size
      → wire_size < length (recv market_depth_msg_len).bytes
      → round Q recv now c ≡ none
  unfolding round
  round-overrun recv now c h over =
      let bytes = (recv market_depth_msg_len).bytes in
      rw (read_msg-overrun recv c.buf (store-overrun bytes c.buf (omega (arith, h))), round)

  -- What `try_pop` hands out when a message was queued behind nothing.
  try_pop-pushed :
      (i : InternalMessage) (buf : Buffer) (q : Q.Queue)
      → Q.entries q ≡ []
      → let c : Consumer Q = record { buf = buf; recv_queue = (Q.push i q).1 } in
        ((try_pop Q c).0 ≡ some i) × (Q.entries (try_pop Q c).1.recv_queue ≡ [])
  unfolding try_pop
  try_pop-pushed i buf q e =
      Q.pop_front i [] (Q.push i q).1
        (Q.push_accepted i q (Q.push_empty i q e) ∙ ap (λ es. es ++ (i ∷ [])) e)

  -- A packet is decoded as it was sent, and the next `try_pop` hands it out and leaves nothing.
  pub round_receives :
      (m : DepthMessage) (now : ℕ) (c : Consumer Q)
      → Fits m
      → length c.buf ≡ wire_size
      → Q.entries c.recv_queue ≡ []
      → (c' : Consumer Q) × (round Q (datagram (serialize m)) now c ≡ some c')
        × ((try_pop Q c').0 ≡ some (received m now))
        × (Q.entries (try_pop Q c').1.recv_queue ≡ [])
        × (c'.buf ≡ serialize m)
  unfolding round
  round_receives m now c fits h e =
      let size = (serialize-header m fits.symbol).0 in
      let i = deserialize (serialize m) now in
      let popped = try_pop-pushed i (serialize m) c.recv_queue e in
      let all = take_all (serialize m) market_depth_msg_len (omega (arith, size)) in
      let whole = ap (λ bs. store bs c.buf) all ∙ store-whole (serialize m) c.buf (size ∙ sym h) in
      (
        record { buf = serialize m; recv_queue = (Q.push i c.recv_queue).1 },
        rw (
          read_msg-stored (datagram (serialize m)) c.buf (serialize m) whole,
          round,
          ap length all,
          size,
        ),
        popped.0 ∙ ap some (deserialize-serialize m now fits),
        popped.1,
        refl,
      )

  -- A `recv` that fails stores nothing and returns a negative count, which `run` takes for a message:
  -- the packet that was received before is decoded and handed out a second time.
  pub error_replays :
      (m : DepthMessage) (now : ℕ) (code : ℕ) (c : Consumer Q)
      → Fits m
      → c.buf ≡ serialize m
      → Q.entries c.recv_queue ≡ []
      → IsReceipt market_depth_msg_len (failure code market_depth_msg_len)
        × ((c' : Consumer Q) × (round Q (failure code) now c ≡ some c')
            × ((try_pop Q c').0 ≡ some (received m now)))
  unfolding round
  error_replays m now code c fits h e =
      let i = deserialize c.buf now in
      let popped = try_pop-pushed i c.buf c.recv_queue e in
      let read = read_msg-stored (failure code) c.buf c.buf (store-fits [] c.buf (omega arith)).0 in
      let nonzero : eqb_ℤ (negsuc code) (pos 0) ≡ false = grind arith in
      (
        refl,
        (
          record { buf = c.buf; recv_queue = (Q.push i c.recv_queue).1 },
          rw (read, round, nonzero),
          popped.0 ∙ ap some (ap (λ b. deserialize b now) h ∙ deserialize-serialize m now fits),
        ),
      )

  run-fits :
      (recv : Recv) (now : ℕ) (rest : List (Recv × ℕ)) (c c' : Consumer Q)
      → round Q recv now c ≡ some c'
      → run Q ((recv, now) ∷ rest) c ≡ run Q rest c'
  unfolding run
  run-fits recv now rest c c' e = rw (e, run)

  run-overrun :
      (recv : Recv) (now : ℕ) (rest : List (Recv × ℕ)) (c : Consumer Q)
      → round Q recv now c ≡ none
      → run Q ((recv, now) ∷ rest) c ≡ none
  unfolding run
  run-overrun recv now rest c e = rw (e, run)

  run-answers :
      (as' : List (Arrival × ℕ)) (c : Consumer Q)
      → length c.buf ≡ wire_size
      → ((c' : Consumer Q) × (run Q (answers as') c ≡ some c')) ↔ All (λ p. IsShort p.0) as'
  unfolding run
  run-answers [] c h = (λ _. tt, λ _. (c, refl))
  run-answers ((a, now) ∷ rest) c h = elim (dec_lt wire_size (length (stored_bytes a))) [
    | yes over ↦
        let stuck =
          run-overrun (answer a) now (answers rest) c (round-overrun (answer a) now c h over) in
        ((λ p. absurd cc), (λ short. absurd (omega (arith, stored_bytes-IsShort a short.0))))
    | no fits ↦
        let small : length (stored_bytes a) ≤ wire_size = omega (arith, fits) in
        let next = round-fits (answer a) now c h small in
        let rest_iff = run-answers rest next.0 next.2 in
        let go = run-fits (answer a) now (answers rest) c next.0 next.1 in
        (
          (λ p. (IsShort-stored_bytes a small, rest_iff.0 (p.0, sym go ∙ p.1))),
          (λ f. let q = rest_iff.1 f.1 in (q.0, go ∙ q.1)),
        )
  ]

  -- From its start, and whatever comes over the network, the consumer gets through without a write
  -- beyond its buffer exactly when no datagram is longer than the 32 bytes of a message on the wire:
  -- the 40 bytes that `recv` is allowed let longer ones through to the buffer, while failures do no harm to
  -- it.
  pub run_iff :
      (as' : List (Arrival × ℕ)) (q : Q.Queue)
      → ((c' : Consumer Q) × (run Q (answers as') (init Q q) ≡ some c'))
        ↔ All (λ p. IsShort p.0) as'
  unfolding init
  run_iff as' q = run-answers as' (init Q q) refl
