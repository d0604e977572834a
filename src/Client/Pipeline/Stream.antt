-- ===== src/Client/Pipeline/Stream.antt =====
-- The ticks as bytes of a TCP stream: what the sizes of the reads make of them.
use tradingmarketsimulator.Prelude.{
  ℕ, zero, suc, ◌+◌, ◌<◌, ◌≤◌, ◌≡◌, refl, ap, ap₂, ◌∙◌, List, [], ◌∷◌, ◌++◌, length, length-append,
  take, drop, take-append, take-front, drop-front, replicate, All, ◌==◌, true, false, arith,
}
use tradingmarketsimulator.Spsc.{Spsc}
use tradingmarketsimulator.Client.{Doubles, MarketData, market_data_size, Signal, Tcp}
use tradingmarketsimulator.Client.Pipeline.{Client}
use tradingmarketsimulator.Client.Pipeline.Launch.{Launched}
use tradingmarketsimulator.Client.Pipeline.Reads.{Packet, Journal, ticks_of, gets_whole_packets}

-- The array of the symbol has its size.
abbrev pub IsWhole : {D : Doubles} → MarketData D → Type 0
IsWhole md = length md.symbol ≡ 8

-- The bytes of the packed struct, and what a buffer reads as
pub record Layout (D : Doubles) : Type 0 where
  pub bytes : MarketData D → List ℕ
  pub reads : List ℕ → MarketData D
  pub length-bytes : (md : MarketData D) → IsWhole md → length (bytes md) ≡ market_data_size
  pub reads-bytes : (md : MarketData D) → IsWhole md → reads (bytes md) ≡ md

module _ (D : Doubles) (B : Layout D) where
  -- What a sequence of sends puts into the stream
  unfoldable pub stream : List (MarketData D) → List ℕ
  stream [] = []
  stream (md ∷ mds) = B.bytes md ++ stream mds

  abbrev pub packet : List ℕ → Packet D
  packet bs = (length bs, B.reads bs)

  -- What reads of these sizes answer, one after the other
  unfoldable pub packets : List ℕ → List ℕ → List (Packet D)
  packets [] bs = []
  packets (n ∷ ns) bs = packet (take n bs) ∷ packets ns (drop n bs)

  -- So many reads of the size of a tick
  abbrev pub whole : ℕ → List ℕ
  whole n = replicate n market_data_size

  -- The last bytes of each tick but those that were read of it, with the first ones of the next
  unfoldable pub torn : ℕ → MarketData D → List (MarketData D) → List (MarketData D)
  torn r md [] = []
  torn r md (next ∷ mds) = B.reads (drop r (B.bytes md) ++ take r (B.bytes next)) ∷ torn r next mds

  length-take : (n : ℕ) (xs : List ℕ) → n ≤ length xs → length (take n xs) ≡ n
  length-take zero xs h = refl
  length-take (suc n) [] h = absurd (omega arith)
  length-take (suc n) (x ∷ xs) h = omega (arith, length-take n xs (omega arith))

  length-drop : (n : ℕ) (xs : List ℕ) → n ≤ length xs → length (drop n xs) + n ≡ length xs
  length-drop zero xs h = omega arith
  length-drop (suc n) [] h = absurd (omega arith)
  length-drop (suc n) (x ∷ xs) h = omega (arith, length-drop n xs (omega arith))

  -- A cut within the first of two lists
  take-within : (n : ℕ) (xs ys : List ℕ) → n ≤ length xs → take n (xs ++ ys) ≡ take n xs
  take-within zero xs ys h = refl
  take-within (suc n) [] ys h = absurd (omega arith)
  take-within (suc n) (x ∷ xs) ys h = ap (λ zs. x ∷ zs) (take-within n xs ys (omega arith))

  drop-within : (n : ℕ) (xs ys : List ℕ) → n ≤ length xs → drop n (xs ++ ys) ≡ drop n xs ++ ys
  drop-within zero xs ys h = refl
  drop-within (suc n) [] ys h = absurd (omega arith)
  drop-within (suc n) (x ∷ xs) ys h = drop-within n xs ys (omega arith)

  -- A read of the size of a tick is handed on.
  ticks_of-packet :
      (bs : List ℕ) (ps : List (Packet D))
      → length bs ≡ market_data_size
      → ticks_of D (packet bs ∷ ps) ≡ B.reads bs ∷ ticks_of D ps
  unfolding ticks_of
  ticks_of-packet bs ps h =
      let e : (length bs == market_data_size) ≡ true = ground arith in rw e refl

  -- A shorter one is not.
  ticks_of-partial :
      (bs : List ℕ) (ps : List (Packet D))
      → length bs < market_data_size
      → ticks_of D (packet bs ∷ ps) ≡ ticks_of D ps
  unfolding ticks_of
  ticks_of-partial bs ps h =
      let e : (length bs == market_data_size) ≡ false = ground arith in rw e refl

  -- Where `r` bytes of `md` were read before
  ticks_of-torn :
      (r : ℕ) (md : MarketData D) (mds : List (MarketData D))
      → r ≤ market_data_size
      → All IsWhole (md ∷ mds)
      → ticks_of D (packets (whole (length mds)) (drop r (stream (md ∷ mds)))) ≡ torn r md mds
  unfolding packets stream torn
  ticks_of-torn r md [] h ws = unfold ticks_of in refl
  ticks_of-torn r md (next ∷ mds) h ws =
      let front = drop r (B.bytes md) in
      let size = B.length-bytes md ws.0 in
      let size' = B.length-bytes next ws.1.0 in
      let rest = B.bytes next ++ stream mds in
      let cut = drop-within r (B.bytes md) rest (omega arith) in
      let left = length-drop r (B.bytes md) (omega arith) in
      let first : take market_data_size (drop r (B.bytes md ++ rest))
          ≡ front ++ take r (B.bytes next) =
        ap (take market_data_size) cut
        ∙ take-append front rest r market_data_size (omega arith)
        ∙ ap (λ bs. front ++ bs) (take-within r (B.bytes next) (stream mds) (omega arith)) in
      let later : drop market_data_size (drop r (B.bytes md ++ rest)) ≡ drop r rest =
        ap (drop market_data_size) cut ∙ drop-front front rest r market_data_size (omega arith) in
      let whole_size : length (take market_data_size (drop r (B.bytes md ++ rest)))
          ≡ market_data_size =
        omega (
          arith,
          ap length first,
          length-append front (take r (B.bytes next)),
          length-take r (B.bytes next) (omega arith),
        ) in
      ticks_of-packet (take market_data_size (drop r (B.bytes md ++ rest))) _ whole_size
      ∙ ap₂ ◌∷◌ (ap B.reads first) (
          ap (λ bs. ticks_of D (packets (whole (length mds)) bs)) later
          ∙ ticks_of-torn r next mds h ws.1)

  -- Whole reads, and one partial read among them
  ticks_of-packets :
      (r : ℕ) (before : List (MarketData D)) (md : MarketData D) (mds : List (MarketData D))
      → r < market_data_size
      → All IsWhole (before ++ (md ∷ mds))
      → ticks_of D (
          packets
            (whole (length before) ++ (r ∷ whole (length mds)))
            (stream (before ++ (md ∷ mds))))
        ≡ before ++ torn r md mds
  unfolding packets stream
  ticks_of-packets r [] md mds h ws =
      let size = B.length-bytes md ws.0 in
      let within = take-within r (B.bytes md) (stream mds) (omega arith) in
      let short = length-take r (B.bytes md) (omega arith) in
      ticks_of-partial (take r (B.bytes md ++ stream mds)) _
        (omega (arith, ap length within, short))
      ∙ ticks_of-torn r md mds (omega arith) ws
  ticks_of-packets r (x ∷ before) md mds h ws =
      let size = B.length-bytes x ws.0 in
      let later = stream (before ++ (md ∷ mds)) in
      let sizes = whole (length before) ++ (r ∷ whole (length mds)) in
      let first = take-front (B.bytes x) later market_data_size size in
      ticks_of-packet (take market_data_size (B.bytes x ++ later)) _ (ap length first ∙ size)
      ∙ ap₂ ◌∷◌ (ap B.reads first ∙ B.reads-bytes x ws.0) (
          ap (λ bs. ticks_of D (packets sizes bs))
            (drop-front (B.bytes x) later 0 market_data_size (omega arith))
          ∙ ticks_of-packets r before md mds h ws.1)

module _ (D : Doubles) (T : Tcp D) (MQ : Spsc (MarketData D)) (SQ : Spsc (Signal D))
    (J : Journal D T) (B : Layout D) where
  -- One partial read tears all ticks that follow. Where the server sends ticks over the stream and `recv`
  -- has answered with whole ticks, then once with fewer bytes, and then with as many bytes as a
  -- tick has for each of the others: however the threads interleave, the client got the ticks before
  -- as they were sent, and after them only what the last bytes of a tick read as with the first bytes
  -- of the next.
  pub partial_read_tears :
      (d : Client D T MQ SQ) (l : Launched D T MQ SQ d) (r : ℕ) (before : List (MarketData D))
      (md : MarketData D) (mds : List (MarketData D))
      → All IsWhole (before ++ (md ∷ mds))
      → J.log l.before ≡ []
      → r < market_data_size
      → J.log d.world
        ≡ packets D B
            (whole D B (length before) ++ (r ∷ whole D B (length mds)))
            (stream D B (before ++ (md ∷ mds)))
      → d.feed.got ≡ before ++ torn D B r md mds
  partial_read_tears d l r before md mds ws none_read partial answers =
      gets_whole_packets D T MQ SQ J d l none_read
      ∙ ap (ticks_of D) answers
      ∙ ticks_of-packets D B r before md mds partial ws
