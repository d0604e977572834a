-- ===== src/MarketData/ConsumerMain/Printed.antt =====
-- What the consumer prints.
use mathlib.Core.List.{append-nil}
use tradingmarketsimulator.Prelude.{
  ℕ, ◌≡◌, refl, sym, ap, ◌∙◌, subst, Option, none, some, List, [], ◌∷◌, ◌++◌, append_assoc,
  if◌then◌else◌, All, Bool-cases, List-cases, Option-cases, if-cases, inl, inr,
}
use tradingmarketsimulator.Prelude.Int.{pos, eqb_ℤ}
use tradingmarketsimulator.Spsc.{Spsc}
use tradingmarketsimulator.Structs.{InternalMessage}
use tradingmarketsimulator.MarketData.Wire.{Buffer, deserialize}
use tradingmarketsimulator.MarketData.Display.{contract_word}
use tradingmarketsimulator.MarketData.DepthConsumer
use tradingmarketsimulator.MarketData.DepthConsumer.{Consumer, Recv, read_msg, try_pop}
use tradingmarketsimulator.MarketData.ConsumerMain.{
  Micro, line, line_up, last_ts, line_up-append, last_ts-append, Program, started, poll, accepted,
  Turn, Turns,
}

-- The contract's word on the line of a message that came off the wire
is_put : (buf : Buffer) (now : ℕ) → contract_word (deserialize buf now) ≡ "P"
unfolding deserialize contract_word
is_put buf now = refl

All-append : {A : Type 0} (P : A → Type 0) (xs ys : List A) → All P xs → All P ys → All P (xs ++ ys)
All-append P [] ys h k = k
All-append P (x ∷ xs) ys h k = (h.0, All-append P xs ys h.1 k)

module _ (Q : Spsc InternalMessage) (micro : Micro) where
  -- The lines are those of the messages that arrived, in order and each once, but for the messages
  -- that are still queued; all of them call the contract a put.
  pub record Prints (p : Program Q micro) : Type 0 where
    pub shown : List InternalMessage
    pub lines : p.lines ≡ line_up micro 0 shown
    pub t_last : p.t_last ≡ last_ts 0 shown
    pub in_order : shown ++ Q.entries p.consumer.recv_queue ≡ p.arrived
    pub puts : All (λ (m : InternalMessage). contract_word m ≡ "P") p.arrived

  abbrev Enters : Consumer Q → List InternalMessage → Option (Consumer Q) → Type 0
  Enters c ms none = Unit
  Enters c ms (some c') = Q.entries c'.recv_queue ≡ Q.entries c.recv_queue ++ ms

  entered :
      (m : InternalMessage) (q : Q.Queue)
      → Q.entries (Q.push m q).1 ≡ Q.entries q ++ (if (Q.push m q).0 then m ∷ [] else [])
  entered m q = elim (Bool-cases (Q.push m q).0) [
    | inl e ↦ rw e (Q.push_accepted m q e)
    | inr e ↦ rw e (Q.push_refused m q e ∙ sym (append-nil (Q.entries q)))
  ]

  entries-round :
      (r : Recv) (now : ℕ) (c : Consumer Q)
      → Enters c (accepted Q micro r now c) (DepthConsumer.round Q r now c)
  unfolding DepthConsumer.round accepted
  entries-round r now c =
      let entries = Q.entries c.recv_queue in
      elim (Option-cases (read_msg r c.buf)) [
        | inl e ↦ rw (e, Enters, DepthConsumer.round) tt
        | inr (a, e) ↦ elim (Bool-cases (eqb_ℤ a.0 (pos 0))) [
          | inl nothing ↦
              let none_new : accepted Q micro r now c ≡ [] = rw (e, accepted, nothing) refl in
              rw (e, Enters, DepthConsumer.round, nothing)
                (sym (append-nil entries) ∙ ap (λ ms. entries ++ ms) (sym none_new))
          | inr some_bytes ↦
              let m = deserialize a.1 now in
              let new : accepted Q micro r now c
                  ≡ (if (Q.push m c.recv_queue).0 then m ∷ [] else []) =
                rw (e, accepted, some_bytes) refl in
              rw (e, Enters, DepthConsumer.round, some_bytes)
                (entered m c.recv_queue ∙ ap (λ ms. entries ++ ms) (sym new))
        ]
      ]

  puts-accepted :
      (r : Recv) (now : ℕ) (c : Consumer Q)
      → All (λ (m : InternalMessage). contract_word m ≡ "P") (accepted Q micro r now c)
  unfolding accepted
  puts-accepted r now c =
      let P = All (λ (m : InternalMessage). contract_word m ≡ "P") in
      elim (Option-cases (read_msg r c.buf)) [
        | inl e ↦ rw (e, accepted, All) tt
        | inr (a, e) ↦
            rw (e, accepted, All)
              (if-cases P (eqb_ℤ a.0 (pos 0)) tt
                (if-cases P (Q.push (deserialize a.1 now) c.recv_queue).0 (is_put a.1 now, tt) tt))
      ]

  Prints-poll : (p : Program Q micro) → Prints p → Prints (poll Q micro p)
  unfolding poll try_pop
  Prints-poll p v =
      let q = p.consumer.recv_queue in
      elim (List-cases (Q.entries q)) [
        | inl e ↦
            let empty = Q.pop_empty q e in
            rw (empty.0, poll)
              (record {
                shown = v.shown;
                lines = v.lines;
                t_last = v.t_last;
                in_order = ap (λ es. v.shown ++ es) (empty.1 ∙ sym e) ∙ v.in_order;
                puts = v.puts;
              })
        | inr (m, rest, e) ↦
            let front = Q.pop_front m rest q e in
            rw (front.0, poll)
              (record {
                shown = v.shown ++ (m ∷ []);
                lines =
                    ap (λ ls. ls ++ (line micro p.t_last m ∷ [])) v.lines
                    ∙ ap (λ t. line_up micro 0 v.shown ++ (line micro t m ∷ [])) v.t_last
                    ∙ sym (line_up-append micro 0 v.shown m);
                t_last = sym (last_ts-append 0 v.shown m);
                in_order =
                    ap (λ es. (v.shown ++ (m ∷ [])) ++ es) front.1
                    ∙ append_assoc v.shown (m ∷ []) rest
                    ∙ ap (λ es. v.shown ++ es) (sym e)
                    ∙ v.in_order;
                puts = v.puts;
              })
      ]

  Prints-receives :
      (p : Program Q micro) (r : Recv) (now : ℕ) (c : Consumer Q)
      → DepthConsumer.round Q r now p.consumer ≡ some c
      → Prints p
      → Prints (record p { consumer = c; arrived = p.arrived ++ accepted Q micro r now p.consumer })
  Prints-receives p r now c e v =
      let new = accepted Q micro r now p.consumer in
      let enters = subst (Enters p.consumer new) e (entries-round r now p.consumer) in
      record {
        shown = v.shown;
        lines = v.lines;
        t_last = v.t_last;
        in_order =
            ap (λ es. v.shown ++ es) enters
            ∙ sym (append_assoc v.shown (Q.entries p.consumer.recv_queue) new)
            ∙ ap (λ ms. ms ++ new) v.in_order;
        puts =
            All-append (λ (m : InternalMessage). contract_word m ≡ "P") p.arrived new v.puts
              (puts-accepted r now p.consumer);
      }

  Turn-Prints : (p q : Program Q micro) → Turn Q micro p q → Prints p → Prints q
  Turn-Prints p _ Turn.polls v = Prints-poll p v
  Turn-Prints p _ (Turn.receives r now c e) v = Prints-receives p r now c e v

  Turns-Prints : (p q : Program Q micro) → Turns Q micro p q → Prints p → Prints q
  Turns-Prints p _ Turns.here v = v
  Turns-Prints p r (Turns.then_step {q = q} before s) v =
      Turn-Prints q r s (Turns-Prints p q before v)

  -- From the start of the program, with an empty queue, and whatever datagrams come: however the
  -- receiving thread and the loop of `main` take turns, the lines that are printed are those of the
  -- messages that were put into the queue, in order and each once, up to those still queued; each line
  -- gives the time since the line before, and each calls its contract a put.
  pub started-Prints :
      (q : Q.Queue) (p : Program Q micro)
      → Q.entries q ≡ []
      → Turns Q micro (started Q micro q) p
      → Prints p
  unfolding started line_up last_ts DepthConsumer.init
  started-Prints q p empty steps =
      Turns-Prints (started Q micro q) p steps
        (record { shown = []; lines = refl; t_last = refl; in_order = empty; puts = tt })
