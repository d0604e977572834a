-- ===== src/Spsc.antt =====
-- What the program uses of `fiah::SPSCQueue`, a library that the build fetches: a bounded first-in
-- first-out queue. `entries` is what a reader would pop, in order.
use tradingmarketsimulator.Prelude.{◌≡◌, Bool, true, false, Option, none, some, List, [], ◌∷◌, ◌++◌}

pub record Spsc (A : Type 0) : Type 1 where
  pub Queue : Type 0
  pub entries : Queue → List A
  pub push : A → Queue → Bool × Queue
  pub pop : Queue → Option A × Queue
  -- An accepted entry goes to the end, and a refused one changes nothing.
  pub push_accepted :
      (a : A) (q : Queue) → (push a q).0 ≡ true → entries (push a q).1 ≡ entries q ++ (a ∷ [])
  pub push_refused : (a : A) (q : Queue) → (push a q).0 ≡ false → entries (push a q).1 ≡ entries q
  -- The queue has room for one entry at least.
  pub push_empty : (a : A) (q : Queue) → entries q ≡ [] → (push a q).0 ≡ true
  -- `pop` fails on the empty queue only, and otherwise takes the first entry.
  pub pop_empty : (q : Queue) → entries q ≡ [] → ((pop q).0 ≡ none) × (entries (pop q).1 ≡ [])
  pub pop_front :
      (a : A) (rest : List A) (q : Queue)
      → entries q ≡ a ∷ rest
      → ((pop q).0 ≡ some a) × (entries (pop q).1 ≡ rest)
