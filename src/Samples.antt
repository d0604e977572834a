-- ===== src/Samples.antt =====
-- Concrete instances of what the models take from outside, for the tests and examples.
use tradingmarketsimulator.Prelude.{
  ℕ, ◌+◌, ◌-◌, ◌/◌, ◌%◌, ◌≡◌, refl, Bool, true, false, Option, none, some, List, [], ◌∷◌, ◌++◌, ltb,
  length, if◌then◌else◌, ◌==◌, arith,
}
use tradingmarketsimulator.Structs.{Side, Order}
use tradingmarketsimulator.Prelude.Int.{pos}
use tradingmarketsimulator.Outside.{Outside}
use tradingmarketsimulator.Spsc.{Spsc}
use tradingmarketsimulator.Exchange.SideMap.{SideMap}
use tradingmarketsimulator.Client.{Doubles, MarketData, Tcp}

-- A map as a list of entries
abbrev pub Entries : Type 0
Entries = List (ℕ × Side)

abbrev pub find_entry : Entries → ℕ → Option Side
find_entry [] k = none
find_entry ((j, s) ∷ m) k = let rest = find_entry m k in if k == j then some s else rest

abbrev pub emplace_entry : Entries → ℕ → Side → Bool × Entries
emplace_entry m k s = elim (find_entry m k) [ none ↦ (true, (k, s) ∷ m) | some _ ↦ (false, m) ]

abbrev pub erase_entry : Entries → ℕ → Entries
erase_entry [] k = []
erase_entry ((j, s) ∷ m) k = let rest = erase_entry m k in if j == k then rest else (j, s) ∷ rest

pub find-erase_entry :
    (m : Entries) (k j : ℕ)
    → find_entry (erase_entry m k) j ≡ (if j == k then none else find_entry m j)
find-erase_entry [] k j = ground arith
find-erase_entry ((i, s) ∷ m) k j = ground (arith, find-erase_entry m k j)

abbrev pub entry_map : SideMap
entry_map = record {
  Map = Entries;
  empty = [];
  find = find_entry;
  try_emplace = emplace_entry;
  erase = erase_entry;
  find-empty = λ k. refl;
  try_emplace_missing = λ m k s e. rw (e, emplace_entry);
  find-try_emplace = λ m k s j e. rw (e, emplace_entry);
  try_emplace_present = λ m k s t e. rw (e, emplace_entry);
  find-erase = find-erase_entry;
}

-- Every distribution answers its lower bound, but for that of the unit interval, which counts.
abbrev pub lowest : Outside
lowest = record {
  World = ℕ;
  Float = ℕ;
  less = ltb;
  plus = λ a b. a + b;
  draw_unit = λ w. (w % 3, w + 1);
  draw_int = λ lo hi w. (lo, w + 1);
  draw_nat = λ lo hi w. (lo, w + 1);
  ticks = λ w. (w, w + 1);
  draw_int_bounds = λ lo hi w h. (omega arith, h);
  draw_nat_bounds = λ lo hi w h. (omega arith, h);
}

-- A queue of at most two
abbrev pub push_two : {A : Type 0} → A → List A → Bool × List A
push_two a q = if ltb (length q) 2 then (true, q ++ (a ∷ [])) else (false, q)

pub push-queue_accepted :
    {A : Type 0} (a : A) (q : List A) → (push_two a q).0 ≡ true → (push_two a q).1 ≡ q ++ (a ∷ [])
push-queue_accepted a q h = ground arith

pub push-queue_refused :
    {A : Type 0} (a : A) (q : List A) → (push_two a q).0 ≡ false → (push_two a q).1 ≡ q
push-queue_refused a q h = ground arith

abbrev pub queue : (A : Type 0) → Spsc A
queue A = record {
  Queue = List A;
  entries = λ q. q;
  push = push_two;
  pop = λ q. elim q [ [] ↦ (none, []) | a ∷ rest ↦ (some a, rest) ];
  push_accepted = push-queue_accepted;
  push_refused = push-queue_refused;
  push_empty = λ a q e. rw e refl;
  pop_empty = λ q e. rw e (refl, refl);
  pop_front = λ a rest q e. rw e (refl, refl);
}

abbrev pub numbers : Doubles
numbers = record {
  Double = ℕ;
  less = ltb;
  plus = λ a b. a + b;
  minus = λ a b. a - b;
  over_two = λ a. a / 2;
  tight = 5;
  low = 190;
  high = 190;
  minus_one = 0;
}

abbrev pub tick : ℕ → MarketData numbers
tick n = record { seq_num = n; bid = 100; ask = 102; timestamp_ns = n; symbol = 65 ∷ [] }

-- A server that is there at every second attempt, and sends a tick each time.
abbrev pub alternating : Tcp numbers
alternating = record {
  Socket = ℕ;
  World = ℕ;
  connect = λ w. (if w % 2 == 0 then none else some w, w + 1);
  recv = λ s w. (some (40, tick w), w + 1);
  now = λ w. (w, w + 1);
}

-- A server that takes every second connection, and drops each.
abbrev pub dropping : Tcp numbers
dropping = record {
  Socket = ℕ;
  World = ℕ;
  connect = λ w. (if w % 2 == 0 then none else some w, w + 1);
  recv = λ s w. (none, w + 1);
  now = λ w. (w, w + 1);
}

abbrev pub order : Side → ℕ → ℕ → ℕ → Order
order side id price qty = record {
  symbol = [];
  side = side;
  price = pos price;
  qty = qty;
  id = id;
  rcv_ts = 0;
  flags = 0;
}

-- A client that lists what it is told of
abbrev pub told : Option (ℕ → List ℕ → List ℕ)
told = some (λ id s. id ∷ s)
