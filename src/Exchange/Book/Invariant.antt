-- ===== src/Exchange/Book/Invariant.antt =====
-- The invariant of the order book, and what `try_match` leaves of a book that satisfies it.
use tradingmarketsimulator.Prelude.{
  ℕ, ◌≤◌, ◌<◌, ◌≡◌, refl, true, false, Option, none, some, List, [], ◌∷◌, arith, All, length, ◌∙◌,
  ap,
}
use tradingmarketsimulator.Prelude.Int.{◌<ℤ◌}
use tradingmarketsimulator.Market.Price.{Price}
use tradingmarketsimulator.Structs.{
  Side, bid, ask, Order, opposite, is_bid, is_bid_side, opp_side, is_valid,
}
use tradingmarketsimulator.Exchange.SideMap.{SideMap}
use tradingmarketsimulator.Exchange.Book.{
  Book, match_loop, get_container, set_container, init, try_match,
}
use tradingmarketsimulator.Exchange.Book.Match.{
  count, occurs, residual, filled, count-residual, match_loop-removed,
}
use tradingmarketsimulator.Exchange.Book.Sorted.{IsSorted}
use tradingmarketsimulator.Exchange.Book.Sweep.{
  IsDistinct, erase_keys, erase_all-match_loop, sweep, ids-set_container, remove_all-book,
}

-- The map's entry at an identifier agrees with how often it rests on each side.
abbrev pub IndexedAt : Option Side → ℕ → ℕ → Type 0
IndexedAt none nb na = (nb ≡ 0) × (na ≡ 0)
IndexedAt (some bid) nb na = (nb ≡ 1) × (na ≡ 0)
IndexedAt (some ask) nb na = (nb ≡ 0) × (na ≡ 1)

abbrev pub IsResting : Side → Order → Type 0
IsResting side o = (o.side ≡ side) × (is_valid o ≡ true)

-- Every bid is below every ask.
abbrev pub IsUncrossed : List Order → List Order → Type 0
IsUncrossed bids asks = All (λ b. All (λ a. b.price <ℤ a.price) asks) bids

abbrev pub IsIndexed : (M : SideMap) → Book M → Type 0
IsIndexed M b = (k : ℕ) → IndexedAt (M.find b.order_ids_to_side k) (count k b.bids) (count k b.asks)

pub record IsValid (M : SideMap) (size : ℕ) (b : Book M) : Type 0 where
  pub indexed : IsIndexed M b
  pub bids_resting : All (IsResting bid) b.bids
  pub asks_resting : All (IsResting ask) b.asks
  pub bids_sorted : IsSorted true b.bids
  pub asks_sorted : IsSorted false b.asks
  pub uncrossed : IsUncrossed b.bids b.asks
  pub bids_fit : length b.bids ≤ size
  pub asks_fit : length b.asks ≤ size

IsUncrossed-nil : (bids : List Order) → IsUncrossed bids []
IsUncrossed-nil [] = tt
IsUncrossed-nil (b ∷ bids) = (tt, IsUncrossed-nil bids)

filled_counted :
    (a : Order) (os : List Order) (k : ℕ) → 0 < occurs k (match_loop a os).removed → 0 < count k os
filled_counted a os k h =
    let p = count-residual k a.price (is_bid a) a.qty os in
    let q = ap (occurs k) (match_loop-removed a os) in omega arith

filled_once :
    (a : Order) (os : List Order) (k : ℕ) → IsDistinct os → occurs k (match_loop a os).removed ≤ 1
filled_once a os k h =
    let p = count-residual k a.price (is_bid a) a.qty os in
    let q = ap (occurs k) (match_loop-removed a os) in omega (arith, h k)

module _ (M : SideMap) where
  -- A new book is valid.
  pub init-IsValid : (size : ℕ) → IsValid M size (init M)
  unfolding init
  init-IsValid size = record {
    indexed = λ k. rw (M.find-empty k) (refl, refl);
    bids_resting = tt;
    asks_resting = tt;
    bids_sorted = tt;
    asks_sorted = tt;
    uncrossed = tt;
    bids_fit = omega arith;
    asks_fit = omega arith;
  }

  pub find-eq_of_count :
      (b : Book M) (side : Side) (k : ℕ)
      → IsIndexed M b
      → 0 < count k (get_container M b side)
      → M.find b.order_ids_to_side k ≡ some side
  unfolding get_container
  find-eq_of_count b bid k v h = ground (arith, v k)
  find-eq_of_count b ask k v h = ground (arith, v k)

  pub get_container-IsDistinct :
      (b : Book M) (side : Side) → IsIndexed M b → IsDistinct (get_container M b side)
  unfolding get_container
  get_container-IsDistinct b bid v k = ground (arith, v k)
  get_container-IsDistinct b ask v k = ground (arith, v k)

  pub get_container-set_container :
      (b : Book M) (side : Side) (os : List Order)
      → get_container M (set_container M b side os) side ≡ os
  unfolding get_container set_container
  get_container-set_container b bid os = refl
  get_container-set_container b ask os = refl

  pub get_container-set_container-opposite :
      (b : Book M) (side : Side) (m : M.Map) (os : List Order)
      → get_container M
          (set_container M (record b { order_ids_to_side = m }) side os)
          (opposite side)
        ≡ get_container M b (opposite side)
  unfolding get_container set_container
  get_container-set_container-opposite b bid m os = refl
  get_container-set_container-opposite b ask m os = refl

  set_container_twice :
      (b : Book M) (side : Side) (os qs : List Order)
      → set_container M (set_container M b side os) side qs ≡ set_container M b side qs
  unfolding set_container
  set_container_twice b bid os qs = refl
  set_container_twice b ask os qs = refl

  -- The book after an aggressor of this side, price and quantity, in terms of the single pass.
  unfoldable pub matched_by : Book M → Side → Price → ℕ → Book M
  matched_by b side price qty =
      let os = get_container M b (opposite side) in
      record (set_container M b (opposite side) (residual price (is_bid_side side) qty os)) {
        order_ids_to_side =
            erase_keys M (filled price (is_bid_side side) qty os) b.order_ids_to_side;
      }

  unfoldable pub matched : Book M → Order → Book M
  unfolding matched_by
  matched b a = matched_by b a.side a.price a.qty

  sweep-match_loop :
      (b : Book M) (a : Order)
      → IsIndexed M b
      → let m = match_loop a (get_container M b (opp_side a)) in
        sweep M (opp_side a) m.removed (set_container M b (opp_side a) m.container) ≡ matched b a
  unfolding matched opp_side is_bid
  sweep-match_loop b a v =
      let c = get_container M b (opp_side a) in
      rw (
        get_container-set_container b (opp_side a) (match_loop a c).container,
        set_container_twice b (opp_side a) (match_loop a c).container,
        ids-set_container M (opp_side a) (match_loop a c).container b,
        match_loop-removed a c,
        erase_all-match_loop a c (get_container-IsDistinct b (opp_side a) v),
      )

  module _ {S : Type 0} (fill_fn : Option (ℕ → S → S)) where
    -- The map and the container agree after `try_match`.
    pub book-try_match :
        (b : Book M) (a : Order) (s : S)
        → IsIndexed M b
        → (try_match M fill_fn b a s).book ≡ matched b a
    unfolding try_match
    book-try_match b a s v =
        let c = get_container M b (opp_side a) in
        let m = match_loop a c in
        let swept = set_container M b (opp_side a) m.container in
        remove_all-book M fill_fn m.removed swept s (opp_side a)
          (λ k h.
            rw (ids-set_container M (opp_side a) m.container b)
              (find-eq_of_count b (opp_side a) k v (filled_counted a c k h)))
          (λ k. filled_once a c k (get_container-IsDistinct b (opp_side a) v))
        ∙ sweep-match_loop b a v
