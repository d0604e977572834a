-- ===== src/Exchange/Book/Add.antt =====
-- `add`: what each of its branches returns, and that it keeps the invariant.
use tradingmarketsimulator.Prelude.{
  ℕ, ◌-◌, ◌≤◌, ◌<◌, ◌≡◌, ◌≢◌, refl, true, false, Option, none, some, arith, ◌==◌, if◌then◌else◌,
  All, length, inl, inr, Bool-cases, Option-cases, ==_iff,
}
use native.Mathlib.Decide.{ℕ_discrete, dec_lt}
use tradingmarketsimulator.Market.Price.{is_more_cons}
use tradingmarketsimulator.Structs.{Side, Order, opposite, is_bid, is_bid_side, opp_side, is_valid}
use tradingmarketsimulator.Exchange.SideMap.{SideMap}
use tradingmarketsimulator.Exchange.Book.{
  Book, Trade, Added, get_container, set_container, insert_order, try_match, add_remainder, add,
}
use tradingmarketsimulator.Exchange.Book.Match.{with_qty}
use tradingmarketsimulator.Exchange.Book.Sorted.{residual_exhausted}
use tradingmarketsimulator.Exchange.Book.Invariant.{IsValid, matched, book-try_match}
use tradingmarketsimulator.Exchange.Book.Preservation.{
  matched_by-IsValid, same_find-IsValid, insert-IsValid,
}
use tradingmarketsimulator.Exchange.Book.Trades.{
  opposite_depth, aggressor-try_match, consumed_qty-try_match, get_container-matched_opposite,
}

module _ (M : SideMap) {S : Type 0} (fill_fn : Option (ℕ → S → S)) (size : ℕ) where
  -- The identifier already rests: the remainder is dropped.
  pub add_remainder_duplicate :
      (t : Trade M S) (side : Side)
      → M.find t.book.order_ids_to_side t.aggressor.id ≡ some side
      → add_remainder M fill_fn size t ≡ record { added = false; book = t.book; client = t.client }
  unfolding add_remainder
  add_remainder_duplicate t side e =
      rw (M.try_emplace_present t.book.order_ids_to_side t.aggressor.id t.aggressor.side side e)

  unfoldable pub entered : (t : Trade M S) → M.Map
  entered t = (M.try_emplace t.book.order_ids_to_side t.aggressor.id t.aggressor.side).1

  -- The side is full: the new entry is taken out of the map again.
  pub add_remainder_full :
      (t : Trade M S)
      → M.find t.book.order_ids_to_side t.aggressor.id ≡ none
      → length (get_container M t.book t.aggressor.side) ≡ size
      → add_remainder M fill_fn size t ≡ record {
        added = false;
        book = record t.book { order_ids_to_side = M.erase (entered t) t.aggressor.id };
        client = t.client;
      }
  unfolding add_remainder entered
  add_remainder_full t e full = rw (
    M.try_emplace_missing t.book.order_ids_to_side t.aggressor.id t.aggressor.side e,
    (==_iff (length (get_container M t.book t.aggressor.side)) size).1 full,
  )

  pub add_remainder_inserted :
      (t : Trade M S)
      → M.find t.book.order_ids_to_side t.aggressor.id ≡ none
      → length (get_container M t.book t.aggressor.side) ≢ size
      → add_remainder M fill_fn size t ≡ record {
        added = true;
        book =
            set_container M
              (record t.book { order_ids_to_side = entered t })
              t.aggressor.side
              (insert_order t.aggressor (get_container M t.book t.aggressor.side));
        client = t.client;
      }
  unfolding add_remainder entered
  add_remainder_inserted t e room =
      let test : (length (get_container M t.book t.aggressor.side) == size) ≡ false =
        ground arith in
      rw (M.try_emplace_missing t.book.order_ids_to_side t.aggressor.id t.aggressor.side e, test)

  -- What `add` needs of the trade to rest the remainder.
  record IsReady (t : Trade M S) : Type 0 where
    valid : IsValid M size t.book
    resting : is_valid t.aggressor ≡ true
    apart :
        All
          (λ o. is_more_cons t.aggressor.price o.price (is_bid_side t.aggressor.side) ≡ true)
          (get_container M t.book (opposite t.aggressor.side))

  find-entered :
      (t : Trade M S) (j : ℕ)
      → M.find t.book.order_ids_to_side t.aggressor.id ≡ none
      → M.find (entered t) j
        ≡ (if j == t.aggressor.id then some t.aggressor.side else M.find t.book.order_ids_to_side j)
  unfolding entered
  find-entered t j e =
      M.find-try_emplace t.book.order_ids_to_side t.aggressor.id t.aggressor.side j e

  pub find-entered_self :
      (t : Trade M S)
      → M.find t.book.order_ids_to_side t.aggressor.id ≡ none
      → M.find (entered t) t.aggressor.id ≡ some t.aggressor.side
  find-entered_self t e = ground (arith, find-entered t t.aggressor.id e)

  find-erase-entered :
      (t : Trade M S) (j : ℕ)
      → M.find t.book.order_ids_to_side t.aggressor.id ≡ none
      → M.find (M.erase (entered t) t.aggressor.id) j ≡ M.find t.book.order_ids_to_side j
  find-erase-entered t j e =
      ground (arith, find-entered t j e, M.find-erase (entered t) t.aggressor.id j)

  add_remainder-IsValid :
      (t : Trade M S) → IsReady t → IsValid M size (add_remainder M fill_fn size t).book
  add_remainder-IsValid t r = elim (Option-cases (M.find t.book.order_ids_to_side t.aggressor.id)) [
    | inr (side, e) ↦ rw (add_remainder_duplicate t side e) r.valid
    | inl e ↦ elim (ℕ_discrete (length (get_container M t.book t.aggressor.side)) size) [
      | yes full ↦ rw (add_remainder_full t e full) (
          same_find-IsValid M size t.book (M.erase (entered t) t.aggressor.id)
            (λ j. find-erase-entered t j e) r.valid)
      | no room ↦ rw (add_remainder_inserted t e room) (
          insert-IsValid M size t.book t.aggressor t.aggressor.side (entered t) refl r.resting e
            (λ j. find-entered t j e) room r.apart r.valid)
    ]
  ]

  with_qty-is_valid :
      (o : Order) (n : ℕ) → is_valid o ≡ true → 0 < n → is_valid (with_qty o n) ≡ true
  unfolding is_valid
  with_qty-is_valid o n v h = ground arith

  try_match-IsReady :
      (b : Book M) (o : Order) (s : S)
      → IsValid M size b
      → is_valid o ≡ true
      → opposite_depth M b o < o.qty
      → IsReady (try_match M fill_fn b o s)
  unfolding matched opp_side is_bid
  try_match-IsReady b o s v ok more =
      let q = o.qty - opposite_depth M b o in
      let left = with_qty o q in
      let books = book-try_match M fill_fn b o s v.indexed in
      let orders = aggressor-try_match M fill_fn b o s in
      record {
        valid = rw books (matched_by-IsValid M size b o.side o.price o.qty v);
        resting = rw orders (with_qty-is_valid o q ok (omega arith));
        apart =
            rw (books, orders, get_container-matched_opposite M b o.side o.price o.qty)
              (residual_exhausted o.price (is_bid o) o.qty (get_container M b (opp_side o)) more);
      }

  -- The three ways through `add`: an invalid order, one that is consumed whole, and a remainder.
  pub add_invalid :
      (b : Book M) (o : Order) (s : S)
      → is_valid o ≡ false
      → add M fill_fn size b o s ≡ record { added = false; book = b; client = s }
  unfolding add
  add_invalid b o s e = rw e

  pub add_filled :
      (b : Book M) (o : Order) (s : S)
      → is_valid o ≡ true
      → o.qty ≤ opposite_depth M b o
      → let t = try_match M fill_fn b o s in
        add M fill_fn size b o s ≡ record { added = false; book = t.book; client = t.client }
  unfolding add
  add_filled b o s ok deep =
      let used = consumed_qty-try_match M fill_fn b o s in
      let test : ((try_match M fill_fn b o s).consumed_qty == o.qty) ≡ true = ground arith in
      rw (ok, test)

  pub add_partial :
      (b : Book M) (o : Order) (s : S)
      → is_valid o ≡ true
      → opposite_depth M b o < o.qty
      → add M fill_fn size b o s ≡ add_remainder M fill_fn size (try_match M fill_fn b o s)
  unfolding add
  add_partial b o s ok more =
      let used = consumed_qty-try_match M fill_fn b o s in
      let test : ((try_match M fill_fn b o s).consumed_qty == o.qty) ≡ false = ground arith in
      rw (ok, test)

  pub add_cases {ℓ} :
      (P : Added M S → Type ℓ) (b : Book M) (o : Order) (s : S)
      → (is_valid o ≡ false → P (record { added = false; book = b; client = s }))
      → (let t = try_match M fill_fn b o s in
          is_valid o ≡ true
          → o.qty ≤ opposite_depth M b o
          → P (record { added = false; book = t.book; client = t.client }))
      → (is_valid o ≡ true
          → opposite_depth M b o < o.qty
          → P (add_remainder M fill_fn size (try_match M fill_fn b o s)))
      → P (add M fill_fn size b o s)
  add_cases P b o s invalid filled partial = elim (Bool-cases (is_valid o)) [
    | inr bad ↦ rw (add_invalid b o s bad) (invalid bad)
    | inl ok ↦ elim (dec_lt (opposite_depth M b o) o.qty) [
      | yes more ↦ rw (add_partial b o s ok more) (partial ok more)
      | no deep ↦ rw (add_filled b o s ok (omega arith)) (filled ok (omega arith))
    ]
  ]

  -- `add` keeps the book valid: sorted, uncrossed, within capacity and in step with its map.
  pub add-IsValid :
      (b : Book M) (o : Order) (s : S)
      → IsValid M size b
      → IsValid M size (add M fill_fn size b o s).book
  unfolding matched
  add-IsValid b o s v =
      add_cases (λ r. IsValid M size r.book) b o s (λ _. v)
        (λ _ _.
          rw (book-try_match M fill_fn b o s v.indexed)
            (matched_by-IsValid M size b o.side o.price o.qty v))
        (λ ok more. add_remainder-IsValid _ (try_match-IsReady b o s v ok more))
