-- ===== src/Exchange/Book/Preservation.antt =====
-- The operations of the order book keep its invariant.
use tradingmarketsimulator.Prelude.{
  ℕ, ◌-◌, ◌<◌, ◌≡◌, ◌≢◌, Bool, true, false, none, some, List, [], ◌∷◌, arith, ◌==◌, if◌then◌else◌,
  All, All-map, length, ap, subst, inl, inr, Option-cases,
}
use tradingmarketsimulator.Prelude.Int.{◌<ℤ◌}
use tradingmarketsimulator.Market.Price.{Price, is_more_cons}
use tradingmarketsimulator.Structs.{Side, bid, ask, Order, opposite, is_bid, is_bid_side, is_valid}
use tradingmarketsimulator.Exchange.SideMap.{SideMap}
use tradingmarketsimulator.Exchange.Book.{
  Book, erase_id, insert_order, get_container, set_container, remove,
}
use tradingmarketsimulator.Exchange.Book.Match.{filled, count-residual}
use tradingmarketsimulator.Exchange.Book.Sorted.{
  IsSorted, residual-All, residual-IsSorted, length-residual-le, insert_order-All,
  insert_order-IsSorted, length-insert_order, count-insert_order, erase_id-All, erase_id-IsSorted,
  length-erase_id, count-erase_id,
}
use tradingmarketsimulator.Exchange.Book.Sweep.{find-erase_keys}
use tradingmarketsimulator.Exchange.Book.Invariant.{IsResting, IsUncrossed, IsValid, matched_by}

IsResting-qty :
    (side : Side) (o : Order) (n : ℕ)
    → n < o.qty
    → IsResting side o
    → IsResting side (record o { qty = o.qty - n })
unfolding is_valid
IsResting-qty side o n h r = ground arith

module _ (M : SideMap) (size : ℕ) where
  pub matched_by-IsValid :
      (b : Book M) (side : Side) (price : Price) (qty : ℕ)
      → IsValid M size b
      → IsValid M size (matched_by M b side price qty)
  unfolding matched_by get_container set_container
  matched_by-IsValid b bid price qty v = record {
    indexed = λ k. ground (
      arith,
      v.indexed k,
      count-residual k price true qty b.asks,
      find-erase_keys M k (filled price true qty b.asks) b.order_ids_to_side,
    );
    asks_resting =
        residual-All (IsResting ask) (IsResting-qty ask) price true qty b.asks v.asks_resting;
    asks_sorted = residual-IsSorted false price true qty b.asks v.asks_sorted;
    uncrossed =
        All-map _ _ b.bids
          (λ x h. residual-All (λ a. x.price <ℤ a.price) (λ _ _ _ k. k) price true qty b.asks h)
          v.uncrossed;
    asks_fit = omega (arith, length-residual-le price true qty b.asks, v.asks_fit);
    bids_resting = v.bids_resting;
    bids_sorted = v.bids_sorted;
    bids_fit = v.bids_fit;
  }
  matched_by-IsValid b ask price qty v = record {
    indexed = λ k. ground (
      arith,
      v.indexed k,
      count-residual k price false qty b.bids,
      find-erase_keys M k (filled price false qty b.bids) b.order_ids_to_side,
    );
    bids_resting =
        residual-All (IsResting bid) (IsResting-qty bid) price false qty b.bids v.bids_resting;
    bids_sorted = residual-IsSorted true price false qty b.bids v.bids_sorted;
    uncrossed =
        residual-All (λ x. All (λ a. x.price <ℤ a.price) b.asks) (λ _ _ _ k. k) price false qty
          b.bids v.uncrossed;
    bids_fit = omega (arith, length-residual-le price false qty b.bids, v.bids_fit);
    asks_resting = v.asks_resting;
    asks_sorted = v.asks_sorted;
    asks_fit = v.asks_fit;
  }

  -- A map that answers alike serves as well.
  pub same_find-IsValid :
      (b : Book M) (m : M.Map)
      → ((k : ℕ) → M.find m k ≡ M.find b.order_ids_to_side k)
      → IsValid M size b
      → IsValid M size (record b { order_ids_to_side = m })
  same_find-IsValid b m e v = record {
    indexed = λ k. rw (e k) (v.indexed k);
    bids_resting = v.bids_resting;
    asks_resting = v.asks_resting;
    bids_sorted = v.bids_sorted;
    asks_sorted = v.asks_sorted;
    uncrossed = v.uncrossed;
    bids_fit = v.bids_fit;
    asks_fit = v.asks_fit;
  }

  IsUncrossed-insert_ask :
      (x : Order) (bids asks : List Order)
      → All (λ o. is_more_cons x.price o.price false ≡ true) bids
      → IsUncrossed bids asks
      → IsUncrossed bids (insert_order x asks)
  unfolding is_more_cons
  IsUncrossed-insert_ask x [] asks h u = tt
  IsUncrossed-insert_ask x (b ∷ bids) asks h u = (
    insert_order-All (λ a. b.price <ℤ a.price) x asks (ground (arith, h.0)) u.0,
    IsUncrossed-insert_ask x bids asks h.1 u.1,
  )

  below_asks :
      (x : Order) (asks : List Order)
      → All (λ o. is_more_cons x.price o.price true ≡ true) asks
      → All (λ a. x.price <ℤ a.price) asks
  unfolding is_more_cons
  below_asks x asks h = All-map _ _ asks (λ a k. ground (arith, k)) h

  insert-IsSorted :
      (x : Order) (s : Bool) (os : List Order)
      → is_bid x ≡ s
      → IsSorted s os
      → IsSorted s (insert_order x os)
  insert-IsSorted x s os e =
      subst (λ t. IsSorted t os → IsSorted t (insert_order x os)) e (insert_order-IsSorted x os)

  -- What rests after `x` is inserted on its side, with the identifier entered in the map.
  pub insert-IsValid :
      (b : Book M) (x : Order) (side : Side) (m : M.Map)
      → x.side ≡ side
      → is_valid x ≡ true
      → M.find b.order_ids_to_side x.id ≡ none
      → ((j : ℕ) → M.find m j ≡ (if j == x.id then some side else M.find b.order_ids_to_side j))
      → length (get_container M b side) ≢ size
      → All
          (λ o. is_more_cons x.price o.price (is_bid_side side) ≡ true)
          (get_container M b (opposite side))
      → IsValid M size b
      → IsValid M size (
          set_container M
            (record b { order_ids_to_side = m })
            side
            (insert_order x (get_container M b side)))
  unfolding get_container set_container is_bid
  insert-IsValid b x bid m e ok new found room apart v = record {
    indexed =
        λ k. ground (arith, v.indexed k, v.indexed x.id, found k, count-insert_order k x b.bids);
    bids_resting = insert_order-All (IsResting bid) x b.bids (e, ok) v.bids_resting;
    bids_sorted = insert-IsSorted x true b.bids (ap is_bid_side e) v.bids_sorted;
    uncrossed = insert_order-All _ x b.bids (below_asks x b.asks apart) v.uncrossed;
    bids_fit = omega (arith, length-insert_order x b.bids, v.bids_fit);
    asks_resting = v.asks_resting;
    asks_sorted = v.asks_sorted;
    asks_fit = v.asks_fit;
  }
  insert-IsValid b x ask m e ok new found room apart v = record {
    indexed =
        λ k. ground (arith, v.indexed k, v.indexed x.id, found k, count-insert_order k x b.asks);
    asks_resting = insert_order-All (IsResting ask) x b.asks (e, ok) v.asks_resting;
    asks_sorted = insert-IsSorted x false b.asks (ap is_bid_side e) v.asks_sorted;
    uncrossed = IsUncrossed-insert_ask x b.bids b.asks apart v.uncrossed;
    asks_fit = omega (arith, length-insert_order x b.asks, v.asks_fit);
    bids_resting = v.bids_resting;
    bids_sorted = v.bids_sorted;
    bids_fit = v.bids_fit;
  }

  erase-IsValid :
      (b : Book M) (k : ℕ) (side : Side)
      → M.find b.order_ids_to_side k ≡ some side
      → IsValid M size b
      → IsValid M size (record (set_container M b side (erase_id k (get_container M b side))) {
        order_ids_to_side = M.erase b.order_ids_to_side k;
      })
  unfolding get_container set_container
  erase-IsValid b k bid e v = record {
    indexed = λ j. ground (
      arith,
      v.indexed j,
      v.indexed k,
      M.find-erase b.order_ids_to_side k j,
      count-erase_id j k b.bids,
    );
    bids_resting = erase_id-All _ k b.bids v.bids_resting;
    bids_sorted = erase_id-IsSorted true k b.bids v.bids_sorted;
    uncrossed = erase_id-All _ k b.bids v.uncrossed;
    bids_fit = omega (arith, length-erase_id k b.bids, v.bids_fit);
    asks_resting = v.asks_resting;
    asks_sorted = v.asks_sorted;
    asks_fit = v.asks_fit;
  }
  erase-IsValid b k ask e v = record {
    indexed = λ j. ground (
      arith,
      v.indexed j,
      v.indexed k,
      M.find-erase b.order_ids_to_side k j,
      count-erase_id j k b.asks,
    );
    asks_resting = erase_id-All _ k b.asks v.asks_resting;
    asks_sorted = erase_id-IsSorted false k b.asks v.asks_sorted;
    uncrossed =
        All-map _ _ b.bids (λ x h. erase_id-All (λ a. x.price <ℤ a.price) k b.asks h) v.uncrossed;
    asks_fit = omega (arith, length-erase_id k b.asks, v.asks_fit);
    bids_resting = v.bids_resting;
    bids_sorted = v.bids_sorted;
    bids_fit = v.bids_fit;
  }

  -- A cancellation leaves a valid book valid, whether or not the identifier rests in it.
  pub remove-IsValid : (b : Book M) (id : ℕ) → IsValid M size b → IsValid M size (remove M b id).1
  unfolding remove
  remove-IsValid b id v = elim (Option-cases (M.find b.order_ids_to_side id)) [
    | inl e ↦ rw (e, remove) v
    | inr (side, e) ↦ rw (e, remove) (erase-IsValid b id side e v)
  ]
