-- ===== src/Exchange/Book/Lookup.antt =====
-- `has` and `remove`, and the round trip from `add` to `remove`.
use tradingmarketsimulator.Prelude.{
  ℕ, ◌+◌, ◌-◌, ◌<◌, ◌≤◌, ◌≡◌, refl, sym, ◌∙◌, true, not, ◌&&◌, Option, none, some, List, [], ◌∷◌,
  Bool, arith, All, length, ◌==◌, ap, inl, inr, Option-cases, if◌then◌else◌,
}
use tradingmarketsimulator.Market.Price.{Price}
use tradingmarketsimulator.Structs.{
  Side, bid, ask, Order, is_valid, is_bid, opp_side, opposite, is_bid_side,
}
use tradingmarketsimulator.Exchange.SideMap.{SideMap}
use tradingmarketsimulator.Exchange.Book.{
  Book, get_container, set_container, insert_order, erase_id, has, remove, add,
}
use tradingmarketsimulator.Exchange.Book.Match.{count, depth, residual, filled, with_qty}
use tradingmarketsimulator.Exchange.Book.Sweep.{remove_found, get_container-sweep, sweep}
use tradingmarketsimulator.Exchange.Book.Invariant.{
  IsValid, IsResting, IsIndexed, IndexedAt, matched, matched_by,
}
use tradingmarketsimulator.Exchange.Book.Trades.{opposite_depth}
use tradingmarketsimulator.Exchange.Book.Admission.{add_iff, add_rests, add_leaves}
use tradingmarketsimulator.Exchange.Book.Preservation.{remove-IsValid}
use tradingmarketsimulator.Exchange.Book.Add.{add-IsValid}

length-erase_id_of_count :
    (k : ℕ) (os : List Order) → 0 < count k os → length (erase_id k os) + 1 ≡ length os
unfolding erase_id
length-erase_id_of_count k [] h = absurd (omega arith)
length-erase_id_of_count k (o ∷ os) h = ground (arith, length-erase_id_of_count k os)

erase_id-insert_order :
    (x : Order) (os : List Order) → count x.id os ≡ 0 → erase_id x.id (insert_order x os) ≡ os
unfolding erase_id insert_order
erase_id-insert_order x [] h = ground arith
erase_id-insert_order x (o ∷ os) h = ground (arith, erase_id-insert_order x os)

-- The orders with another identifier
abbrev pub without : ℕ → List Order → List Order
without id [] = []
without id (o ∷ os) = let rest = without id os in if o.id == id then rest else o ∷ rest

without_none : (id : ℕ) (os : List Order) → count id os ≡ 0 → without id os ≡ os
without_none id [] h = refl
without_none id (o ∷ os) h = ground (arith, without_none id os)

erase_id-without : (id : ℕ) (os : List Order) → count id os ≤ 1 → erase_id id os ≡ without id os
unfolding erase_id
erase_id-without id [] h = refl
erase_id-without id (o ∷ os) h = ground (arith, erase_id-without id os, without_none id os)

abbrev pub resting_total : (M : SideMap) → Book M → ℕ
resting_total M b = length b.bids + length b.asks

module _ (M : SideMap) (size : ℕ) (b : Book M) (id : ℕ) (v : IsValid M size b) where
  erased_length :
      (side : Side)
      → M.find b.order_ids_to_side id ≡ some side
      → resting_total M (set_container M b side (erase_id id (get_container M b side))) + 1
        ≡ resting_total M b
  unfolding get_container set_container
  erased_length bid e = ground (arith, v.indexed id, length-erase_id_of_count id b.bids)
  erased_length ask e = ground (arith, v.indexed id, length-erase_id_of_count id b.asks)

  kept_without :
      (side : Side)
      → M.find b.order_ids_to_side id ≡ none
      → get_container M b side ≡ without id (get_container M b side)
  unfolding get_container
  kept_without bid e = sym (without_none id b.bids (ground (arith, v.indexed id)))
  kept_without ask e = sym (without_none id b.asks (ground (arith, v.indexed id)))

  swept_without :
      (side other : Side)
      → M.find b.order_ids_to_side id ≡ some side
      → get_container M (sweep M side (id ∷ []) b) other ≡ without id (get_container M b other)
  unfolding get_container set_container
  swept_without bid bid e = erase_id-without id b.bids (ground (arith, v.indexed id))
  swept_without bid ask e = sym (without_none id b.asks (ground (arith, v.indexed id)))
  swept_without ask bid e = sym (without_none id b.bids (ground (arith, v.indexed id)))
  swept_without ask ask e = erase_id-without id b.asks (ground (arith, v.indexed id))

  -- In a valid book `remove` answers whether the identifier rested, and takes out that order and
  -- no other: afterwards each side holds its orders with other identifiers, in their order, `has`
  -- denies the identifier and answers as before for all others, and one order less rests if it was there.
  pub remove_lem :
      let r = remove M b id in
      (r.0 ≡ has M b id)
      × ((side : Side) → get_container M r.1 side ≡ without id (get_container M b side))
      × ((k : ℕ) → has M r.1 k ≡ (has M b k && not (k == id)))
      × (resting_total M r.1 + (if has M b id then 1 else 0) ≡ resting_total M b)
  unfolding has remove
  remove_lem = elim (Option-cases (M.find b.order_ids_to_side id)) [
    | inl e ↦ rw (e, remove, has) (refl, λ s. kept_without s e, λ k. ground arith, omega arith)
    | inr (side, e) ↦
        rw (e, remove, has)
          (
            refl,
            λ s. swept_without side s e,
            λ k. ground (arith, M.find-erase b.order_ids_to_side id k),
            erased_length side e,
          )
  ]

-- Where nothing trades, the container stays as it is.
no_depth :
    (side : Side) (price : Price) (bids : Bool) (n : ℕ) (os : List Order)
    → All (IsResting side) os
    → depth price bids os ≡ 0
    → (residual price bids n os ≡ os) × (filled price bids n os ≡ [])
unfolding is_valid
no_depth side price bids n [] h d = (refl, refl)
no_depth side price bids n (o ∷ os) h d = ground (arith, no_depth side price bids n os h.1)

get_container-All :
    (M : SideMap) (size : ℕ) (b : Book M) (side : Side)
    → IsValid M size b
    → All (IsResting side) (get_container M b side)
unfolding get_container
get_container-All M size b bid v = v.bids_resting
get_container-All M size b ask v = v.asks_resting

not_resting :
    (M : SideMap) (size : ℕ) (b : Book M) (side : Side) (id : ℕ)
    → IsValid M size b
    → M.find b.order_ids_to_side id ≡ none
    → count id (get_container M b side) ≡ 0
unfolding get_container
not_resting M size b bid id v e = ground (arith, v.indexed id)
not_resting M size b ask id v e = ground (arith, v.indexed id)

-- The sides of a valid book determine what its map holds.
indexed_once : (s t : Option Side) (nb na : ℕ) → IndexedAt s nb na → IndexedAt t nb na → s ≡ t
indexed_once none none nb na h k = refl
indexed_once none (some bid) nb na h k = absurd (omega (arith, h, k))
indexed_once none (some ask) nb na h k = absurd (omega (arith, h, k))
indexed_once (some bid) none nb na h k = absurd (omega (arith, h, k))
indexed_once (some ask) none nb na h k = absurd (omega (arith, h, k))
indexed_once (some bid) (some bid) nb na h k = refl
indexed_once (some bid) (some ask) nb na h k = absurd (omega (arith, h, k))
indexed_once (some ask) (some bid) nb na h k = absurd (omega (arith, h, k))
indexed_once (some ask) (some ask) nb na h k = refl

module _ (M : SideMap) where
  both_sides :
      (x y : Book M) (side : Side)
      → get_container M x side ≡ get_container M y side
      → get_container M x (opposite side) ≡ get_container M y (opposite side)
      → (s : Side) → get_container M x s ≡ get_container M y s
  both_sides x y bid h k bid = h
  both_sides x y bid h k ask = k
  both_sides x y ask h k bid = k
  both_sides x y ask h k ask = h

  sweep-opposite :
      (side : Side) (is : List ℕ) (b : Book M)
      → get_container M (sweep M side is b) (opposite side) ≡ get_container M b (opposite side)
  unfolding get_container set_container
  sweep-opposite bid is b = refl
  sweep-opposite ask is b = refl

  same_find :
      (x y : Book M)
      → ((side : Side) → get_container M x side ≡ get_container M y side)
      → IsIndexed M x
      → IsIndexed M y
      → (k : ℕ) → M.find x.order_ids_to_side k ≡ M.find y.order_ids_to_side k
  unfolding get_container
  same_find x y same h h' k =
      let bids : x.bids ≡ y.bids = same bid in
      let asks : x.asks ≡ y.asks = same ask in
      indexed_once (M.find x.order_ids_to_side k) (M.find y.order_ids_to_side k) (count k y.bids)
        (count k y.asks) (rw (sym bids, sym asks) (h k)) (h' k)

module _ (M : SideMap) {S : Type 0} (fill_fn : Option (ℕ → S → S)) (size : ℕ) (b : Book M)
    (o : Order) (s : S) (v : IsValid M size b) where
  new_of_no_depth :
      (add M fill_fn size b o s).added ≡ true
      → opposite_depth M b o ≡ 0
      → M.find b.order_ids_to_side o.id ≡ none
  unfolding matched matched_by opp_side is_bid
  new_of_no_depth h none_deep =
      let os = get_container M b (opp_side o) in
      let rest = get_container-All M size b (opp_side o) v in
      rw (no_depth (opp_side o) o.price (is_bid o) o.qty os rest none_deep).1 at
        ((add_iff M fill_fn size b o s v).0 h).new

  untouched :
      (add M fill_fn size b o s).added ≡ true
      → opposite_depth M b o ≡ 0
      → get_container M (add M fill_fn size b o s).book (opposite o.side)
        ≡ get_container M b (opposite o.side)
  unfolding opp_side is_bid
  untouched h none_deep =
      let os = get_container M b (opposite o.side) in
      add_leaves M fill_fn size b o s v h
      ∙ (no_depth (opposite o.side) o.price (is_bid_side o.side) o.qty os
          (get_container-All M size b (opposite o.side) v) none_deep).0

  own_side :
      (add M fill_fn size b o s).added ≡ true
      → opposite_depth M b o ≡ 0
      → get_container M (sweep M o.side (o.id ∷ []) (add M fill_fn size b o s).book) o.side
        ≡ get_container M b o.side
  own_side h none_deep =
      let placed = add_rests M fill_fn size b o s v h in
      let left = with_qty o (o.qty - opposite_depth M b o) in
      let b' = (add M fill_fn size b o s).book in
      get_container-sweep M o.side (o.id ∷ []) b'
      ∙ ap (erase_id o.id) placed.0
      ∙ erase_id-insert_order left (get_container M b o.side)
          (not_resting M size b o.side o.id v (new_of_no_depth h none_deep))

  -- An order that rests without a trade is undone by its cancellation: in a valid book, where
  -- `add` answers true and no depth stands against the order, `remove` finds it, and afterwards both
  -- sides are as before, and so is what the map holds of every identifier.
  pub remove-add :
      (add M fill_fn size b o s).added ≡ true
      → opposite_depth M b o ≡ 0
      → let r = remove M (add M fill_fn size b o s).book o.id in
        (r.0 ≡ true)
        × ((side : Side) → get_container M r.1 side ≡ get_container M b side)
        × ((k : ℕ) → M.find r.1.order_ids_to_side k ≡ M.find b.order_ids_to_side k)
  remove-add h none_deep =
      let placed = add_rests M fill_fn size b o s v h in
      let b' = (add M fill_fn size b o s).book in
      let r = remove M b' o.id in
      let found = remove_found M b' o.id o.side placed.1 in
      let v' = remove-IsValid M size b' o.id (add-IsValid M fill_fn size b o s v) in
      let sides : (side : Side) → get_container M r.1 side ≡ get_container M b side = rw found (
        both_sides M (sweep M o.side (o.id ∷ []) b') b o.side (own_side h none_deep)
          (sweep-opposite M o.side (o.id ∷ []) b' ∙ untouched h none_deep)) in
      (ap (λ (x : Bool × Book M). x.0) found, sides, same_find M r.1 b sides v'.indexed v.indexed)
