-- ===== src/Exchange/Book.antt =====
-- include/mms/exchange/OptionOrderBook.hh: the price-time order book.
pub mod Match
pub mod Sorted
pub mod Sweep
pub mod Invariant
pub mod Preservation
pub mod Trades
pub mod Add
pub mod Matching
pub mod Admission
pub mod Lookup
pub mod Priority
pub mod Accounts
pub mod Levels
pub mod Refinement
use tradingmarketsimulator.Prelude.{
  ℕ, ◌-◌, Bool, true, false, not, Option, none, some, List, [], ◌∷◌, ltb, ◌==◌, if◌then◌else◌,
  length,
}
use tradingmarketsimulator.Prelude.Int.{ltb_ℤ, leb_ℤ}
use tradingmarketsimulator.Market.Price.{Price, is_more_cons}
use tradingmarketsimulator.Structs.{Side, bid, ask, Order, opp_side, is_bid, is_valid}
use tradingmarketsimulator.Exchange.SideMap.{SideMap}

-- What the loop of `try_match` leaves: the aggressor, the container, and `ids_to_remove`.
pub record Matched : Type 0 where
  pub aggressor : Order
  pub container : List Order
  pub removed : List ℕ

-- The loop of `try_match` over the opposite container. Each subtraction stands under the test that
-- makes it exact, so no `uint32_t` wraps.
unfoldable pub match_loop : Order → List Order → Matched
match_loop aggressor [] = record { aggressor = aggressor; container = []; removed = [] }
match_loop aggressor (passive ∷ rest) =
    let tradeable_price = not (is_more_cons aggressor.price passive.price (is_bid aggressor)) in
    let consumed_aggressor = ltb aggressor.qty passive.qty in
    let consumed_passive = ltb passive.qty aggressor.qty in
    let skip = match_loop aggressor rest in
    let eat = match_loop (record aggressor { qty = aggressor.qty - passive.qty }) rest in
    if tradeable_price
    then (if consumed_passive
        then record eat { container = passive ∷ eat.container; removed = passive.id ∷ eat.removed }
        else (if consumed_aggressor
            then record {
              aggressor = record aggressor { qty = 0 };
              container = record passive { qty = passive.qty - aggressor.qty } ∷ rest;
              removed = [];
            }
            else record {
              aggressor = record aggressor { qty = 0 };
              container = record passive { qty = 0 } ∷ rest;
              removed = passive.id ∷ [];
            }))
    else record skip { container = passive ∷ skip.container }

-- `container.erase(std::ranges::find(container, id, &Order::id))`. At an id that is not there the
-- program would erase `end()`; the invariant rules that out.
unfoldable pub erase_id : ℕ → List Order → List Order
erase_id id [] = []
erase_id id (o ∷ os) = let rest = erase_id id os in if o.id == id then os else o ∷ rest

-- `sort_fn` of `add`: the first resting price before which an order of this price goes.
unfoldable pub goes_before : Bool → Price → Price → Bool
goes_before is_bid_order p price = if is_bid_order then leb_ℤ p price else leb_ℤ price p

-- `find_if` and `insert` of `add`
unfoldable pub insert_order : Order → List Order → List Order
insert_order order [] = order ∷ []
insert_order order (o ∷ os) =
    let rest = insert_order order os in
    if goes_before (is_bid order) o.price order.price then order ∷ o ∷ os else o ∷ rest

-- The state of the book. The two buffers hold `SIZE` orders each and are reserved at the start, so
-- the vectors are plain lists.
pub record Book (M : SideMap) : Type 0 where
  pub bids : List Order
  pub asks : List Order
  pub order_ids_to_side : M.Map

-- The result of `try_match` and of `add`, with the state `S` of the client that `m_fill_fn` writes.
pub record Trade (M : SideMap) (S : Type 0) : Type 0 where
  pub consumed_qty : ℕ
  pub aggressor : Order
  pub book : Book M
  pub client : S

pub record Added (M : SideMap) (S : Type 0) : Type 0 where
  pub added : Bool
  pub book : Book M
  pub client : S

module _ (M : SideMap) where
  unfoldable pub init : Book M
  init = record { bids = []; asks = []; order_ids_to_side = M.empty }

  unfoldable pub has : Book M → ℕ → Bool
  has b id = elim (M.find b.order_ids_to_side id) [ none ↦ false | some _ ↦ true ]

  unfoldable pub get_container : Book M → Side → List Order
  get_container b bid = b.bids
  get_container b ask = b.asks

  -- A write through the reference that `get_container` returns.
  unfoldable pub set_container : Book M → Side → List Order → Book M
  set_container b bid os = record b { bids = os }
  set_container b ask os = record b { asks = os }

  unfoldable pub remove : Book M → ℕ → Bool × Book M
  unfolding get_container set_container erase_id
  remove b id = elim (M.find b.order_ids_to_side id) [
    | none ↦ (false, b)
    | some side ↦ (
      true,
      record (set_container b side (erase_id id (get_container b side))) {
        order_ids_to_side = M.erase b.order_ids_to_side id;
      },
    )
  ]

  module _ {S : Type 0} (fill_fn : Option (ℕ → S → S)) where
    abbrev pub notify : ℕ → S → S
    notify id s = elim fill_fn [ none ↦ s | some f ↦ f id s ]

    -- The `for_each` over `ids_to_remove`
    unfoldable pub remove_all : List ℕ → Book M → S → Book M × S
    remove_all [] b s = (b, s)
    remove_all (id ∷ ids) b s = remove_all ids (remove b id).1 (notify id s)

    unfoldable pub try_match : Book M → Order → S → Trade M S
    unfolding match_loop remove_all remove get_container set_container
    try_match b aggressor s =
        let matched = match_loop aggressor (get_container b (opp_side aggressor)) in
        let swept = set_container b (opp_side aggressor) matched.container in
        let (book, client) = remove_all matched.removed swept s in
        record {
          consumed_qty = aggressor.qty - matched.aggressor.qty;
          aggressor = matched.aggressor;
          book = book;
          client = client;
        }

    -- `add` after `try_match`: `order` is the remainder, and `SIZE` is the capacity of a side.
    unfoldable pub add_remainder : ℕ → Trade M S → Added M S
    unfolding get_container set_container insert_order
    add_remainder size t =
        let order = t.aggressor in
        let (inserted, ids) = M.try_emplace t.book.order_ids_to_side order.id order.side in
        let tried = record t.book { order_ids_to_side = ids } in
        let container = get_container t.book order.side in
        if inserted
        then (if length container == size
            then record {
              added = false;
              book = record tried { order_ids_to_side = M.erase ids order.id };
              client = t.client;
            }
            else record {
              added = true;
              book = set_container tried order.side (insert_order order container);
              client = t.client;
            })
        else record { added = false; book = tried; client = t.client }

    unfoldable pub add : ℕ → Book M → Order → S → Added M S
    add size b order s =
        let t = try_match b order s in
        let fully_consumed = t.consumed_qty == order.qty in
        if is_valid order
        then (if fully_consumed
            then record { added = false; book = t.book; client = t.client }
            else add_remainder size t)
        else record { added = false; book = b; client = s }
