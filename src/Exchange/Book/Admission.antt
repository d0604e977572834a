-- ===== src/Exchange/Book/Admission.antt =====
-- When `add` rests an order, and what rests then.
use tradingmarketsimulator.Prelude.{
  ℕ, ◌-◌, ◌<◌, ◌≡◌, ◌≢◌, ◌↔◌, true, Option, none, some, length, ap, ◌∙◌, sym, inl, inr,
  Option-cases,
}
use mathlib.Core.Path.{transport}
use native.Mathlib.Decide.{ℕ_discrete}
use tradingmarketsimulator.Structs.{Order, is_valid, opposite, is_bid_side}
use tradingmarketsimulator.Exchange.SideMap.{SideMap}
use tradingmarketsimulator.Exchange.Book.{
  Book, Trade, Added, get_container, insert_order, try_match, add_remainder, add,
}
use tradingmarketsimulator.Exchange.Book.Match.{with_qty, residual}
use tradingmarketsimulator.Exchange.Book.Invariant.{
  IsValid, matched, book-try_match, get_container-set_container,
  get_container-set_container-opposite,
}
use tradingmarketsimulator.Exchange.Book.Sweep.{ids-set_container}
use tradingmarketsimulator.Exchange.Book.Trades.{
  opposite_depth, aggressor-try_match, get_container-matched_own, get_container-matched_opposite,
}
use tradingmarketsimulator.Exchange.Book.Add.{
  add_remainder_duplicate, add_remainder_full, add_remainder_inserted, add_partial, add_cases,
  entered, find-entered_self,
}

-- The conditions under which the remainder of an order rests: it is valid, it outlasts what trades
-- with it, its identifier does not rest after the trade, and its side has room.
pub record Admits (M : SideMap) (size : ℕ) (b : Book M) (o : Order) : Type 0 where
  pub ok : is_valid o ≡ true
  pub outlasts : opposite_depth M b o < o.qty
  pub new : M.find (matched M b o).order_ids_to_side o.id ≡ none
  pub room : length (get_container M b o.side) ≢ size

module _ (M : SideMap) {S : Type 0} (fill_fn : Option (ℕ → S → S)) (size : ℕ) where
  remainder_added :
      (t : Trade M S)
      → (add_remainder M fill_fn size t).added ≡ true
      → (M.find t.book.order_ids_to_side t.aggressor.id ≡ none)
        × (length (get_container M t.book t.aggressor.side) ≢ size)
  remainder_added t h = elim (Option-cases (M.find t.book.order_ids_to_side t.aggressor.id)) [
    | inr (side, e) ↦ cc (add_remainder_duplicate M fill_fn size t side e)
    | inl e ↦ elim (ℕ_discrete (length (get_container M t.book t.aggressor.side)) size) [
      | yes full ↦ cc (add_remainder_full M fill_fn size t e full)
      | no room ↦ (e, room)
    ]
  ]

  module _ (b : Book M) (o : Order) (s : S) (v : IsValid M size b) where
    remainder_conditions :
        let t = try_match M fill_fn b o s in
        ((M.find t.book.order_ids_to_side t.aggressor.id ≡ none)
          × (length (get_container M t.book t.aggressor.side) ≢ size))
        ≡ ((M.find (matched M b o).order_ids_to_side o.id ≡ none)
            × (length (get_container M b o.side) ≢ size))
    unfolding matched
    remainder_conditions = rw (
      book-try_match M fill_fn b o s v.indexed,
      aggressor-try_match M fill_fn b o s,
      get_container-matched_own M b o.side o.price o.qty,
    )

    -- In a valid book `add` answers true exactly when the remainder of the order can rest.
    pub add_iff : ((add M fill_fn size b o s).added ≡ true) ↔ Admits M size b o
    add_iff = (
      add_cases M fill_fn size (λ r. r.added ≡ true → Admits M size b o) b o s (λ _ h. cc)
          (λ _ _ h. cc)
          (λ ok more h.
            let c = transport remainder_conditions (remainder_added _ h) in
            record { ok = ok; outlasts = more; new = c.0; room = c.1 }),
      λ a.
          let c = transport (sym remainder_conditions) (a.new, a.room) in
          rw (add_partial M fill_fn size b o s a.ok a.outlasts) (
            ap (λ (r : Added M S). r.added)
              (add_remainder_inserted M fill_fn size (try_match M fill_fn b o s) c.0 c.1)),
    )

    -- Then what is left of it stands in its place on its own side, under its own identifier.
    pub add_rests :
        (add M fill_fn size b o s).added ≡ true
        → let r = add M fill_fn size b o s in
          (get_container M r.book o.side
            ≡ insert_order (with_qty o (o.qty - opposite_depth M b o)) (get_container M b o.side))
          × (M.find r.book.order_ids_to_side o.id ≡ some o.side)
    unfolding matched
    add_rests h =
        let a = add_iff.0 h in
        let c = transport (sym remainder_conditions) (a.new, a.room) in
        let t = try_match M fill_fn b o s in
        let orders = aggressor-try_match M fill_fn b o s in
        rw
          (
            add_partial M fill_fn size b o s a.ok a.outlasts,
            add_remainder_inserted M fill_fn size t c.0 c.1,
          )
          (
            rw (
              orders,
              get_container-set_container,
              book-try_match M fill_fn b o s v.indexed,
              get_container-matched_own M b o.side o.price o.qty,
            ),
            rw (ids-set_container M t.aggressor.side) (
                sym (ap (λ (x : Order). M.find (entered M fill_fn size t) x.id) orders)
                ∙ find-entered_self M fill_fn size t c.0
                ∙ ap (λ (x : Order). some x.side) orders),
          )

    -- And on the other side is what the trade left there.
    pub add_leaves :
        (add M fill_fn size b o s).added ≡ true
        → get_container M (add M fill_fn size b o s).book (opposite o.side)
          ≡ residual o.price (is_bid_side o.side) o.qty (get_container M b (opposite o.side))
    unfolding matched
    add_leaves h =
        let a = add_iff.0 h in
        let c = transport (sym remainder_conditions) (a.new, a.room) in
        let t = try_match M fill_fn b o s in
        rw
          (
            add_partial M fill_fn size b o s a.ok a.outlasts,
            add_remainder_inserted M fill_fn size t c.0 c.1,
          )
          (rw (
            aggressor-try_match M fill_fn b o s,
            get_container-set_container-opposite,
            book-try_match M fill_fn b o s v.indexed,
            get_container-matched_opposite M b o.side o.price o.qty,
          ))
