-- ===== src/Exchange/Session/Tracking.antt =====
-- The generator's list of live orders and the book hold the same orders, however long they run.
use tradingmarketsimulator.Prelude.{
  ℕ, zero, suc, ◌+◌, ◌-◌, ◌≡◌, refl, ◌∙◌, List, [], ◌∷◌, ◌++◌, arith, ap, sym, subst, Bool, true,
  false, inl, inr, Option-cases, Bool-cases, if-cases,
}
use tradingmarketsimulator.Market.Price.{Price}
use tradingmarketsimulator.Structs.{Side, Order}
use tradingmarketsimulator.Exchange.SideMap.{SideMap}
use tradingmarketsimulator.Exchange.Book
use tradingmarketsimulator.Exchange.Book.{Book, erase_id}
use tradingmarketsimulator.Exchange.Book.Match.{count, occurs}
use tradingmarketsimulator.Exchange.Book.Sorted.{count-erase_id}
use tradingmarketsimulator.Exchange.Book.Sweep.{notify_all}
use tradingmarketsimulator.Exchange.Book.Invariant.{IsValid, init-IsValid}
use tradingmarketsimulator.Exchange.Book.Preservation.{remove-IsValid}
use tradingmarketsimulator.Exchange.Book.Add.{add-IsValid}
use tradingmarketsimulator.Exchange.Book.Accounts.{
  rests, rests-remove, fills, add_accounts, occurs-fills-le,
}
use tradingmarketsimulator.Outside.{Outside}
use tradingmarketsimulator.Exchange.Generator.{
  Generator, track, untrack, notify_fill, make_order, generate_mm_order, generate_aggressor_order,
  pick_cancel_id, submit, cancel, aggress, quote, round, run,
}
use tradingmarketsimulator.Exchange.Session.Live.{
  IsLive, AllResting, AllResting-add, AllResting-cancelled, without, joined,
}
use tradingmarketsimulator.Exchange.Session.{fill_fn, add_fn, remove_fn, session_round, session_run}

count-append : (k : ℕ) (os qs : List Order) → count k (os ++ qs) ≡ count k os + count k qs
count-append k [] qs = omega arith
count-append k (o ∷ os) qs = omega (arith, count-append k os qs)

module _ (M : SideMap) (E : Outside) (size : ℕ) where
  -- The book is valid, an identifier is live in the generator as often as it rests in the book, and
  -- each resting order has the price and the side of the live order of its identifier.
  pub record IsTracked (b : Book M) (g : Generator E) : Type 0 where
    pub valid : IsValid M size b
    pub same : (k : ℕ) → count k g.live_orders ≡ rests M k b
    pub agreed : AllResting M (IsLive g.live_orders) b

  live-notify_all :
      (k : ℕ) (is : List ℕ) (g : Generator E)
      → count k (notify_all M (fill_fn M E size) is g).live_orders
        ≡ count k g.live_orders - occurs k is
  unfolding fill_fn notify_fill untrack
  live-notify_all k [] g = omega arith
  live-notify_all k (i ∷ is) g =
      ground (arith, live-notify_all k is (untrack E i g), count-erase_id k i g.live_orders)

  without-notify_all :
      (is : List ℕ) (g : Generator E)
      → (notify_all M (fill_fn M E size) is g).live_orders ≡ without M is g.live_orders
  unfolding fill_fn notify_fill untrack
  without-notify_all [] g = refl
  without-notify_all (i ∷ is) g = without-notify_all is (untrack E i g)

  submit-IsTracked :
      (o : Order) (b : Book M) (g : Generator E)
      → IsTracked b g
      → let (b', g') = submit E (add_fn M E size) (remove_fn M E size) o b g in IsTracked b' g'
  unfolding submit add_fn track
  submit-IsTracked o b g t =
      let r = Book.add M (fill_fn M E size) size b o g in
      let acc = add_accounts M (fill_fn M E size) size b o g t.valid in
      let v = add-IsValid M (fill_fn M E size) size b o g t.valid in
      let told = λ (k : ℕ).
        ap (λ (c : Generator E). count k c.live_orders) acc.0 ∙ live-notify_all k (fills M b o) g in
      let left : without M (fills M b o) g.live_orders ≡ r.client.live_orders =
        sym (ap (λ (c : Generator E). c.live_orders) acc.0 ∙ without-notify_all (fills M b o) g) in
      let resting = AllResting-add M (fill_fn M E size) size b g.live_orders o g t.valid t.agreed in
      let agree = λ (added : Bool) (e : r.added ≡ added).
        subst (λ l. AllResting M (IsLive l) r.book)
          (ap (λ c. joined M c o (without M (fills M b o) g.live_orders)) e
            ∙ ap (joined M added o) left)
          resting in
      elim (Bool-cases r.added) [
        | inl e ↦ rw e (record {
          valid = v;
          agreed = agree true e;
          same = λ k. ground (
            arith,
            e,
            acc.1 k,
            occurs-fills-le M k b o,
            told k,
            t.same k,
            count-append k r.client.live_orders (o ∷ []),
          );
        })
        | inr e ↦ rw e (record {
          valid = v;
          agreed = agree false e;
          same = λ k. ground (arith, e, acc.1 k, occurs-fills-le M k b o, told k, t.same k);
        })
      ]

  pub pick_cancel_id-live : (g : Generator E) → (pick_cancel_id E g).1.live_orders ≡ g.live_orders
  unfolding pick_cancel_id
  pick_cancel_id-live g = ground arith

  make_order-live :
      (side : Side) (price : Price) (qty : ℕ) (g : Generator E)
      → (make_order E side price qty g).1.live_orders ≡ g.live_orders
  unfolding make_order
  make_order-live side price qty g = refl

  -- A change of the generator that leaves its list alone keeps track.
  same_live :
      (b : Book M) (g h : Generator E)
      → h.live_orders ≡ g.live_orders
      → IsTracked b g
      → IsTracked b h
  same_live b g h e t = record {
    valid = t.valid;
    same = λ k. ap (count k) e ∙ t.same k;
    agreed = subst (λ l. AllResting M (IsLive l) b) (sym e) t.agreed;
  }

  cancelled-IsTracked :
      (id : ℕ) (b : Book M) (g : Generator E)
      → IsTracked b g
      → IsTracked (Book.remove M b id).1 (untrack E id g)
  unfolding untrack
  cancelled-IsTracked id b g t = record {
    valid = remove-IsValid M size b id t.valid;
    agreed = AllResting-cancelled M b g.live_orders id t.valid.indexed t.agreed;
    same = λ k.
        ground (
          arith,
          t.same k,
          count-erase_id k id g.live_orders,
          rests-remove M k b id t.valid.indexed,
        );
  }

  abbrev Keeps : (Book M → Generator E → Book M × Generator E) → Type 0
  Keeps f = (b : Book M) (g : Generator E) → IsTracked b g → IsTracked (f b g).0 (f b g).1

  cancel-IsTracked : Keeps (cancel E (add_fn M E size) (remove_fn M E size))
  unfolding cancel remove_fn
  cancel-IsTracked b g t =
      let g' = (pick_cancel_id E g).1 in
      let t' = same_live b g g' (pick_cancel_id-live g) t in
      elim (Option-cases (pick_cancel_id E g).0) [
        | inl e ↦ rw (e, cancel) t'
        | inr (id, e) ↦ rw (e, cancel) (cancelled-IsTracked id b g' t')
      ]

  aggress-IsTracked : Keeps (aggress E (add_fn M E size) (remove_fn M E size))
  unfolding aggress generate_aggressor_order make_order
  aggress-IsTracked b g t = submit-IsTracked _ b _ (same_live b g _ refl t)

  quote-IsTracked : Keeps (quote E (add_fn M E size) (remove_fn M E size))
  unfolding quote generate_mm_order make_order
  quote-IsTracked b g t =
      let first = submit-IsTracked _ b _ (same_live b g _ refl t) in submit-IsTracked _ _ _ first

  round-IsTracked : Keeps (session_round M E size)
  unfolding session_round round
  round-IsTracked b g t =
      let (r, w) = E.draw_unit g.world in
      let t' = same_live b g (record g { world = w }) refl t in
      let P = λ (s : Book M × Generator E). IsTracked s.0 s.1 in
      if-cases P (E.less r g.config.cancel_weight) (cancel-IsTracked b _ t') (
        if-cases P (E.less r (E.plus g.config.cancel_weight g.config.aggressor_weight))
          (aggress-IsTracked b _ t') (quote-IsTracked b _ t'))

  pub run-IsTracked : (n : ℕ) → Keeps (session_run M E size n)
  unfolding session_run run session_round
  run-IsTracked zero b g t = t
  run-IsTracked (suc n) b g t =
      let (b', g') = session_round M E size b g in run-IsTracked n b' g' (round-IsTracked b g t)

  -- From an empty book and an empty list of live orders, after any number of rounds and whatever
  -- is drawn, the book is valid, each identifier is live as often as it rests, and each resting order
  -- has the price and the side of a live order of its identifier.
  pub session_stays-IsTracked :
      (n : ℕ) (g : Generator E)
      → g.live_orders ≡ []
      → let (b', g') = session_run M E size n (Book.init M) g in IsTracked b' g'
  session_stays-IsTracked n g e = run-IsTracked n (Book.init M) g (record {
    valid = init-IsValid M size;
    same = λ k. unfold Book.init in ap (count k) e;
    agreed = unfold Book.init in (tt, tt);
  })
