-- ===== src/Exchange/Session/Prices.antt =====
-- No order of a session leaves the band.
use tradingmarketsimulator.Prelude.{
  ℕ, zero, suc, ◌≡◌, refl, sym, subst, ◌∙◌, List, [], ◌∷◌, ◌++◌, arith, All, inl, inr, All-map,
  Option-cases, if-cases,
}
use tradingmarketsimulator.Market.Price.{Price}
use tradingmarketsimulator.Structs.{Side, bid, ask, Order, is_bid, opp_side}
use tradingmarketsimulator.Exchange.SideMap.{SideMap}
use tradingmarketsimulator.Exchange.Book
use tradingmarketsimulator.Exchange.Book.{Book, erase_id}
use tradingmarketsimulator.Exchange.Book.Match.{filled}
use tradingmarketsimulator.Exchange.Book.Sorted.{erase_id-All}
use tradingmarketsimulator.Exchange.Book.Sweep.{notify_all}
use tradingmarketsimulator.Exchange.Book.Trades.{client-try_match}
use tradingmarketsimulator.Exchange.Book.Add.{add_cases}
use tradingmarketsimulator.Exchange.Book.Accounts.{rests-add_remainder}
use tradingmarketsimulator.Outside.{Outside}
use tradingmarketsimulator.Exchange.Generator.{
  Config, Generator, track, untrack, notify_fill, make_order, generate_mm_order,
  generate_aggressor_order, pick_cancel_id, submit, cancel, aggress, quote, round, run,
}
use tradingmarketsimulator.Exchange.Session.{fill_fn, add_fn, remove_fn, session_round, session_run}
use tradingmarketsimulator.Exchange.Session.Resting.{All-IsIn, IsLive-IsIn}
use tradingmarketsimulator.Exchange.Session.Live.{IsLive, AllResting}
use tradingmarketsimulator.Exchange.Session.Tracking.{
  IsTracked, session_stays-IsTracked, pick_cancel_id-live,
}
use tradingmarketsimulator.Exchange.Session.Band.{
  InBand, IsSound, IsBanded, IsMade, generate_mm_order-IsMade, generate_aggressor_order-IsMade,
}

All-append :
    (P : Order → Type 0) (os : List Order) (x : Order) → All P os → P x → All P (os ++ (x ∷ []))
All-append P [] x h p = (p, tt)
All-append P (o ∷ os) x h p = (h.0, All-append P os x h.1 p)

module _ (E : Outside) where
  pick_cancel_id-config : (g : Generator E) → (pick_cancel_id E g).1.config ≡ g.config
  unfolding pick_cancel_id
  pick_cancel_id-config g = ground arith

  IsBanded-untrack :
      (c : Config E) (id : ℕ) (g : Generator E) → IsBanded E c g → IsBanded E c (untrack E id g)
  unfolding untrack
  IsBanded-untrack c id g v = record {
    config = v.config;
    live = erase_id-All (λ o. InBand E c o.side o.price) id g.live_orders v.live;
  }

  IsBanded-track :
      (c : Config E) (o : Order) (g : Generator E)
      → InBand E c o.side o.price
      → IsBanded E c g
      → IsBanded E c (track E o g)
  unfolding track
  IsBanded-track c o g h v = record {
    config = v.config;
    live = All-append (λ o. InBand E c o.side o.price) g.live_orders o v.live h;
  }

  module _ (M : SideMap) (size : ℕ) where
    IsBanded-notify_all :
        (c : Config E) (is : List ℕ) (g : Generator E)
        → IsBanded E c g
        → IsBanded E c (notify_all M (fill_fn M E size) is g)
    unfolding fill_fn notify_fill
    IsBanded-notify_all c [] g v = v
    IsBanded-notify_all c (i ∷ is) g v =
        IsBanded-notify_all c is (untrack E i g) (IsBanded-untrack c i g v)

    IsBanded-add :
        (c : Config E) (b : Book M) (o : Order) (g : Generator E)
        → IsBanded E c g
        → IsBanded E c (Book.add M (fill_fn M E size) size b o g).client
    IsBanded-add c b o g v =
        let told = subst (IsBanded E c) (sym (client-try_match M (fill_fn M E size) b o g)) (
          IsBanded-notify_all c
            (filled o.price (is_bid o) o.qty (Book.get_container M b (opp_side o))) g v) in
        add_cases M (fill_fn M E size) size (λ r. IsBanded E c r.client) b o g (λ _. v)
          (λ _ _. told)
          (λ _ _.
            subst (IsBanded E c)
              (sym
                (rests-add_remainder M (fill_fn M E size) size 0
                  (Book.try_match M (fill_fn M E size) b o g)).1)
              told)

    IsBanded-submit :
        (c : Config E) (o : Order) (b : Book M) (g : Generator E)
        → InBand E c o.side o.price
        → IsBanded E c g
        → IsBanded E c (submit E (add_fn M E size) (remove_fn M E size) o b g).1
    unfolding submit add_fn
    IsBanded-submit c o b g h v =
        let v' = IsBanded-add c b o g v in
        if-cases (λ (s : Book M × Generator E). IsBanded E c s.1)
          (Book.add M (fill_fn M E size) size b o g).added (IsBanded-track c o _ h v') v'

    abbrev pub Keeps : (Book M → Generator E → Book M × Generator E) → Type 0
    Keeps f =
        (c : Config E) (b : Book M) (g : Generator E)
        → IsSound E c
        → IsBanded E c g
        → IsBanded E c (f b g).1

    IsBanded-pick_cancel_id :
        (c : Config E) (g : Generator E) → IsBanded E c g → IsBanded E c (pick_cancel_id E g).1
    IsBanded-pick_cancel_id c g v = record {
      config = pick_cancel_id-config g ∙ v.config;
      live =
          subst (All (λ o. InBand E c o.side o.price)) (sym (pick_cancel_id-live M E size g))
            v.live;
    }

    cancel-Keeps : Keeps (cancel E (add_fn M E size) (remove_fn M E size))
    unfolding cancel remove_fn
    cancel-Keeps c b g s v =
        let g' = (pick_cancel_id E g).1 in
        let v' = IsBanded-pick_cancel_id c g v in
        elim (Option-cases (pick_cancel_id E g).0) [
          | inl e ↦ rw (e, cancel) v'
          | inr (id, e) ↦ rw (e, cancel) (IsBanded-untrack c id g' v')
        ]

    aggress-Keeps : Keeps (aggress E (add_fn M E size) (remove_fn M E size))
    unfolding aggress IsMade
    aggress-Keeps c b g s v =
        let (band, v') =
          generate_aggressor_order-IsMade E c _ _ s (record { config = v.config; live = v.live }) in
        IsBanded-submit c _ b _ band v'

    quote-Keeps : Keeps (quote E (add_fn M E size) (remove_fn M E size))
    unfolding quote IsMade
    quote-Keeps c b g s v =
        let (bid_band, v1) = generate_mm_order-IsMade E c bid g s v in
        let (ask_band, v2) = generate_mm_order-IsMade E c ask (generate_mm_order E bid g).1 s v1 in
        IsBanded-submit c _ _ _ ask_band (IsBanded-submit c _ b _ bid_band v2)

    round-Keeps : Keeps (session_round M E size)
    unfolding session_round round
    round-Keeps c b g s v =
        let (r, w) = E.draw_unit g.world in
        let v' : IsBanded E c (record g { world = w }) = record {
          config = v.config;
          live = v.live;
        } in
        let P = λ (t : Book M × Generator E). IsBanded E c t.1 in
        if-cases P (E.less r g.config.cancel_weight) (cancel-Keeps c b _ s v') (
          if-cases P (E.less r (E.plus g.config.cancel_weight g.config.aggressor_weight))
            (aggress-Keeps c b _ s v') (quote-Keeps c b _ s v'))

    pub run-Keeps : (n : ℕ) → Keeps (session_run M E size n)
    unfolding session_run run session_round
    run-Keeps zero c b g s v = v
    run-Keeps (suc n) c b g s v =
        let (b', g') = session_round M E size b g in run-Keeps n c b' g' s (round-Keeps c b g s v)

    -- From an empty book and an empty list of live orders, with a spread of at least one and an offset
    -- that is not negative, whatever is drawn: after any number of rounds the bids that rest lie
    -- between the lower end of the spread and its upper end with the offset, the asks between the
    -- lower end less the offset and the upper end, and so does every order that the generator makes
    -- next, of either kind.
    pub session_prices :
        (n : ℕ) (g : Generator E)
        → IsSound E g.config
        → g.live_orders ≡ []
        → let (b', g') = session_run M E size n (Book.init M) g in
          AllResting M (λ o. InBand E g.config o.side o.price) b'
          × ((side : Side) → InBand E g.config side (generate_mm_order E side g').0.price)
          × ((side : Side) → InBand E g.config side (generate_aggressor_order E side g').0.price)
    unfolding IsMade generate_mm_order generate_aggressor_order make_order
    session_prices n g s e =
        let b' = (session_run M E size n (Book.init M) g).0 in
        let g' = (session_run M E size n (Book.init M) g).1 in
        let v : IsBanded E g.config g' =
          run-Keeps n g.config (Book.init M) g s (record { config = refl; live = rw e tt }) in
        let t : IsTracked M E size b' g' = session_stays-IsTracked M E size n g e in
        let Q = λ (o : Order). InBand E g.config o.side o.price in
        let banded : (x : Order) → IsLive g'.live_orders x → Q x = λ x h.
          let (l, there, same) = IsLive-IsIn g'.live_orders x h in
          subst (λ (k : ℕ × Price × Side). InBand E g.config k.2 k.1) (sym same)
            (All-IsIn Q g'.live_orders l v.live there) in
        (
          (
            All-map (IsLive g'.live_orders) Q b'.bids banded t.agreed.0,
            All-map (IsLive g'.live_orders) Q b'.asks banded t.agreed.1,
          ),
          λ side. (generate_mm_order-IsMade E g.config side g' s v).0,
          λ side. (generate_aggressor_order-IsMade E g.config side g' s v).0,
        )
