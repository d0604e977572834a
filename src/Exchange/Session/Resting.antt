-- ===== src/Exchange/Session/Resting.antt =====
-- Every live order of the generator rests in the book, at its price and on its side.
use tradingmarketsimulator.Prelude.{
  ℕ, ◌≤◌, ◌<◌, ◌≡◌, refl, sym, ap, ◌∙◌, Bool, true, List, [], ◌∷◌, ◌==◌, if◌then◌else◌, arith, All,
  IsIn, inl, inr, ltb, ◌⊎◌, subst, Bool-cases, ==_iff,
}
use tradingmarketsimulator.Market.Price.{Price}
use tradingmarketsimulator.Structs.{Side, bid, ask, Order, is_valid}
use tradingmarketsimulator.Exchange.SideMap.{SideMap}
use tradingmarketsimulator.Exchange.Book.{Book, get_container}
use tradingmarketsimulator.Exchange.Book.Match.{count, trades, depth}
use tradingmarketsimulator.Exchange.Book.Invariant.{IsValid, IsResting}
use tradingmarketsimulator.Exchange.Book.Accounts.{rests}
use tradingmarketsimulator.Outside.{Outside}
use tradingmarketsimulator.Exchange.Generator.{Generator, side_prices}
use tradingmarketsimulator.Exchange.Session.Live.{IsLive, key}
use tradingmarketsimulator.Exchange.Session.Tracking.{IsTracked}

count_of_IsIn : (x : Order) (os : List Order) → IsIn x os → 0 < count x.id os
count_of_IsIn x [] h = absurd h
count_of_IsIn x (o ∷ os) (inl e) = let id : x.id ≡ o.id = ap (λ (y : Order). y.id) e in ground arith
count_of_IsIn x (o ∷ os) (inr h) = omega (arith, count_of_IsIn x os h)

IsIn-count : (k : ℕ) (os : List Order) → 0 < count k os → (x : Order) × IsIn x os × (x.id ≡ k)
IsIn-count k [] h = absurd (omega arith)
IsIn-count k (o ∷ os) h = elim (Bool-cases (o.id == k)) [
  | inl e ↦ (o, inl refl, (==_iff o.id k).0 e)
  | inr e ↦ let (x, there, id) = IsIn-count k os (ground arith) in (x, inr there, id)
]

-- An identifier that occurs once belongs to one order.
same_order :
    (k : ℕ) (os : List Order) (x y : Order)
    → count k os ≤ 1
    → IsIn x os
    → IsIn y os
    → x.id ≡ k
    → y.id ≡ k
    → x ≡ y
same_order k [] x y once h i e f = absurd h
same_order k (o ∷ os) x y once (inl h) (inl i) e f = h ∙ sym i
same_order k (o ∷ os) x y once (inl h) (inr i) e f =
    let two = count_of_IsIn y os i in
    let id : x.id ≡ o.id = ap (λ (z : Order). z.id) h in absurd (ground arith)
same_order k (o ∷ os) x y once (inr h) (inl i) e f =
    let two = count_of_IsIn x os h in
    let id : y.id ≡ o.id = ap (λ (z : Order). z.id) i in absurd (ground arith)
same_order k (o ∷ os) x y once (inr h) (inr i) e f = same_order k os x y (omega arith) h i e f

pub All-IsIn : (P : Order → Type 0) (os : List Order) (x : Order) → All P os → IsIn x os → P x
All-IsIn P [] x a h = absurd h
All-IsIn P (o ∷ os) x a (inl e) = subst P (sym e) a.0
All-IsIn P (o ∷ os) x a (inr h) = All-IsIn P os x a.1 h

pub IsLive-IsIn :
    (live : List Order) (x : Order) → IsLive live x → (l : Order) × IsIn l live × (key x ≡ key l)
IsLive-IsIn [] x h = absurd h
IsLive-IsIn (l ∷ live) x (inl e) = (l, inl refl, e)
IsLive-IsIn (l ∷ live) x (inr h) = let (m, there, e) = IsLive-IsIn live x h in (m, inr there, e)

-- The prices of a side, with one more order
abbrev listed : Side → Side → Price → List Price → List Price
listed bid bid p ps = p ∷ ps
listed bid ask p ps = ps
listed ask bid p ps = ps
listed ask ask p ps = p ∷ ps

listed-IsIn :
    (side s : Side) (p q : Price) (ps : List Price)
    → IsIn p (listed side s q ps)
    → ((s ≡ side) × (q ≡ p)) ⊎ IsIn p ps
listed-IsIn bid bid p q ps (inl e) = inl (refl, sym e)
listed-IsIn bid bid p q ps (inr h) = inr h
listed-IsIn bid ask p q ps h = inr h
listed-IsIn ask bid p q ps h = inr h
listed-IsIn ask ask p q ps (inl e) = inl (refl, sym e)
listed-IsIn ask ask p q ps (inr h) = inr h

side_prices-listed :
    (side s : Side) (l : Order) (live : List Order)
    → l.side ≡ s
    → side_prices side (l ∷ live) ≡ listed side s l.price (side_prices side live)
unfolding side_prices
side_prices-listed bid bid l live e = rw e refl
side_prices-listed bid ask l live e = rw e refl
side_prices-listed ask bid l live e = rw e refl
side_prices-listed ask ask l live e = rw e refl

pub side_prices-IsIn :
    (side : Side) (live : List Order) (p : Price)
    → IsIn p (side_prices side live)
    → (l : Order) × IsIn l live × (l.side ≡ side) × (l.price ≡ p)
unfolding side_prices
side_prices-IsIn side [] p h = absurd h
side_prices-IsIn side (l ∷ live) p h =
    let h' = subst (IsIn p) (side_prices-listed side l.side l live refl) h in
    elim (listed-IsIn side l.side p l.price (side_prices side live) h') [
      | inl (same, e) ↦ (l, inl refl, same, e)
      | inr later ↦
          let (m, there, same, e) = side_prices-IsIn side live p later in (m, inr there, same, e)
    ]

pub depth_positive :
    (price : Price) (bids : Bool) (os : List Order) (x : Order)
    → IsIn x os
    → trades x price bids ≡ true
    → 0 < x.qty
    → 0 < depth price bids os
depth_positive price bids [] x h t q = absurd h
depth_positive price bids (o ∷ os) x (inl e) t q =
    let here : 0 < (if trades o price bids then o.qty else 0) =
      subst (λ (y : Order). 0 < (if trades y price bids then y.qty else 0)) e (rw t q) in
    omega arith
depth_positive price bids (o ∷ os) x (inr h) t q =
    omega (arith, depth_positive price bids os x h t q)

pub qty_of_valid : (x : Order) → is_valid x ≡ true → 0 < x.qty
unfolding is_valid
qty_of_valid x h = ground arith

module _ (M : SideMap) (E : Outside) (size : ℕ) where
  rests_once : (b : Book M) (k : ℕ) → IsValid M size b → rests M k b ≤ 1
  rests_once b k v = ground (arith, v.indexed k)

  -- A resting order with this identifier, on its side
  resting_of :
      (b : Book M) (k : ℕ)
      → 0 < rests M k b
      → (x : Order) × (x.id ≡ k) × (IsIn x b.bids ⊎ IsIn x b.asks)
  resting_of b k h = elim (Bool-cases (ltb 0 (count k b.bids))) [
    | inl e ↦ let (x, there, id) = IsIn-count k b.bids (ground arith) in (x, id, inl there)
    | inr e ↦ let (x, there, id) = IsIn-count k b.asks (ground arith) in (x, id, inr there)
  ]

  placed :
      (b : Book M) (x : Order)
      → IsValid M size b
      → IsIn x b.bids ⊎ IsIn x b.asks
      → IsIn x (get_container M b x.side) × (is_valid x ≡ true)
  unfolding get_container
  placed b x v (inl h) =
      let (side, ok) = All-IsIn (IsResting bid) b.bids x v.bids_resting h in
      (subst (λ d. IsIn x (get_container M b d)) (sym side) h, ok)
  placed b x v (inr h) =
      let (side, ok) = All-IsIn (IsResting ask) b.asks x v.asks_resting h in
      (subst (λ d. IsIn x (get_container M b d)) (sym side) h, ok)

  -- A live order rests, with its price and side.
  pub live_rests :
      (b : Book M) (g : Generator E) (l : Order)
      → IsTracked M E size b g
      → IsIn l g.live_orders
      → (x : Order) × IsIn x (get_container M b l.side) × (x.price ≡ l.price) × (is_valid x ≡ true)
  live_rests b g l t h =
      let known : 0 < rests M l.id b =
        omega (arith, t.same l.id, count_of_IsIn l g.live_orders h) in
      let (x, id, there) = resting_of b l.id known in
      let (here, ok) = placed b x t.valid there in
      let live : IsLive g.live_orders x = elim there [
        | inl i ↦ All-IsIn (IsLive g.live_orders) b.bids x t.agreed.0 i
        | inr i ↦ All-IsIn (IsLive g.live_orders) b.asks x t.agreed.1 i
      ] in
      let (m, among, same) = IsLive-IsIn g.live_orders x live in
      let m_id : m.id ≡ l.id = sym (ap (λ (k : ℕ × Price × Side). k.0) same) ∙ id in
      let one : l ≡ m =
        same_order l.id g.live_orders l m (omega (arith, t.same l.id, rests_once b l.id t.valid)) h
          among refl m_id in
      let agree : key x ≡ key l = same ∙ sym (ap key one) in
      (
        x,
        subst (λ d. IsIn x (get_container M b d)) (ap (λ (k : ℕ × Price × Side). k.2) agree) here,
        ap (λ (k : ℕ × Price × Side). k.1) agree,
        ok,
      )
