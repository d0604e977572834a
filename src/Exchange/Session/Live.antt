-- ===== src/Exchange/Session/Live.antt =====
-- Each order that rests in the book is one of the generator's live orders, by identifier, price and
-- side: how the operations of the book and of the list keep this.
use tradingmarketsimulator.Prelude.{
  ℕ, ◌<◌, ◌≡◌, refl, sym, ap, subst, Bool, true, false, Option, List, [], ◌∷◌, ◌++◌, map, ◌==◌,
  arith, All, All-map, IsIn, inl, inr, if◌then◌else◌, Option-cases, Bool-cases, length,
}
use native.Mathlib.Decide.{ℕ_discrete}
use tradingmarketsimulator.Market.Price.{Price}
use tradingmarketsimulator.Structs.{Side, bid, ask, Order, is_bid, opp_side}
use tradingmarketsimulator.Exchange.SideMap.{SideMap}
use tradingmarketsimulator.Exchange.Book.{
  Book, Trade, get_container, set_container, insert_order, erase_id, remove, try_match,
  add_remainder, add,
}
use tradingmarketsimulator.Exchange.Book.Match.{count, occurs, filled}
use tradingmarketsimulator.Exchange.Book.Sorted.{
  IgnoresQty, residual-All, insert_order-All, erase_id-All,
}
use tradingmarketsimulator.Exchange.Book.Invariant.{
  IsValid, IsIndexed, matched, matched_by, book-try_match,
}
use tradingmarketsimulator.Exchange.Book.Accounts.{rests, rests-remove, rests-matched_by, fills}
use tradingmarketsimulator.Exchange.Book.Trades.{aggressor-try_match}
use tradingmarketsimulator.Exchange.Book.Add.{
  add_remainder_duplicate, add_remainder_full, add_remainder_inserted, add_cases,
}

-- What of an order does not change while it rests
abbrev pub key : Order → ℕ × Price × Side
key o = (o.id, o.price, o.side)

abbrev pub IsLive : List Order → Order → Type 0
IsLive live x = IsIn (key x) (map key live)

IsLive-append : (live : List Order) (o x : Order) → IsLive live x → IsLive (live ++ (o ∷ [])) x
IsLive-append [] o x h = absurd h
IsLive-append (l ∷ live) o x (inl e) = inl e
IsLive-append (l ∷ live) o x (inr h) = inr (IsLive-append live o x h)

IsLive-append_self : (live : List Order) (o : Order) → IsLive (live ++ (o ∷ [])) o
IsLive-append_self [] o = inl refl
IsLive-append_self (l ∷ live) o = inr (IsLive-append_self live o)

pub IsLive-erase_id :
    (i : ℕ) (live : List Order) (x : Order)
    → (i == x.id) ≡ false
    → IsLive live x
    → IsLive (erase_id i live) x
unfolding erase_id
IsLive-erase_id i [] x e h = absurd h
IsLive-erase_id i (l ∷ live) x e (inl same) =
    let other : (l.id == i) ≡ false =
      let id : x.id ≡ l.id = ap (λ (k : ℕ × Price × Side). k.0) same in ground arith in
    rw other (inl same)
IsLive-erase_id i (l ∷ live) x e (inr later) = elim (Bool-cases (l.id == i)) [
  | inl f ↦ rw f later
  | inr f ↦ rw f (inr (IsLive-erase_id i live x e later))
]

count-All : (os : List Order) → All (λ x. 0 < count x.id os) os
count-All [] = tt
count-All (o ∷ os) = (ground arith, All-map _ _ os (λ x h. omega arith) (count-All os))

All-both :
    (P Q R : Order → Type 0) (os : List Order)
    → ((x : Order) → P x → Q x → R x)
    → All P os
    → All Q os
    → All R os
All-both P Q R [] f p q = tt
All-both P Q R (o ∷ os) f p q = (f o p.0 q.0, All-both P Q R os f p.1 q.1)

module _ (M : SideMap) where
  abbrev pub AllResting : (Order → Type 0) → Book M → Type 0
  AllResting Q b = All Q b.bids × All Q b.asks

  AllResting-each :
      (P Q : Order → Type 0) (b : Book M)
      → ((x : Order) → 0 < rests M x.id b → P x → Q x)
      → AllResting P b
      → AllResting Q b
  AllResting-each P Q b f (bids, asks) = (
    All-both (λ x. 0 < count x.id b.bids) P Q b.bids (λ x here p. f x (omega arith) p)
        (count-All b.bids) bids,
    All-both (λ x. 0 < count x.id b.asks) P Q b.asks (λ x here p. f x (omega arith) p)
        (count-All b.asks) asks,
  )

  AllResting-matched_by :
      (Q : Order → Type 0) (b : Book M) (side : Side) (price : Price) (qty : ℕ)
      → IgnoresQty Q
      → AllResting Q b
      → AllResting Q (matched_by M b side price qty)
  unfolding matched_by get_container set_container
  AllResting-matched_by Q b bid price qty keep h =
      (h.0, residual-All Q keep price true qty b.asks h.1)
  AllResting-matched_by Q b ask price qty keep h =
      (residual-All Q keep price false qty b.bids h.0, h.1)

  AllResting-insert :
      (Q : Order → Type 0) (b : Book M) (m : M.Map) (side : Side) (x : Order)
      → Q x
      → AllResting Q b
      → AllResting Q (
          set_container M
            (record b { order_ids_to_side = m })
            side
            (insert_order x (get_container M b side)))
  unfolding get_container set_container
  AllResting-insert Q b m bid x q h = (insert_order-All Q x b.bids q h.0, h.1)
  AllResting-insert Q b m ask x q h = (h.0, insert_order-All Q x b.asks q h.1)

  AllResting-erase :
      (Q : Order → Type 0) (b : Book M) (m : M.Map) (side : Side) (id : ℕ)
      → AllResting Q b
      → AllResting Q (record (set_container M b side (erase_id id (get_container M b side))) {
        order_ids_to_side = m;
      })
  unfolding get_container set_container
  AllResting-erase Q b m bid id h = (erase_id-All Q id b.bids h.0, h.1)
  AllResting-erase Q b m ask id h = (h.0, erase_id-All Q id b.asks h.1)

  AllResting-remove :
      (Q : Order → Type 0) (b : Book M) (id : ℕ) → AllResting Q b → AllResting Q (remove M b id).1
  unfolding remove
  AllResting-remove Q b id h = elim (Option-cases (M.find b.order_ids_to_side id)) [
    | inl e ↦ rw (e, remove) h
    | inr (side, e) ↦
        rw (e, remove) (AllResting-erase Q b (M.erase b.order_ids_to_side id) side id h)
  ]

  -- The cancelled order leaves both.
  pub AllResting-cancelled :
      (b : Book M) (live : List Order) (id : ℕ)
      → IsIndexed M b
      → AllResting (IsLive live) b
      → AllResting (IsLive (erase_id id live)) (remove M b id).1
  AllResting-cancelled b live id v h =
      AllResting-each (IsLive live) (IsLive (erase_id id live)) (remove M b id).1
        (λ x here. IsLive-erase_id id live x (ground (arith, rests-remove M x.id b id v, v x.id)))
        (AllResting-remove (IsLive live) b id h)

  -- The live orders after these fills
  abbrev pub without : List ℕ → List Order → List Order
  without [] live = live
  without (i ∷ is) live = without is (erase_id i live)

  IsLive-without :
      (is : List ℕ) (live : List Order) (x : Order)
      → occurs x.id is ≡ 0
      → IsLive live x
      → IsLive (without is live) x
  IsLive-without [] live x e h = h
  IsLive-without (i ∷ is) live x e h =
      IsLive-without is (erase_id i live) x (ground arith)
        (IsLive-erase_id i live x (ground arith) h)

  -- The orders that a match leaves are live, without those that it fills.
  AllResting-matched :
      (size : ℕ) (b : Book M) (live : List Order) (o : Order)
      → IsValid M size b
      → AllResting (IsLive live) b
      → AllResting
          (IsLive (without (filled o.price (is_bid o) o.qty (get_container M b (opp_side o))) live))
          (matched_by M b o.side o.price o.qty)
  unfolding is_bid opp_side
  AllResting-matched size b live o v h =
      let gone = filled o.price (is_bid o) o.qty (get_container M b (opp_side o)) in
      let b' = matched_by M b o.side o.price o.qty in
      AllResting-each (IsLive live) (IsLive (without gone live)) b'
        (λ x here.
          IsLive-without gone live x
            (ground (arith, rests-matched_by M x.id b o.side o.price o.qty, v.indexed x.id)))
        (AllResting-matched_by (IsLive live) b o.side o.price o.qty (λ x n less l. l) h)

  -- An accepted order is live too.
  abbrev pub joined : Bool → Order → List Order → List Order
  joined added o live = if added then live ++ (o ∷ []) else live

  module _ {S : Type 0} (fill_fn : Option (ℕ → S → S)) (size : ℕ) where
    AllResting-add_remainder :
        (t : Trade M S) (o : Order) (live : List Order)
        → key t.aggressor ≡ key o
        → AllResting (IsLive live) t.book
        → let r = add_remainder M fill_fn size t in
          AllResting (IsLive (joined r.added o live)) r.book
    AllResting-add_remainder t o live same h =
        elim (Option-cases (M.find t.book.order_ids_to_side t.aggressor.id)) [
          | inr (side, e) ↦ rw (add_remainder_duplicate M fill_fn size t side e) h
          | inl e ↦ elim (ℕ_discrete (length (get_container M t.book t.aggressor.side)) size) [
            | yes full ↦ rw (add_remainder_full M fill_fn size t e full) h
            | no room ↦ rw (add_remainder_inserted M fill_fn size t e room) (
                AllResting-insert (IsLive (live ++ (o ∷ []))) t.book _ t.aggressor.side t.aggressor
                  (subst (λ k. IsIn k (map key (live ++ (o ∷ [])))) (sym same)
                    (IsLive-append_self live o))
                  (AllResting-each (IsLive live) (IsLive (live ++ (o ∷ []))) t.book
                    (λ x _. IsLive-append live o x) h))
          ]
        ]

    -- After `add`, every resting order is live or the new one, and not among those that were filled.
    pub AllResting-add :
        (b : Book M) (live : List Order) (o : Order) (s : S)
        → IsValid M size b
        → AllResting (IsLive live) b
        → let r = add M fill_fn size b o s in
          AllResting (IsLive (joined r.added o (without (fills M b o) live))) r.book
    unfolding fills matched
    AllResting-add b live o s v h =
        let rest = without (fills M b o) live in
        let t = try_match M fill_fn b o s in
        let books : t.book ≡ matched_by M b o.side o.price o.qty =
          book-try_match M fill_fn b o s v.indexed in
        add_cases M fill_fn size (λ r. AllResting (IsLive (joined r.added o rest)) r.book) b o s
          (λ bad. rw bad h) (λ ok _. rw (ok, books) (AllResting-matched size b live o v h))
          (λ ok _.
            AllResting-add_remainder t o rest (ap key (aggressor-try_match M fill_fn b o s))
              (rw (ok, books) (AllResting-matched size b live o v h)))
