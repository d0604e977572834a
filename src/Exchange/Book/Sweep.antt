-- ===== src/Exchange/Book/Sweep.antt =====
-- The removal of the filled orders after the loop of `try_match`: `ids_to_remove` and `remove`.
use tradingmarketsimulator.Prelude.{
  ℕ, ◌-◌, ◌≤◌, ◌<◌, ◌≡◌, refl, Bool, true, Option, none, some, List, [], ◌∷◌, arith, ltb,
  if◌then◌else◌, ◌∙◌,
}
use tradingmarketsimulator.Market.Price.{Price}
use tradingmarketsimulator.Structs.{Side, bid, ask, Order, is_bid}
use tradingmarketsimulator.Exchange.SideMap.{SideMap}
use tradingmarketsimulator.Exchange.Book.{
  Book, match_loop, erase_id, get_container, set_container, remove, remove_all, notify,
}
use tradingmarketsimulator.Exchange.Book.Match.{count, occurs, residual, filled, count-residual}

abbrev pub IsDistinct : List Order → Type 0
IsDistinct os = (k : ℕ) → count k os ≤ 1

abbrev pub erase_all : List ℕ → List Order → List Order
erase_all [] os = os
erase_all (i ∷ is) os = erase_all is (erase_id i os)

erase_all-cons :
    (is : List ℕ) (o : Order) (os : List Order)
    → occurs o.id is ≡ 0
    → erase_all is (o ∷ os) ≡ o ∷ erase_all is os
unfolding erase_id
erase_all-cons [] o os h = refl
erase_all-cons (i ∷ is) o os h = ground (arith, erase_all-cons is o (erase_id i os))

erase_id-head : (o : Order) (k : ℕ) (os : List Order) → o.id ≡ k → erase_id k (o ∷ os) ≡ os
unfolding erase_id
erase_id-head o k os e = ground arith

not_filled_twice :
    (o : Order) (os : List Order) (price : Price) (bids : Bool) (n : ℕ)
    → IsDistinct (o ∷ os)
    → occurs o.id (filled price bids n os) ≡ 0
not_filled_twice o os price bids n h = ground (arith, h o.id, count-residual o.id price bids n os)

tail-IsDistinct : (o : Order) (os : List Order) → IsDistinct (o ∷ os) → IsDistinct os
tail-IsDistinct o os h k = omega (arith, h k)

-- Collecting the filled orders and erasing them afterwards leaves what the single pass leaves.
pub erase_all-match_loop :
    (a : Order) (os : List Order)
    → IsDistinct os
    → erase_all (filled a.price (is_bid a) a.qty os) (match_loop a os).container
      ≡ residual a.price (is_bid a) a.qty os
unfolding match_loop is_bid
erase_all-match_loop a [] h = refl
erase_all-match_loop a (o ∷ os) h =
    let later = match_loop (record a { qty = a.qty - o.qty }) os in
    ground (
      arith,
      erase_all-match_loop a os (tail-IsDistinct o os h),
      erase_all-match_loop (record a { qty = a.qty - o.qty }) os (tail-IsDistinct o os h),
      erase_id-head o o.id later.container,
      erase_id-head (record o { qty = 0 }) o.id os,
      erase_all-cons (filled a.price (is_bid a) a.qty os) o (match_loop a os).container,
      not_filled_twice o os a.price (is_bid a) a.qty h,
    )

abbrev pub erase_keys : (M : SideMap) → List ℕ → M.Map → M.Map
erase_keys M [] m = m
erase_keys M (i ∷ is) m = erase_keys M is (M.erase m i)

pub find-erase_keys :
    (M : SideMap) (k : ℕ) (is : List ℕ) (m : M.Map)
    → M.find (erase_keys M is m) k ≡ (if ltb 0 (occurs k is) then none else M.find m k)
find-erase_keys M k [] m = refl
find-erase_keys M k (i ∷ is) m =
    ground (arith, find-erase_keys M k is (M.erase m i), M.find-erase m i k)

module _ (M : SideMap) where
  -- The book without the orders of one side that have these identifiers.
  abbrev pub sweep : Side → List ℕ → Book M → Book M
  sweep side is b = record (set_container M b side (erase_all is (get_container M b side))) {
    order_ids_to_side = erase_keys M is b.order_ids_to_side;
  }

  pub remove_found :
      (b : Book M) (id : ℕ) (side : Side)
      → M.find b.order_ids_to_side id ≡ some side
      → remove M b id ≡ (true, sweep side (id ∷ []) b)
  unfolding remove
  remove_found b id side e = rw (e, remove)

  pub get_container-sweep :
      (side : Side) (is : List ℕ) (b : Book M)
      → get_container M (sweep side is b) side ≡ erase_all is (get_container M b side)
  unfolding get_container set_container
  get_container-sweep bid is b = refl
  get_container-sweep ask is b = refl

  sweep_twice :
      (side : Side) (i : ℕ) (is : List ℕ) (b : Book M)
      → sweep side is (sweep side (i ∷ []) b) ≡ sweep side (i ∷ is) b
  unfolding get_container set_container
  sweep_twice bid i is b = refl
  sweep_twice ask i is b = refl

  pub ids-set_container :
      (side : Side) (os : List Order) (b : Book M)
      → (set_container M b side os).order_ids_to_side ≡ b.order_ids_to_side
  unfolding set_container
  ids-set_container bid os b = refl
  ids-set_container ask os b = refl

  module _ {S : Type 0} (fill_fn : Option (ℕ → S → S)) where
    abbrev pub notify_all : List ℕ → S → S
    notify_all [] s = s
    notify_all (i ∷ is) s = notify_all is (notify M fill_fn i s)

    -- `m_fill_fn` is called once for each filled order, in the order in which they were filled.
    pub remove_all-client :
        (is : List ℕ) (b : Book M) (s : S) → (remove_all M fill_fn is b s).1 ≡ notify_all is s
    unfolding remove_all
    remove_all-client [] b s = refl
    remove_all-client (i ∷ is) b s = remove_all-client is (remove M b i).1 (notify M fill_fn i s)

    pub remove_all-book :
        (is : List ℕ) (b : Book M) (s : S) (side : Side)
        → ((k : ℕ) → 0 < occurs k is → M.find b.order_ids_to_side k ≡ some side)
        → ((k : ℕ) → occurs k is ≤ 1)
        → (remove_all M fill_fn is b s).0 ≡ sweep side is b
    unfolding remove_all
    remove_all-book [] b s bid there once = unfold set_container get_container in refl
    remove_all-book [] b s ask there once = unfold set_container get_container in refl
    remove_all-book (i ∷ is) b s side there once =
        let found = remove_found b i side (there i (ground arith)) in
        rw (found, remove_all)
          (remove_all-book is (sweep side (i ∷ []) b) (notify M fill_fn i s) side
              (λ k h. ground (arith, there k, once k, M.find-erase b.order_ids_to_side i k))
              (λ k. omega (arith, once k))
            ∙ sweep_twice side i is b)
