-- ===== src/DepthBook/Blocks.antt =====
-- What a created depth book can be asked for.
use tradingmarketsimulator.Prelude.{
  ℕ, zero, suc, ◌<◌, ◌≤◌, ◌≡◌, refl, ap, ◌∙◌, true, none, some, replicate, get_elem?, ◌==◌, arith,
  ==_iff,
}
use tradingmarketsimulator.DepthBook.{
  OptionSide, at_side, Form, Allocation, Heap, DepthBook, construct, create, allocate, get_block,
  get_side,
}

get_elem?-replicate :
    {A : Type 0} (n i : ℕ) (a : A)
    → (i < n → get_elem? (replicate n a) i ≡ some a) × (n ≤ i → get_elem? (replicate n a) i ≡ none)
get_elem?-replicate zero i a = (λ h. absurd (omega arith), λ h. refl)
get_elem?-replicate (suc n) zero a = (λ h. refl, λ h. absurd (omega arith))
get_elem?-replicate (suc n) (suc i) a =
    let (inside, outside) = get_elem?-replicate n i a in
    (λ h. inside (omega arith), λ h. outside (omega arith))

module _ {A : Type 0} (initial : A) (n : ℕ) (h : Heap A) where
  same_address : (k : ℕ) → (k == k) ≡ true
  same_address k = (==_iff k k).1 refl

  created_block :
      (b : DepthBook) (i : ℕ)
      → let (_, b', h') = create initial n b h in
        get_block b' i h' ≡ get_elem? (replicate n (initial, initial)) i
  unfolding create get_block
  created_block b i = rw (same_address (suc h.last), get_block) refl

  at_initial : (side : OptionSide) → at_side side (initial, initial) ≡ initial
  at_initial OptionSide.ask = refl
  at_initial OptionSide.bid = refl

  inside :
      (b : DepthBook) (side : OptionSide) (i : ℕ)
      → let (_, b', h') = create initial n b h in i < n → get_side side b' i h' ≡ some initial
  unfolding get_side
  inside b side i k =
      rw (created_block b i ∙ (get_elem?-replicate n i (initial, initial)).0 k, get_side)
        (ap some (at_initial side))

  outside :
      (b : DepthBook) (side : OptionSide) (i : ℕ)
      → let (_, b', h') = create initial n b h in n ≤ i → get_side side b' i h' ≡ none
  unfolding get_side
  outside b side i k =
      rw (created_block b i ∙ (get_elem?-replicate n i (initial, initial)).1 k, get_side) refl

  ptr-create : (b : DepthBook) → (create initial n b h).1.ptr ≡ suc h.last
  unfolding create allocate
  ptr-create b = refl

  -- The array that `create` allocates, and what is allocated besides
  abbrev pub blocks_of : Allocation A
  blocks_of = record { form = Form.array; blocks = replicate n (initial, initial) }

module _ {A : Type 0} (initial : A) (n : ℕ) (h : Heap A) where
  -- A new book on which `create` is called so many times
  unfoldable pub created : ℕ → DepthBook × Heap A
  created zero = (construct, h)
  created (suc k) = let (b, h') = created k in let (_, b', h'') = create initial n b h' in (b', h'')
