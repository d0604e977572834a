-- ===== src/DepthBook.antt =====
-- include/mms/structs/OptionDepthBook.hh: blocks of two contracts each, ask and bid, in an array that
-- `create` allocates. The heap is a store of arrays by address, so that copies of the pointer, leaks
-- and the `delete` of the destructor can be told.
pub mod Blocks
pub mod Tests
use tradingmarketsimulator.Prelude.{
  ℕ, zero, suc, ◌+◌, Bool, true, false, Option, none, some, List, [], ◌∷◌, replicate, get_elem?,
  ◌==◌, if◌then◌else◌,
}

-- `OptionSide`, whose values are the indices of a block
pub data OptionSide : Type 0 where
  ask bid : OptionSide

-- `BlockT`
abbrev pub Block : Type 0 → Type 0
Block A = A × A

-- `operator[]` of a block
abbrev pub at_side : {A : Type 0} → OptionSide → Block A → A
at_side OptionSide.ask (a, b) = a
at_side OptionSide.bid (a, b) = b

-- How an object came to be: by `new`, or by `new[]`, which `delete` and `delete[]` must match
pub data Form : Type 0 where
  single array : Form

-- The blocks that are allocated at an address, and how
pub record Allocation (A : Type 0) : Type 0 where
  pub form : Form
  pub blocks : List (Block A)

-- What is allocated and nobody has freed, and the last address given out. Address zero is the null
-- pointer.
pub record Heap (A : Type 0) : Type 0 where
  pub last : ℕ
  pub at : ℕ → Option (Allocation A)

-- `m_ptr`
pub record DepthBook : Type 0 where
  pub ptr : ℕ

-- `OptionDepthBook() = default`
abbrev pub construct : DepthBook
construct = record { ptr = 0 }

module _ {A : Type 0} where
  -- `new BlockT[n]{}`: all contracts are `initial`.
  unfoldable pub allocate : A → ℕ → Heap A → ℕ × Heap A
  allocate initial n h =
      let p = suc h.last in
      let made : Allocation A = record {
        form = Form.array;
        blocks = replicate n (initial, initial);
      } in
      (p, record { last = p; at = λ q. if q == p then some made else h.at q })

  -- `delete p`: nothing at the null pointer, and the end of what `new` gave out; `none` is what the language
  -- leaves undefined, for an array and for what is not allocated.
  unfoldable pub delete : ℕ → Heap A → Option (Heap A)
  delete p h = if p == 0 then some h else elim (h.at p) [
    | none ↦ none
    | some a ↦ elim a.form [
      | Form.single ↦ some (record h { at = λ q. if q == p then none else h.at q })
      | Form.array ↦ none
    ]
  ]

  -- The destructor
  unfoldable pub destruct : DepthBook → Heap A → Option (Heap A)
  unfolding delete
  destruct b h = delete b.ptr h

  -- `create`; a failed allocation ends the program, since the function is `noexcept`.
  unfoldable pub create : A → ℕ → DepthBook → Heap A → Bool × DepthBook × Heap A
  unfolding allocate
  create initial n b h =
      let (p, h') = allocate initial n h in
      (if p == 0 then false else true, record b { ptr = p }, h')

  -- `get_block`, a copy of the block; `none` is a read outside an array.
  unfoldable pub get_block : DepthBook → ℕ → Heap A → Option (Block A)
  get_block b idx h = elim (h.at b.ptr) [ none ↦ none | some a ↦ get_elem? a.blocks idx ]

  -- `get_side`
  unfoldable pub get_side : OptionSide → DepthBook → ℕ → Heap A → Option A
  unfolding get_block
  get_side side b idx h = elim (get_block b idx h) [
    | none ↦ none
    | some block ↦ some (at_side side block)
  ]
