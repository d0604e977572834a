-- ===== src/Exchange/SideMap.antt =====
-- What the order book uses of `robin_hood::unordered_flat_map<std::uint32_t, Side>`, a library that
-- the build fetches: its operations, with what its documentation says of them.
use tradingmarketsimulator.Prelude.{
  ℕ, ◌≡◌, Bool, true, false, Option, none, some, ◌==◌, if◌then◌else◌,
}
use tradingmarketsimulator.Structs.{Side}

pub record SideMap : Type 1 where
  pub Map : Type 0
  pub empty : Map
  pub find : Map → ℕ → Option Side
  pub try_emplace : Map → ℕ → Side → Bool × Map
  pub erase : Map → ℕ → Map
  -- A new map holds no key.
  pub find-empty : (k : ℕ) → find empty k ≡ none
  -- `try_emplace` adds a key that is missing, and changes nothing at one that is there.
  pub try_emplace_missing :
      (m : Map) (k : ℕ) (s : Side) → find m k ≡ none → (try_emplace m k s).0 ≡ true
  pub find-try_emplace :
      (m : Map) (k : ℕ) (s : Side) (j : ℕ)
      → find m k ≡ none
      → find (try_emplace m k s).1 j ≡ (if j == k then some s else find m j)
  pub try_emplace_present :
      (m : Map) (k : ℕ) (s t : Side) → find m k ≡ some t → try_emplace m k s ≡ (false, m)
  -- `erase` takes out its key and no other.
  pub find-erase : (m : Map) (k j : ℕ) → find (erase m k) j ≡ (if j == k then none else find m j)
