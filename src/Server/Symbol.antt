-- ===== src/Server/Symbol.antt =====
-- The symbol of a tick, as a C string.
use tradingmarketsimulator.Prelude.{
  ℕ, zero, suc, ◌≡◌, refl, ap, ◌∙◌, List, [], ◌∷◌, ◌++◌, length, length-append, take, ◌==◌,
  if◌then◌else◌, if-cases, if_false, Bool-cases, inl, inr, arith,
}
use tradingmarketsimulator.Client.{Doubles}
use tradingmarketsimulator.Server.{Network, Server, strncpy, symbol_size, generate_market_data}

-- A text as C reads it: up to the first zero.
abbrev pub c_string : List ℕ → List ℕ
c_string [] = []
c_string (c ∷ text) = let rest = c_string text in if c == 0 then [] else c ∷ rest

length-strncpy : (n : ℕ) (text : List ℕ) → length (strncpy n text) ≡ n
unfolding strncpy
length-strncpy zero text = refl
length-strncpy (suc n) [] = omega (arith, length-strncpy n [])
length-strncpy (suc n) (c ∷ text) =
    if-cases (λ (r : List ℕ). length r ≡ suc n) (c == 0) (ap suc (length-strncpy n []))
      (ap suc (length-strncpy n text))

pub c_string-strncpy :
    (n : ℕ) (text : List ℕ) → c_string (strncpy n text ++ (0 ∷ [])) ≡ take n (c_string text)
unfolding strncpy
c_string-strncpy zero text = refl
c_string-strncpy (suc n) [] = refl
c_string-strncpy (suc n) (c ∷ text) = elim (Bool-cases (c == 0)) [
  | inl e ↦ rw e refl
  | inr e ↦ rw e (if_false (c == 0) _ _ e ∙ ap (λ r. c ∷ r) (c_string-strncpy n text))
]

module _ (D : Doubles) (N : Network D) where
  -- The symbol of a tick fills its bytes, is ended by a zero, and reads as the first seven characters
  -- of the text that was given, whatever that text is.
  pub symbol_truncates :
      (symbol : List ℕ) (s : Server D N)
      → let md = (generate_market_data D N symbol s).0 in
        (length md.symbol ≡ symbol_size) × (c_string md.symbol ≡ take 7 (c_string symbol))
  unfolding generate_market_data
  symbol_truncates symbol s = (
    omega (arith, length-append (strncpy 7 symbol) (0 ∷ []), length-strncpy 7 symbol),
    c_string-strncpy 7 symbol,
  )
