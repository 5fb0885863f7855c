-- ===== src/OrderNumber/Symbols.antt =====
-- The alphabet of the suffix: what stands in it, and how it is read back.
use goldy_telegram_bot.Prelude.{
  ℕ, zero, suc, ◌<◌, ◌≡◌, refl, Bool, true, ◌&&◌, List, [], ◌∷◌, arith, ◌==◌, if◌then◌else◌, ==_iff,
  get_or,
}
use goldy_telegram_bot.Text.{contains}
use goldy_telegram_bot.OrderNumber.{crockford_alphabet}

-- Whether every number below the bound passes the test.
pass_below : (ℕ → Bool) → ℕ → Bool
pass_below test zero = true
pass_below test (suc bound) = pass_below test bound && test bound

pass_below-passes :
    (test : ℕ → Bool) (bound i : ℕ) → i < bound → pass_below test bound ≡ true → test i ≡ true
unfolding pass_below
pass_below-passes test zero i below passed = absurd (omega arith)
pass_below-passes test (suc bound) i below passed = ground (arith, pass_below-passes test bound i)

-- The place of a symbol in the alphabet.
abbrev pub index_of : ℕ → List ℕ → ℕ
index_of c [] = 0
index_of c (d ∷ ds) = if c == d then 0 else suc (index_of c ds)

symbols_stand :
    pass_below (λ i. contains (get_or crockford_alphabet i 0) crockford_alphabet) 32 ≡ true
unfolding pass_below
symbols_stand = refl

symbols_read :
    pass_below (λ i. index_of (get_or crockford_alphabet i 0) crockford_alphabet == i) 32 ≡ true
unfolding pass_below
symbols_read = refl

pub symbol_stands :
    (i : ℕ) → i < 32 → contains (get_or crockford_alphabet i 0) crockford_alphabet ≡ true
symbol_stands i h = pass_below-passes _ 32 i h symbols_stand

pub symbol_read : (i : ℕ) → i < 32 → index_of (get_or crockford_alphabet i 0) crockford_alphabet ≡ i
symbol_read i h = (==_iff _ i).0 (pass_below-passes _ 32 i h symbols_read)
