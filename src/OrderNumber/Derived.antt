-- ===== src/OrderNumber/Derived.antt =====
-- The number that is derived for an order, and how it is read.
use goldy_telegram_bot.Result.{ok}
use goldy_telegram_bot.Text.Blank.{is_blank-cons, is_space-digit, is_decimal-digit}
use goldy_telegram_bot.OrderNumber.Symbols.{index_of, symbol_read, symbol_stands}
use goldy_telegram_bot.Time.{Datetime}
use goldy_telegram_bot.Text.{is_blank, Text}
use goldy_telegram_bot.Prelude.{
  sym, ◌∙◌, false, ◌+◌, ◌*◌, ◌<◌, [], drop, ℕ, ◌/◌, ◌%◌, ◌^◌, ◌≡◌, true, ◌∷◌, ◌++◌, arith,
}
use goldy_telegram_bot.OrderNumber.{
  make, crockford_alphabet, derive, OrderNumber, matches_order_number, suffix_of, day_of,
}

-- What `derive` hands to the constructor.
abbrev spelled : Datetime → ℕ → Text
spelled t id = day_of t ++ (b'-' ∷ suffix_of (id % 2 ^ 30))

spelled-matches : (t : Datetime) (id : ℕ) → matches_order_number (spelled t id) ≡ true
unfolding matches_order_number
spelled-matches t id =
    let bits = id % 2 ^ 30 in
    ground (
      arith,
      is_decimal-digit (t.year % 100 / 10),
      is_decimal-digit (t.year % 100),
      is_decimal-digit (t.month / 10),
      is_decimal-digit t.month,
      is_decimal-digit (t.day / 10),
      is_decimal-digit t.day,
      symbol_stands (bits / 2 ^ 25 % 32),
      symbol_stands (bits / 2 ^ 20 % 32),
      symbol_stands (bits / 2 ^ 15 % 32),
      symbol_stands (bits / 2 ^ 10 % 32),
      symbol_stands (bits / 2 ^ 5 % 32),
      symbol_stands (bits / 2 ^ 0 % 32),
    )

make_lem :
    (v : Text)
    → is_blank v ≡ false
    → matches_order_number v ≡ true
    → make v ≡ ok (record { value = v })
unfolding make
make_lem v h k = ground arith

-- The number is accepted whatever the moment and the id.
pub derive-ok : (t : Datetime) (id : ℕ) → derive t id ≡ ok (record { value = spelled t id })
unfolding derive
derive-ok t id =
    make_lem (spelled t id) (is_blank-cons _ _ (is_space-digit (t.year % 100 / 10)))
      (spelled-matches t id)

-- The number that the symbols spell in base 32.
pub read_suffix : ℕ → Text → ℕ
read_suffix acc [] = acc
read_suffix acc (c ∷ cs) = read_suffix (acc * 32 + index_of c crockford_alphabet) cs

base_32 :
    (b : ℕ)
    → b < 2 ^ 30
    → (((((0 * 32 + b / 2 ^ 25 % 32) * 32 + b / 2 ^ 20 % 32) * 32 + b / 2 ^ 15 % 32) * 32
                + b / 2 ^ 10 % 32)
              * 32
            + b / 2 ^ 5 % 32)
          * 32
        + b / 2 ^ 0 % 32
      ≡ b
base_32 b h = omega arith

read_suffix-suffix_of : (b : ℕ) → b < 2 ^ 30 → read_suffix 0 (suffix_of b) ≡ b
unfolding read_suffix
read_suffix-suffix_of b h =
    rw
      (
        symbol_read (b / 2 ^ 25 % 32) (omega arith),
        symbol_read (b / 2 ^ 20 % 32) (omega arith),
        symbol_read (b / 2 ^ 15 % 32) (omega arith),
        symbol_read (b / 2 ^ 10 % 32) (omega arith),
        symbol_read (b / 2 ^ 5 % 32) (omega arith),
        symbol_read (b / 2 ^ 0 % 32) (omega arith),
      )
      (base_32 b h)

-- The suffix of a derived number, read in base 32, is the low thirty bits of the order's id; two
-- orders with one number agree in them.
pub derive_tells_id :
    (t u : Datetime) (a b : ℕ) (n : OrderNumber)
    → derive t a ≡ ok n
    → derive u b ≡ ok n
    → (read_suffix 0 (drop 7 n.value) ≡ a % 2 ^ 30) × (a % 2 ^ 30 ≡ b % 2 ^ 30)
derive_tells_id t u a b n h k = let ha = told t a n h in (ha, sym ha ∙ told u b n k)
  where
    told :
        (t : Datetime) (id : ℕ) (n : OrderNumber)
        → derive t id ≡ ok n
        → read_suffix 0 (drop 7 n.value) ≡ id % 2 ^ 30
    told t id n h =
        let e : ◌≡◌ {A = OrderNumber} (record { value = spelled t id }) n =
          cc (derive-ok t id, h) in
        rw (← e) (read_suffix-suffix_of (id % 2 ^ 30) (omega arith))
