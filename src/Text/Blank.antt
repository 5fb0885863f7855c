-- ===== src/Text/Blank.antt =====
-- When a text is blank, and the characters that a number is written with.
use goldy_telegram_bot.Prelude.{[], is_nil, ℕ, ◌+◌, ◌%◌, ◌≡◌, true, false, ◌∷◌, arith}
use goldy_telegram_bot.Text.{keep_before, Text, is_space, rstrip, lstrip, is_blank, is_decimal}

-- A text that begins with something else than white space is not blank.
pub is_blank-cons : (c : ℕ) (cs : Text) → is_space c ≡ false → is_blank (c ∷ cs) ≡ false
unfolding is_blank
is_blank-cons c cs h = kept (rstrip cs)
  where
    kept : (r : Text) → is_nil (lstrip (keep_before c r)) ≡ false
    kept [] = ground arith
    kept (d ∷ ds) = ground arith

pub is_space-digit : (n : ℕ) → is_space (b'0' + n % 10) ≡ false
unfolding is_space
is_space-digit n = ground arith

pub is_decimal-digit : (n : ℕ) → is_decimal (b'0' + n % 10) ≡ true
unfolding is_decimal
is_decimal-digit n = ground arith
