-- ===== src/Time.antt =====
-- Python's `datetime` in UTC. The clock is not modelled: an operation takes each reading that it
-- makes as an argument.
use goldy_telegram_bot.Prelude.{ℕ, ◌+◌, ◌*◌, Bool, ltb}

pub record Datetime : Type 0 where
  pub year : ℕ
  pub month : ℕ
  pub day : ℕ
  pub microsecond_of_day : ℕ

-- The place of a moment in the order of moments.
abbrev pub instant : Datetime → ℕ
instant t = ((t.year * 13 + t.month) * 32 + t.day) * 86400000000 + t.microsecond_of_day

-- `a < b`
abbrev pub before : Datetime → Datetime → Bool
before a b = ltb (instant a) (instant b)
