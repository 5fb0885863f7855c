-- ===== src/PhoneNumber.antt =====
-- domain/users/values/phone_number.py: a subscriber's number, the identity of a person.
pub mod Canonical
pub mod Scripts
use goldy_telegram_bot.Prelude.{
  ℕ, Bool, false, ◌&&◌, not, [], ◌∷◌, leb, ◌==◌, if◌then◌else◌, length, all, is_nil, drop,
}
use goldy_telegram_bot.Result.{
  ◌>>=◌, Result, ok, err, empty_phone_number, invalid_phone_number_format, raise_if, ◌>>◌,
}
use goldy_telegram_bot.Text.{Text, is_decimal, lstrip}

pub record PhoneNumber : Type 0 where
  pub value : Text

-- `^\+[1-9]\d{7,14}$` as a full match, where `\d` is a decimal digit of any script
unfoldable pub matches_e164 : Text → Bool
matches_e164 [] = false
matches_e164 (p ∷ []) = false
matches_e164 (p ∷ d ∷ ds) =
    p == b'+'
    && (leb b'1' d && leb d b'9')
    && all is_decimal ds
    && leb 7 (length ds)
    && leb (length ds) 14

-- `PhoneNumber(value=value)`, with the validation that construction runs.
unfoldable pub make : Text → Result PhoneNumber
unfolding matches_e164
make value = do
  raise_if (is_nil value) empty_phone_number
  raise_if (not (matches_e164 value)) invalid_phone_number_format
  ok (record { value = value })

-- `re.sub(r"\D", "", raw)`
unfoldable pub digits_of : Text → Text
digits_of [] = []
digits_of (c ∷ cs) = let rest = digits_of cs in if is_decimal c then c ∷ rest else rest

abbrev pub starts_with : ℕ → Text → Bool
starts_with c [] = false
starts_with c (d ∷ ds) = d == c

abbrev pub russian_national_length : ℕ
russian_national_length = 11

-- Whether the digits are a Russian number with the trunk prefix 8.
abbrev pub is_national : Bool → Text → Bool
is_national explicit_country_code digits =
    not explicit_country_code
    && (length digits == russian_national_length)
    && starts_with b'8' digits

unfoldable pub from_raw : Text → Result PhoneNumber
from_raw raw =
    let digits = digits_of raw in
    if is_nil digits
    then err empty_phone_number
    else if is_national (starts_with b'+' (lstrip raw)) digits
    then make (b'+' ∷ b'7' ∷ drop 1 digits)
    else make (b'+' ∷ digits)
