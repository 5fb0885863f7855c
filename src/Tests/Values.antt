-- ===== src/Tests/Values.antt =====
-- Runs of the value objects.
use goldy_telegram_bot.PhoneNumber.Scripts.{arabic_indic, second_spelling}
use goldy_telegram_bot.PhoneNumber.Canonical.{three_spellings}
use goldy_telegram_bot.OrderNumber.Derived.{read_suffix, derive_tells_id}
use goldy_telegram_bot.Money.Arithmetic.{Settles, times-Settles}
use goldy_telegram_bot.Money.Sums.{add-Settles}
use goldy_telegram_bot.Money.{max_money_amount, cents, Currency, Money}
use goldy_telegram_bot.Text.{text, is_space, lstrip, is_blank, is_decimal}
use goldy_telegram_bot.Decimal.{shift, mul_nat, Decimal}
use goldy_telegram_bot.Result.{money_amount_out_of_range, ok, err}
use goldy_telegram_bot.OrderNumber.{matches_order_number, derive, OrderNumber}
use goldy_telegram_bot.PhoneNumber.{matches_e164, digits_of, from_raw, PhoneNumber}
use goldy_telegram_bot.Tests.{morning, evening, pieces, rubles, ninety, phone_number}
use goldy_telegram_bot.PhoneNumber
use goldy_telegram_bot.UserValues.{from_language_code, make_locale, language_of, subtag_of, lower}
use goldy_telegram_bot.Text.{same, strip, lstrip, rstrip, is_space}
use goldy_telegram_bot.Prelude.{some}
use goldy_telegram_bot.OrderNumber
use goldy_telegram_bot.Decimal
use goldy_telegram_bot.Money
use goldy_telegram_bot.Prelude.{◌%◌, ◌^◌, ◌≢◌, ◌∷◌, arith, ◌≡◌, refl}

price_is : Money.times (rubles 1250) (pieces 2) ≡ ok (rubles 2500)
unfolding Money.times Money.make Decimal.lt shift
price_is = refl

sum_is : Money.add (rubles 1250) ninety ≡ ok (rubles 10250)
unfolding Money.add Money.make Decimal.add Decimal.lt shift
sum_is = refl

-- A million pieces at the dearest price.
dearest_million :
    Money.times (record { amount = max_money_amount; currency = Currency.rub }) (pieces 1000000)
    ≡ err money_amount_out_of_range
unfolding Money.times Money.make Decimal.lt shift
dearest_million = refl

rubles-IsValid : Money.IsValid (rubles 1250)
unfolding shift
rubles-IsValid = (refl, omega arith, omega arith)

ninety-IsValid : Money.IsValid ninety
unfolding shift
ninety-IsValid = (refl, omega arith, omega arith)

times-Settles_example : Settles (Money.times (rubles 1250) (pieces 2)) 2500 Currency.rub
unfolding shift
times-Settles_example = times-Settles (rubles 1250) (pieces 2) rubles-IsValid

add-Settles_example : Settles (Money.add (rubles 1250) ninety) 10250 Currency.rub
unfolding shift
add-Settles_example = add-Settles (rubles 1250) ninety rubles-IsValid ninety-IsValid refl

trunk_prefix : from_raw (text " 8 (900) 123-45-67") ≡ ok phone_number
unfolding from_raw PhoneNumber.make matches_e164 digits_of lstrip is_space is_decimal
trunk_prefix = refl

three_spellings_example :
    (from_raw (text "89001234567") ≡ ok phone_number)
    × (from_raw (text "79001234567") ≡ ok phone_number)
    × (from_raw (text "+79001234567") ≡ ok phone_number)
unfolding is_decimal
three_spellings_example = three_spellings (text "9001234567") refl refl

second_spelling_example :
    (PhoneNumber.make (b'+' ∷ b'4' ∷ text "412345678")
      ≡ ok (record { value = b'+' ∷ b'4' ∷ text "412345678" }))
    × (PhoneNumber.make (b'+' ∷ b'4' ∷ arabic_indic (text "412345678"))
        ≡ ok (record { value = b'+' ∷ b'4' ∷ arabic_indic (text "412345678") }))
    × ((b'+' ∷ b'4' ∷ arabic_indic (text "412345678")) ≢ (b'+' ∷ b'4' ∷ text "412345678"))
second_spelling_example =
    second_spelling b'4' (text "412345678") (omega arith) (omega arith) (ground arith) (omega arith)
      (omega arith)

number_of_order : derive morning 1234567890123 ≡ ok (record { value = text "250609-RZP16B" })
unfolding derive OrderNumber.make matches_order_number is_blank is_space is_decimal
number_of_order = refl

-- The orders of two ids that agree in their low thirty bits.
derive_tells_id_example :
    (read_suffix 0 (text "RZP16B") ≡ 1234567890123 % 2 ^ 30)
    × (1234567890123 % 2 ^ 30 ≡ 838534347 % 2 ^ 30)
unfolding derive OrderNumber.make matches_order_number is_blank is_space is_decimal
derive_tells_id_example =
    derive_tells_id morning evening 1234567890123 838534347
      (record { value = text "250609-RZP16B" }) refl refl

british : from_language_code (some (text " EN-gb")) ≡ ok (record { value = text "en" })
unfolding from_language_code make_locale language_of subtag_of lower strip lstrip rstrip is_space
    same
british = refl
