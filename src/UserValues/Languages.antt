-- ===== src/UserValues/Languages.antt =====
-- The language that a messenger's language code stands for.
use goldy_telegram_bot.Prelude.{◌≡◌, refl, true, Option, none, some, arith, Bool-cases}
use goldy_telegram_bot.Result.{ok}
use goldy_telegram_bot.Text.{Text, same, strip}
use goldy_telegram_bot.UserValues.{
  Locale, make_locale, from_language_code, supported_or_default, is_supported, language_of, lower,
}

make_locale-ok :
    (value : Text) → is_supported value ≡ true → make_locale value ≡ ok (record { value = value })
unfolding make_locale
make_locale-ok value h = rw h refl

supported_or_default-is_supported :
    (language : Option Text) → is_supported (supported_or_default language) ≡ true
unfolding same
supported_or_default-is_supported none = refl
supported_or_default-is_supported (some language) =
    ground (arith, Bool-cases (is_supported language))

-- Whatever a messenger says of a person's language, and if it says nothing, a locale comes out, and
-- it is one of the supported ones.
pub from_language_code-is_supported :
    (raw : Option Text)
    → (locale : Locale) × (from_language_code raw ≡ ok locale) × (is_supported locale.value ≡ true)
unfolding from_language_code
from_language_code-is_supported none =
    let h = supported_or_default-is_supported none in
    (record { value = supported_or_default none }, make_locale-ok _ h, h)
from_language_code-is_supported (some raw) =
    let h = supported_or_default-is_supported (language_of (lower (strip raw))) in
    (
      record { value = supported_or_default (language_of (lower (strip raw))) },
      make_locale-ok _ h,
      h,
    )
