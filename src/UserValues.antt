-- ===== src/UserValues.antt =====
-- domain/users/values: names, handles, identifiers, languages, settings and enumerations.
pub mod Languages
use goldy_telegram_bot.Prelude.{
  ℕ, ◌+◌, Bool, true, false, ◌&&◌, ◌||◌, not, Option, none, some, [], ◌∷◌, ◌++◌, ltb, leb, ◌==◌,
  if◌then◌else◌, length, all, take, drop,
}
use goldy_telegram_bot.Result.{
  Result, ok, empty_first_name, too_long_name_part, empty_external_account_id,
  too_long_external_account_id, empty_messenger_username, too_long_messenger_username,
  unsupported_locale, empty_block_reason, too_long_block_reason, raise_if, ◌>>◌,
}
use goldy_telegram_bot.Text.{Text, text, same, is_blank, strip}

pub data UserRole : Type 0 where
  customer manager admin : UserRole

pub data UserStatus : Type 0 where
  active blocked : UserStatus

pub data MessengerPlatform : Type 0 where
  telegram max : MessengerPlatform

abbrev pub max_block_reason_length : ℕ
max_block_reason_length = 500

pub record BlockReason : Type 0 where
  pub value : Text

unfoldable pub make_block_reason : Text → Result BlockReason
make_block_reason value = do
  raise_if (is_blank value) empty_block_reason
  raise_if (ltb max_block_reason_length (length value)) too_long_block_reason
  ok (record { value = value })

abbrev pub max_external_account_id_length : ℕ
max_external_account_id_length = 64

pub record ExternalAccountId : Type 0 where
  pub value : Text

unfoldable pub make_external_account_id : Text → Result ExternalAccountId
make_external_account_id value = do
  raise_if (is_blank value) empty_external_account_id
  raise_if (ltb max_external_account_id_length (length value)) too_long_external_account_id
  ok (record { value = value })

abbrev pub max_messenger_username_length : ℕ
max_messenger_username_length = 64

pub record MessengerUsername : Type 0 where
  pub value : Text

unfoldable pub make_messenger_username : Text → Result MessengerUsername
make_messenger_username value = do
  raise_if (is_blank value) empty_messenger_username
  raise_if (ltb max_messenger_username_length (length value)) too_long_messenger_username
  ok (record { value = value })

abbrev pub max_name_part_length : ℕ
max_name_part_length = 100

pub record FullName : Type 0 where
  pub first_name : Text
  pub last_name : Option Text

-- Whether one of the two parts, if it is there, is too long.
abbrev pub part_too_long : Option Text → Bool
part_too_long none = false
part_too_long (some part) = ltb max_name_part_length (length part)

unfoldable pub make_full_name : Text → Option Text → Result FullName
make_full_name first_name last_name = do
  raise_if (is_blank first_name) empty_first_name
  raise_if (part_too_long (some first_name)) too_long_name_part
  raise_if (part_too_long last_name) too_long_name_part
  ok (record { first_name = first_name; last_name = last_name })

-- `str(full_name)`
unfoldable pub show_full_name : FullName → Text
show_full_name n = elim (n.last_name) [
  | none ↦ n.first_name
  | some last_name ↦ n.first_name ++ (b' ' ∷ last_name)
]

abbrev same_optional : Option Text → Option Text → Bool
same_optional none none = true
same_optional (some a) (some b) = same a b
same_optional none (some b) = false
same_optional (some a) none = false

-- `a == b` of two frozen dataclasses
unfoldable pub same_full_name : FullName → FullName → Bool
same_full_name a b = same a.first_name b.first_name && same_optional a.last_name b.last_name

pub record Locale : Type 0 where
  pub value : Text

abbrev pub default_locale : Text
default_locale = text "ru"

abbrev pub is_supported : Text → Bool
is_supported value = same value (text "ru") || same value (text "en")

unfoldable pub make_locale : Text → Result Locale
unfolding same
make_locale value = do
  raise_if (not (is_supported value)) unsupported_locale
  ok (record { value = value })

-- `str.lower`, as far as a pattern of ASCII letters sees: the Kelvin sign becomes `k` and the
-- dotted capital I becomes `i` and a combining dot. No other letter outside ASCII has an image in
-- ASCII, so it is left as it stands.
unfoldable pub lower : Text → Text
lower [] = []
lower (c ∷ cs) =
    let rest = lower cs in
    if leb b'A' c && leb c b'Z'
    then (c + 32) ∷ rest
    else if c == 0x212a
    then b'k' ∷ rest
    else if c == 0x130
    then b'i' ∷ 0x307 ∷ rest
    else c ∷ rest

abbrev is_letter : ℕ → Bool
is_letter c = leb b'a' c && leb c b'z'

-- `(?:[-_].*)?$`; the text was stripped, so a line feed can only stand before its end.
abbrev ends_subtag : Text → Bool
ends_subtag [] = true
ends_subtag (c ∷ cs) = (c == b'-' || c == b'_') && all (λ d. not (d == 10)) cs

-- A group of `n` letters, if the pattern matches with it.
unfoldable pub subtag_of : ℕ → Text → Option Text
subtag_of n s =
    if leb n (length s) && all is_letter (take n s) && ends_subtag (drop n s)
    then some (take n s)
    else none

-- `^([a-z]{2,3})(?:[-_].*)?$`: three letters are tried before two.
unfoldable pub language_of : Text → Option Text
unfolding subtag_of
language_of s = elim (subtag_of 3 s) [ some l ↦ some l | none ↦ subtag_of 2 s ]

abbrev pub supported_or_default : Option Text → Text
supported_or_default none = default_locale
supported_or_default (some language) = if is_supported language then language else default_locale

unfoldable pub from_language_code : Option Text → Result Locale
unfolding make_locale language_of lower strip
from_language_code none = make_locale default_locale
from_language_code (some raw) = make_locale (supported_or_default (language_of (lower (strip raw))))

pub record UserPreferences : Type 0 where
  pub notify_via : MessengerPlatform
  pub locale : Locale
  pub marketing_consent : Bool

abbrev pub with_notify_via : UserPreferences → MessengerPlatform → UserPreferences
with_notify_via p platform = record p { notify_via = platform }

abbrev pub with_locale : UserPreferences → Locale → UserPreferences
with_locale p locale = record p { locale = locale }

abbrev pub with_marketing_consent : UserPreferences → Bool → UserPreferences
with_marketing_consent p consent = record p { marketing_consent = consent }

abbrev pub same_platform : MessengerPlatform → MessengerPlatform → Bool
same_platform telegram telegram = true
same_platform max max = true
same_platform a b = false

abbrev same_flag : Bool → Bool → Bool
same_flag true b = b
same_flag false b = not b

-- `a == b` of two frozen dataclasses
unfoldable pub same_preferences : UserPreferences → UserPreferences → Bool
same_preferences a b =
    same_platform a.notify_via b.notify_via
    && same a.locale.value b.locale.value
    && same_flag a.marketing_consent b.marketing_consent
