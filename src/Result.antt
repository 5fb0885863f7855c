-- ===== src/Result.antt =====
-- The errors of the domain (domain/*/errors.py, domain/common/error.py), those of
-- application/error.py and infrastructure/errors.py that the handlers raise, and the results of
-- code that may raise one. All of them are `AppError`s. The messages are left out.
use goldy_telegram_bot.Prelude.{◌≡◌, refl, ◌⊎◌, inl, inr, Bool, true, false}

pub data Error : Type 0 where
  domain_error inconsistent_time : Error
  negative_money_amount too_precise_money_amount money_amount_out_of_range : Error
  non_positive_quantity quantity_limit_exceeded currency_mismatch : Error
  empty_source_id too_long_source_id : Error
  empty_sku too_long_sku malformed_sku : Error
  empty_product_name too_long_product_name malformed_product_name : Error
  empty_unit_of_measure too_long_unit_of_measure : Error
  cart_line_not_found cart_line_limit_exceeded empty_cart : Error
  empty_order_number invalid_order_number_format : Error
  empty_delivery_address too_short_delivery_address too_long_delivery_address : Error
  foreign_delivery_address incomplete_delivery_address : Error
  empty_order_comment too_long_order_comment : Error
  empty_cancellation_reason too_long_cancellation_reason : Error
  order_status_transition empty_order order_not_editable : Error
  customer_cannot_cancel_processed_order cancellation_reason_required unpriced_cart_line : Error
  empty_phone_number invalid_phone_number_format : Error
  empty_first_name too_long_name_part : Error
  empty_external_account_id too_long_external_account_id : Error
  empty_messenger_username too_long_messenger_username : Error
  unsupported_locale empty_block_reason too_long_block_reason : Error
  platform_already_linked messenger_account_not_linked last_messenger_account : Error
  notification_target_not_linked user_already_blocked user_not_blocked user_is_blocked : Error
  authorization : Error
  cart_repriced product_not_priced price_type_not_configured unsupported_price_type : Error
  authentication user_not_found user_already_exists cart_not_found cart_already_exists : Error
  product_not_found order_not_found : Error
  notification_undeliverable notification_channel_unavailable : Error
  notification_send notification_render repo : Error

pub data Result {ℓ} (A : Type ℓ) : Type ℓ where
  ok : A → Result A
  err : Error → Result A

abbrev pub is_ok {ℓ} : {A : Type ℓ} → Result A → Bool
is_ok (err e) = false
is_ok (ok value) = true

-- `if refused: raise e`
abbrev pub raise_if : Bool → Error → Result (Unit {0})
raise_if true e = err e
raise_if false e = ok tt

infixl 5 ◌>>=◌ ◌>>◌
abbrev pub ◌>>=◌ {ℓ κ} : {A : Type ℓ} {B : Type κ} → Result A → (A → Result B) → Result B
err e >>= follow = err e
ok value >>= follow = follow value

abbrev pub ◌>>◌ {ℓ} : {B : Type ℓ} → Result (Unit {0}) → Result B → Result B
first >> second = first >>= λ done. second

pub Result-cases {ℓ} :
    {A : Type ℓ} (r : Result A) → ((a : A) × (r ≡ ok a)) ⊎ ((e : Error) × (r ≡ err e))
Result-cases (ok a) = inl (a, refl)
Result-cases (err e) = inr (e, refl)
