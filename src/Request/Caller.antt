-- ===== src/Request/Caller.antt =====
-- The caller of a request, as `UserProvider.current` reads them.
use goldy_telegram_bot.UserValues.{MessengerPlatform, ExternalAccountId}
use goldy_telegram_bot.Request.{
  user_by_id, user_by_account, get_current_user_id, require_user, current_user, Work,
}
use goldy_telegram_bot.Prelude.{◌≡◌, refl, inl, inr, Option, none, some, arith, Option-cases}

-- Reading the caller changes nothing.
pub current_user_reads :
    (caller : Option ExternalAccountId) (w : Work) → (current_user caller w).1 ≡ w
unfolding current_user get_current_user_id require_user
current_user_reads none w = refl
current_user_reads (some external_id) w =
    elim (Option-cases (user_by_account MessengerPlatform.telegram external_id w.tables.users)) [
      | inl absent ↦ ground arith
      | inr (user, found) ↦ elim (Option-cases (user_by_id user.id w.tables.users)) [
        | inl gone ↦ ground arith
        | inr (row, there) ↦ ground arith
      ]
    ]
