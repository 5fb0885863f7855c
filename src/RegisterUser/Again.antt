-- ===== src/RegisterUser/Again.antt =====
-- Two registrations of one account, as when `/start` is pressed twice.
use goldy_telegram_bot.Request.Tables.{Distinct}
use goldy_telegram_bot.RegisterUser.Known.{view_id, register_known, register_found}
use goldy_telegram_bot.Outbox.Counts.{count}
use goldy_telegram_bot.RegisterUser.{optional_username, register_user, RegisterUser, Readings}
use goldy_telegram_bot.UserValues.{make_external_account_id, ExternalAccountId, MessengerUsername}
use goldy_telegram_bot.Result.{ok}
use goldy_telegram_bot.User.{User}
use goldy_telegram_bot.UserCommands.{UserView}
use goldy_telegram_bot.Request.{user_id, user_by_account, Work}
use goldy_telegram_bot.PhoneNumber.{PhoneNumber}
use goldy_telegram_bot.Prelude.{◌≡◌, sym, ap, ◌∙◌, Option, List, length}

-- After a successful registration, any later one of the same account, with a handle that is none
-- or a valid one and whatever number and name it gives, is answered by the same person and adds
-- nobody, if the ids of the people differ before and between the two.
pub register_again :
    (registry : List PhoneNumber) (others : List User → List User) (t t' : Readings)
    (c c' : RegisterUser) (external_id : ExternalAccountId)
    (username username' : Option MessengerUsername) (view : UserView) (w : Work)
    → make_external_account_id c.external_id ≡ ok external_id
    → optional_username c.username ≡ ok username
    → Distinct user_id w.tables.users
    → (register_user registry others t c w).0 ≡ ok view
    → Distinct user_id (register_user registry others t c w).1.tables.users
    → c'.platform ≡ c.platform
    → c'.external_id ≡ c.external_id
    → optional_username c'.username ≡ ok username'
    → let w' : Work = (register_user registry others t c w).1 in
      (view' : UserView) × ((register_user registry others t' c' w').0 ≡ ok view')
      × (view'.id ≡ view.id)
      × (length (register_user registry others t' c' w').1.tables.users ≡ length w'.tables.users)
register_again registry others t t' c c' external_id username username' view w he hu d h d' ep ee
      hu' =
    let w' : Work = (register_user registry others t c w).1 in
    let (user, found, shown) =
      register_found registry others t c external_id username w view he hu d h in
    let (view', answered, one, belongs, count) =
      register_known registry others t' c' external_id username' w' user
        (ap make_external_account_id ee ∙ he) hu' d'
        (ap (λ p. user_by_account p external_id w'.tables.users) ep ∙ found) in
    (view', answered, one ∙ sym (ap (λ v. v.id) shown ∙ view_id user), count)
