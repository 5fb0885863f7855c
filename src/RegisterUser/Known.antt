-- ===== src/RegisterUser/Known.antt =====
-- Whom register_user finds or makes.
use goldy_telegram_bot.PhoneNumber
use goldy_telegram_bot.Outbox.Counts.{count}
use goldy_telegram_bot.User.AccountList.{same_platform_refl}
use goldy_telegram_bot.Time.{before, Datetime}
use goldy_telegram_bot.User.{MessengerAccount}
use goldy_telegram_bot.Text.{same_refl, same}
use goldy_telegram_bot.User
use goldy_telegram_bot.Request.Tables.{
  find_by-append, find_by-key, find_by-save_new, find_by-holds, Distinct, find_by-save_same,
  length-save,
}
use goldy_telegram_bot.RegisterUser.Accounts.{link_account-holds, holds, refresh_username-holds}
use goldy_telegram_bot.Exec.{Exec}
use goldy_telegram_bot.RegisterUser.{
  register_contact, is_admin, create, is_taken, add_user, account_of, optional_username,
  register_user, RegisterUser, Readings,
}
use goldy_telegram_bot.UserValues.{
  make_full_name, from_language_code, UserRole, UserStatus, FullName, Locale,
  make_external_account_id, MessengerPlatform, ExternalAccountId, MessengerUsername,
}
use goldy_telegram_bot.Result.{Result-cases, ok}
use goldy_telegram_bot.User.{Registration, User}
use goldy_telegram_bot.Request.{find_by, user_by_phone_number, save, user_id, user_by_account, Work}
use goldy_telegram_bot.PhoneNumber.{PhoneNumber}
use goldy_telegram_bot.Event.{Event, user_registered, user_role_changed, Session}
use goldy_telegram_bot.Prelude.{
  sym, subst, inl, inr, false, [], ◌∷◌, ◌++◌, Bool-cases, Option-cases, none, ◌==◌, ◌≡◌, refl, ap,
  ◌∙◌, true, Option, some, List, arith, length,
}
use goldy_telegram_bot.UserCommands.{change, UserView, to_view}

-- The view shows the one person who has the account.
abbrev pub Belongs : MessengerPlatform → ExternalAccountId → UserView → Work → Type 0
Belongs p external_id view w =
    (user : User) × (user_by_account p external_id w.tables.users ≡ some user)
    × (view ≡ to_view user)

pub view_id : (user : User) → (to_view user).id ≡ user.id
unfolding to_view
view_id user = refl

change-saved :
    (method : Exec (Session User) Unit) (user : User) (w : Work)
    → (method (record { entity = user; events = w.events })).0 ≡ ok tt
    → let after : User = (method (record { entity = user; events = w.events })).1.entity in
      ((change method user w).0 ≡ ok (to_view after))
      × ((change method user w).1.tables.users ≡ save user_id after w.tables.users)
unfolding change
change-saved method user w h = ground arith

change-ok :
    (method : Exec (Session User) Unit) (user : User) (w : Work) (view : UserView)
    → (change method user w).0 ≡ ok view
    → (method (record { entity = user; events = w.events })).0 ≡ ok tt
unfolding change
change-ok method user w view h = ground arith

add_user-found :
    (others : List User → List User) (user : User) (a : MessengerAccount) (w : Work)
    → user.accounts ≡ a ∷ []
    → (add_user others user w).0 ≡ ok tt
    → user_by_account a.platform a.external_id (add_user others user w).1.tables.users ≡ some user
unfolding add_user is_taken find_by
add_user-found others user a w e h =
    let rows : List User = others w.tables.users in
    elim (Option-cases (user_by_account a.platform a.external_id rows)) [
      | inr (other, taken) ↦ ground arith
      | inl absent ↦
          let last : user_by_account a.platform a.external_id (rows ++ user ∷ []) ≡ some user =
            find_by-append (λ u. holds a.platform a.external_id u.accounts) rows (user ∷ []) absent
            ∙ ground (arith, same_platform_refl a.platform, same_refl a.external_id.value) in
          ground arith
    ]

module _ (registry : List PhoneNumber) (others : List User → List User) (t : Readings)
    (c : RegisterUser) (external_id : ExternalAccountId) (username : Option MessengerUsername)
    (w : Work) where
  -- A registration of an account that somebody has, with a handle that is none or a valid one:
  -- whatever else it says, it is answered by that person, nobody is added, and the account stays
  -- theirs.
  pub register_known :
      (user : User)
      → make_external_account_id c.external_id ≡ ok external_id
      → optional_username c.username ≡ ok username
      → Distinct user_id w.tables.users
      → user_by_account c.platform external_id w.tables.users ≡ some user
      → (view : UserView) × ((register_user registry others t c w).0 ≡ ok view)
        × (view.id ≡ user.id)
        × Belongs c.platform external_id view (register_user registry others t c w).1
        × (length (register_user registry others t c w).1.tables.users ≡ length w.tables.users)
  unfolding register_user
  register_known user he hu d found =
      let method : Exec (Session User) Unit = User.refresh_username c.platform username in
      let s : Session User = record { entity = user; events = w.events } in
      let after : User = (method s).1.entity in
      let m : (holds c.platform external_id after.accounts
            ≡ holds c.platform external_id user.accounts)
          × (after.id ≡ user.id)
          × ((method s).0 ≡ ok tt) =
        refresh_username-holds c.platform external_id username s in
      let same : register_user registry others t c w ≡ change method user w = ground arith in
      let saved : ((change method user w).0 ≡ ok (to_view after))
          × ((change method user w).1.tables.users ≡ save user_id after w.tables.users) =
        change-saved method user w m.2 in
      let had : holds c.platform external_id user.accounts ≡ true =
        find_by-holds (λ u. holds c.platform external_id u.accounts) w.tables.users user found in
      let there : user_by_account c.platform external_id (save user_id after w.tables.users)
          ≡ some after =
        find_by-save_same user_id (λ u. holds c.platform external_id u.accounts) after user
          w.tables.users d found m.1 (m.0 ∙ had) in
      (
        to_view after,
        ap (λ r. r.0) same ∙ saved.0,
        view_id after ∙ m.1,
        (
          after,
          ap (λ r. user_by_account c.platform external_id r.1.tables.users) same
              ∙ ap (user_by_account c.platform external_id) saved.1
              ∙ there,
          refl,
        ),
        ap (λ r. length r.1.tables.users) same
            ∙ ap length saved.1
            ∙ length-save user_id after w.tables.users,
      )

  -- The row that the handler makes of a new person.
  abbrev new_person : PhoneNumber → FullName → Locale → UserRole → Datetime → User
  new_person number full_name locale role updated_at = record {
    id = t.id;
    created_at = t.created_at;
    updated_at = updated_at;
    phone_number = number;
    full_name = full_name;
    preferences = record { notify_via = c.platform; locale = locale; marketing_consent = false };
    role = role;
    status = UserStatus.active;
    block_reason = none;
    accounts = account_of t c external_id username ∷ [];
  }

  created-Belongs :
      (number : PhoneNumber) (full_name : FullName) (locale : Locale) (view : UserView)
      → let r : Registration = record {
        account = account_of t c external_id username;
        phone_number = number;
        full_name = full_name;
        locale = locale;
      } in
        (create registry others t r w).0 ≡ ok view
        → Belongs c.platform external_id view (create registry others t r w).1
  unfolding create User.register User.assign_role
  created-Belongs number full_name locale view h =
      let a : MessengerAccount = account_of t c external_id username in
      let announced : List Event =
        w.events ++ user_registered t.id number.value c.platform external_id.value ∷ [] in
      elim (Bool-cases (before t.updated_at t.created_at)) [
        | inl backwards ↦ ground arith
        | inr forward ↦ elim (Bool-cases (is_admin registry number)) [
          | inl configured ↦
              let u : User = new_person number full_name locale UserRole.admin t.now in
              let w' : Work = record w {
                events = announced ++ user_role_changed t.id UserRole.customer UserRole.admin ∷ [];
              } in
              (u, ground (arith, add_user-found others u a w' refl), ground arith)
          | inr plain ↦
              let u : User = new_person number full_name locale UserRole.customer t.updated_at in
              (
                u,
                ground (arith, add_user-found others u a (record w { events = announced }) refl),
                ground arith,
              )
        ]
      ]

  linked-Belongs :
      (user : User) (number : PhoneNumber) (view : UserView)
      → user_by_account c.platform external_id w.tables.users ≡ none
      → user_by_phone_number number w.tables.users ≡ some user
      → Distinct user_id w.tables.users
      → let method : Exec (Session User) Unit =
          User.link_account (account_of t c external_id username) t.now in
        (change method user w).0 ≡ ok view
        → Belongs c.platform external_id view (change method user w).1
  linked-Belongs user number view absent found d h =
      let a : MessengerAccount = account_of t c external_id username in
      let method : Exec (Session User) Unit = User.link_account a t.now in
      let s : Session User = record { entity = user; events = w.events } in
      let after : User = (method s).1.entity in
      let done : (method s).0 ≡ ok tt = change-ok method user w view h in
      let m : (holds c.platform external_id after.accounts ≡ true) × (after.id ≡ user.id) =
        link_account-holds a t.now s done in
      let saved : ((change method user w).0 ≡ ok (to_view after))
          × ((change method user w).1.tables.users ≡ save user_id after w.tables.users) =
        change-saved method user w done in
      let keyed : find_by (λ u. user_id u == user_id user) w.tables.users ≡ some user =
        find_by-key user_id (λ u. same u.phone_number.value number.value) w.tables.users user d
          found in
      let there : user_by_account c.platform external_id (save user_id after w.tables.users)
          ≡ some after =
        find_by-save_new user_id (λ u. holds c.platform external_id u.accounts) after user
          w.tables.users absent (rw m.1 keyed) m.0 in
      (after, ap (user_by_account c.platform external_id) saved.1 ∙ there, ground arith)

  -- A registration that succeeds leaves the account with the person that it shows, if the ids of
  -- the people differ: whether the account was known, the number was, or a new person was made.
  pub register_found :
      (view : UserView)
      → make_external_account_id c.external_id ≡ ok external_id
      → optional_username c.username ≡ ok username
      → Distinct user_id w.tables.users
      → (register_user registry others t c w).0 ≡ ok view
      → Belongs c.platform external_id view (register_user registry others t c w).1
  unfolding register_user register_contact
  register_found view he hu d h =
      elim (Option-cases (user_by_account c.platform external_id w.tables.users)) [
        | inr (user, found) ↦
            let (v, answered, one, belongs, count) = register_known user he hu d found in
            let same : v ≡ view = ground arith in
            subst (λ x. Belongs c.platform external_id x (register_user registry others t c w).1)
              same belongs
        | inl absent ↦ elim (Result-cases (PhoneNumber.from_raw c.phone_number)) [
          | inr (e, invalid) ↦ ground arith
          | inl (number, valid) ↦ elim (Option-cases (user_by_phone_number number w.tables.users)) [
            | inr (user, found) ↦
                let method : Exec (Session User) Unit =
                  User.link_account (account_of t c external_id username) t.now in
                let same : register_user registry others t c w ≡ change method user w =
                  ground arith in
                subst (λ r. Belongs c.platform external_id view r.1) (sym same)
                  (linked-Belongs user number view absent found d (sym (ap (λ r. r.0) same) ∙ h))
            | inl unknown ↦ elim (Result-cases (make_full_name c.first_name c.last_name)) [
              | inr (e, invalid) ↦ ground arith
              | inl (full_name, named) ↦ elim (Result-cases (from_language_code c.language_code)) [
                | inr (e, invalid) ↦ ground arith
                | inl (locale, spoken) ↦
                    let r : Registration = record {
                      account = account_of t c external_id username;
                      phone_number = number;
                      full_name = full_name;
                      locale = locale;
                    } in
                    let same : register_user registry others t c w ≡ create registry others t r w =
                      ground arith in
                    subst (λ x. Belongs c.platform external_id view x.1) (sym same)
                      (created-Belongs number full_name locale view (sym (ap (λ x. x.0) same) ∙ h))
              ]
            ]
          ]
        ]
      ]
