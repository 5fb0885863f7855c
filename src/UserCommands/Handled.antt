-- ===== src/UserCommands/Handled.antt =====
-- Every handler of application/commands/users against its permission.
use goldy_telegram_bot.User
use goldy_telegram_bot.UserCommands.Permitted.{
  target_of, may, role_after, authorized-cases, changed, Permitted,
}
use goldy_telegram_bot.UserCommands.Methods.{
  block-KeepsRole, unblock-KeepsRole, rename-KeepsRole, change_preferences-KeepsRole,
  unlink_account-KeepsRole, assign_role_lem,
}
use goldy_telegram_bot.Exec.{Exec}
use goldy_telegram_bot.UserCommands.Dispatch.{handle, UserCommand}
use goldy_telegram_bot.Time.{Datetime}
use goldy_telegram_bot.UserValues.{
  make_block_reason, make_full_name, make_locale, with_notify_via, with_locale,
  with_marketing_consent, UserRole, MessengerPlatform, ExternalAccountId,
}
use goldy_telegram_bot.Text.{Text}
use goldy_telegram_bot.Result.{Error, authorization, err, Result-cases, ok}
use goldy_telegram_bot.User.{User}
use goldy_telegram_bot.UserCommands.{
  self_or_subordinate, change, block_user, unblock_user, rename_user, change_user_locale,
  change_notification_preferences, unlink_messenger_account, change_user_role,
}
use goldy_telegram_bot.Request.{user_by_id, current_user, Work}
use goldy_telegram_bot.Access.{authorize, can_manage_subordinate, can_manage_role}
use goldy_telegram_bot.Event.{Session}
use goldy_telegram_bot.Prelude.{
  ◌≡◌, sym, subst, ◌⊎◌, inl, inr, Bool, true, Option, some, arith, Bool-cases, ℕ,
}

module _ (caller : Option ExternalAccountId) (w : Work) where
  abbrev Handled : UserCommand → Type 0
  unfolding handle
  Handled c =
      ((e : Error) × (handle caller c w ≡ (err e, w))) ⊎ Permitted caller c w (handle caller c w).1

  by_method :
      (c : UserCommand) (method : Exec (Session User) Unit) (p : User × User)
      → current_user caller w ≡ (ok p.0, w)
      → user_by_id (target_of c) w.tables.users ≡ some p.1
      → may c p.0 p.1 ≡ true
      → ((s : Session User)
          → ((method s).1.entity.id ≡ s.entity.id)
            × ((method s).1.entity.role ≡ role_after c s.entity.role))
      → (handle caller c w).1 ≡ (change method p.1 w).1
      → Handled c
  unfolding Handled
  by_method c method p sent found allowed keeps e = inr (
      subst (λ w'. Permitted caller c w w') (sym e)
        (changed caller w c method p.0 p.1 sent found allowed keeps))

  block-Handled :
      (id : ℕ) (reason : Text) (now : Datetime) → Handled (UserCommand.block id reason now)
  unfolding handle block_user can_manage_subordinate
  block-Handled id reason now = elim (authorized-cases caller w id can_manage_subordinate) [
    | inl (e, refused) ↦ inl (e, ground arith)
    | inr (p, passed, sent, found, permitted) ↦ elim (Result-cases (make_block_reason reason)) [
      | inr (x, invalid) ↦ inl (x, ground arith)
      | inl (r, valid) ↦
          by_method (UserCommand.block id reason now) (User.block r now) p sent found (ground arith)
            (block-KeepsRole r now) (ground arith)
    ]
  ]

  unblock-Handled : (id : ℕ) (now : Datetime) → Handled (UserCommand.unblock id now)
  unfolding handle unblock_user can_manage_subordinate
  unblock-Handled id now = elim (authorized-cases caller w id can_manage_subordinate) [
    | inl (e, refused) ↦ inl (e, ground arith)
    | inr (p, passed, sent, found, permitted) ↦
        by_method (UserCommand.unblock id now) (User.unblock now) p sent found (ground arith)
          (unblock-KeepsRole now) (ground arith)
  ]

  rename-Handled :
      (id : ℕ) (first_name : Text) (last_name : Option Text) (now : Datetime)
      → Handled (UserCommand.rename id first_name last_name now)
  unfolding handle rename_user self_or_subordinate
  rename-Handled id first_name last_name now =
      elim (authorized-cases caller w id self_or_subordinate) [
        | inl (e, refused) ↦ inl (e, ground arith)
        | inr (p, passed, sent, found, permitted) ↦
            elim (Result-cases (make_full_name first_name last_name)) [
              | inr (x, invalid) ↦ inl (x, ground arith)
              | inl (n, valid) ↦
                  by_method (UserCommand.rename id first_name last_name now) (User.rename n now) p
                    sent found (ground arith) (rename-KeepsRole n now) (ground arith)
            ]
      ]

  change_locale-Handled :
      (id : ℕ) (locale : Text) (now : Datetime) → Handled (UserCommand.change_locale id locale now)
  unfolding handle change_user_locale self_or_subordinate
  change_locale-Handled id locale now = elim (authorized-cases caller w id self_or_subordinate) [
    | inl (e, refused) ↦ inl (e, ground arith)
    | inr (p, passed, sent, found, permitted) ↦ elim (Result-cases (make_locale locale)) [
      | inr (x, invalid) ↦ inl (x, ground arith)
      | inl (l, valid) ↦
          by_method (UserCommand.change_locale id locale now)
            (User.change_preferences (with_locale p.1.preferences l) now) p sent found
            (ground arith) (change_preferences-KeepsRole (with_locale p.1.preferences l) now)
            (ground arith)
    ]
  ]

  change_preferences-Handled :
      (id : ℕ) (notify_via : MessengerPlatform) (consent : Bool) (now : Datetime)
      → Handled (UserCommand.change_preferences id notify_via consent now)
  unfolding handle change_notification_preferences self_or_subordinate
  change_preferences-Handled id notify_via consent now =
      elim (authorized-cases caller w id self_or_subordinate) [
        | inl (e, refused) ↦ inl (e, ground arith)
        | inr (p, passed, sent, found, permitted) ↦
            by_method (UserCommand.change_preferences id notify_via consent now)
              (User.change_preferences
                (with_marketing_consent (with_notify_via p.1.preferences notify_via) consent) now)
              p sent found (ground arith)
              (change_preferences-KeepsRole
                (with_marketing_consent (with_notify_via p.1.preferences notify_via) consent) now)
              (ground arith)
      ]

  unlink_account-Handled :
      (id : ℕ) (platform : MessengerPlatform) (now : Datetime)
      → Handled (UserCommand.unlink_account id platform now)
  unfolding handle unlink_messenger_account self_or_subordinate
  unlink_account-Handled id platform now = elim (authorized-cases caller w id self_or_subordinate) [
    | inl (e, refused) ↦ inl (e, ground arith)
    | inr (p, passed, sent, found, permitted) ↦
        by_method (UserCommand.unlink_account id platform now) (User.unlink_account platform now) p
          sent found (ground arith) (unlink_account-KeepsRole platform now) (ground arith)
  ]

  change_role-Handled :
      (id : ℕ) (role : UserRole) (now : Datetime) → Handled (UserCommand.change_role id role now)
  unfolding handle change_user_role can_manage_subordinate can_manage_role authorize
  change_role-Handled id role now = elim (authorized-cases caller w id can_manage_subordinate) [
    | inl (e, refused) ↦ inl (e, ground arith)
    | inr (p, passed, sent, found, permitted) ↦
        elim (Bool-cases (can_manage_role (record { subject = p.0; target_role = role }))) [
          | inr forbidden ↦ inl (authorization, ground arith)
          | inl granted ↦
              by_method (UserCommand.change_role id role now) (User.assign_role role now) p sent
                found (ground arith) (assign_role_lem role now) (ground arith)
        ]
  ]

  -- A command about a person is refused with an error and changes nothing at all; or it was sent by
  -- a known person who ranks above the one it names, or is that one where the command allows it,
  -- and who ranks above a role that it hands out; then it changes the row of that one person only,
  -- whose role becomes the one handed out, or stays.
  pub handle-Permitted :
      (c : UserCommand)
      → ((e : Error) × (handle caller c w ≡ (err e, w)))
        ⊎ Permitted caller c w (handle caller c w).1
  unfolding Handled
  handle-Permitted (UserCommand.block id reason now) = block-Handled id reason now
  handle-Permitted (UserCommand.unblock id now) = unblock-Handled id now
  handle-Permitted (UserCommand.rename id first_name last_name now) =
      rename-Handled id first_name last_name now
  handle-Permitted (UserCommand.change_locale id locale now) = change_locale-Handled id locale now
  handle-Permitted (UserCommand.change_preferences id notify_via consent now) =
      change_preferences-Handled id notify_via consent now
  handle-Permitted (UserCommand.unlink_account id platform now) =
      unlink_account-Handled id platform now
  handle-Permitted (UserCommand.change_role id role now) = change_role-Handled id role now
