-- ===== src/UserCommands/Admins.antt =====
-- Who is an administrator, over sequences of the commands of application/commands/users that are
-- sent about a person, which are all of them but register_user and seed_admins.
use goldy_telegram_bot.UserCommands.Handled.{handle-Permitted}
use goldy_telegram_bot.UserCommands.Permitted.{may, role_after}
use goldy_telegram_bot.UserCommands.Dispatch.{handle, handle_all, UserCommand}
use goldy_telegram_bot.UserValues.{UserRole, ExternalAccountId}
use goldy_telegram_bot.User.{same_role, User}
use goldy_telegram_bot.Request.{user_by_id, Work}
use goldy_telegram_bot.Prelude.{
  ◌≡◌, refl, ap, ◌∙◌, inl, inr, Bool, true, false, Option, none, some, List, [], ◌∷◌, arith, ℕ,
}

abbrev is_admin_row : Option User → Bool
is_admin_row none = false
is_admin_row (some user) = same_role user.role UserRole.admin

-- The person with this id is registered and an administrator.
abbrev pub is_admin_in : ℕ → Work → Bool
is_admin_in id w = is_admin_row (user_by_id id w.tables.users)

role_after_lem :
    (c : UserCommand) (subject target after : User)
    → may c subject target ≡ true
    → after.role ≡ role_after c target.role
    → same_role after.role UserRole.admin ≡ same_role target.role UserRole.admin
role_after_lem (UserCommand.block id reason now) subject target after h e = ground arith
role_after_lem (UserCommand.unblock id now) subject target after h e = ground arith
role_after_lem (UserCommand.rename id first_name last_name now) subject target after h e =
    ground arith
role_after_lem (UserCommand.change_locale id locale now) subject target after h e = ground arith
role_after_lem (UserCommand.change_preferences id notify_via consent now) subject target after h e =
    ground arith
role_after_lem (UserCommand.unlink_account id platform now) subject target after h e = ground arith
role_after_lem (UserCommand.change_role id role now) subject target after h e = ground arith

handle-is_admin_in :
    (caller : Option ExternalAccountId) (c : UserCommand) (id : ℕ) (w : Work)
    → is_admin_in id (handle caller c w).1 ≡ is_admin_in id w
handle-is_admin_in caller c id w = elim (handle-Permitted caller w c) [
  | inl (e, refused) ↦ ap (λ r. is_admin_in id r.1) refused
  | inr p ↦
      let stays : same_role p.after.role UserRole.admin ≡ same_role p.target.role UserRole.admin =
        role_after_lem c p.subject p.target p.after p.allowed p.role in
      ap is_admin_row (p.rows id) ∙ ground (arith, p.named)
]

-- Blocking, unblocking, renaming, a change of language or of preferences, unlinking and a change of
-- role, sent by whomever and in whatever order, make nobody an administrator, and nobody stops
-- being one. Registration and the seeding of administrators are not among these commands.
pub admins_stay :
    (commands : List (Option ExternalAccountId × UserCommand)) (id : ℕ) (w : Work)
    → is_admin_in id (handle_all commands w) ≡ is_admin_in id w
unfolding handle_all
admins_stay [] id w = refl
admins_stay ((caller, c) ∷ commands) id w =
    admins_stay commands id (handle caller c w).1 ∙ handle-is_admin_in caller c id w
