-- ===== src/UserCommands/Permitted.antt =====
-- Who may send a command of application/commands/users about whom, and what it changes.
use goldy_telegram_bot.Request.Caller.{current_user_reads}
use goldy_telegram_bot.Request.Tables.{find_by-holds, find_by-save}
use goldy_telegram_bot.UserCommands.Dispatch.{UserCommand}
use goldy_telegram_bot.Access.Hierarchy.{rank}
use goldy_telegram_bot.Exec.{gets, ◌>>◌, Exec}
use goldy_telegram_bot.UserValues.{UserRole, ExternalAccountId}
use goldy_telegram_bot.Result.{Result-cases, authorization, user_not_found, Error, ok, err}
use goldy_telegram_bot.User.{User}
use goldy_telegram_bot.UserCommands.{to_view, change, UserView, authorized}
use goldy_telegram_bot.Request.{require_user, user_id, user_by_id, on_user, current_user, Work}
use goldy_telegram_bot.Access.{authorize, Permission, UserManagementContext}
use goldy_telegram_bot.Event.{Session}
use goldy_telegram_bot.Prelude.{
  refl, inl, inr, Bool-cases, Option-cases, ◌≡◌, ◌⊎◌, Bool, true, ◌&&◌, ◌||◌, Option, some, arith,
  ltb, ◌==◌, if◌then◌else◌, ℕ,
}

-- The person that a command names.
abbrev pub target_of : UserCommand → ℕ
target_of (UserCommand.block id reason now) = id
target_of (UserCommand.unblock id now) = id
target_of (UserCommand.rename id first_name last_name now) = id
target_of (UserCommand.change_locale id locale now) = id
target_of (UserCommand.change_preferences id notify_via consent now) = id
target_of (UserCommand.unlink_account id p now) = id
target_of (UserCommand.change_role id role now) = id

-- Who may: a higher rank than the target's; or the target themselves; a role that is handed out
-- ranks below one's own too.
abbrev pub may : UserCommand → User → User → Bool
may (UserCommand.block id reason now) subject target = ltb (rank target.role) (rank subject.role)
may (UserCommand.unblock id now) subject target = ltb (rank target.role) (rank subject.role)
may (UserCommand.change_role id role now) subject target =
    ltb (rank target.role) (rank subject.role) && ltb (rank role) (rank subject.role)
may c subject target = subject.id == target.id || ltb (rank target.role) (rank subject.role)

-- The role that a command means to leave its target with.
abbrev pub role_after : UserCommand → UserRole → UserRole
role_after (UserCommand.change_role id role now) old = role
role_after (UserCommand.block id reason now) old = old
role_after c old = old

-- What a command that changed something has changed.
pub record Permitted (caller : Option ExternalAccountId) (c : UserCommand) (w w' : Work)
    : Type 0 where
  pub subject : User
  pub target : User
  pub after : User
  pub sent_by : current_user caller w ≡ (ok subject, w)
  pub named : user_by_id (target_of c) w.tables.users ≡ some target
  pub allowed : may c subject target ≡ true
  pub role : after.role ≡ role_after c target.role
  pub rows :
      (id : ℕ)
      → user_by_id id w'.tables.users
        ≡ (if target_of c == id then some after else user_by_id id w.tables.users)
  pub carts : w'.tables.carts ≡ w.tables.carts
  pub orders : w'.tables.orders ≡ w.tables.orders

module _ (caller : Option ExternalAccountId) (w : Work) where
  pub authorized-cases :
      (id : ℕ) (permission : Permission UserManagementContext)
      → ((e : Error) × (authorized caller id permission w ≡ (err e, w)))
        ⊎ ((p : User × User) × (authorized caller id permission w ≡ (ok p, w))
            × (current_user caller w ≡ (ok p.0, w))
            × (user_by_id id w.tables.users ≡ some p.1)
            × (permission (record { subject = p.0; target = p.1 }) ≡ true))
  unfolding authorized require_user authorize
  authorized-cases id permission = elim (Result-cases (current_user caller w).0) [
    | inr (e, refused) ↦ inl (e, ground (arith, current_user_reads caller w))
    | inl (subject, sent) ↦
        let here : current_user caller w ≡ (ok subject, w) =
          ground (arith, current_user_reads caller w) in
        elim (Option-cases (user_by_id id w.tables.users)) [
          | inl absent ↦ inl (user_not_found, ground arith)
          | inr (target, found) ↦
              elim (Bool-cases (permission (record { subject = subject; target = target }))) [
                | inl e ↦ inr ((subject, target), ground arith, here, found, e)
                | inr e ↦ inl (authorization, ground arith)
              ]
        ]
  ]

  on_user-rows :
      {A : Type 0} (method : Exec (Session User) A) (id : ℕ) (target : User)
      → ((s : Session User) → (method s).1.entity.id ≡ s.entity.id)
      → user_by_id id w.tables.users ≡ some target
      → (other : ℕ)
      → user_by_id other (on_user method target w).1.tables.users ≡ (
          if id == other
          then some (method (record { entity = target; events = w.events })).1.entity
          else user_by_id other w.tables.users)
  on_user-rows method id target keeps h other =
      let s : Session User = record { entity = target; events = w.events } in
      let row : User = (method s).1.entity in
      ground (
        arith,
        keeps s,
        find_by-save user_id other row w.tables.users,
        find_by-holds (λ user. user.id == id) w.tables.users target h,
      )

  -- A method of the target, called on behalf of a person who may.
  pub changed :
      (c : UserCommand) (method : Exec (Session User) Unit) (subject target : User)
      → current_user caller w ≡ (ok subject, w)
      → user_by_id (target_of c) w.tables.users ≡ some target
      → may c subject target ≡ true
      → ((s : Session User)
          → ((method s).1.entity.id ≡ s.entity.id)
            × ((method s).1.entity.role ≡ role_after c s.entity.role))
      → Permitted caller c w (change method target w).1
  unfolding change
  changed c method subject target sent found allowed keeps =
      let s : Session User = record { entity = target; events = w.events } in
      let viewed : Exec (Session User) UserView = (do method; gets (λ t. to_view t.entity)) in
      let same_entity : (t : Session User) → (viewed t).1.entity ≡ (method t).1.entity =
        λ t. ground arith in
      record {
        subject = subject;
        target = target;
        after = (method s).1.entity;
        sent_by = sent;
        named = found;
        allowed = allowed;
        role = (keeps s).1;
        rows = λ id. ground (
          arith,
          same_entity s,
          on_user-rows viewed (target_of c) target (λ t. ground (arith, same_entity t, keeps t))
              found id,
        );
        carts = refl;
        orders = refl;
      }
