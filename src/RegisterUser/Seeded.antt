-- ===== src/RegisterUser/Seeded.antt =====
-- What seed_admins makes of the roles.
use goldy_telegram_bot.Result.{is_ok, Result-cases, ok}
use goldy_telegram_bot.UserValues.{UserRole}
use goldy_telegram_bot.Event.{Event, Session}
use goldy_telegram_bot.User
use goldy_telegram_bot.Request.Tables.{
  find_by-holds, find_by-key, find_by-save_other, find_by-save_same, save-Distinct, Distinct,
}
use goldy_telegram_bot.RegisterUser.{
  is_admin, seed_one, seed_each, seed_admins, SeedAdminsResponse, is_found,
}
use goldy_telegram_bot.Time.{Datetime}
use goldy_telegram_bot.Text.{Text, same_iff, same}
use goldy_telegram_bot.User.{same_role, User}
use goldy_telegram_bot.Request.{find_by, save, user_by_phone_number, on_user, user_id, Work}
use goldy_telegram_bot.PhoneNumber.{PhoneNumber}
use goldy_telegram_bot.Prelude.{
  refl, subst, [], ◌∷◌, Option-cases, sym, ap, ◌∙◌, inl, inr, ◌&&◌, arith, Bool-cases, ◌≡◌, Bool,
  true, false, ◌||◌, Option, none, some, List,
}

abbrev is_promoted : Option User → Bool
is_promoted none = false
is_promoted (some user) = same_role user.role UserRole.admin

-- The number is somebody's; it is an administrator's.
abbrev pub registered : PhoneNumber → Work → Bool
registered n w = is_found (user_by_phone_number n w.tables.users)

abbrev pub promoted : PhoneNumber → Work → Bool
promoted n w = is_promoted (user_by_phone_number n w.tables.users)

-- What one configured number makes of another.
record Seeded (number n : PhoneNumber) (w w' : Work) : Type 0 where
  admin : promoted n w' ≡ (promoted n w || registered n w && same number.value n.value)
  stays : registered n w' ≡ registered n w
  distinct : Distinct user_id w'.tables.users

module _ (now : Datetime) where
  assigned :
      (user : User) (events : List Event)
      → let after : User =
          (User.assign_role UserRole.admin now
            (record { entity = user; events = events })).1.entity in
        (after.role ≡ UserRole.admin)
        × (after.id ≡ user.id)
        × (after.phone_number ≡ user.phone_number)
  unfolding User.assign_role
  assigned user events = ground arith

  assigned_ok :
      (user : User) (events : List Event)
      → (User.assign_role UserRole.admin now (record { entity = user; events = events })).0 ≡ ok tt
  unfolding User.assign_role
  assigned_ok user events = ground arith

  Seeded-row :
      (number n : PhoneNumber) (user : User) (w : Work)
      → Distinct user_id w.tables.users
      → user_by_phone_number number w.tables.users ≡ some user
      → Seeded number n w (on_user (User.assign_role UserRole.admin now) user w).1
  Seeded-row number n user w d found =
      let s : Session User = record { entity = user; events = w.events } in
      let after : User = (User.assign_role UserRole.admin now s).1.entity in
      let m : (after.role ≡ UserRole.admin)
          × (after.id ≡ user.id)
          × (after.phone_number ≡ user.phone_number) =
        assigned user w.events in
      let wanted : User → Bool = λ u. same u.phone_number.value n.value in
      let mine : same user.phone_number.value number.value ≡ true =
        find_by-holds (λ u. same u.phone_number.value number.value) w.tables.users user found in
      let kept : Distinct user_id (save user_id after w.tables.users) =
        save-Distinct user_id after w.tables.users d in
      let spelled : user.phone_number.value ≡ number.value =
        (same_iff user.phone_number.value number.value).0 mine in
      elim (Bool-cases (same number.value n.value)) [
        | inl e ↦
            let one : n.value ≡ number.value = sym ((same_iff number.value n.value).0 e) in
            let there : user_by_phone_number n w.tables.users ≡ some user =
              ap (λ (v : Text). find_by (λ u. same u.phone_number.value v) w.tables.users) one
              ∙ found in
            let later : find_by wanted (save user_id after w.tables.users) ≡ some after =
              find_by-save_same user_id wanted after user w.tables.users d there m.1
                (ground (arith, same_iff user.phone_number.value n.value)) in
            record { admin = ground arith; stays = ground arith; distinct = kept }
        | inr e ↦
            let same_lookup : find_by wanted (save user_id after w.tables.users)
                ≡ find_by wanted w.tables.users =
              find_by-save_other user_id wanted after user w.tables.users
                (rw m.1 (
                  find_by-key user_id (λ u. same u.phone_number.value number.value) w.tables.users
                    user d found))
                (ground arith) (ground arith) in
            record { admin = ground arith; stays = ground arith; distinct = kept }
      ]

  seed_one-Seeded :
      (number n : PhoneNumber) (r : SeedAdminsResponse) (w : Work)
      → Distinct user_id w.tables.users
      → (is_ok (seed_one now number r w).0 ≡ true) × Seeded number n w (seed_one now number r w).1
  unfolding seed_one
  seed_one-Seeded number n r w d =
      elim (Option-cases (user_by_phone_number number w.tables.users)) [
        | inl absent ↦
            let there : same number.value n.value ≡ true → registered n w ≡ false = λ e.
              ap
                (λ (v : Text). is_found (find_by (λ u. same u.phone_number.value v) w.tables.users))
                (sym ((same_iff number.value n.value).0 e))
              ∙ ap is_found absent in
            let same_work : (seed_one now number r w).1 ≡ w = ground arith in
            (
              ground arith,
              subst (λ w'. Seeded number n w w') (sym same_work)
                  (record {
                    admin = elim (Bool-cases (same number.value n.value)) [
                      | inl e ↦ ground (arith, there e)
                      | inr e ↦ ground arith
                    ];
                    stays = refl;
                    distinct = d;
                  }),
            )
        | inr (user, found) ↦ elim (Bool-cases (same_role user.role UserRole.admin)) [
          | inl already ↦
              let there : same number.value n.value ≡ true → promoted n w ≡ true = λ e.
                ap
                  (λ (v : Text).
                    is_promoted (find_by (λ u. same u.phone_number.value v) w.tables.users))
                  (sym ((same_iff number.value n.value).0 e))
                ∙ ap is_promoted found
                ∙ already in
              let same_work : (seed_one now number r w).1 ≡ w = ground arith in
              (
                ground arith,
                subst (λ w'. Seeded number n w w') (sym same_work)
                    (record {
                      admin = elim (Bool-cases (same number.value n.value)) [
                        | inl e ↦ ground (arith, there e)
                        | inr e ↦ ground arith
                      ];
                      stays = refl;
                      distinct = d;
                    }),
              )
          | inr plain ↦
              let same_work : (seed_one now number r w).1
                  ≡ (on_user (User.assign_role UserRole.admin now) user w).1 =
                ground (arith, assigned_ok user w.events) in
              (
                ground (arith, assigned_ok user w.events),
                subst (λ w'. Seeded number n w w') (sym same_work)
                    (Seeded-row number n user w d found),
              )
        ]
      ]

  seed_each_lem :
      (numbers : List PhoneNumber) (n : PhoneNumber) (r : SeedAdminsResponse) (w : Work)
      → Distinct user_id w.tables.users
      → (is_ok (seed_each now numbers r w).0 ≡ true)
        × (promoted n (seed_each now numbers r w).1
            ≡ (promoted n w || registered n w && is_admin numbers n))
  unfolding seed_each is_admin
  seed_each_lem [] n r w d = ground arith
  seed_each_lem (number ∷ numbers) n r w d =
      let (fine, one) = seed_one-Seeded number n r w d in
      let w' : Work = (seed_one now number r w).1 in
      elim (Result-cases (seed_one now number r w).0) [
        | inr (e, refused) ↦ ground arith
        | inl (r', answered) ↦
            ground (arith, seed_each_lem numbers n r' w' one.distinct, one.admin, one.stays)
      ]

-- Seeding always succeeds; afterwards the person with a number is an administrator exactly if they
-- were one, or the number is configured and somebody's, provided that the ids of the people differ.
pub seed_admins_lem :
    (registry : List PhoneNumber) (now : Datetime) (n : PhoneNumber) (w : Work)
    → Distinct user_id w.tables.users
    → (is_ok (seed_admins registry now w).0 ≡ true)
      × (promoted n (seed_admins registry now w).1
          ≡ (promoted n w || registered n w && is_admin registry n))
unfolding seed_admins
seed_admins_lem registry now n w d =
    seed_each_lem now registry n (record { granted = 0; already = 0; pending = 0 }) w d
