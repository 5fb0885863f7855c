-- ===== src/Notifications/Letters.antt =====
-- Whom `NotificationDispatcher.dispatch_to_all` writes to, and what it counts.
use mathlib.Core.List.{append_assoc, append-nil}
use goldy_telegram_bot.User.{MessengerAccount}
use goldy_telegram_bot.User.AccountList.{same_platform_refl}
use goldy_telegram_bot.UserValues.{same_platform, MessengerPlatform}
use goldy_telegram_bot.Notifications.{
  gather, dispatch_to_all, NotificationOutcome, Senders, Renderer, first_account, resolve, deliver,
  dispatch, Notification, OutgoingNotification, NotificationRecipient, Desk,
}
use goldy_telegram_bot.Text.{Text, same, same_refl}
use goldy_telegram_bot.Result.{is_ok, Result, notification_undeliverable, ok, err}
use goldy_telegram_bot.User.{is_blocked}
use goldy_telegram_bot.UserCommands.{UserView}
use goldy_telegram_bot.Prelude.{
  ◌+◌, ◌-◌, refl, map, ◌≤◌, ◌≡◌, ◌⊎◌, inl, inr, Bool, true, false, ◌&&◌, not, some, List, [], ◌∷◌,
  ◌++◌, arith, Option-cases, length, any, none, Option, ◌||◌, ℕ,
}

-- Every messenger has a sender in this process, which delivers a message or says that the account
-- cannot be reached.
abbrev pub Serves : Senders → Type 0
Serves senders =
    (p : MessengerPlatform)
    → (send : (OutgoingNotification → Result (Unit {0}))) × (senders p ≡ some send)
      × ((n : OutgoingNotification) → (send n ≡ ok tt) ⊎ (send n ≡ err notification_undeliverable))

-- Every text has a wording in every language.
abbrev pub Words : Renderer → Notification → Type 0
Words render notification = (locale : Text) → (body : Text) × (render notification locale ≡ ok body)

abbrev is_accepted : OutgoingNotification → Option (OutgoingNotification → Result (Unit {0})) → Bool
is_accepted n none = false
is_accepted n (some send) = is_ok (send n)

abbrev is_wording : Text → Result Text → Bool
is_wording body (ok wording) = same body wording
is_wording body (err e) = false

-- Nothing may be written to this person: they are blocked, or have no account on the platform that
-- they chose.
abbrev pub is_unwritable : UserView → Bool
is_unwritable user =
    is_blocked user.status
    || not (any (λ a. same_platform a.platform user.notify_via) user.accounts)

module _ (senders : Senders) (render : Renderer) (notification : Notification) where
  abbrev pub accepts : MessengerPlatform × OutgoingNotification → Bool
  accepts (p, n) = is_accepted n (senders p)

  -- The message is in the language of the person, who is not blocked, and is addressed to an account
  -- of theirs on the platform that they chose.
  abbrev pub is_for : MessengerPlatform × OutgoingNotification → UserView → Bool
  is_for (p, n) user =
      not (is_blocked user.status)
      && same_platform user.notify_via p
      && any (λ a. same_platform a.platform p && same a.external_id.value n.external_id)
          user.accounts
      && is_wording n.body (render notification user.locale)

  -- The messages that leave, person by person: one to everybody who may be written to and whose
  -- messenger accepts it.
  pub data Told : List UserView → List (MessengerPlatform × OutgoingNotification) → Type 0 where
    told_nobody : Told [] []
    reached :
        {users : List UserView} {letters : List (MessengerPlatform × OutgoingNotification)}
        (user : UserView) (letter : MessengerPlatform × OutgoingNotification)
        → is_for letter user ≡ true
        → accepts letter ≡ true
        → Told users letters
        → Told (user ∷ users) (letter ∷ letters)
    undelivered :
        {users : List UserView} {letters : List (MessengerPlatform × OutgoingNotification)}
        (user : UserView) (letter : MessengerPlatform × OutgoingNotification)
        → is_for letter user ≡ true
        → accepts letter ≡ false
        → Told users letters
        → Told (user ∷ users) letters
    unwritable :
        {users : List UserView} {letters : List (MessengerPlatform × OutgoingNotification)}
        (user : UserView)
        → is_unwritable user ≡ true
        → Told users letters
        → Told (user ∷ users) letters

  Told-few :
      {users : List UserView} {letters : List (MessengerPlatform × OutgoingNotification)}
      → Told users letters
      → length letters ≤ length users
  Told-few told_nobody = omega arith
  Told-few (reached user letter meant taken rest) = omega (arith, Told-few rest)
  Told-few (undelivered user letter meant lost rest) = omega (arith, Told-few rest)
  Told-few (unwritable user closed rest) = omega (arith, Told-few rest)

  abbrev letter_for : NotificationRecipient → Text → MessengerPlatform × OutgoingNotification
  letter_for r body = (r.platform, record { external_id = r.external_id; body = body })

  dispatch_cases :
      (r : NotificationRecipient) (body : Text) (s : Desk)
      → Serves senders
      → render notification r.locale ≡ ok body
      → ((accepts (letter_for r body) ≡ true)
          × (dispatch senders render r notification s
              ≡ (ok true, record s { sent = s.sent ++ letter_for r body ∷ [] })))
        ⊎ ((accepts (letter_for r body) ≡ false)
            × (dispatch senders render r notification s ≡ (ok false, s)))
  unfolding dispatch deliver
  dispatch_cases r body s serves worded =
      let (send, there, answers) = serves r.platform in
      elim (answers (letter_for r body).1) [
        | inl taken ↦ inl (ground arith, ground arith)
        | inr lost ↦ inr (ground arith, ground arith)
      ]

  first_account-any :
      (p : MessengerPlatform) (accounts : List MessengerAccount) (a : MessengerAccount)
      → first_account p accounts ≡ some a
      → any
          (λ b. same_platform b.platform p && same b.external_id.value a.external_id.value)
          accounts
        ≡ true
  first_account-any p [] a h = cc
  first_account-any p (b ∷ accounts) a h =
      ground (arith, first_account-any p accounts a, same_refl b.external_id.value)

  first_account-none :
      (p : MessengerPlatform) (accounts : List MessengerAccount)
      → first_account p accounts ≡ none
      → any (λ b. same_platform b.platform p) accounts ≡ false
  first_account-none p [] h = refl
  first_account-none p (b ∷ accounts) h = ground (arith, first_account-none p accounts)

  resolve-is_for :
      (user : UserView) (r : NotificationRecipient) (body : Text)
      → resolve user ≡ some r
      → render notification r.locale ≡ ok body
      → is_for (letter_for r body) user ≡ true
  unfolding resolve
  resolve-is_for user r body h worded =
      elim (Option-cases (first_account user.notify_via user.accounts)) [
        | inl absent ↦ ground arith
        | inr (a, found) ↦ ground (
          arith,
          first_account-any user.notify_via user.accounts a found,
          same_platform_refl user.notify_via,
          same_refl body,
        )
      ]

  resolve-is_unwritable : (user : UserView) → resolve user ≡ none → is_unwritable user ≡ true
  unfolding resolve
  resolve-is_unwritable user h = elim (Option-cases (first_account user.notify_via user.accounts)) [
    | inl absent ↦ ground (arith, first_account-none user.notify_via user.accounts absent)
    | inr (a, found) ↦ ground arith
  ]

  -- What one call answers and leaves.
  abbrev Sent : List UserView → Desk → Result ℕ × Desk → Type 0
  Sent users s answer =
      (letters : List (MessengerPlatform × OutgoingNotification)) × Told users letters
      × (answer ≡ (ok (length letters), record s { sent = s.sent ++ letters }))

  gather-Sent :
      (users : List UserView) (s : Desk)
      → Serves senders
      → Words render notification
      → Sent users s (gather senders render (map resolve users) notification s)
  unfolding gather
  gather-Sent [] s serves words = ([], told_nobody, rw (append-nil s.sent) refl)
  gather-Sent (user ∷ users) s serves words = elim (Option-cases (resolve user)) [
    | inl nobody ↦
        let (letters, told, e) = gather-Sent users s serves words in
        (letters, unwritable user (resolve-is_unwritable user nobody) told, ground arith)
    | inr (r, found) ↦
        let (body, worded) = words r.locale in
        let meant = resolve-is_for user r body found worded in
        elim (dispatch_cases r body s serves worded) [
          | inr (lost, same_desk) ↦
              let (letters, told, e) = gather-Sent users s serves words in
              (letters, undelivered user (letter_for r body) meant lost told, ground arith)
          | inl (taken, left) ↦
              let s' : Desk = record s { sent = s.sent ++ letter_for r body ∷ [] } in
              let (letters, told, e) = gather-Sent users s' serves words in
              (
                letter_for r body ∷ letters,
                reached user (letter_for r body) meant taken told,
                ground (arith, append_assoc s.sent (letter_for r body ∷ []) letters),
              )
        ]
  ]

  -- If every messenger has a sender, a sender delivers a message or says that the account cannot be
  -- reached, and the text has a wording in every language, then telling people something succeeds.
  -- Person by person, one message leaves: it is in their language, goes to an account of theirs on
  -- the platform that they chose, and is accepted by its sender. None leaves for a person only if
  -- they are blocked, have no account on that platform, or the sender does not accept such a
  -- message. The outcome counts the messages as delivered and the other people as skipped.
  pub dispatch_to_all_done :
      (users : List UserView) (s : Desk)
      → Serves senders
      → Words render notification
      → (letters : List (MessengerPlatform × OutgoingNotification))
        × (outcome : NotificationOutcome) × Told users letters
        × (dispatch_to_all senders render users notification s
            ≡ (ok outcome, record s { sent = s.sent ++ letters }))
        × (outcome.delivered ≡ length letters)
        × (outcome.delivered + outcome.skipped ≡ length users)
  unfolding dispatch_to_all
  dispatch_to_all_done users s serves words =
      let (letters, told, e) = gather-Sent users s serves words in
      let few = Told-few told in
      let outcome : NotificationOutcome = record {
        delivered = length letters;
        skipped = length users - length letters;
        already_handled = false;
      } in
      (letters, outcome, told, ground arith, refl, omega arith)
