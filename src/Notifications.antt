-- ===== src/Notifications.antt =====
-- application/commands/notifications and application/common/services/
-- notification_recipient_resolver.py: what people are told about orders, and each message of the
-- broker at most once. The senders of this process, the renderer of texts and the view of an order
-- are parameters. A send that did not raise has reached its account.
use goldy_telegram_bot.Time.{before}
use goldy_telegram_bot.User.{same_role, User, MessengerAccount}
use goldy_telegram_bot.OrderValues.{OrderStatus}
use goldy_telegram_bot.UserValues.{UserRole, same_platform, MessengerPlatform}
use goldy_telegram_bot.Text.{Text}
use goldy_telegram_bot.Decimal.{Decimal}
use goldy_telegram_bot.Result.{
  Result, notification_undeliverable, notification_channel_unavailable, ok, err,
}
use goldy_telegram_bot.User.{is_blocked}
use goldy_telegram_bot.Request.{find_by, order_id, user_by_id, Work}
pub mod Letters
pub mod Once
pub mod Consumers
pub mod Redelivered
use goldy_telegram_bot.Exec.{Exec, pure, ◌>>◌, ◌>>=◌}
use goldy_telegram_bot.UserCommands.{to_view, UserView}
use goldy_telegram_bot.Prelude.{
  ◌==◌, any, suc, ◌-◌, Bool, true, false, Option, none, some, List, [], ◌∷◌, ◌++◌, map,
  if◌then◌else◌, length, ℕ,
}

pub data Notification : Type 0 where
  -- number, customer_name, phone_number, address, line_count, total
  order_placed : Text → Text → Text → Text → ℕ → Decimal → Notification
  -- number, status, reason
  order_status_changed : Text → OrderStatus → Option Text → Notification
  -- number, old_address, new_address
  order_delivery_address_changed : Text → Text → Text → Notification

pub record OutgoingNotification : Type 0 where
  pub external_id : Text
  pub body : Text

pub record NotificationRecipient : Type 0 where
  pub user_id : ℕ
  pub platform : MessengerPlatform
  pub external_id : Text
  pub locale : Text

-- `NotificationSender.send`, which raises where the message did not arrive, and the senders that the
-- process holds
abbrev pub Senders : Type 0
Senders = MessengerPlatform → Option (OutgoingNotification → Result (Unit {0}))

-- `NotificationRenderer.render`, which raises where a text has no wording
abbrev pub Renderer : Type 0
Renderer = Notification → Text → Result Text

pub record NotificationOutcome : Type 0 where
  pub delivered : ℕ
  pub skipped : ℕ
  pub already_handled : Bool

-- `NotificationOutcome.duplicate`
abbrev pub duplicate : NotificationOutcome
duplicate = record { delivered = 0; skipped = 0; already_handled = true }

-- The work of the request, and what the messengers have accepted.
pub record Desk : Type 0 where
  pub work : Work
  pub sent : List (MessengerPlatform × OutgoingNotification)

abbrev pub first_account : MessengerPlatform → List MessengerAccount → Option MessengerAccount
first_account p [] = none
first_account p (a ∷ accounts) =
    if same_platform a.platform p then some a else first_account p accounts

abbrev recipient_at : UserView → Option MessengerAccount → Option NotificationRecipient
recipient_at user none = none
recipient_at user (some a) = some (record {
  user_id = user.id;
  platform = user.notify_via;
  external_id = a.external_id.value;
  locale = user.locale;
})

-- `NotificationRecipientResolver.resolve`, for a platform that this build knows
unfoldable pub resolve : UserView → Option NotificationRecipient
resolve user =
    if is_blocked user.status
    then none
    else recipient_at user (first_account user.notify_via user.accounts)

module _ (senders : Senders) (render : Renderer) where
  -- `except NotificationUndeliverableError` around the send
  unfoldable pub deliver :
      (OutgoingNotification → Result (Unit {0}))
      → MessengerPlatform
      → OutgoingNotification
      → Exec Desk Bool
  deliver send p n s = elim (send n) [
    | ok done ↦ (ok true, record s { sent = s.sent ++ (p, n) ∷ [] })
    | err notification_undeliverable ↦ (ok false, s)
    | err e ↦ (err e, s)
  ]

  -- `NotificationDispatcher.dispatch`, with `NotificationSenders.for_platform`
  unfoldable pub dispatch : NotificationRecipient → Notification → Exec Desk Bool
  unfolding deliver
  dispatch recipient notification s = elim (senders recipient.platform) [
    | none ↦ (err notification_channel_unavailable, s)
    | some send ↦ elim (render notification recipient.locale) [
      | err e ↦ (err e, s)
      | ok body ↦
          deliver send recipient.platform
            (record { external_id = recipient.external_id; body = body }) s
    ]
  ]

  -- `asyncio.gather` of the dispatches, counted: all of them run, and the first error in the order
  -- of the people is raised.
  unfoldable pub gather : List (Option NotificationRecipient) → Notification → Exec Desk ℕ
  unfolding dispatch
  gather [] notification s = (ok 0, s)
  gather (none ∷ recipients) notification s = gather recipients notification s
  gather (some recipient ∷ recipients) notification s =
      let (r, s') = dispatch recipient notification s in
      let (rest, s'') = gather recipients notification s' in
      (
        elim r [
          | err e ↦ err e
          | ok reached ↦ elim rest [
            | err e ↦ err e
            | ok delivered ↦ ok (if reached then suc delivered else delivered)
          ]
        ],
        s'',
      )

  -- `NotificationDispatcher.dispatch_to_all`
  unfoldable pub dispatch_to_all : List UserView → Notification → Exec Desk NotificationOutcome
  unfolding gather resolve
  dispatch_to_all users notification = do
    delivered ← gather (map resolve users) notification
    pure (record {
      delivered = delivered;
      skipped = length users - delivered;
      already_handled = false;
    })

-- `SqlAlchemyInboxGateway.claim`: the primary key refuses a message that was claimed before.
unfoldable pub claim : ℕ → Exec Desk Bool
claim message_id s = if any (λ id. id == message_id) s.work.tables.inbox then (ok false, s) else (
  ok true,
  record s {
    work = record (s.work) {
      tables = record (s.work.tables) { inbox = s.work.tables.inbox ++ message_id ∷ [] };
    };
  },
)

-- `SqlAlchemyUserQueryGateway.read_by_id`
unfoldable pub read_by_id : ℕ → List User → Option UserView
unfolding find_by to_view
read_by_id id users = elim (user_by_id id users) [ none ↦ none | some user ↦ some (to_view user) ]

unfoldable pub insert_by_creation : User → List User → List User
insert_by_creation user [] = user ∷ []
insert_by_creation user (other ∷ users) =
    if before other.created_at user.created_at
    then other ∷ insert_by_creation user users
    else user ∷ other ∷ users

-- The people with a role, the oldest first
unfoldable pub oldest_first : UserRole → List User → List User
unfolding insert_by_creation
oldest_first role [] = []
oldest_first role (user ∷ users) =
    let rest = oldest_first role users in
    if same_role user.role role then insert_by_creation user rest else rest

-- `SqlAlchemyUserQueryGateway.read_all` of the people with a role
unfoldable pub read_all : UserRole → List User → List UserView
unfolding oldest_first to_view
read_all role users = map to_view (oldest_first role users)

pub record OrderView : Type 0 where
  pub number : Text
  pub recipient_first_name : Text
  pub recipient_last_name : Option Text
  pub recipient_phone_number : Text
  pub delivery_address : Text
  pub line_count : ℕ
  pub total : Decimal

-- `found.update` of one person
unfoldable pub update : UserView → List UserView → List UserView
update person [] = person ∷ []
update person (other ∷ found) =
    if other.id == person.id then person ∷ found else other ∷ update person found

unfoldable pub update_all : List UserView → List UserView → List UserView
unfolding update
update_all [] found = found
update_all (person ∷ people) found = update_all people (update person found)

-- `NotifyOrderPlacedHandler._staff`
unfoldable pub staff : List User → List UserView
unfolding read_all update_all
staff users =
    update_all (read_all UserRole.manager users) (update_all (read_all UserRole.admin users) [])

-- `" ".join` of the parts of the name that are there
abbrev pub customer_name : OrderView → Text
customer_name order = elim order.recipient_last_name [
  | none ↦ order.recipient_first_name
  | some last_name ↦ order.recipient_first_name ++ b' ' ∷ last_name
]

abbrev pub counted : ℕ → NotificationOutcome
counted n = record { delivered = 0; skipped = n; already_handled = false }

-- What the handlers begin with: a message that was claimed before is dropped. Where the rest raises,
-- the transaction of the command takes the claim back, which is in Consumers.
unfoldable pub once : ℕ → Exec Desk NotificationOutcome → Exec Desk NotificationOutcome
once message_id follow = do claimed ← claim message_id; if claimed then follow else pure duplicate

module _ (senders : Senders) (render : Renderer) where
  -- The rest of the two handlers that write to the customer of an order
  unfoldable pub notify_customer : ℕ → Notification → Exec Desk NotificationOutcome
  unfolding read_by_id dispatch_to_all
  notify_customer customer_id notification s = elim (read_by_id customer_id s.work.tables.users) [
    | none ↦ (ok (counted 1), s)
    | some customer ↦ dispatch_to_all senders render (customer ∷ []) notification s
  ]

  -- `NotifyOrderStatusChangedHandler.handle`
  unfoldable pub notify_order_status_changed :
      ℕ → ℕ → Text → OrderStatus → Option Text → Exec Desk NotificationOutcome
  unfolding once notify_customer
  notify_order_status_changed message_id customer_id number status reason =
      once message_id (notify_customer customer_id (order_status_changed number status reason))

  -- `NotifyDeliveryAddressChangedHandler.handle`
  unfoldable pub notify_delivery_address_changed :
      ℕ → ℕ → Text → Text → Text → Exec Desk NotificationOutcome
  unfolding once notify_customer
  notify_delivery_address_changed message_id customer_id number old_address new_address =
      once message_id (
        notify_customer customer_id (order_delivery_address_changed number old_address new_address))

  -- The rest of `NotifyOrderPlacedHandler.handle` for the order that was read
  unfoldable pub notify_staff : Option OrderView → Exec Desk NotificationOutcome
  unfolding staff dispatch_to_all
  notify_staff none s = (ok (counted 0), s)
  notify_staff (some order) s =
      dispatch_to_all senders render (staff s.work.tables.users)
        (order_placed order.number (customer_name order) order.recipient_phone_number
          order.delivery_address order.line_count order.total)
        s

  -- `NotifyOrderPlacedHandler.handle`
  unfoldable pub notify_order_placed :
      (ℕ → Option OrderView) → ℕ → ℕ → Exec Desk NotificationOutcome
  unfolding once notify_staff
  notify_order_placed read_order message_id order_id =
      once message_id (notify_staff (read_order order_id))

-- The notification commands, each with the id of the message of the broker.
pub data NotifyCommand : Type 0 where
  order_is_placed : ℕ → ℕ → NotifyCommand
  status_is_changed : ℕ → ℕ → Text → OrderStatus → Option Text → NotifyCommand
  address_is_changed : ℕ → ℕ → Text → Text → Text → NotifyCommand

-- The handlers as the registry of setup/ioc/providers binds them to their commands
unfoldable pub handle :
    Senders → Renderer → (ℕ → Option OrderView) → NotifyCommand → Exec Desk NotificationOutcome
unfolding notify_order_placed notify_order_status_changed notify_delivery_address_changed
handle senders render read_order (order_is_placed message_id order_id) =
    notify_order_placed senders render read_order message_id order_id
handle senders render read_order (status_is_changed message_id customer_id number status reason) =
    notify_order_status_changed senders render message_id customer_id number status reason
handle senders render read_order
      (address_is_changed message_id customer_id number old new_address) =
    notify_delivery_address_changed senders render message_id customer_id number old new_address
