-- ===== src/Notifications/Once.antt =====
-- The inbox beside the handlers of notifications.
use goldy_telegram_bot.Result.{ok}
use goldy_telegram_bot.UserCommands.{UserView}
use goldy_telegram_bot.Request.{order_id}
use goldy_telegram_bot.Exec.{Exec}
use goldy_telegram_bot.Notifications.{
  order_placed, order_status_changed, order_delivery_address_changed, Senders, Renderer, duplicate,
  resolve, deliver, dispatch, gather, dispatch_to_all, read_by_id, staff, customer_name,
  notify_customer, notify_order_status_changed, notify_delivery_address_changed, notify_staff,
  notify_order_placed, handle, Notification, NotificationRecipient, OrderView, NotifyCommand,
  order_is_placed, status_is_changed, address_is_changed, claim, once, NotificationOutcome, Desk,
}
use goldy_telegram_bot.Prelude.{
  false, refl, ◌∙◌, inl, inr, Option, none, some, map, Bool-cases, Option-cases, ◌≡◌, Bool, true,
  List, [], ◌∷◌, ◌++◌, arith, ◌==◌, any, ℕ,
}

-- The id of a message stands in the inbox.
abbrev pub is_claimed : ℕ → Desk → Bool
is_claimed message_id s = any (λ id. id == message_id) s.work.tables.inbox

claimed_last : (ids : List ℕ) (id : ℕ) → any (λ i. i == id) (ids ++ id ∷ []) ≡ true
claimed_last [] id = ground arith
claimed_last (i ∷ ids) id = ground (arith, claimed_last ids id)

claimed_stays :
    (ids : List ℕ) (new id : ℕ)
    → any (λ i. i == id) ids ≡ true
    → any (λ i. i == id) (ids ++ new ∷ []) ≡ true
claimed_stays [] new id h = absurd (ground arith)
claimed_stays (i ∷ ids) new id h = ground (arith, claimed_stays ids new id)

abbrev KeepsWork : Exec Desk NotificationOutcome → Type 0
KeepsWork follow = (s : Desk) → (follow s).1.work ≡ s.work

-- The desk with the message in the inbox.
abbrev claimed_by : ℕ → Desk → Desk
claimed_by message_id s = record s {
  work = record (s.work) {
    tables = record (s.work.tables) { inbox = s.work.tables.inbox ++ message_id ∷ [] };
  };
}

claim_seen :
    (message_id : ℕ) (s : Desk)
    → is_claimed message_id s ≡ true
    → claim message_id s ≡ (ok false, s)
unfolding claim
claim_seen message_id s h = rw h refl

claim_first :
    (message_id : ℕ) (s : Desk)
    → is_claimed message_id s ≡ false
    → claim message_id s ≡ (ok true, claimed_by message_id s)
unfolding claim
claim_first message_id s h = rw h refl

once-is_claimed :
    (message_id : ℕ) (follow : Exec Desk NotificationOutcome) (s : Desk)
    → KeepsWork follow
    → is_claimed message_id (once message_id follow s).1 ≡ true
unfolding once
once-is_claimed message_id follow s keeps = elim (Bool-cases (is_claimed message_id s)) [
  | inl seen ↦ ground (arith, claim_seen message_id s seen)
  | inr first ↦ ground (
    arith,
    claim_first message_id s first,
    keeps (claimed_by message_id s),
    claimed_last s.work.tables.inbox message_id,
  )
]

once-keeps :
    (message_id id : ℕ) (follow : Exec Desk NotificationOutcome) (s : Desk)
    → KeepsWork follow
    → is_claimed id s ≡ true
    → is_claimed id (once message_id follow s).1 ≡ true
unfolding once
once-keeps message_id id follow s keeps h = elim (Bool-cases (is_claimed message_id s)) [
  | inl seen ↦ ground (arith, claim_seen message_id s seen)
  | inr first ↦ ground (
    arith,
    claim_first message_id s first,
    keeps (claimed_by message_id s),
    claimed_stays s.work.tables.inbox message_id id h,
  )
]

once_again :
    (message_id : ℕ) (follow : Exec Desk NotificationOutcome) (s : Desk)
    → is_claimed message_id s ≡ true
    → once message_id follow s ≡ (ok duplicate, s)
unfolding once
once_again message_id follow s h = ground (arith, claim_seen message_id s h)

-- The message of the broker that a command was made from.
abbrev pub message_of : NotifyCommand → ℕ
message_of (order_is_placed message_id order_id) = message_id
message_of (status_is_changed message_id customer_id number status reason) = message_id
message_of (address_is_changed message_id customer_id number old new_address) = message_id

module _ (senders : Senders) (render : Renderer) where
  dispatch-work :
      (recipient : NotificationRecipient) (n : Notification) (s : Desk)
      → (dispatch senders render recipient n s).1.work ≡ s.work
  unfolding dispatch deliver
  dispatch-work recipient n s = ground arith

  gather-work :
      (recipients : List (Option NotificationRecipient)) (n : Notification) (s : Desk)
      → (gather senders render recipients n s).1.work ≡ s.work
  unfolding gather
  gather-work [] n s = refl
  gather-work (none ∷ recipients) n s = gather-work recipients n s
  gather-work (some recipient ∷ recipients) n s =
      gather-work recipients n (dispatch senders render recipient n s).1
      ∙ dispatch-work recipient n s

  dispatch_to_all-work :
      (users : List UserView) (n : Notification)
      → KeepsWork (dispatch_to_all senders render users n)
  unfolding dispatch_to_all
  dispatch_to_all-work users n s = ground (arith, gather-work (map resolve users) n s)

  notify_customer-work :
      (id : ℕ) (n : Notification) → KeepsWork (notify_customer senders render id n)
  unfolding notify_customer
  notify_customer-work id n s = elim (Option-cases (read_by_id id s.work.tables.users)) [
    | inl unknown ↦ ground arith
    | inr (customer, found) ↦ ground (arith, dispatch_to_all-work (customer ∷ []) n s)
  ]

  notify_staff-work : (order : Option OrderView) → KeepsWork (notify_staff senders render order)
  unfolding notify_staff
  notify_staff-work none s = refl
  notify_staff-work (some order) s =
      dispatch_to_all-work (staff s.work.tables.users)
        (order_placed order.number (customer_name order) order.recipient_phone_number
          order.delivery_address order.line_count order.total)
        s

  -- What a handler does with a message that it has claimed
  abbrev follow_up : (ℕ → Option OrderView) → NotifyCommand → Exec Desk NotificationOutcome
  follow_up read_order (order_is_placed message_id order_id) =
      notify_staff senders render (read_order order_id)
  follow_up read_order (status_is_changed message_id customer_id number status reason) =
      notify_customer senders render customer_id (order_status_changed number status reason)
  follow_up read_order (address_is_changed message_id customer_id number old new_address) =
      notify_customer senders render customer_id
        (order_delivery_address_changed number old new_address)

  follow_up-work :
      (read_order : ℕ → Option OrderView) (c : NotifyCommand) → KeepsWork (follow_up read_order c)
  follow_up-work read_order (order_is_placed message_id order_id) =
      notify_staff-work (read_order order_id)
  follow_up-work read_order (status_is_changed message_id customer_id number status reason) =
      notify_customer-work customer_id (order_status_changed number status reason)
  follow_up-work read_order (address_is_changed message_id customer_id number old new_address) =
      notify_customer-work customer_id (order_delivery_address_changed number old new_address)

  handle-once :
      (read_order : ℕ → Option OrderView) (c : NotifyCommand)
      → handle senders render read_order c ≡ once (message_of c) (follow_up read_order c)
  unfolding handle notify_order_placed notify_order_status_changed notify_delivery_address_changed
  handle-once read_order (order_is_placed message_id order_id) = refl
  handle-once read_order (status_is_changed message_id customer_id number status reason) = refl
  handle-once read_order (address_is_changed message_id customer_id number old new_address) = refl

  pub handle-is_claimed :
      (read_order : ℕ → Option OrderView) (c : NotifyCommand) (s : Desk)
      → is_claimed (message_of c) (handle senders render read_order c s).1 ≡ true
  handle-is_claimed read_order c s =
      rw (handle-once read_order c)
        (once-is_claimed (message_of c) (follow_up read_order c) s (follow_up-work read_order c))

  pub handle-keeps :
      (read_order : ℕ → Option OrderView) (c : NotifyCommand) (id : ℕ) (s : Desk)
      → is_claimed id s ≡ true
      → is_claimed id (handle senders render read_order c s).1 ≡ true
  handle-keeps read_order c id s h =
      rw (handle-once read_order c)
        (once-keeps (message_of c) id (follow_up read_order c) s (follow_up-work read_order c) h)

  pub handle_again :
      (read_order : ℕ → Option OrderView) (c : NotifyCommand) (s : Desk)
      → is_claimed (message_of c) s ≡ true
      → handle senders render read_order c s ≡ (ok duplicate, s)
  handle_again read_order c s h =
      rw (handle-once read_order c) (once_again (message_of c) (follow_up read_order c) s h)
