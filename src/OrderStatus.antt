-- ===== src/OrderStatus.antt =====
-- domain/orders/status_transitions.py: the tables of the life of an order.
use goldy_telegram_bot.Prelude.{Bool, true, false, List, [], ◌∷◌, any}
use goldy_telegram_bot.OrderValues.{OrderStatus, new, confirmed, shipped, completed, cancelled}

abbrev pub same_status : OrderStatus → OrderStatus → Bool
same_status new new = true
same_status confirmed confirmed = true
same_status shipped shipped = true
same_status completed completed = true
same_status cancelled cancelled = true
same_status a b = false

-- `status in statuses`
abbrev pub is_in : OrderStatus → List OrderStatus → Bool
is_in status = any (same_status status)

unfoldable pub allowed_order_transitions : OrderStatus → List OrderStatus
allowed_order_transitions new = confirmed ∷ cancelled ∷ []
allowed_order_transitions confirmed = shipped ∷ cancelled ∷ []
allowed_order_transitions shipped = completed ∷ cancelled ∷ []
allowed_order_transitions completed = []
allowed_order_transitions cancelled = []

abbrev pub customer_cancellable_statuses : List OrderStatus
customer_cancellable_statuses = new ∷ confirmed ∷ []

abbrev pub editable_order_statuses : List OrderStatus
editable_order_statuses = new ∷ confirmed ∷ []

abbrev pub terminal_order_statuses : List OrderStatus
terminal_order_statuses = completed ∷ cancelled ∷ []
