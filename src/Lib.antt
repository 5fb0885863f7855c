-- ===== src/Lib.antt =====
-- The domain of goldy, the messenger bot of a shop, and the commands on it. The paths below are those
-- in src/goldy/domain, up to the part on handlers.
--
-- A customer registers with a phone number and one or more messenger accounts, fills a cart from
-- the catalog, and checks out; the checkout turns the cart into an order, which staff then move
-- through its stages. Each aggregate records events in a collection that all aggregates of one
-- request share.
--
-- Values
--   Money         common/values/money.py and currency.py: `make` is the constructor with its
--                 validation, `times`, `add` and `sub` the operators
--   Quantity      common/values/quantity.py
--   Catalog       catalog/values: identifiers, texts and the priced product
--   PhoneNumber   users/values/phone_number.py: `from_raw`, and `make` for the constructor
--   UserValues    the other files of users/values
--   OrderNumber   orders/values/order_number.py: `derive`, and `make` for the constructor
--   OrderValues   the other files of orders/values
-- Aggregates and services
--   Cart          carts/entities: `add_item`, `set_item_quantity`, `remove_item`, `decrease_item`,
--                 `clear`, `create`
--   OrderStatus   orders/status_transitions.py
--   Order         orders/entities and orders/placement.py: `place`, `confirm`, `ship`, `complete`,
--                 `cancel`, `change_delivery_address`; Order/Lines has `total_of` for `Order.total`
--   Checkout      orders/services/checkout_service.py and orders/checkout.py
--   User          users/entities and users/registration.py
--   Access        users/services and orders/services/authorization: the permissions
-- Handlers; paths in src/goldy/application, or in src/goldy/infrastructure where they start with it
--   Request       what a command works on: the tables as its database session sees them, with the
--                 lookups of infrastructure/adapters/persistence, and the events it collects; the
--                 caller, by infrastructure/adapters/auth/telegram_identity_provider.py and
--                 common/services/user_provider.py
--   PlaceOrder    commands/orders/place_order, with common/services/cart_pricing_service.py and
--                 price_type_resolver.py: `handle`, and `order_from` for its part before the
--                 insertion; the reader of prices and the insertion are parameters
--   CartCommands  commands/carts and common/services/cart_provider.py: one function for each handler,
--                 `current` and `current_or_new`; the catalog is a parameter, and so is what other
--                 requests commit before an insert
--   UserCommands  commands/users, without the next two
--   RegisterUser  commands/users/register_user and seed_admins, with
--                 infrastructure/adapters/auth/static_admin_registry.py
--   OrderCommands commands/orders, without place_order
--   Mediator      pipelines, infrastructure/mediator and infrastructure/adapters/outbox: a command
--                 runs inside the transaction pipeline, and the events pipeline inside that
--   Outbox        commands/outbox/relay_outbox with the table of messages; the broker is a parameter
--   Notifications commands/notifications with common/services/notification_recipient_resolver.py: the
--                 senders and the renderer are parameters, which may raise. Notifications/Consumers has
--                 infrastructure/task_manager/consumers: a message of the broker is a command sent
--                 through the mediator
--   Projection    infrastructure/adapters/persistence/sqlalchemy_catalog_projection_dao.py: `upsert`,
--                 `deactivate` and `sweep` over a table of the mirrored catalog
--   In CartCommands, UserCommands and OrderCommands, `Dispatch.handle` sends a command to its handler,
--   as setup/ioc/providers/mediator_provider.py (in src/goldy) does.
-- Shared parts
--   Result, Exec  the errors of the domain, and methods that change an object and may raise: what was
--                 written before a raise stays written
--   Event         common/events_collection.py and the events of all aggregates; a `Session` is an
--                 aggregate with the events of its request
--   Text          Python's `str` as a list of code points, with the tests that the sources use
--   Decimal       Python's `decimal.Decimal`, with exact arithmetic
--   Time          Python's `datetime` in UTC
--   Prelude       names of the standard library, and lemmas on lists and numbers
--   Tests         concrete carts, orders and people, and runs of the operations on them
--
-- A value object is a record, and its constructor a function into a result. Methods are functions on
-- a session. Each reading of the clock and each id that a generator mints is an argument. Identifiers
-- of aggregates (UUIDs) are natural numbers. A write to a line or to an account that was looked up
-- is a write to the first one with its key, which is the object that the lookup returns.
--
-- All loops of the sources run over lists, and are structural recursion; there is no fuel. Decimals
-- are exact: Python rounds only above 28 digits. The tables of white space and of decimal digits are
-- those of Unicode.
--
-- The tables of a request are those of one database session: what its own writes have made of them,
-- and, at an insert, of what others have committed before. A message of the outbox holds the event
-- that its payload spells.
--
-- Not modelled: the texts of errors and logging; the handlers that import the catalog and
-- the queries of src/goldy/application; failures of the database, brokers and 1C; the dialogs
-- (src/goldy/presentation); configuration (src/goldy/setup).
pub mod Prelude
pub mod Text
pub mod Result
pub mod Exec
pub mod Time
pub mod Decimal
pub mod Quantity
pub mod Money
pub mod Catalog
pub mod PhoneNumber
pub mod UserValues
pub mod OrderNumber
pub mod OrderValues
pub mod Event
pub mod Cart
pub mod OrderStatus
pub mod Order
pub mod Checkout
pub mod User
pub mod Access
pub mod PlaceOrder
pub mod Request
pub mod CartCommands
pub mod UserCommands
pub mod RegisterUser
pub mod OrderCommands
pub mod Mediator
pub mod Outbox
pub mod Projection
pub mod Notifications
pub mod Tests
