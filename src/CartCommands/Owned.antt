-- ===== src/CartCommands/Owned.antt =====
-- What the handlers of application/commands/carts share: a method of the cart that was read, and
-- the reading itself.
use goldy_telegram_bot.CartCommands.Provider.{OthersKept}
use goldy_telegram_bot.UserValues.{ExternalAccountId}
use goldy_telegram_bot.Result.{Result, cart_not_found, ok, err}
use goldy_telegram_bot.Cart
use goldy_telegram_bot.CartCommands.{current, remove_missing}
use goldy_telegram_bot.Catalog.{ProductId}
use goldy_telegram_bot.Time.{Datetime}
use goldy_telegram_bot.Request.Tables.{
  find_by-holds, Distinct, find_by-key, find_by-save_other, find_by-save_same,
}
use goldy_telegram_bot.Exec.{◌>>=◌, pure, gets, ◌>>◌, Exec}
use goldy_telegram_bot.Cart.{Cart}
use goldy_telegram_bot.Request.{get_current_user_id, cart_id, cart_by_user_id, on_cart, Work}
use goldy_telegram_bot.Event.{Session}
use goldy_telegram_bot.Prelude.{
  ap, if◌then◌else◌, Bool-cases, is_nil, ◌⊎◌, inl, inr, Option, Option-cases, List, [], ◌∷◌, ℕ, ◌≡◌,
  refl, ◌≢◌, true, some, arith, ◌==◌,
}

-- A method of a cart leaves its identity and its owner.
abbrev pub KeepsOwner : {A : Type 0} → Exec (Session Cart) A → Type 0
KeepsOwner method =
    (s : Session Cart)
    → ((method s).1.entity.id ≡ s.entity.id) × ((method s).1.entity.user_id ≡ s.entity.user_id)

-- What `on_cart` leaves of the carts: the caller's is what the method left, the others are as they
-- were.
abbrev pub Reaches : ℕ → Cart → Work → Work → Type 0
Reaches owner cart w w' =
    (cart_by_user_id owner w'.tables.carts ≡ some cart)
    × ((other : ℕ)
        → other ≢ owner
        → cart_by_user_id other w'.tables.carts ≡ cart_by_user_id other w.tables.carts)
    × (w'.tables.users ≡ w.tables.users)
    × (w'.tables.orders ≡ w.tables.orders)

pub on_cart-Reaches :
    {A : Type 0} (method : Exec (Session Cart) A) (cart : Cart) (owner : ℕ) (w : Work)
    → KeepsOwner method
    → Distinct cart_id w.tables.carts
    → cart_by_user_id owner w.tables.carts ≡ some cart
    → Reaches owner
        (method (record { entity = cart; events = w.events })).1.entity
        w
        (on_cart method cart w).1
on_cart-Reaches method cart owner w keeps d h =
    let s : Session Cart = record { entity = cart; events = w.events } in
    let mine : (cart.user_id == owner) ≡ true =
      find_by-holds (λ c. c.user_id == owner) w.tables.carts cart h in
    let after : Cart = (method s).1.entity in
    let same_key : (cart_id after == cart_id cart) ≡ true = ground (arith, keeps s) in
    (
      find_by-save_same cart_id (λ c. c.user_id == owner) after cart w.tables.carts d h (keeps s).0
          (ground (arith, keeps s)),
      λ (other : ℕ) (differs : other ≢ owner).
          find_by-save_other cart_id (λ c. c.user_id == other) after cart w.tables.carts
            (rw (keeps s).0 (find_by-key cart_id (λ c. c.user_id == owner) w.tables.carts cart d h))
            (ground arith) (ground (arith, keeps s)),
      refl,
      refl,
    )

-- A step on the caller's cart once it was read.
pub on_cart-OthersKept :
    {A : Type 0} (method : Exec (Session Cart) A) (cart : Cart) (owner : ℕ) (w : Work)
    → KeepsOwner method
    → Distinct cart_id w.tables.carts
    → cart_by_user_id owner w.tables.carts ≡ some cart
    → OthersKept owner w (on_cart method cart w).1
on_cart-OthersKept method cart owner w keeps d h =
    let r : Reaches owner (method (record { entity = cart; events = w.events })).1.entity w
        (on_cart method cart w).1 =
      on_cart-Reaches method cart owner w keeps d h in
    (r.1, r.2, r.3)

pub remove_missing-KeepsOwner :
    (existing products : List ProductId) (now : Datetime)
    → KeepsOwner (remove_missing existing products now)
unfolding remove_missing Cart.remove_item Cart.require_line
remove_missing-KeepsOwner existing [] now s = (refl, refl)
remove_missing-KeepsOwner existing (p ∷ products) now s = ground (
  arith,
  remove_missing-KeepsOwner existing products now s,
  remove_missing-KeepsOwner existing products now (Cart.remove_item p now s).1,
)

pub clear-KeepsOwner : (now : Datetime) → KeepsOwner (Cart.clear now)
unfolding Cart.clear
clear-KeepsOwner now s = elim (Bool-cases (is_nil s.entity.lines)) [
  | inl e ↦ rw e (refl, refl)
  | inr e ↦ rw e (refl, refl)
]

pub pruned-KeepsOwner :
    (existing : List ProductId → List ProductId) (products : List ProductId) (now : Datetime)
    → KeepsOwner
        (if is_nil products then pure tt else remove_missing (existing products) products now)
pruned-KeepsOwner existing [] now s = (refl, refl)
pruned-KeepsOwner existing (p ∷ products) now s =
    remove_missing-KeepsOwner (existing (p ∷ products)) (p ∷ products) now s

pub then-KeepsOwner :
    {A : Type 0} (method : Exec (Session Cart) Unit) (read : Session Cart → A)
    → KeepsOwner method
    → KeepsOwner (do method; gets read)
then-KeepsOwner method read keeps s = ground (arith, keeps s)

-- The handler reads the caller's cart first, and stops where there is none.
pub current-cases :
    (caller : Option ExternalAccountId) (owner : ℕ) (w : Work)
    → get_current_user_id caller w ≡ (ok owner, w)
    → (current caller w ≡ (err cart_not_found, w))
      ⊎ ((cart : Cart) × (current caller w ≡ (ok cart, w))
          × (cart_by_user_id owner w.tables.carts ≡ some cart))
unfolding current
current-cases caller owner w h = elim (Option-cases (cart_by_user_id owner w.tables.carts)) [
  | inl absent ↦ inl (ground arith)
  | inr (cart, found) ↦ inr (cart, ground arith, found)
]

-- A handler that has read the cart goes on with it.
pub current-bind :
    {A : Type 0} (first : Exec Work Cart) (follow : Cart → Exec Work A) (cart : Cart) (w : Work)
    → first w ≡ (ok cart, w)
    → ((first >>= follow) w).1 ≡ (follow cart w).1
current-bind first follow cart w e =
    ap (λ (r : Result Cart × Work). (((λ (v : Work). r) >>= follow) w).1) e
