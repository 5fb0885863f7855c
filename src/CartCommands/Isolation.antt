-- ===== src/CartCommands/Isolation.antt =====
-- Whose cart a command of application/commands/carts reaches.
use goldy_telegram_bot.CartCommands.Owned.{
  KeepsOwner, on_cart-OthersKept, clear-KeepsOwner, pruned-KeepsOwner, then-KeepsOwner,
  current-cases, current-bind,
}
use goldy_telegram_bot.CartCommands.Provider.{current_or_new-Provided, Quiet, OthersKept}
use goldy_telegram_bot.Quantity
use goldy_telegram_bot.Text.{Text}
use goldy_telegram_bot.Quantity.{Quantity}
use goldy_telegram_bot.Prelude.Int.{ℤ}
use goldy_telegram_bot.UserValues.{ExternalAccountId}
use goldy_telegram_bot.Result.{Result-cases, ok}
use goldy_telegram_bot.Cart
use goldy_telegram_bot.CartCommands.Dispatch.{handle, CartCommand}
use goldy_telegram_bot.CartCommands.{
  CartSummaryView, to_view, Catalog, Minted, current, remove_missing,
}
use goldy_telegram_bot.Catalog.{make_source_id, ProductId}
use goldy_telegram_bot.Time.{Datetime}
use goldy_telegram_bot.Request.Tables.{Distinct}
use goldy_telegram_bot.Exec.{pure, gets, ◌>>◌, Exec}
use goldy_telegram_bot.Cart.{Cart}
use goldy_telegram_bot.Request.{get_current_user_id, cart_id, cart_by_user_id, on_cart, Work}
use goldy_telegram_bot.Event.{Session}
use goldy_telegram_bot.Prelude.{
  ◌∙◌, map, if◌then◌else◌, Bool-cases, is_nil, none, inl, inr, Option, List, ℕ, ◌≡◌, refl, ◌≢◌,
  some, arith,
}

module _ (catalog : Catalog) (others : List Cart → List Cart) (m : Minted)
    (caller : Option ExternalAccountId) (owner : ℕ) (w : Work) where
  abbrev after : CartCommand → Work
  unfolding handle
  after c = (handle catalog others m caller c w).1

  unchanged : (c : CartCommand) → after c ≡ w → OthersKept owner w (after c)
  unchanged c e = rw e ((λ other differs. refl), refl, refl)

  written :
      {A : Type 0} (c : CartCommand) (method : Exec (Session Cart) A) (cart : Cart)
      → KeepsOwner method
      → Distinct cart_id w.tables.carts
      → cart_by_user_id owner w.tables.carts ≡ some cart
      → after c ≡ (on_cart method cart w).1
      → OthersKept owner w (after c)
  written c method cart keeps d h e = rw e (on_cart-OthersKept method cart owner w keeps d h)

  set_quantity-kept :
      (product : Text) (quantity : ℤ) (now : Datetime)
      → get_current_user_id caller w ≡ (ok owner, w)
      → Distinct cart_id w.tables.carts
      → OthersKept owner w (after (CartCommand.set_quantity product quantity now))
  unfolding handle Cart.set_item_quantity Cart.require_line
  set_quantity-kept product quantity now h d = elim (current-cases caller owner w h) [
    | inl e ↦ unchanged (CartCommand.set_quantity product quantity now) (ground arith)
    | inr (cart, e, found) ↦ elim (Result-cases (make_source_id product)) [
      | inr (x, refused) ↦ unchanged (CartCommand.set_quantity product quantity now) (ground arith)
      | inl (p, ep) ↦ elim (Result-cases (Quantity.make quantity)) [
        | inr (x, refused) ↦
            unchanged (CartCommand.set_quantity product quantity now) (ground arith)
        | inl (q, eq) ↦
            written (CartCommand.set_quantity product quantity now)
              (do Cart.set_item_quantity p q now; gets (λ s. to_view (some p) s.entity)) cart
              (λ s. ground arith) d found (ground arith)
      ]
    ]
  ]

  decrease-kept :
      (product : Text) (now : Datetime)
      → get_current_user_id caller w ≡ (ok owner, w)
      → Distinct cart_id w.tables.carts
      → OthersKept owner w (after (CartCommand.decrease product now))
  unfolding handle Cart.decrease_item Cart.set_item_quantity Cart.remove_item Cart.require_line
  decrease-kept product now h d = elim (current-cases caller owner w h) [
    | inl e ↦ unchanged (CartCommand.decrease product now) (ground arith)
    | inr (cart, e, found) ↦ elim (Result-cases (make_source_id product)) [
      | inr (x, refused) ↦ unchanged (CartCommand.decrease product now) (ground arith)
      | inl (p, ep) ↦
          written (CartCommand.decrease product now)
            (do Cart.decrease_item p now; gets (λ s. to_view (some p) s.entity)) cart
            (λ s. ground arith) d found (ground arith)
    ]
  ]

  remove-kept :
      (product : Text) (now : Datetime)
      → get_current_user_id caller w ≡ (ok owner, w)
      → Distinct cart_id w.tables.carts
      → OthersKept owner w (after (CartCommand.remove product now))
  unfolding handle Cart.remove_item Cart.require_line
  remove-kept product now h d = elim (current-cases caller owner w h) [
    | inl e ↦ unchanged (CartCommand.remove product now) (ground arith)
    | inr (cart, e, found) ↦ elim (Result-cases (make_source_id product)) [
      | inr (x, refused) ↦ unchanged (CartCommand.remove product now) (ground arith)
      | inl (p, ep) ↦
          written (CartCommand.remove product now)
            (do Cart.remove_item p now; gets (λ s. to_view (some p) s.entity)) cart
            (λ s. ground arith) d found (ground arith)
    ]
  ]

  empty-kept :
      (now : Datetime)
      → get_current_user_id caller w ≡ (ok owner, w)
      → Distinct cart_id w.tables.carts
      → OthersKept owner w (after (CartCommand.empty now))
  unfolding handle Cart.clear
  empty-kept now h d = elim (current-cases caller owner w h) [
    | inl e ↦ unchanged (CartCommand.empty now) (ground arith)
    | inr (cart, e, found) ↦
        written (CartCommand.empty now) (do Cart.clear now; gets (λ s. to_view none s.entity)) cart
          (then-KeepsOwner (Cart.clear now) (λ s. to_view none s.entity) (clear-KeepsOwner now)) d
          found
          (current-bind (current caller)
            (on_cart (do Cart.clear now; gets (λ s. to_view none s.entity))) cart w e)
  ]

  remove_unavailable-kept :
      (now : Datetime)
      → get_current_user_id caller w ≡ (ok owner, w)
      → Distinct cart_id w.tables.carts
      → OthersKept owner w (after (CartCommand.remove_unavailable now))
  unfolding handle
  remove_unavailable-kept now h d = elim (current-cases caller owner w h) [
    | inl e ↦ unchanged (CartCommand.remove_unavailable now) (ground arith)
    | inr (cart, e, found) ↦
        let products : List ProductId = map (λ line. line.product_id) cart.lines in
        let pruning : Exec (Session Cart) Unit =
          if is_nil products
          then pure tt
          else remove_missing (catalog.read_existing_product_ids products) products now in
        written (CartCommand.remove_unavailable now) (do pruning; gets (λ s. to_view none s.entity))
          cart
          (then-KeepsOwner pruning (λ s. to_view none s.entity)
            (pruned-KeepsOwner catalog.read_existing_product_ids products now))
          d found
          (current-bind (current caller)
            (λ (c : Cart).
              let ps : List ProductId = map (λ line. line.product_id) c.lines in
              on_cart
                (do
                  if is_nil ps
                      then pure tt
                      else remove_missing (catalog.read_existing_product_ids ps) ps now
                  gets (λ s. to_view none s.entity))
                c)
            cart w e)
  ]

  add-kept :
      (product : Text) (quantity : ℤ) (added_at now : Datetime)
      → get_current_user_id caller w ≡ (ok owner, w)
      → Distinct cart_id w.tables.carts
      → Quiet others m owner w
      → OthersKept owner w (after (CartCommand.add product quantity added_at now))
  unfolding handle Cart.add_item
  add-kept product quantity added_at now h d quiet =
      let c : CartCommand = CartCommand.add product quantity added_at now in
      elim (Result-cases (make_source_id product)) [
        | inr (x, refused) ↦ unchanged c (ground arith)
        | inl (p, ep) ↦ elim (Bool-cases (catalog.product_exists p)) [
          | inr missing ↦ unchanged c (ground arith)
          | inl exists ↦
              let ((cart, w'), e, provided) =
                current_or_new-Provided others m owner w quiet caller h d in
              elim (Result-cases (Quantity.make quantity)) [
                | inr (x, refused) ↦ let same : after c ≡ w' = ground arith in rw same provided.kept
                | inl (q, eq) ↦
                    let method : Exec (Session Cart) CartSummaryView = (do
                      Cart.add_item p q added_at now
                      gets (λ s. to_view (some p) s.entity)) in
                    let same : after c ≡ (on_cart method cart w').1 = ground arith in
                    let kept : OthersKept owner w' (on_cart method cart w').1 =
                      on_cart-OthersKept method cart owner w' (λ s. ground arith) provided.distinct
                        provided.found in
                    rw same (
                      (λ (other : ℕ) (differs : other ≢ owner).
                          kept.0 other differs ∙ provided.kept.0 other differs),
                      kept.1 ∙ provided.kept.1,
                      kept.2 ∙ provided.kept.2,
                    )
              ]
        ]
      ]

  -- Whatever cart command a known caller sends, accepted or refused: the carts of all other people,
  -- the people and the orders stay what they were, if the ids of the carts differ, the id of a new
  -- cart included, no event announces that id yet, the clock does not run backwards, and what other
  -- requests commit meanwhile concerns none of these carts.
  pub handle_isolated :
      (c : CartCommand)
      → get_current_user_id caller w ≡ (ok owner, w)
      → Distinct cart_id w.tables.carts
      → Quiet others m owner w
      → OthersKept owner w (handle catalog others m caller c w).1
  unfolding handle after
  handle_isolated (CartCommand.add product quantity added_at now) h d quiet =
      add-kept product quantity added_at now h d quiet
  handle_isolated (CartCommand.set_quantity product quantity now) h d quiet =
      set_quantity-kept product quantity now h d
  handle_isolated (CartCommand.decrease product now) h d quiet = decrease-kept product now h d
  handle_isolated (CartCommand.remove product now) h d quiet = remove-kept product now h d
  handle_isolated (CartCommand.empty now) h d quiet = empty-kept now h d
  handle_isolated (CartCommand.remove_unavailable now) h d quiet = remove_unavailable-kept now h d
