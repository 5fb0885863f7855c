-- ===== src/CartCommands/Provider.antt =====
-- `CartProvider` of application/common/services/cart_provider.py: whose cart it returns, and what
-- it leaves behind when another request inserts a cart first.
use goldy_telegram_bot.Request.Tables.{find_by-append, find_by-append_skip, Distinct, Distinct-init}
use goldy_telegram_bot.UserValues.{ExternalAccountId}
use goldy_telegram_bot.Cart
use goldy_telegram_bot.CartCommands.{
  current_or_new, is_creation_of, withdraw_creation_of, add_cart, take_winner, insert_or_take,
  start, Minted,
}
use goldy_telegram_bot.Time.{before}
use goldy_telegram_bot.Result.{Result, ok}
use goldy_telegram_bot.Cart.{Cart}
use goldy_telegram_bot.Request.{
  find_by, cart_id, get_current_user_id, cart_by_user_id, set_carts, Work,
}
use goldy_telegram_bot.Event.{Event, cart_created}
use goldy_telegram_bot.Prelude.{
  ◌∙◌, ◌≢◌, ◌==◌, ℕ, ◌≡◌, refl, inl, inr, false, Option, none, some, List, [], ◌∷◌, ◌++◌, arith,
  Option-cases, All,
}

-- None of the events announces a cart with this id.
abbrev pub Unannounced : ℕ → List Event → Type 0
Unannounced id = All (λ event. is_creation_of id event ≡ false)

withdraw_none :
    (id : ℕ) (events : List Event) → Unannounced id events → withdraw_creation_of id events ≡ events
unfolding withdraw_creation_of
withdraw_none id [] h = refl
withdraw_none id (event ∷ events) h = ground (arith, withdraw_none id events h.1)

withdraw_last :
    (id owner : ℕ) (events : List Event)
    → Unannounced id events
    → withdraw_creation_of id (events ++ cart_created id owner ∷ []) ≡ events
unfolding withdraw_creation_of
withdraw_last id owner [] h = ground arith
withdraw_last id owner (event ∷ events) h = ground (arith, withdraw_last id owner events h.1)

-- The cart that `CartFactory.create` builds.
abbrev pub fresh_cart : Minted → ℕ → Cart
fresh_cart m owner = record {
  id = m.id;
  created_at = m.created_at;
  updated_at = m.updated_at;
  user_id = owner;
  lines = [];
}

abbrev after_start : List Cart → Minted → ℕ → Work → Option Cart → Result Cart × Work
after_start carts m owner w (some winner) = (ok winner, set_carts carts w)
after_start carts m owner w none = (
  ok (fresh_cart m owner),
  record (set_carts (carts ++ fresh_cart m owner ∷ []) w) {
    events = w.events ++ cart_created m.id owner ∷ [];
  },
)

-- Starting a cart for a person, at a clock that does not run backwards and with an id that no
-- collected event announces: if another request has committed a cart of that person meanwhile, that
-- cart is returned, no row is added and no announcement stays behind; otherwise a new empty cart is
-- added, returned and announced.
pub start_lem :
    (others : List Cart → List Cart) (m : Minted) (owner : ℕ) (w : Work)
    → before m.updated_at m.created_at ≡ false
    → Unannounced m.id w.events
    → start others m owner w
      ≡ after_start
          (others w.tables.carts)
          m
          owner
          w
          (cart_by_user_id owner (others w.tables.carts))
unfolding start Cart.create insert_or_take add_cart take_winner
start_lem others m owner w h u =
    elim (Option-cases (cart_by_user_id owner (others w.tables.carts))) [
      | inl absent ↦ ground arith
      | inr (winner, found) ↦ ground (arith, withdraw_last m.id owner w.events u)
    ]

-- What other requests commit meanwhile: nothing about the other people, and no cart with the new
-- id. The clock does not run backwards, and no collected event announces that id.
pub record Quiet (others : List Cart → List Cart) (m : Minted) (owner : ℕ) (w : Work) : Type 0 where
  pub kept :
      (other : ℕ)
      → other ≢ owner
      → cart_by_user_id other (others w.tables.carts) ≡ cart_by_user_id other w.tables.carts
  pub distinct : Distinct cart_id (others w.tables.carts ++ fresh_cart m owner ∷ [])
  pub forward : before m.updated_at m.created_at ≡ false
  pub unannounced : Unannounced m.id w.events

-- What the other people's rows, the people and the orders were, they are.
abbrev pub OthersKept : ℕ → Work → Work → Type 0
OthersKept owner w w' =
    ((other : ℕ)
      → other ≢ owner
      → cart_by_user_id other w'.tables.carts ≡ cart_by_user_id other w.tables.carts)
    × (w'.tables.users ≡ w.tables.users)
    × (w'.tables.orders ≡ w.tables.orders)

-- The cart is the caller's in the tables that the provider leaves.
pub record Provided (owner : ℕ) (w : Work) (cart : Cart) (w' : Work) : Type 0 where
  pub found : cart_by_user_id owner w'.tables.carts ≡ some cart
  pub distinct : Distinct cart_id w'.tables.carts
  pub kept : OthersKept owner w w'

module _ (others : List Cart → List Cart) (m : Minted) (owner : ℕ) (w : Work)
    (q : Quiet others m owner w) where
  start-Provided :
      (cart : Cart × Work) × (start others m owner w ≡ (ok cart.0, cart.1))
      × Provided owner w cart.0 cart.1
  unfolding find_by
  start-Provided =
      let e : start others m owner w
          ≡ after_start (others w.tables.carts) m owner w
              (cart_by_user_id owner (others w.tables.carts)) =
        start_lem others m owner w q.forward q.unannounced in
      elim (Option-cases (cart_by_user_id owner (others w.tables.carts))) [
        | inl absent ↦ (
          (
            fresh_cart m owner,
            record (set_carts (others w.tables.carts ++ fresh_cart m owner ∷ []) w) {
              events = w.events ++ cart_created m.id owner ∷ [];
            },
          ),
          ground arith,
          record {
            found = ground (
              arith,
              find_by-append (λ c. c.user_id == owner) (others w.tables.carts)
                  (fresh_cart m owner ∷ []) absent,
            );
            distinct = q.distinct;
            kept = (
              (λ (other : ℕ) (differs : other ≢ owner).
                  find_by-append_skip (λ c. c.user_id == other) (others w.tables.carts)
                    (fresh_cart m owner) (ground arith)
                  ∙ q.kept other differs),
              refl,
              refl,
            );
          },
        )
        | inr (winner, found) ↦ (
          (winner, set_carts (others w.tables.carts) w),
          ground arith,
          record {
            found = found;
            distinct =
                Distinct-init cart_id (others w.tables.carts) (fresh_cart m owner ∷ []) q.distinct;
            kept = (q.kept, refl, refl);
          },
        )
      ]

  pub current_or_new-Provided :
      (caller : Option ExternalAccountId)
      → get_current_user_id caller w ≡ (ok owner, w)
      → Distinct cart_id w.tables.carts
      → (cart : Cart × Work) × (current_or_new others m caller w ≡ (ok cart.0, cart.1))
        × Provided owner w cart.0 cart.1
  unfolding current_or_new
  current_or_new-Provided caller h d = elim (Option-cases (cart_by_user_id owner w.tables.carts)) [
    | inl absent ↦ let (c, e, provided) = start-Provided in (c, ground arith, provided)
    | inr (cart, found) ↦ (
      (cart, w),
      ground arith,
      record { found = found; distinct = d; kept = ((λ other differs. refl), refl, refl) },
    )
  ]
