-- ===== src/Tests/Carts.antt =====
-- Runs of a cart.
use goldy_telegram_bot.Cart.Announcements.{apply_announces}
use goldy_telegram_bot.Cart.Invariant.{run, created-IsValid}
use goldy_telegram_bot.Cart.Refinement.{apply-outcome, apply_done}
use goldy_telegram_bot.Text.{text, same}
use goldy_telegram_bot.Quantity.{Quantity}
use goldy_telegram_bot.Result.{quantity_limit_exceeded, ok, err}
use goldy_telegram_bot.Cart.{line_for, write_quantity, remove_line, Cart}
use goldy_telegram_bot.Event.{Session, cart_created, cart_item_added}
use goldy_telegram_bot.Tests.{morning, evening, pieces, bread, milk, salt, line_of, basket}
use goldy_telegram_bot.Quantity
use goldy_telegram_bot.Cart
use goldy_telegram_bot.Cart.Changes.{quantity_of, IsValid, Change, put, assign, decrease, apply}
use goldy_telegram_bot.Prelude.{◌≤◌, arith, ◌≡◌, ◌∷◌, refl, [], List}

-- Another loaf, a new product, one bottle less, and a change of what is not there.
abbrev changes : List Change
changes =
    put bread (pieces 3) evening evening
    ∷ put salt (pieces 1) evening evening
    ∷ decrease milk evening
    ∷ assign milk (pieces 4) evening
    ∷ []

in_range : {q : Quantity} → (1 ≤ q.value) × (q.value ≤ 1000000) → Quantity.IsValid q
in_range h = record { low = h.0; high = h.1 }

basket-IsValid : IsValid basket.entity
unfolding line_for same
basket-IsValid = ground arith

three_more : (apply (put bread (pieces 3) evening evening) basket).0 ≡ ok tt
unfolding apply line_for same Quantity.add Quantity.make write_quantity
three_more = refl

one_less_milk : (apply (decrease milk evening) basket).1.entity.lines ≡ line_of bread 2 ∷ []
unfolding apply line_for same Quantity.one_less Quantity.make write_quantity remove_line
one_less_milk = refl

apply-outcome_example :
    (apply (put bread (pieces 999999) evening evening) basket).0 ≡ err quantity_limit_exceeded
unfolding line_for same
apply-outcome_example =
    apply-outcome basket basket-IsValid (put bread (pieces 999999) evening evening)
      (in_range (omega arith, omega arith))

apply_done_example :
    quantity_of bread (apply (put bread (pieces 3) evening evening) basket).1.entity ≡ 5
unfolding line_for same
apply_done_example =
    apply_done basket basket-IsValid (put bread (pieces 3) evening evening)
      (in_range (omega arith, omega arith)) three_more bread

apply_announces_example :
    (apply (put bread (pieces 3) evening evening) basket).1.events
    ≡ cart_item_added 7 41 (text "bread") 5 ∷ []
unfolding apply line_for same Quantity.add Quantity.make write_quantity
apply_announces_example =
    apply_announces basket basket-IsValid (put bread (pieces 3) evening evening)
      (in_range (omega arith, omega arith)) three_more

abbrev opened : Session Cart
opened = record {
  entity = record { id = 7; created_at = morning; updated_at = evening; user_id = 41; lines = [] };
  events = cart_created 7 41 ∷ [];
}

created-IsValid_example : IsValid (run changes opened).entity
unfolding Cart.create
created-IsValid_example = created-IsValid 7 41 morning evening [] opened changes refl (
  in_range (omega arith, omega arith),
  (in_range (omega arith, omega arith), (tt, (in_range (omega arith, omega arith), tt))),
)
