-- ===== src/CartCommands/Pruning.antt =====
-- The loop of application/commands/carts/remove_unavailable_cart_lines over a well-formed cart.
use goldy_telegram_bot.Request.Tables.{Distinct}
use goldy_telegram_bot.CartCommands.Owned.{on_cart-Reaches, pruned-KeepsOwner}
use goldy_telegram_bot.Exec.{Exec, pure}
use goldy_telegram_bot.UserValues.{ExternalAccountId}
use goldy_telegram_bot.Request.{cart_id, cart_by_user_id, on_cart, get_current_user_id, Work}
use goldy_telegram_bot.Cart
use goldy_telegram_bot.Cart.Lines.{IsLines, line_for-append}
use goldy_telegram_bot.CartCommands.{
  to_view, current, remove_unavailable_cart_lines, Catalog, remove_missing,
}
use goldy_telegram_bot.Catalog.{ProductId, same_id}
use goldy_telegram_bot.Time.{Datetime}
use goldy_telegram_bot.Text.{same_refl, same_iff}
use goldy_telegram_bot.Result.{ok}
use goldy_telegram_bot.Cart.{line_for, remove_line, CartLine, Cart}
use goldy_telegram_bot.Event.{Session}
use goldy_telegram_bot.Prelude.{
  ℕ, Option, is_nil, ◌≡◌, refl, sym, ◌∙◌, inl, inr, none, some, List, [], ◌∷◌, ◌++◌, map, arith,
  if◌then◌else◌, Bool-cases, any, All,
}
use mathlib.Core.List.{append_assoc}

-- The lines of the products that are among the existing ones.
unfoldable pub available : List ProductId → List CartLine → List CartLine
available existing [] = []
available existing (line ∷ lines) =
    let rest = available existing lines in
    if any (same_id line.product_id) existing then line ∷ rest else rest

line_for-skip :
    (kept : List CartLine) (line : CartLine) (rest : List CartLine)
    → line_for line.product_id kept ≡ none
    → (line_for line.product_id (kept ++ line ∷ rest) ≡ some line)
      × (remove_line line.product_id (kept ++ line ∷ rest) ≡ kept ++ rest)
unfolding line_for remove_line
line_for-skip [] line rest h = ground (arith, same_refl line.product_id.value)
line_for-skip (l ∷ kept) line rest h = ground (arith, line_for-skip kept line rest)

-- No line of the rest stands among those that were kept.
abbrev Apart : List CartLine → List CartLine → Type 0
Apart kept = All (λ line. line_for line.product_id kept ≡ none)

none_kept : (rest : List CartLine) → Apart [] rest
unfolding line_for
none_kept [] = tt
none_kept (line ∷ rest) = (refl, none_kept rest)

Apart-append :
    (kept : List CartLine) (line : CartLine) (rest : List CartLine)
    → line_for line.product_id rest ≡ none
    → Apart kept rest
    → Apart (kept ++ line ∷ []) rest
unfolding line_for
Apart-append kept line [] h a = tt
Apart-append kept line (l ∷ rest) h a = (
  ground (
    arith,
    line_for-append l.product_id kept line,
    same_iff l.product_id.value line.product_id.value,
    same_iff line.product_id.value l.product_id.value,
  ),
  Apart-append kept line rest (ground arith) a.1,
)

module _ (existing : List ProductId) (now : Datetime) where
  remove_item-skip :
      (kept : List CartLine) (line : CartLine) (rest : List CartLine) (s : Session Cart)
      → s.entity.lines ≡ kept ++ line ∷ rest
      → line_for line.product_id kept ≡ none
      → ((Cart.remove_item line.product_id now s).0 ≡ ok tt)
        × ((Cart.remove_item line.product_id now s).1.entity.lines ≡ kept ++ rest)
  unfolding Cart.remove_item Cart.require_line
  remove_item-skip kept line rest s e h = ground (arith, line_for-skip kept line rest h)

  prune-rest :
      (kept rest : List CartLine) (s : Session Cart)
      → s.entity.lines ≡ kept ++ rest
      → Apart kept rest
      → IsLines rest
      → ((remove_missing existing (map (λ line. line.product_id) rest) now s).0 ≡ ok tt)
        × ((remove_missing existing (map (λ line. line.product_id) rest) now s).1.entity.lines
            ≡ kept ++ available existing rest)
  unfolding remove_missing available
  prune-rest kept [] s e a v = (refl, e)
  prune-rest kept (line ∷ rest) s e a v =
      elim (Bool-cases (any (same_id line.product_id) existing)) [
        | inl there ↦ ground (
          arith,
          prune-rest (kept ++ line ∷ []) rest s (e ∙ sym (append_assoc kept (line ∷ []) rest))
              (Apart-append kept line rest v.1 a.1) v.2,
          append_assoc kept (line ∷ []) (available existing rest),
        )
        | inr gone ↦
            let s' : Session Cart = (Cart.remove_item line.product_id now s).1 in
            let removed : ((Cart.remove_item line.product_id now s).0 ≡ ok tt)
                × (s'.entity.lines ≡ kept ++ rest) =
              remove_item-skip kept line rest s e a.0 in
            ground (arith, removed, prune-rest kept rest s' removed.1 a.1 v.2)
      ]

-- The handler's own test for an empty cart changes nothing.
pruned_lem :
    (existing : List ProductId → List ProductId) (lines : List CartLine) (now : Datetime)
    (s : Session Cart)
    → s.entity.lines ≡ lines
    → IsLines lines
    → let products : List ProductId = map (λ line. line.product_id) lines in
      let pruning : Exec (Session Cart) Unit =
        (if is_nil products then pure tt else remove_missing (existing products) products now) in
      ((pruning s).0 ≡ ok tt) × ((pruning s).1.entity.lines ≡ available (existing products) lines)
unfolding available
pruned_lem existing [] now s e v = (refl, e)
pruned_lem existing (line ∷ lines) now s e v =
    prune-rest (existing (map (λ l. l.product_id) (line ∷ lines))) now [] (line ∷ lines) s e
      (none_kept (line ∷ lines)) v

-- A known person with a well-formed cart, among carts with different ids, has the unavailable lines
-- removed: the command succeeds, and their cart is left with exactly the lines of the products that
-- the catalog says exist, in their order, which the summary counts.
pub remove_unavailable_done :
    (catalog : Catalog) (caller : Option ExternalAccountId) (owner : ℕ) (now : Datetime) (w : Work)
    (cart : Cart)
    → get_current_user_id caller w ≡ (ok owner, w)
    → Distinct cart_id w.tables.carts
    → cart_by_user_id owner w.tables.carts ≡ some cart
    → IsLines cart.lines
    → (after : Cart) × (cart_by_user_id owner
          (remove_unavailable_cart_lines catalog caller now w).1.tables.carts
        ≡ some after)
      × (after.lines
          ≡ available
              (catalog.read_existing_product_ids (map (λ line. line.product_id) cart.lines))
              cart.lines)
      × ((remove_unavailable_cart_lines catalog caller now w).0 ≡ ok (to_view none after))
unfolding remove_unavailable_cart_lines current
remove_unavailable_done catalog caller owner now w cart h d found v =
    let products : List ProductId = map (λ line. line.product_id) cart.lines in
    let pruning : Exec (Session Cart) Unit =
      (if is_nil products
        then pure tt
        else remove_missing (catalog.read_existing_product_ids products) products now) in
    let s : Session Cart = record { entity = cart; events = w.events } in
    let pruned : ((pruning s).0 ≡ ok tt)
        × ((pruning s).1.entity.lines
            ≡ available (catalog.read_existing_product_ids products) cart.lines) =
      pruned_lem catalog.read_existing_product_ids cart.lines now s refl v in
    let e : current caller w ≡ (ok cart, w) = ground arith in
    let reached : cart_by_user_id owner (on_cart pruning cart w).1.tables.carts
        ≡ some (pruning s).1.entity =
      (on_cart-Reaches pruning cart owner w
        (pruned-KeepsOwner catalog.read_existing_product_ids products now) d found).0 in
    ((pruning s).1.entity, ground (arith), pruned.1, ground (arith))
