-- ===== src/Tests/Projections.antt =====
-- Runs of the tables that mirror the catalog.
use goldy_telegram_bot.Projection.Newest.{row_for, deliveries_commute}
use goldy_telegram_bot.Projection.Stale.{stale_mention_swept}
use goldy_telegram_bot.Projection.{is_current, upsert_row, upsert, deactivate, sweep, Row}
use goldy_telegram_bot.Time.{Datetime}
use goldy_telegram_bot.Text.{Text, text, same}
use goldy_telegram_bot.Tests.{morning, evening}
use goldy_telegram_bot.Prelude.{◌≡◌, refl, true, false, none, some, [], ◌∷◌, arith, ◌==◌, ℕ}

-- A price of bread in the retail list.
abbrev price : ℕ → Datetime → Text → Row ℕ
price amount changed_at batch_id = record {
  key = text "bread" ∷ text "retail" ∷ [];
  columns = amount;
  is_active = true;
  batch_id = batch_id;
  source_changed_at = some changed_at;
}

abbrev old_price : Row ℕ
old_price = price 50 morning (text "second")

abbrev new_price : Row ℕ
new_price = price 60 evening (text "first")

deliveries_commute_example :
    row_for new_price.key (upsert_row old_price (upsert_row new_price []).0).0
    ≡ row_for new_price.key (upsert_row new_price (upsert_row old_price []).0).0
deliveries_commute_example =
    deliveries_commute new_price old_price evening morning [] new_price.key refl refl (omega arith)

stale_mention_swept_example :
    ((upsert_row old_price (new_price ∷ [])).1 ≡ 0)
    × (row_for old_price.key
          (sweep old_price.batch_id (λ row. true) (upsert_row old_price (new_price ∷ [])).0).0
        ≡ none)
unfolding row_for same
stale_mention_swept_example =
    stale_mention_swept old_price new_price morning evening (new_price ∷ []) (tt, tt) refl refl refl
      refl refl

-- Another list's rows survive a sweep of one list.
one_list :
    (sweep (text "third") (λ row. row.columns == 50) (old_price ∷ new_price ∷ [])).0
    ≡ new_price ∷ []
unfolding sweep same
one_list = refl

hidden :
    (deactivate (text "second") (new_price ∷ [])).0 ≡ record new_price { is_active = false } ∷ []
unfolding deactivate same
hidden = refl

counted_writes : (upsert (old_price ∷ []) (new_price ∷ [])).1 ≡ 0
unfolding upsert upsert_row is_current same
counted_writes = refl
