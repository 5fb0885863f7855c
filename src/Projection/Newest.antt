-- ===== src/Projection/Newest.antt =====
-- Which of several deliveries of a row the table of sqlalchemy_catalog_projection_dao.py keeps.
use goldy_telegram_bot.Projection.{same_key, is_current, upsert_row, Row}
use goldy_telegram_bot.Time.{instant, Datetime}
use goldy_telegram_bot.Text.{Text, same_refl, same_iff}
use goldy_telegram_bot.Prelude.{
  ◌≡◌, refl, ◌≢◌, inl, inr, true, Option, none, some, List, [], ◌∷◌, arith, if◌then◌else◌,
  Option-cases,
}

same_key_refl : (k : List Text) → same_key k k ≡ true
same_key_refl [] = refl
same_key_refl (a ∷ k) = ground (arith, same_refl a, same_key_refl k)

pub same_key→eq : (k l : List Text) → same_key k l ≡ true → k ≡ l
same_key→eq [] [] h = refl
same_key→eq [] (b ∷ l) h = cc
same_key→eq (a ∷ k) [] h = cc
same_key→eq (a ∷ k) (b ∷ l) h = ground (arith, same_iff a b, same_key→eq k l)

module _ {A : Type 0} where
  unfoldable pub row_for : List Text → List (Row A) → Option (Row A)
  row_for k [] = none
  row_for k (row ∷ rows) = if same_key row.key k then some row else row_for k rows

  -- The row that stands after `row` was delivered.
  abbrev kept : Row A → Option (Row A) → Row A
  kept row none = row
  kept row (some old) = if is_current row.source_changed_at old.source_changed_at then row else old

  pub row_for-upsert_row :
      (k : List Text) (row : Row A) (rows : List (Row A))
      → row_for k (upsert_row row rows).0
        ≡ (if same_key row.key k then some (kept row (row_for k rows)) else row_for k rows)
  unfolding row_for upsert_row
  row_for-upsert_row k row [] = ground arith
  row_for-upsert_row k row (old ∷ rows) = ground (
    arith,
    row_for-upsert_row k row rows,
    same_key→eq old.key row.key,
    same_key→eq old.key k,
    same_key→eq row.key k,
    same_key_refl k,
    same_key_refl old.key,
  )

  dated_kept :
      (a b : Row A) (t u : Datetime) (old : Option (Row A))
      → a.source_changed_at ≡ some t
      → b.source_changed_at ≡ some u
      → instant t ≢ instant u
      → kept b (some (kept a old)) ≡ kept a (some (kept b old))
  unfolding is_current
  dated_kept a b t u none ea eb h = ground arith
  dated_kept a b t u (some old) ea eb h = elim (Option-cases old.source_changed_at) [
    | inl undated ↦ ground arith
    | inr (v, dated) ↦ ground arith
  ]

  -- Two deliveries that the source has dated differently leave the same row for every key in
  -- whichever order they arrive, whatever the table held.
  pub deliveries_commute :
      (a b : Row A) (t u : Datetime) (rows : List (Row A)) (k : List Text)
      → a.source_changed_at ≡ some t
      → b.source_changed_at ≡ some u
      → instant t ≢ instant u
      → row_for k (upsert_row b (upsert_row a rows).0).0
        ≡ row_for k (upsert_row a (upsert_row b rows).0).0
  deliveries_commute a b t u rows k ea eb h = ground (
    arith,
    row_for-upsert_row k b (upsert_row a rows).0,
    row_for-upsert_row k a (upsert_row b rows).0,
    row_for-upsert_row k a rows,
    row_for-upsert_row k b rows,
    dated_kept a b t u (row_for k rows) ea eb h,
  )
