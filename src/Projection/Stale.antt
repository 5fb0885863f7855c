-- ===== src/Projection/Stale.antt =====
-- A row that a batch mentions with an old date, when the batch is finalised.
use goldy_telegram_bot.Projection.Newest.{same_key→eq, row_for}
use goldy_telegram_bot.Projection.{same_key, is_current, upsert_row, sweep, Row}
use goldy_telegram_bot.Time.{before, Datetime}
use goldy_telegram_bot.Text.{Text, same}
use goldy_telegram_bot.Decimal.{lt}
use goldy_telegram_bot.Prelude.{
  ◌≡◌, refl, ap, ◌∙◌, inl, inr, true, false, none, some, List, [], ◌∷◌, arith, Bool-cases, All,
}

module _ {A : Type 0} where
  -- No two rows have the same key.
  abbrev pub DistinctKeys : List (Row A) → Type 0
  DistinctKeys [] = Unit
  DistinctKeys (row ∷ rows) =
      All (λ other. same_key other.key row.key ≡ false) rows × DistinctKeys rows

  row_for-none :
      (k : List Text) (rows : List (Row A))
      → All (λ row. same_key row.key k ≡ false) rows
      → row_for k rows ≡ none
  unfolding row_for
  row_for-none k [] v = refl
  row_for-none k (row ∷ rows) v = ground (arith, v.0, row_for-none k rows v.1)

  sweep-none :
      (k : List Text) (batch_id : Text) (rows : List (Row A))
      → row_for k rows ≡ none
      → row_for k (sweep batch_id (λ row. true) rows).0 ≡ none
  unfolding row_for sweep
  sweep-none k batch_id [] h = refl
  sweep-none k batch_id (row ∷ rows) h = ground (arith, sweep-none k batch_id rows)

  sweep_gone :
      (k : List Text) (batch_id : Text) (old : Row A) (rows : List (Row A))
      → DistinctKeys rows
      → row_for k rows ≡ some old
      → same old.batch_id batch_id ≡ false
      → row_for k (sweep batch_id (λ row. true) rows).0 ≡ none
  unfolding row_for sweep
  sweep_gone k batch_id old [] d h e = cc
  sweep_gone k batch_id old (row ∷ rows) d h e = elim (Bool-cases (same_key row.key k)) [
    | inr other ↦ ground (arith, sweep_gone k batch_id old rows d.1)
    | inl this ↦
        let one : row.key ≡ k = same_key→eq row.key k this in
        let absent : row_for k rows ≡ none = row_for-none k rows (rw (← one) d.0) in
        ground (arith, sweep-none k batch_id rows absent)
  ]

  is_current_older :
      (row old : Row A) (t u : Datetime)
      → row.source_changed_at ≡ some t
      → old.source_changed_at ≡ some u
      → before t u ≡ true
      → is_current row.source_changed_at old.source_changed_at ≡ false
  unfolding is_current
  is_current_older row old t u et eu lt = ground arith

  upsert_row_stale :
      (row old : Row A) (rows : List (Row A))
      → row_for row.key rows ≡ some old
      → is_current row.source_changed_at old.source_changed_at ≡ false
      → upsert_row row rows ≡ (rows, 0)
  unfolding row_for upsert_row
  upsert_row_stale row old [] h e = cc
  upsert_row_stale row old (other ∷ rows) h e = ground (arith, upsert_row_stale row old rows)

  -- A row of another batch that this batch mentions, with an older date than the row has, is not
  -- written, keeps its stamp, and is deleted when this batch is swept over a table with different
  -- keys: the batch did mention it.
  pub stale_mention_swept :
      (row old : Row A) (t u : Datetime) (rows : List (Row A))
      → DistinctKeys rows
      → row_for row.key rows ≡ some old
      → row.source_changed_at ≡ some t
      → old.source_changed_at ≡ some u
      → before t u ≡ true
      → same old.batch_id row.batch_id ≡ false
      → ((upsert_row row rows).1 ≡ 0)
        × (row_for row.key (sweep row.batch_id (λ r. true) (upsert_row row rows).0).0 ≡ none)
  stale_mention_swept row old t u rows d h et eu lt e =
      let refused : upsert_row row rows ≡ (rows, 0) =
        upsert_row_stale row old rows h (is_current_older row old t u et eu lt) in
      (
        ap (λ r. r.1) refused,
        ap (λ r. row_for row.key (sweep row.batch_id (λ s. true) r.0).0) refused
            ∙ sweep_gone row.key row.batch_id old rows d h e,
      )
