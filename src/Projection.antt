-- ===== src/Projection.antt =====
-- infrastructure/adapters/persistence/sqlalchemy_catalog_projection_dao.py: the tables that mirror
-- the catalog of 1C. A row stands for one of any of the six tables; the columns that only one of
-- them has are a parameter. The rows of one batch have different keys, as the statement requires.
use goldy_telegram_bot.Time.{before, Datetime}
use goldy_telegram_bot.Text.{Text, same}
pub mod Newest
pub mod Stale
use goldy_telegram_bot.Prelude.{
  suc, ◌+◌, Bool, true, false, ◌&&◌, not, Option, none, some, List, [], ◌∷◌, if◌then◌else◌, ℕ,
}

pub record Row (A : Type 0) : Type 0 where
  pub key : List Text
  pub columns : A
  pub is_active : Bool
  pub batch_id : Text
  pub source_changed_at : Option Datetime

abbrev pub same_key : List Text → List Text → Bool
same_key [] [] = true
same_key (a ∷ k) (b ∷ l) = same a b && same_key k l
same_key k l = false

-- `excluded >= table`, where a row without a date is taken as the newer one
unfoldable pub is_current : Option Datetime → Option Datetime → Bool
is_current none old = true
is_current (some t) none = true
is_current (some t) (some u) = not (before t u)

module _ {A : Type 0} where
  -- `ON CONFLICT DO UPDATE` of one row, and how many rows it has written
  unfoldable pub upsert_row : Row A → List (Row A) → List (Row A) × ℕ
  unfolding is_current
  upsert_row row [] = (row ∷ [], 1)
  upsert_row row (old ∷ rows) =
      let (rest, written) = upsert_row row rows in
      if same_key old.key row.key
      then (if is_current row.source_changed_at old.source_changed_at
          then (row ∷ rows, 1)
          else (old ∷ rows, 0))
      else (old ∷ rest, written)

  -- `SqlAlchemyCatalogProjectionDao._upsert`
  unfoldable pub upsert : List (Row A) → List (Row A) → List (Row A) × ℕ
  unfolding upsert_row
  upsert [] rows = (rows, 0)
  upsert (value ∷ values) rows =
      let (rows', one) = upsert_row value rows in
      let (rows'', more) = upsert values rows' in (rows'', one + more)

  -- `SqlAlchemyCatalogProjectionDao._deactivate`
  unfoldable pub deactivate : Text → List (Row A) → List (Row A) × ℕ
  deactivate batch_id [] = ([], 0)
  deactivate batch_id (row ∷ rows) =
      let (rest, written) = deactivate batch_id rows in
      if not (same row.batch_id batch_id) && row.is_active
      then (record row { is_active = false } ∷ rest, suc written)
      else (row ∷ rest, written)

  -- `SqlAlchemyCatalogProjectionDao._sweep`
  unfoldable pub sweep : Text → (Row A → Bool) → List (Row A) → List (Row A) × ℕ
  sweep batch_id qualifier [] = ([], 0)
  sweep batch_id qualifier (row ∷ rows) =
      let (rest, written) = sweep batch_id qualifier rows in
      if not (same row.batch_id batch_id) && qualifier row
      then (rest, suc written)
      else (row ∷ rest, written)
