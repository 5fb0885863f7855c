-- ===== src/Catalog.antt =====
-- domain/catalog/values: the identifiers and texts that come from 1C, and the priced product.
use goldy_telegram_bot.Prelude.{ℕ, Bool, Option, none, some, ltb, length, any}
use goldy_telegram_bot.Result.{
  Result, ok, empty_source_id, too_long_source_id, empty_sku, too_long_sku, malformed_sku,
  empty_product_name, too_long_product_name, malformed_product_name, empty_unit_of_measure,
  too_long_unit_of_measure, raise_if, ◌>>◌,
}
use goldy_telegram_bot.Text.{Text, same, is_blank, is_control}
use goldy_telegram_bot.Money.{Money}

abbrev pub max_source_id_length : ℕ
max_source_id_length = 128

-- `SourceId` and its subclasses, which differ in name only. Two of one class are equal if their
-- texts are.
pub record SourceId : Type 0 where
  pub value : Text

abbrev pub ProductId : Type 0
ProductId = SourceId

abbrev pub PriceTypeId : Type 0
PriceTypeId = SourceId

abbrev pub CategoryId : Type 0
CategoryId = SourceId

abbrev pub same_id : SourceId → SourceId → Bool
same_id a b = same a.value b.value

unfoldable pub make_source_id : Text → Result SourceId
make_source_id value = do
  raise_if (is_blank value) empty_source_id
  raise_if (ltb max_source_id_length (length value)) too_long_source_id
  ok (record { value = value })

abbrev pub max_product_name_length : ℕ
max_product_name_length = 255

pub record ProductName : Type 0 where
  pub value : Text

unfoldable pub make_product_name : Text → Result ProductName
make_product_name value = do
  raise_if (is_blank value) empty_product_name
  raise_if (ltb max_product_name_length (length value)) too_long_product_name
  raise_if (any is_control value) malformed_product_name
  ok (record { value = value })

abbrev pub max_sku_length : ℕ
max_sku_length = 64

pub record Sku : Type 0 where
  pub value : Text

unfoldable pub make_sku : Text → Result Sku
make_sku value = do
  raise_if (is_blank value) empty_sku
  raise_if (ltb max_sku_length (length value)) too_long_sku
  raise_if (any is_control value) malformed_sku
  ok (record { value = value })

abbrev pub max_unit_of_measure_name_length : ℕ
max_unit_of_measure_name_length = 32

pub record UnitOfMeasure : Type 0 where
  pub source_id : Option Text
  pub name : Text

-- The reference of a unit: absent, or held to the rules of `SourceId`.
unfoldable pub validate_unit_reference : Option Text → Result (Unit {0})
validate_unit_reference none = ok tt
validate_unit_reference (some source_id) = do
  raise_if (is_blank source_id) empty_source_id
  raise_if (ltb max_source_id_length (length source_id)) too_long_source_id
  ok tt

unfoldable pub make_unit_of_measure : Option Text → Text → Result UnitOfMeasure
unfolding validate_unit_reference
make_unit_of_measure source_id name = do
  raise_if (is_blank name) empty_unit_of_measure
  raise_if (ltb max_unit_of_measure_name_length (length name)) too_long_unit_of_measure
  validate_unit_reference source_id
  ok (record { source_id = source_id; name = name })

-- Every field is constrained by its own type.
pub record PricedProduct : Type 0 where
  pub product_id : ProductId
  pub sku : Sku
  pub name : ProductName
  pub unit : UnitOfMeasure
  pub unit_price : Money
