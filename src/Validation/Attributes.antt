-- ===== src/Validation/Attributes.antt =====
-- `normalize_variant_attributes` and `build_variant_key` of validation.py. A `dict` is its items in
-- their order.
use mathlib.Core.List.{◌++◌}
use price_intelligence_india.Base.{ℕ, Bool, ◌||◌, List, [], ◌∷◌, compare, if◌then◌else◌}
use price_intelligence_india.Base.Compare.{compare_list, compare_pair, is_le, is_eq}
use price_intelligence_india.Base.Sort.{sort_by}
use price_intelligence_india.Domain.{Text}
use price_intelligence_india.Validation.Outcome.{DomainError, Validated, ok, raised}
use price_intelligence_india.Validation.Text.{is_empty, strip}

abbrev pub Attribute : Type 0
Attribute = Text × Text

-- `normalized[key] = value`: a key that is there keeps its place.
unfoldable pub set_item : (key value : Text) → List Attribute → List Attribute
set_item key value [] = (key, value) ∷ []
set_item key value ((k, v) ∷ rest) =
    let later = set_item key value rest in
    if is_eq (compare_list compare k key) then (key, value) ∷ rest else (k, v) ∷ later

module _ (lower : Text → Text) where
  -- The loop of `normalize_variant_attributes`
  unfoldable pub normalize_items :
      (normalized attributes : List Attribute) → Validated (List Attribute)
  unfolding set_item strip
  normalize_items normalized [] = ok normalized
  normalize_items normalized ((raw_key, raw_value) ∷ rest) =
      let key = lower (strip raw_key) in
      let value = lower (strip raw_value) in
      let done = normalize_items (set_item key value normalized) rest in
      if is_empty key || is_empty value then raised DomainError.invalid_variant_attributes else done

  unfoldable pub normalize_variant_attributes : List Attribute → Validated (List Attribute)
  unfolding normalize_items
  normalize_variant_attributes attributes =
      if is_empty attributes
      then raised DomainError.invalid_variant_attributes
      else normalize_items [] attributes

-- The order of `sorted(attributes.items())`
abbrev pub item_order : Attribute → Attribute → Bool
item_order a b = is_le (compare_pair (compare_list compare) (compare_list compare) a b)

abbrev pub semicolon : ℕ
semicolon = 59

abbrev pub equals_sign : ℕ
equals_sign = 61

-- `f"{key}={value}"`
abbrev pub item_text : Attribute → Text
item_text (key, value) = key ++ equals_sign ∷ value

-- `";".join(...)`
abbrev pub joined : List Attribute → Text
joined [] = []
joined (item ∷ []) = item_text item
joined (item ∷ other ∷ rest) = item_text item ++ semicolon ∷ joined (other ∷ rest)

unfoldable pub build_variant_key : List Attribute → Text
build_variant_key attributes = joined (sort_by item_order attributes)
