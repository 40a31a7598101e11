-- ===== src/Matching/Attributes.antt =====
-- The comparison of attributes of backend/app/matching/attributes.py, from what is extracted from a
-- listing on. Whether two texts are similar enough for `SequenceMatcher` is a parameter.
use price_intelligence_india.Base.{
  Bool, true, false, ◌&&◌, ◌||◌, not, Option, none, some, List, [], ◌∷◌, ◌++◌, any, filter, map,
  if◌then◌else◌, ◌==◌,
}
use price_intelligence_india.Base.Sort.{sort_by}
use price_intelligence_india.Domain.{Text, is_space}
use price_intelligence_india.Matching.Models.{AttributeConflict, AttributeDetails}
use price_intelligence_india.Matching.Identifiers.Comparison.{same_text, text_le, mem_text}

-- What `merge_attributes`, `derive_model_hint`, `brand_signature` and `is_accessory_listing` find.
pub record ListingAttributes : Type 0 where
  pub attributes : List (Text × Text)
  pub model_hint : Option Text
  pub brand_signature : Option Text
  pub is_accessory : Bool

abbrev pub color_key : Text
color_key = b'c' ∷ b'o' ∷ b'l' ∷ b'o' ∷ b'r' ∷ []

abbrev pub variant_keys : List Text
variant_keys =
    (b'r' ∷ b'a' ∷ b'm' ∷ [])
    ∷ (b's' ∷ b't' ∷ b'o' ∷ b'r' ∷ b'a' ∷ b'g' ∷ b'e' ∷ [])
    ∷ (b's' ∷ b'i' ∷ b'z' ∷ b'e' ∷ [])
    ∷ color_key
    ∷ (b'c' ∷ b'a' ∷ b'p' ∷ b'a' ∷ b'c' ∷ b'i' ∷ b't' ∷ b'y' ∷ [])
    ∷ (b'g' ∷ b'e' ∷ b'n' ∷ b'e' ∷ b'r' ∷ b'a' ∷ b't' ∷ b'i' ∷ b'o' ∷ b'n' ∷ [])
    ∷ (b'v' ∷ b'a' ∷ b'r' ∷ b'i' ∷ b'a' ∷ b'n' ∷ b't' ∷ [])
    ∷ []

abbrev pub identity_keys : List Text
identity_keys =
    (b'b' ∷ b'r' ∷ b'a' ∷ b'n' ∷ b'd' ∷ []) ∷ (b'm' ∷ b'o' ∷ b'd' ∷ b'e' ∷ b'l' ∷ []) ∷ []

-- `text.startswith(part)` and `part in text`
abbrev starts_with : (part text : Text) → Bool
starts_with [] text = true
starts_with (c ∷ part) [] = false
starts_with (c ∷ part) (d ∷ text) = c == d && starts_with part text

abbrev pub is_part : (part text : Text) → Bool
is_part part [] = starts_with part []
is_part part (c ∷ text) = starts_with part (c ∷ text) || is_part part text

abbrev pub either_part : (left right : Text) → Bool
either_part left right = is_part left right || is_part right left

abbrev is_blank : Option Text → Bool
is_blank none = true
is_blank (some []) = true
is_blank (some (_ ∷ _)) = false

abbrev text_of : Option Text → Text
text_of none = []
text_of (some text) = text

-- `text.split()`; `word` is the word that is being read.
abbrev end_word : Text → List Text → List Text
end_word [] words = words
end_word (c ∷ word) words = (c ∷ word) ∷ words

abbrev pub split_from : (word text : Text) → List Text
split_from word [] = end_word word []
split_from word (c ∷ text) =
    let rest = split_from [] text in
    let longer = split_from (word ++ c ∷ []) text in
    if is_space c then end_word word rest else longer

unfoldable pub colors_agree : (left right : Text) → Bool
unfolding is_space
colors_agree left right =
    same_text left right
    || any (λ part. mem_text part (split_from [] right)) (split_from [] left)
    || either_part left right

unfoldable pub values_agree : (key left right : Text) → Bool
unfolding colors_agree
values_agree key left right =
    if same_text key color_key then colors_agree left right else same_text left right

-- `attributes.get(key)`
abbrev pub value_of : Text → List (Text × Text) → Option Text
value_of key [] = none
value_of key ((other, value) ∷ rest) =
    let found = value_of key rest in if same_text other key then some value else found

-- `sorted(set(left_attrs) | set(right_attrs))`
abbrev add_keys : List (Text × Text) → List Text → List Text
add_keys [] keys = keys
add_keys ((key, _) ∷ rest) keys =
    add_keys rest (if mem_text key keys then keys else keys ++ key ∷ [])

abbrev pub all_keys : (left right : List (Text × Text)) → List Text
all_keys left right = sort_by text_le (add_keys right (add_keys left []))

-- A key that both have a value for, with the values.
abbrev Overlap : Type 0
Overlap = Text × Text × Text

abbrev overlap_of : Text → (left right : Option Text) → List Overlap
overlap_of key left right =
    if mem_text key identity_keys || is_blank left || is_blank right
    then []
    else (key, text_of left, text_of right) ∷ []

abbrev overlaps_of : (left right : List (Text × Text)) → List Text → List Overlap
overlaps_of left right [] = []
overlaps_of left right (key ∷ keys) =
    overlap_of key (value_of key left) (value_of key right) ++ overlaps_of left right keys

abbrev pub overlaps : (left right : List (Text × Text)) → List Overlap
overlaps left right = overlaps_of left right (all_keys left right)

abbrev agree : Overlap → Bool
agree (key, left, right) = values_agree key left right

abbrev is_variant : Overlap → Bool
is_variant (key, left, right) = mem_text key variant_keys

abbrev conflict : Overlap → AttributeConflict
conflict (key, left, right) = record { key = key; left = left; right = right }

module _ (similar : (left right : Text) → Bool) where
  -- `brands_match` and `models_match` of the extracted texts
  unfoldable pub texts_match : (left right : Option Text) → Option Bool
  texts_match left right =
      if is_blank left || is_blank right
      then none
      else some (
          same_text (text_of left) (text_of right)
          || either_part (text_of left) (text_of right)
          || similar (text_of left) (text_of right))

  abbrev is_conflict : Option Bool → Bool
  is_conflict (some false) = true
  is_conflict _ = false

  abbrev differ : Bool → Bool → Bool
  differ true b = not b
  differ false b = b

  unfoldable pub compare_attributes : (left right : ListingAttributes) → AttributeDetails
  unfolding texts_match values_agree
  compare_attributes left right =
      let model = texts_match left.model_hint right.model_hint in
      let both = overlaps left.attributes right.attributes in
      record {
        brand_match = texts_match left.brand_signature right.brand_signature;
        model_match = model;
        model_conflict = is_conflict model;
        left_model_hint = left.model_hint;
        right_model_hint = right.model_hint;
        overlapping_variant_keys = map (λ o. o.0) (filter is_variant both);
        agreements = map (λ o. o.0) (filter agree both);
        variant_conflicts = map conflict (filter (λ o. not (agree o) && is_variant o) both);
        accessory_mismatch = differ left.is_accessory right.is_accessory;
      }
