-- ===== src/Matching/Identifiers.antt =====
-- backend/app/matching/identifiers.py. Unicode's tables are a parameter: the upper case of a code
-- point, and whether it is a decimal digit.
pub mod Comparison
pub mod Isbn
pub mod Barcode
pub mod Symmetry
use price_intelligence_india.Base.{
  ℕ, zero, suc, ◌+◌, ◌-◌, ◌*◌, ◌%◌, compare, Bool, true, false, ◌&&◌, ◌||◌, not, Option, none, some,
  List, [], ◌∷◌, ◌++◌, any, all, filter, length, if◌then◌else◌, leb, ◌==◌,
}
use price_intelligence_india.Base.Compare.{compare_list, is_eq, is_le}
use price_intelligence_india.Base.Sort.{sort_by}
use price_intelligence_india.Domain.{Text, is_space}
use price_intelligence_india.Matching.Models.{
  MatchIdentifierType, IdentifierFamily, MatchIdentifier, FamilyMatch, FamilyConflict,
  IdentifierDetails,
}

pub record UnicodeData : Type 0 where
  pub upper : ℕ → Text
  pub is_decimal : ℕ → Bool

unfoldable pub identifier_family : MatchIdentifierType → IdentifierFamily
identifier_family MatchIdentifierType.gtin = IdentifierFamily.barcode
identifier_family MatchIdentifierType.ean = IdentifierFamily.barcode
identifier_family MatchIdentifierType.upc = IdentifierFamily.barcode
identifier_family MatchIdentifierType.isbn = IdentifierFamily.isbn
identifier_family MatchIdentifierType.mpn = IdentifierFamily.part
identifier_family MatchIdentifierType.model_number = IdentifierFamily.part
identifier_family MatchIdentifierType.other = IdentifierFamily.other

-- `[0-9]` and `[A-Z0-9]`
abbrev pub is_digit : ℕ → Bool
is_digit c = leb 48 c && leb c 57

abbrev pub is_alnum : ℕ → Bool
is_alnum c = is_digit c || leb 65 c && leb c 90

-- `text or None`
abbrev pub nonempty : Text → Option Text
nonempty [] = none
nonempty (c ∷ text) = some (c ∷ text)

-- `text.zfill(width)` of digits
abbrev pub zeros : ℕ → Text
zeros zero = []
zeros (suc n) = 48 ∷ zeros n

abbrev pub zfill : Text → (width : ℕ) → Text
zfill text width = zeros (width - length text) ++ text

abbrev pub is_gtin_length : ℕ → Bool
is_gtin_length n = n == 8 || n == 12 || n == 13 || n == 14

-- The digits weighted by 1 and 3 in turn; `weight` is the first digit's.
abbrev pub weighted_digits : (weight : ℕ) → Text → ℕ
weighted_digits weight [] = 0
weighted_digits weight (c ∷ text) = (c - 48) * weight + weighted_digits (4 - weight) text

abbrev pub check_digit : Text → ℕ
check_digit body = (10 - weighted_digits 1 body % 10) % 10

-- `[0-9X]$`: the end, or a line feed at the end
abbrev pub is_tail : Text → Bool
is_tail (c ∷ []) = is_digit c || c == 88
is_tail (c ∷ d ∷ []) = (is_digit c || c == 88) && d == 10
is_tail _ = false

abbrev pub with_check : Text → Text
with_check body = body ++ (48 + check_digit body) ∷ []

-- `isbn10_to_isbn13` of a text in upper case
unfoldable pub isbn13_of : Text → Option Text
isbn13_of (a ∷ b ∷ c ∷ d ∷ e ∷ f ∷ g ∷ h ∷ i ∷ tail) =
    let body = a ∷ b ∷ c ∷ d ∷ e ∷ f ∷ g ∷ h ∷ i ∷ [] in
    if all is_digit body && is_tail tail then some (with_check (57 ∷ 55 ∷ 56 ∷ body)) else none
isbn13_of _ = none

module _ (unicode : UnicodeData) where
  -- `text.upper()`
  abbrev pub upper_text : Text → Text
  upper_text [] = []
  upper_text (c ∷ text) = unicode.upper c ++ upper_text text

  -- `_NON_ALNUM.sub("", text.upper())`
  unfoldable pub compact_of : Text → Text
  compact_of text = filter is_alnum (upper_text text)

  unfoldable pub normalize_barcode : Text → Option Text
  normalize_barcode value =
      let digits = filter unicode.is_decimal value in
      if is_gtin_length (length digits) then some (zfill digits 14) else nonempty digits

  unfoldable pub isbn10_to_isbn13 : Text → Option Text
  unfolding isbn13_of
  isbn10_to_isbn13 isbn10 = isbn13_of (upper_text isbn10)

  unfoldable pub normalize_isbn : Text → Option Text
  unfolding compact_of isbn10_to_isbn13
  normalize_isbn value =
      let compact = compact_of value in
      if length compact == 13 && all is_digit compact
      then some compact
      else if length compact == 10
      then isbn10_to_isbn13 compact
      else nonempty (filter unicode.is_decimal compact)

  unfoldable pub normalize_part : Text → Option Text
  unfolding compact_of
  normalize_part value = nonempty (compact_of value)

  -- `text.strip()`
  abbrev strip_left : Text → Text
  strip_left [] = []
  strip_left (c ∷ text) = let rest = strip_left text in if is_space c then rest else c ∷ text

  abbrev strip_right : Text → Text
  strip_right [] = []
  strip_right (c ∷ text) =
      let rest = strip_right text in if all is_space (c ∷ text) then [] else c ∷ rest

  abbrev normalize_in : IdentifierFamily → Text → Option Text
  normalize_in IdentifierFamily.barcode value = normalize_barcode value
  normalize_in IdentifierFamily.isbn value = normalize_isbn value
  normalize_in IdentifierFamily.part value = normalize_part value
  normalize_in IdentifierFamily.other value = nonempty (upper_text (strip_right (strip_left value)))

  unfoldable pub normalize_identifier : MatchIdentifier → Option Text
  unfolding identifier_family normalize_barcode normalize_isbn normalize_part is_space
  normalize_identifier identifier =
      normalize_in (identifier_family identifier.identifier_type) identifier.value
