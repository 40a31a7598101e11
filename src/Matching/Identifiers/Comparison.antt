-- ===== src/Matching/Identifiers/Comparison.antt =====
-- `normalized_values_by_family` and `compare_identifiers` of identifiers.py. A set of values is a list
-- without repetitions, and the mapping of a listing a function from the families, in which a family
-- without a value is absent.
use price_intelligence_india.Base.{
  compare, Bool, true, false, ◌&&◌, not, Option, none, some, List, [], ◌∷◌, ◌++◌, any, filter,
  length, if◌then◌else◌, ◌==◌,
}
use price_intelligence_india.Base.Compare.{compare_list, is_eq, is_le}
use price_intelligence_india.Base.Sort.{sort_by}
use price_intelligence_india.Domain.{Text}
use price_intelligence_india.Matching.Models.{
  IdentifierFamily, MatchIdentifier, FamilyMatch, FamilyConflict, IdentifierDetails,
}
use price_intelligence_india.Matching.Identifiers.{
  UnicodeData, identifier_family, normalize_barcode, normalize_identifier,
}

abbrev pub same_text : Text → Text → Bool
same_text a b = is_eq (compare_list compare a b)

abbrev pub text_le : Text → Text → Bool
text_le a b = is_le (compare_list compare a b)

abbrev pub mem_text : Text → List Text → Bool
mem_text a = any (same_text a)

abbrev pub is_family : IdentifierFamily → IdentifierFamily → Bool
is_family IdentifierFamily.barcode IdentifierFamily.barcode = true
is_family IdentifierFamily.isbn IdentifierFamily.isbn = true
is_family IdentifierFamily.part IdentifierFamily.part = true
is_family IdentifierFamily.other IdentifierFamily.other = true
is_family _ _ = false

-- A value in its family
abbrev Entry : Type 0
Entry = IdentifierFamily × Text

abbrev entry_of : IdentifierFamily → Option Text → List Entry
entry_of family none = []
entry_of family (some value) = (family, value) ∷ []

module _ (unicode : UnicodeData) where
  -- An ISBN-13 is a barcode too.
  abbrev entries_of : IdentifierFamily → Option Text → List Entry
  entries_of family none = []
  entries_of family (some value) =
      (family, value)
      ∷ (if is_family family IdentifierFamily.isbn && length value == 13
          then entry_of IdentifierFamily.barcode (normalize_barcode unicode value)
          else [])

  abbrev entries : List MatchIdentifier → List Entry
  entries [] = []
  entries (identifier ∷ identifiers) =
      entries_of (identifier_family identifier.identifier_type)
        (normalize_identifier unicode identifier)
      ++ entries identifiers

  -- The members of a set that is built by `add` in the order of the entries.
  abbrev add_values : IdentifierFamily → List Entry → List Text → List Text
  add_values family [] values = values
  add_values family ((kind, value) ∷ rest) values = add_values family rest (
      if is_family kind family && not (mem_text value values) then values ++ value ∷ [] else values)

  unfoldable pub normalized_values_by_family : List MatchIdentifier → IdentifierFamily → List Text
  unfolding normalize_identifier normalize_barcode identifier_family
  normalized_values_by_family identifiers family = add_values family (entries identifiers) []

-- What is found of one family.
pub data FamilyOutcome : Type 0 where
  absent unilateral : FamilyOutcome
  matched : List Text → FamilyOutcome
  conflicting : (left right : List Text) → FamilyOutcome

abbrev pub shared_of : List Text → List Text → List Text
shared_of left right = filter (λ value. mem_text value right) left

abbrev sorted_texts : List Text → List Text
sorted_texts = sort_by text_le

abbrev pub matched_or_conflicting : (left right shared : List Text) → FamilyOutcome
matched_or_conflicting left right [] =
    FamilyOutcome.conflicting (sorted_texts left) (sorted_texts right)
matched_or_conflicting left right (value ∷ values) =
    FamilyOutcome.matched (sorted_texts (value ∷ values))

unfoldable pub family_outcome : (left right : List Text) → FamilyOutcome
family_outcome [] [] = FamilyOutcome.absent
family_outcome [] (_ ∷ _) = FamilyOutcome.unilateral
family_outcome (_ ∷ _) [] = FamilyOutcome.unilateral
family_outcome (x ∷ left) (y ∷ right) =
    matched_or_conflicting (x ∷ left) (y ∷ right) (shared_of (x ∷ left) (y ∷ right))

abbrev pub match_of : IdentifierFamily → FamilyOutcome → List FamilyMatch
match_of family (FamilyOutcome.matched values) = record { family = family; values = values } ∷ []
match_of family _ = []

abbrev pub conflict_of : IdentifierFamily → FamilyOutcome → List FamilyConflict
conflict_of family (FamilyOutcome.conflicting left right) =
    record { family = family; left = left; right = right } ∷ []
conflict_of family _ = []

abbrev pub unilateral_of : IdentifierFamily → FamilyOutcome → List IdentifierFamily
unilateral_of family FamilyOutcome.unilateral = family ∷ []
unilateral_of family _ = []

-- The families in the order of their names.
abbrev pub over_families {ℓ} : {A : Type ℓ} → (IdentifierFamily → List A) → List A
over_families f =
    f IdentifierFamily.barcode
    ++ (f IdentifierFamily.isbn ++ (f IdentifierFamily.other ++ f IdentifierFamily.part))

abbrev pub Groups : Type 0
Groups = IdentifierFamily → List Text

unfoldable pub compare_groups : (left right : Groups) → IdentifierDetails
unfolding family_outcome
compare_groups left right = record {
  matches = over_families (λ family. match_of family (family_outcome (left family) (right family)));
  conflicts =
      over_families (λ family. conflict_of family (family_outcome (left family) (right family)));
  unilateral =
      over_families (λ family. unilateral_of family (family_outcome (left family) (right family)));
}

unfoldable pub compare_identifiers :
    UnicodeData → (left right : List MatchIdentifier) → IdentifierDetails
unfolding compare_groups normalized_values_by_family
compare_identifiers unicode left right =
    compare_groups (normalized_values_by_family unicode left)
      (normalized_values_by_family unicode right)
