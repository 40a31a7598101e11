-- ===== src/Matching/Models.antt =====
-- The enumerations, the configuration and the records of backend/app/matching.
use Prim.Native.Nat.{ℕ, ◌≤◌}
use mathlib.Core.Bool.{Bool}
use mathlib.Core.Option.{Option}
use mathlib.Core.List.{List}
use price_intelligence_india.Domain.{Text}

pub data MatchClassification : Type 0 where
  same_product possible_match different_product needs_review : MatchClassification

pub data MatchMethod : Type 0 where
  exact_identifier normalized_attributes title_token_similarity embedding_similarity combined
        conflicting_evidence :
      MatchMethod

pub data MatchConfidence : Type 0 where
  high medium low : MatchConfidence

pub data MatchIdentifierType : Type 0 where
  gtin ean upc isbn mpn model_number other : MatchIdentifierType

pub data IdentifierFamily : Type 0 where
  barcode isbn part other : IdentifierFamily

pub data MatchStageName : Type 0 where
  exact_identifiers normalized_attributes title_token_similarity embedding_similarity :
      MatchStageName

pub record MatchIdentifier : Type 0 where
  pub identifier_type : MatchIdentifierType
  pub value : Text

-- A score, a weight or a threshold is its number of ten-thousandths.
abbrev pub Score : Type 0
Score = ℕ

pub record MatchingConfig : Type 0 where
  pub title_high_threshold : Score
  pub title_medium_threshold : Score
  pub embedding_high_threshold : Score
  pub embedding_medium_threshold : Score
  pub weight_identifier : Score
  pub weight_attributes : Score
  pub weight_title : Score
  pub weight_embedding : Score
  pub same_product_min_score : Score
  pub possible_match_min_score : Score
  pub needs_review_min_score : Score
  pub min_variant_agreements_for_same : ℕ
  pub same_le_one : same_product_min_score ≤ 10_000
  pub possible_le_one : possible_match_min_score ≤ 10_000
  pub review_le_one : needs_review_min_score ≤ 10_000

pub record ListingProvenance : Type 0 where
  pub retailer_id : Option Text
  pub retailer_sku : Option Text
  pub source_url : Option Text
  pub source_type : Option Text

-- An entry of `matches`, and one of `conflicts`.
pub record FamilyMatch : Type 0 where
  pub family : IdentifierFamily
  pub values : List Text

pub record FamilyConflict : Type 0 where
  pub family : IdentifierFamily
  pub left : List Text
  pub right : List Text

-- What `compare_identifiers` returns.
pub record IdentifierDetails : Type 0 where
  pub matches : List FamilyMatch
  pub conflicts : List FamilyConflict
  pub unilateral : List IdentifierFamily

-- An attribute whose values differ.
pub record AttributeConflict : Type 0 where
  pub key : Text
  pub left : Text
  pub right : Text

-- What `compare_attributes` returns, less the attributes themselves.
pub record AttributeDetails : Type 0 where
  pub brand_match : Option Bool
  pub model_match : Option Bool
  pub model_conflict : Bool
  pub left_model_hint : Option Text
  pub right_model_hint : Option Text
  pub overlapping_variant_keys : List Text
  pub agreements : List Text
  pub variant_conflicts : List AttributeConflict
  pub accessory_mismatch : Bool

-- The `details` of a stage; those of the similarities are not read.
pub data StageDetails : Type 0 where
  of_identifiers : IdentifierDetails → StageDetails
  of_attributes : AttributeDetails → StageDetails
  of_similarity : StageDetails

-- `summary`: which sentence, with the values in it.
pub data Summary : Type 0 where
  conflicting_identifiers : List IdentifierFamily → Summary
  exact_match : List IdentifierFamily → Summary
  no_comparable_identifiers accessory_with_primary : Summary
  variants_conflict : List Text → Summary
  hints_disagree : (left right : Option Text) → Summary
  brands_differ full_agreement variant_agreement partial_agreement : Summary
  title_similarity embedding_similarity : Score → Summary

pub record StageEvidence : Type 0 where
  pub stage : MatchStageName
  pub applicable : Bool
  pub score : Option Score
  pub summary : Summary
  pub details : StageDetails

-- `explanation`: which sentence of `decide`, with the values in it.
pub data Explanation : Type 0 where
  identifiers_conflict : List IdentifierFamily → (title embedding : Score) → Explanation
  identifiers_agree : List IdentifierFamily → Summary → (title embedding : Score) → Explanation
  brands_disagree : List IdentifierFamily → Explanation
  identifiers_against_variants : List IdentifierFamily → List Text → Explanation
  accessory : (title : Score) → Explanation
  variants_disagree : List Text → Explanation
  models_disagree : (left right : Option Text) → Explanation
  brands_do_not_match : Explanation
  attributes_agree brand_and_similarity similarity_alone : (title embedding : Score) → Explanation
  combined_evidence :
      MatchClassification
      → (composite : Score) → (identifiers attributes : Summary) → (title embedding : Score)
      → Explanation

pub record MatchResult : Type 0 where
  pub classification : MatchClassification
  pub match_score : Score
  pub match_method : MatchMethod
  pub match_confidence : MatchConfidence
  pub explanation : Explanation
  pub contributing_stages : List MatchStageName
  pub evidence : List StageEvidence
  pub left : ListingProvenance
  pub right : ListingProvenance
