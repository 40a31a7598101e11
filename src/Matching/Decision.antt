-- ===== src/Matching/Decision.antt =====
-- backend/app/matching/decision.py. A float is taken for the decimal that it stands for: scores,
-- weights and thresholds are ten-thousandths, and `round` acts on the exact quotient.
pub mod Merging
pub mod Bands
use price_intelligence_india.Base.{
  ℕ, ◌+◌, ◌*◌, min, max, Bool, true, false, ◌&&◌, ◌||◌, not, Option, none, some, List, [], ◌∷◌, map,
  filter, sum_of, if◌then◌else◌, is_some, ◌>>=◌, ltb, leb, ◌==◌,
}
use price_intelligence_india.Matching.Score.{score_or_zero, weighted_score, stage_of, contributing}
use price_intelligence_india.Domain.{Text}
use price_intelligence_india.Matching.Models.{
  MatchClassification, MatchMethod, MatchConfidence, IdentifierFamily, MatchStageName, Score,
  MatchingConfig, ListingProvenance, FamilyMatch, FamilyConflict, AttributeConflict,
  AttributeDetails, StageDetails, Summary, StageEvidence, Explanation, MatchResult,
}

-- The details that `decide` reads, absent from the other kinds of details.
abbrev pub matches_of : StageDetails → List FamilyMatch
matches_of (StageDetails.of_identifiers d) = d.matches
matches_of _ = []

abbrev pub conflicts_of : StageDetails → List FamilyConflict
conflicts_of (StageDetails.of_identifiers d) = d.conflicts
conflicts_of _ = []

abbrev no_attributes : AttributeDetails
no_attributes = record {
  brand_match = none;
  model_match = none;
  model_conflict = false;
  left_model_hint = none;
  right_model_hint = none;
  overlapping_variant_keys = [];
  agreements = [];
  variant_conflicts = [];
  accessory_mismatch = false;
}

abbrev pub attributes_of : StageDetails → AttributeDetails
attributes_of (StageDetails.of_attributes d) = d
attributes_of _ = no_attributes

abbrev pub is_nonempty {ℓ} : {A : Type ℓ} → List A → Bool
is_nonempty [] = false
is_nonempty (_ ∷ _) = true

-- `x is True` and `x is False`
abbrev pub is_true : Option Bool → Bool
is_true (some true) = true
is_true _ = false

abbrev pub is_false : Option Bool → Bool
is_false (some false) = true
is_false _ = false

-- What is decided before it is put in a result.
pub record Verdict : Type 0 where
  pub classification : MatchClassification
  pub match_method : MatchMethod
  pub match_confidence : MatchConfidence
  pub score : Score
  pub explanation : Explanation

abbrev verdict : MatchClassification → MatchMethod → MatchConfidence → Score → Explanation → Verdict
verdict classification method confidence score explanation = record {
  classification = classification;
  match_method = method;
  match_confidence = confidence;
  score = score;
  explanation = explanation;
}

-- The values that `decide` compares.
pub record Findings : Type 0 where
  pub identifier_matches : List FamilyMatch
  pub identifier_conflicts : List FamilyConflict
  pub attributes : AttributeDetails
  pub title_score : Score
  pub embedding_score : Score
  pub composite : Score
  pub identifier_summary : Summary
  pub attribute_summary : Summary

abbrev match_families : List FamilyMatch → List IdentifierFamily
match_families = map λ m. m.family

abbrev conflict_families : List FamilyConflict → List IdentifierFamily
conflict_families = map λ c. c.family

abbrev conflict_keys : List AttributeConflict → List Text
conflict_keys = map λ c. c.key

module _ (config : MatchingConfig) (f : Findings) where
  abbrev pub has_matches : Bool
  has_matches = is_nonempty f.identifier_matches

  abbrev pub has_conflicts : Bool
  has_conflicts = is_nonempty f.identifier_conflicts

  abbrev pub has_variant_conflicts : Bool
  has_variant_conflicts = is_nonempty f.attributes.variant_conflicts

  abbrev pub title_and_embed_high : Bool
  title_and_embed_high =
      leb config.title_high_threshold f.title_score
      && leb config.embedding_high_threshold f.embedding_score

  abbrev pub title_or_embed_medium : Bool
  title_or_embed_medium =
      leb config.title_medium_threshold f.title_score
      || leb config.embedding_medium_threshold f.embedding_score

  abbrev combined_verdict : MatchClassification → MatchConfidence → Verdict
  combined_verdict classification confidence =
      verdict classification MatchMethod.combined confidence f.composite (
        Explanation.combined_evidence classification f.composite f.identifier_summary
          f.attribute_summary f.title_score f.embedding_score)

  -- The branches of `decide` on similarity, when neither identifiers nor attributes decide.
  unfoldable pub similarity_verdict : Verdict
  similarity_verdict =
      if title_and_embed_high && is_true f.attributes.brand_match
      then verdict MatchClassification.possible_match MatchMethod.combined MatchConfidence.medium
          (max f.composite config.possible_match_min_score)
          (Explanation.brand_and_similarity f.title_score f.embedding_score)
      else if title_and_embed_high && not (is_some f.attributes.brand_match)
      then verdict MatchClassification.needs_review MatchMethod.combined MatchConfidence.low
          (max f.composite config.needs_review_min_score)
          (Explanation.similarity_alone f.title_score f.embedding_score)
      else if leb config.possible_match_min_score f.composite && title_or_embed_medium
      then combined_verdict MatchClassification.possible_match MatchConfidence.low
      else if leb config.needs_review_min_score f.composite
      then combined_verdict MatchClassification.needs_review MatchConfidence.low
      else combined_verdict MatchClassification.different_product MatchConfidence.medium

  abbrev keys : List Text
  keys = conflict_keys f.attributes.variant_conflicts

  abbrev families : List IdentifierFamily
  families = match_families f.identifier_matches

  abbrev different : Score → Explanation → Verdict
  different ceiling explanation =
      verdict MatchClassification.different_product MatchMethod.normalized_attributes
        MatchConfidence.high (min f.composite ceiling) explanation

  abbrev review : Explanation → Verdict
  review explanation =
      verdict MatchClassification.needs_review MatchMethod.conflicting_evidence
        MatchConfidence.medium (min (max f.composite 4_500) 7_000) explanation

  -- The branches of `decide` that merge two listings.
  unfoldable pub merging_verdict : Verdict
  merging_verdict =
      if has_matches
      then verdict MatchClassification.same_product MatchMethod.exact_identifier
          MatchConfidence.high (max f.composite 9_000)
          (Explanation.identifiers_agree families f.attribute_summary f.title_score
            f.embedding_score)
      else if is_true f.attributes.brand_match
          && is_true f.attributes.model_match
          && not has_variant_conflicts
      then verdict MatchClassification.same_product MatchMethod.normalized_attributes
          (if leb config.title_medium_threshold f.title_score
            then MatchConfidence.high
            else MatchConfidence.medium)
          (max f.composite config.same_product_min_score)
          (Explanation.attributes_agree f.title_score f.embedding_score)
      else similarity_verdict

  -- The branches of `decide` on attributes that separate two listings.
  unfoldable pub attribute_verdict : Verdict
  attribute_verdict =
      if f.attributes.accessory_mismatch
      then different 2_500 (Explanation.accessory f.title_score)
      else if has_variant_conflicts
      then different 4_500 (Explanation.variants_disagree keys)
      else if f.attributes.model_conflict && not has_matches
      then different 4_000
          (Explanation.models_disagree f.attributes.left_model_hint f.attributes.right_model_hint)
      else if is_false f.attributes.brand_match && not has_matches
      then different 3_500 Explanation.brands_do_not_match
      else merging_verdict

  -- All branches of `decide`, in their order.
  unfoldable pub verdict_of : Verdict
  verdict_of =
      if has_conflicts
      then verdict MatchClassification.different_product MatchMethod.exact_identifier
          MatchConfidence.high (min f.composite 2_000)
          (Explanation.identifiers_conflict (conflict_families f.identifier_conflicts) f.title_score
            f.embedding_score)
      else if has_matches && has_variant_conflicts
      then review (Explanation.identifiers_against_variants families keys)
      else if has_matches && is_false f.attributes.brand_match
      then review (Explanation.brands_disagree families)
      else attribute_verdict

module _ (config : MatchingConfig) (evidence : List StageEvidence) where
  abbrev pub findings_of : (identifiers attributes title embedding : StageEvidence) → Findings
  findings_of identifiers attributes title embedding = record {
    identifier_matches = matches_of identifiers.details;
    identifier_conflicts = conflicts_of identifiers.details;
    attributes = attributes_of attributes.details;
    title_score = score_or_zero title.score;
    embedding_score = score_or_zero embedding.score;
    composite = weighted_score evidence config;
    identifier_summary = identifiers.summary;
    attribute_summary = attributes.summary;
  }

  -- `none` is the `KeyError` of a stage without evidence.
  abbrev pub findings : Option Findings
  findings = do
    identifiers ← stage_of MatchStageName.exact_identifiers evidence none
    attributes ← stage_of MatchStageName.normalized_attributes evidence none
    title ← stage_of MatchStageName.title_token_similarity evidence none
    embedding ← stage_of MatchStageName.embedding_similarity evidence none
    some (findings_of identifiers attributes title embedding)

  abbrev pub result_of : ListingProvenance → ListingProvenance → Verdict → MatchResult
  result_of left right v = record {
    classification = v.classification;
    match_score = min 10_000 v.score;
    match_method = v.match_method;
    match_confidence = v.match_confidence;
    explanation = v.explanation;
    contributing_stages = contributing evidence;
    evidence = evidence;
    left = left;
    right = right;
  }

  unfoldable pub decide : (left right : ListingProvenance) → Option MatchResult
  decide left right = findings >>= λ f. some (result_of left right (verdict_of config f))
