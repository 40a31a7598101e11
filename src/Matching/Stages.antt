-- ===== src/Matching/Stages.antt =====
-- backend/app/matching/stages.py. The similarities of titles and of embeddings are parameters.
use price_intelligence_india.Base.{
  ℕ, ◌+◌, ◌*◌, min, Bool, true, false, ◌&&◌, not, Option, none, some, List, [], ◌∷◌, filter, map,
  length, if◌then◌else◌, ◌==◌, ◌||◌,
}
use price_intelligence_india.Money.{round_half_even}
use price_intelligence_india.Domain.{Text}
use price_intelligence_india.Matching.Models.{
  MatchStageName, Score, IdentifierDetails, AttributeDetails, StageDetails, Summary, StageEvidence,
  MatchIdentifier, ListingProvenance,
}
use price_intelligence_india.Matching.Identifiers.{UnicodeData}
use price_intelligence_india.Matching.Identifiers.Comparison.{mem_text, compare_identifiers}
use price_intelligence_india.Matching.Attributes.{ListingAttributes, compare_attributes}
use price_intelligence_india.Matching.Decision.{is_nonempty, is_true, is_false}

-- A listing as the stages read it.
pub record MatchCandidate : Type 0 where
  pub provenance : ListingProvenance
  pub title : Text
  pub identifiers : List MatchIdentifier
  pub extracted : ListingAttributes

-- What the stages take from elsewhere: Unicode's tables, `SequenceMatcher`, and the similarities of
-- two titles and of two embeddings.
pub record Similarities : Type 0 where
  pub unicode : UnicodeData
  pub similar : (left right : Text) → Bool
  pub titles : (left right : Text) → Score
  pub embeddings : (left right : MatchCandidate) → Score

-- The score and the sentence of `ExactIdentifierStage`
abbrev identifier_score : IdentifierDetails → Option Score × Summary
identifier_score d =
    if is_nonempty d.conflicts
    then (some 0, Summary.conflicting_identifiers (map (λ c. c.family) d.conflicts))
    else if is_nonempty d.matches
    then (some 10_000, Summary.exact_match (map (λ m. m.family) d.matches))
    else (none, Summary.no_comparable_identifiers)

unfoldable pub exact_identifier_stage : IdentifierDetails → StageEvidence
exact_identifier_stage d = record {
  stage = MatchStageName.exact_identifiers;
  applicable = is_nonempty d.matches || is_nonempty d.conflicts;
  score = (identifier_score d).0;
  summary = (identifier_score d).1;
  details = StageDetails.of_identifiers d;
}

-- Twice the component: 1, a half for what is unknown, or 0
abbrev component : Option Bool → ℕ
component (some true) = 2
component none = 1
component (some false) = 0

-- `len(variant_agreements)`
abbrev pub agreed : AttributeDetails → ℕ
agreed d = length (filter (λ key. mem_text key d.overlapping_variant_keys) d.agreements)

unfoldable pub agreement_score : AttributeDetails → Score
agreement_score d =
    let overlap = length d.overlapping_variant_keys in
    let known = 1_750 * (component d.brand_match + component d.model_match) in
    if overlap == 0
    then min 10_000 known
    else min 10_000 (round_half_even (known * overlap + 3_000 * agreed d) overlap)

abbrev agreement_summary : AttributeDetails → Summary
agreement_summary d =
    let overlap = length d.overlapping_variant_keys in
    if is_true d.brand_match && is_true d.model_match && not (is_nonempty d.variant_conflicts)
    then Summary.full_agreement
    else if is_true d.brand_match && agreed d == overlap && not (overlap == 0)
    then Summary.variant_agreement
    else Summary.partial_agreement

-- The score and the sentence of `NormalizedAttributeStage`
abbrev attribute_score : AttributeDetails → Score × Summary
attribute_score d =
    if d.accessory_mismatch
    then (0, Summary.accessory_with_primary)
    else if is_nonempty d.variant_conflicts
    then (0, Summary.variants_conflict (map (λ c. c.key) d.variant_conflicts))
    else if d.model_conflict
    then (500, Summary.hints_disagree d.left_model_hint d.right_model_hint)
    else if is_false d.brand_match
    then (1_000, Summary.brands_differ)
    else (agreement_score d, agreement_summary d)

unfoldable pub normalized_attribute_stage : AttributeDetails → StageEvidence
unfolding agreement_score
normalized_attribute_stage d = record {
  stage = MatchStageName.normalized_attributes;
  applicable = true;
  score = some (attribute_score d).0;
  summary = (attribute_score d).1;
  details = StageDetails.of_attributes d;
}

unfoldable pub title_token_stage : Score → StageEvidence
title_token_stage score = record {
  stage = MatchStageName.title_token_similarity;
  applicable = true;
  score = some score;
  summary = Summary.title_similarity score;
  details = StageDetails.of_similarity;
}

unfoldable pub embedding_similarity_stage : Score → StageEvidence
embedding_similarity_stage score = record {
  stage = MatchStageName.embedding_similarity;
  applicable = true;
  score = some score;
  summary = Summary.embedding_similarity score;
  details = StageDetails.of_similarity;
}

-- A stage is its `evaluate`.
abbrev pub MatchStage : Type 0
MatchStage = (left right : MatchCandidate) → StageEvidence

unfoldable pub default_stages : Similarities → List MatchStage
unfolding exact_identifier_stage normalized_attribute_stage title_token_stage
    embedding_similarity_stage compare_identifiers compare_attributes
default_stages s =
    (λ left right.
      exact_identifier_stage (compare_identifiers s.unicode left.identifiers right.identifiers))
    ∷ (λ left right.
        normalized_attribute_stage (compare_attributes s.similar left.extracted right.extracted))
    ∷ (λ left right. title_token_stage (s.titles left.title right.title))
    ∷ (λ left right. embedding_similarity_stage (s.embeddings left right))
    ∷ []
