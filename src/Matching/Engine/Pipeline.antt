-- ===== src/Matching/Engine/Pipeline.antt =====
-- The default pipeline: what it decides, from what the comparisons of identifiers and attributes find.
use price_intelligence_india.Base.{◌≡◌, ap, ◌∙◌, refl, Bool, ◌&&◌, ◌||◌, not, some, List, ◌>>=◌}
use price_intelligence_india.Matching.Models.{
  MatchingConfig, IdentifierDetails, AttributeDetails, StageEvidence, MatchResult,
}
use price_intelligence_india.Matching.Identifiers.Comparison.{compare_identifiers}
use price_intelligence_india.Matching.Attributes.{compare_attributes}
use price_intelligence_india.Matching.Stages.{
  MatchCandidate, Similarities, default_stages, exact_identifier_stage, normalized_attribute_stage,
  title_token_stage, embedding_similarity_stage,
}
use price_intelligence_india.Matching.Decision.{
  Findings, findings, findings_of, result_of, verdict_of, decide, is_nonempty, is_true, is_false,
}
use price_intelligence_india.Matching.Decision.Merging.{is_same, merges, decide-same_iff}
use price_intelligence_india.Matching.Engine.{compare_listings, evidence_of}

-- Identifiers agree, or brand and model do, and nothing speaks against it.
abbrev pub are_one : IdentifierDetails → AttributeDetails → Bool
are_one ids attributes =
    not (is_nonempty ids.conflicts)
    && not (is_nonempty attributes.variant_conflicts)
    && not attributes.accessory_mismatch
    && not (is_false attributes.brand_match)
    && (is_nonempty ids.matches
        || not attributes.model_conflict
          && is_true attributes.brand_match
          && is_true attributes.model_match)

module _ (config : MatchingConfig) (s : Similarities) (left right : MatchCandidate) where
  abbrev pub evidence : List StageEvidence
  evidence = evidence_of config (default_stages s) left right

  unfoldable pub default_findings : Findings
  unfolding default_stages
  default_findings =
      findings_of config evidence
        (exact_identifier_stage (compare_identifiers s.unicode left.identifiers right.identifiers))
        (normalized_attribute_stage (compare_attributes s.similar left.extracted right.extracted))
        (title_token_stage (s.titles left.title right.title))
        (embedding_similarity_stage (s.embeddings left right))

  pub default_findings-eq : findings config evidence ≡ some default_findings
  unfolding default_findings default_stages
  default_findings-eq = refl

  unfoldable pub default_result : MatchResult
  unfolding default_findings
  default_result =
      result_of config evidence left.provenance right.provenance
        (verdict_of config default_findings)

  pub decide-default : decide config evidence left.provenance right.provenance ≡ some default_result
  unfolding decide default_result
  decide-default =
      ap
        (λ o. o >>= λ f.
          some (result_of config evidence left.provenance right.provenance (verdict_of config f)))
        default_findings-eq

  merges-default :
      merges config default_findings
      ≡ are_one
          (compare_identifiers s.unicode left.identifiers right.identifiers)
          (compare_attributes s.similar left.extracted right.extracted)
  unfolding default_findings exact_identifier_stage normalized_attribute_stage
  merges-default = refl

  -- With its own four stages the pipeline always has a result, and takes two listings for one product
  -- exactly if an identifier family of theirs agrees, or their brands and models do and no model hints
  -- conflict, while no family and no variant attribute conflicts, they are both accessories or neither,
  -- and their brands do not differ. No similarity of titles or embeddings has a say in it.
  pub compare_listings-same_iff :
      (result : MatchResult) × (compare_listings config (default_stages s) left right ≡ some result)
      × (is_same result.classification
          ≡ are_one
              (compare_identifiers s.unicode left.identifiers right.identifiers)
              (compare_attributes s.similar left.extracted right.extracted))
  unfolding compare_listings
  compare_listings-same_iff = (
    default_result,
    decide-default,
    decide-same_iff config evidence left.provenance right.provenance default_result default_findings
          decide-default default_findings-eq
        ∙ merges-default,
  )
