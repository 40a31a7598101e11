-- ===== src/Matching/Decision/Bands.antt =====
-- Which scores a classification may have.
use price_intelligence_india.Base.{min, ◌≡◌, Bool, true, ◌&&◌, ◌||◌, some, List, ltb, leb, arith}
use price_intelligence_india.Matching.Models.{
  MatchClassification, MatchingConfig, ListingProvenance, Score, StageEvidence, MatchResult,
}
use price_intelligence_india.Matching.Decision.{
  Findings, similarity_verdict, merging_verdict, attribute_verdict, verdict_of, decide,
}
use price_intelligence_india.Matching.Decision.Merging.{decide-eq-some}

-- The scores of a classification.
abbrev pub in_band : MatchingConfig → MatchClassification → Score → Bool
in_band config MatchClassification.same_product score =
    leb (min 9_000 config.same_product_min_score) score && leb score 10_000
in_band config MatchClassification.possible_match score =
    leb config.possible_match_min_score score && leb score 10_000
in_band config MatchClassification.needs_review score =
    leb (min 4_500 config.needs_review_min_score) score && leb score 10_000
in_band config MatchClassification.different_product score =
    leb score 4_500 || ltb score config.needs_review_min_score

module _ (config : MatchingConfig) (f : Findings) where
  similarity-in_band :
      in_band config
        (similarity_verdict config f).classification
        (min 10_000 (similarity_verdict config f).score)
      ≡ true
  unfolding similarity_verdict
  similarity-in_band =
      ground (arith, config.same_le_one, config.possible_le_one, config.review_le_one)

  merging-in_band :
      in_band config
        (merging_verdict config f).classification
        (min 10_000 (merging_verdict config f).score)
      ≡ true
  unfolding merging_verdict
  merging-in_band = ground (arith, similarity-in_band, config.same_le_one)

  attribute-in_band :
      in_band config
        (attribute_verdict config f).classification
        (min 10_000 (attribute_verdict config f).score)
      ≡ true
  unfolding attribute_verdict
  attribute-in_band = ground (arith, merging-in_band)

  verdict_of-in_band :
      in_band config (verdict_of config f).classification (min 10_000 (verdict_of config f).score)
      ≡ true
  unfolding verdict_of
  verdict_of-in_band = ground (arith, attribute-in_band)

module _ (config : MatchingConfig) (evidence : List StageEvidence) (left right : ListingProvenance)
    (r : MatchResult) where
  -- The score goes with the classification: that of one product is at least 0.9 or the configured
  -- minimum, that of a possible match at least its minimum, that of a review at least 0.45 or its
  -- minimum, and that of different products at most 0.45 or below the minimum of a review; none is
  -- above 1.
  pub decide-in_band :
      decide config evidence left right ≡ some r
      → in_band config r.classification r.match_score ≡ true
  decide-in_band h =
      let (f, e, made) = decide-eq-some config evidence left right r h in
      rw made (verdict_of-in_band config f)
