-- ===== src/Matching/Decision/Merging.antt =====
-- When two listings are taken for one product, and which scores a classification has.
use mathlib.Core.Option.{some-injective}
use price_intelligence_india.Base.{
  ◌≡◌, sym, ap, ◌∙◌, Bool, true, false, ◌&&◌, ◌||◌, not, some, List, arith, Option-cases, inl, inr,
}
use price_intelligence_india.Matching.Models.{
  MatchClassification, MatchingConfig, ListingProvenance, StageEvidence, MatchResult,
}
use price_intelligence_india.Matching.Decision.{
  Findings, has_matches, has_conflicts, has_variant_conflicts, is_true, is_false,
  similarity_verdict, merging_verdict, attribute_verdict, verdict_of, findings, result_of, decide,
}

abbrev pub is_same : MatchClassification → Bool
is_same MatchClassification.same_product = true
is_same _ = false

-- Identifiers agree, or brand and model do, and nothing speaks against it.
abbrev pub merges : MatchingConfig → Findings → Bool
merges config f =
    not (has_conflicts config f)
    && not (has_variant_conflicts config f)
    && not f.attributes.accessory_mismatch
    && not (is_false f.attributes.brand_match)
    && (has_matches config f
        || not f.attributes.model_conflict
          && is_true f.attributes.brand_match
          && is_true f.attributes.model_match)

similarity-not_same :
    (config : MatchingConfig) (f : Findings)
    → is_same (similarity_verdict config f).classification ≡ false
unfolding similarity_verdict
similarity-not_same config f = ground arith

verdict_of-same :
    (config : MatchingConfig) (f : Findings)
    → is_same (verdict_of config f).classification ≡ merges config f
unfolding verdict_of attribute_verdict merging_verdict
verdict_of-same config f = ground (arith, similarity-not_same config f)

-- Of a decision that is made, the findings and the verdict on them.
pub decide-eq-some :
    (config : MatchingConfig) (evidence : List StageEvidence) (left right : ListingProvenance)
    (r : MatchResult)
    → decide config evidence left right ≡ some r
    → (f : Findings) × (findings config evidence ≡ some f)
      × (r ≡ result_of config evidence left right (verdict_of config f))
unfolding decide
decide-eq-some config evidence left right r h = elim (Option-cases (findings config evidence)) [
  | inl e ↦ cc (rw e at h)
  | inr (f, e) ↦ (f, e, sym (some-injective _ _ (rw e at h)))
]

module _ (config : MatchingConfig) (evidence : List StageEvidence) (left right : ListingProvenance)
    (r : MatchResult) (f : Findings) where
  -- Two listings are one product exactly if their identifiers agree, or their brands and models do
  -- and no derived models conflict, and no identifiers and no variant attributes conflict, neither
  -- alone is an accessory, and the brands do not differ: whatever the similarity of titles and
  -- embeddings, and whatever the score.
  pub decide-same_iff :
      decide config evidence left right ≡ some r
      → findings config evidence ≡ some f
      → is_same r.classification ≡ merges config f
  decide-same_iff h k =
      let (g, e, made) = decide-eq-some config evidence left right r h in
      let same : g ≡ f = some-injective _ _ (sym e ∙ k) in
      ap (λ (v : MatchResult). is_same v.classification) made ∙ rw same (verdict_of-same config f)
