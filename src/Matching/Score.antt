-- ===== src/Matching/Score.antt =====
-- The combined score and the evidence of a stage of backend/app/matching/decision.py. A float is
-- taken for the decimal that it stands for: scores and weights are ten-thousandths, and `round` acts
-- on the exact quotient.
use price_intelligence_india.Base.{
  ℕ, ◌*◌, min, Bool, true, false, Option, none, some, List, [], ◌∷◌, map, filter, sum_of,
  if◌then◌else◌, ◌==◌,
}
use price_intelligence_india.Money.{round_half_even}
use price_intelligence_india.Matching.Models.{MatchStageName, Score, MatchingConfig, StageEvidence}

-- `config.stage_weights`
abbrev pub stage_weight : MatchingConfig → MatchStageName → Score
stage_weight config MatchStageName.exact_identifiers = config.weight_identifier
stage_weight config MatchStageName.normalized_attributes = config.weight_attributes
stage_weight config MatchStageName.title_token_similarity = config.weight_title
stage_weight config MatchStageName.embedding_similarity = config.weight_embedding

-- A stage is used if it is applicable, has a score and has a weight.
abbrev pub used_weight : MatchingConfig → StageEvidence → Option Score → Score
used_weight config item none = 0
used_weight config item (some score) = if item.applicable then stage_weight config item.stage else 0

abbrev pub score_or_zero : Option Score → Score
score_or_zero none = 0
score_or_zero (some score) = score

abbrev pub total_weight : MatchingConfig → List StageEvidence → ℕ
total_weight config = sum_of λ item. used_weight config item item.score

abbrev pub weighted_sum : MatchingConfig → List StageEvidence → ℕ
weighted_sum config = sum_of λ item. score_or_zero item.score * used_weight config item item.score

-- A stage that is not used adds nothing to either sum.
unfoldable pub weighted_score : List StageEvidence → MatchingConfig → Score
weighted_score evidence config =
    if total_weight config evidence == 0
    then 0
    else min 10_000 (round_half_even (weighted_sum config evidence) (total_weight config evidence))

abbrev pub is_stage : MatchStageName → MatchStageName → Bool
is_stage MatchStageName.exact_identifiers MatchStageName.exact_identifiers = true
is_stage MatchStageName.normalized_attributes MatchStageName.normalized_attributes = true
is_stage MatchStageName.title_token_similarity MatchStageName.title_token_similarity = true
is_stage MatchStageName.embedding_similarity MatchStageName.embedding_similarity = true
is_stage _ _ = false

-- `_stage_map(evidence)[stage]`: the last evidence of the stage, or a `KeyError`.
abbrev pub stage_of :
    MatchStageName → List StageEvidence → Option StageEvidence → Option StageEvidence
stage_of stage [] found = found
stage_of stage (item ∷ items) found =
    stage_of stage items (if is_stage item.stage stage then some item else found)

-- `_contributing`
abbrev pub contributing : List StageEvidence → List MatchStageName
contributing evidence = map (λ item. item.stage) (filter (λ item. item.applicable) evidence)
