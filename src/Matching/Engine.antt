-- ===== src/Matching/Engine.antt =====
-- `MatchingEngine` of backend/app/matching/engine.py. Metrics and log records are left out; the
-- sentence of an explanation is rendered by a parameter.
pub mod Pipeline
pub mod Best
use price_intelligence_india.Base.{
  Ordering, ℕ, compare, Bool, true, false, Option, none, some, List, [], ◌∷◌, map, head?, ℤ, sub_ℕ,
  ◌>>=◌,
}
use price_intelligence_india.Base.Compare.{compare_list, compare_pair, compare_ℤ, is_le}
use price_intelligence_india.Base.Sort.{sort_by}
use price_intelligence_india.Domain.{Text}
use price_intelligence_india.Matching.Models.{
  MatchClassification, MatchingConfig, StageEvidence, Explanation, MatchResult,
}
use price_intelligence_india.Matching.Stages.{MatchCandidate, MatchStage}
use price_intelligence_india.Matching.Decision.{decide}

abbrev pub rank : MatchClassification → ℕ
rank MatchClassification.same_product = 0
rank MatchClassification.possible_match = 1
rank MatchClassification.needs_review = 2
rank MatchClassification.different_product = 3

-- The key that results are sorted by.
abbrev pub SortKey : Type 0
SortKey = ℕ × (ℤ × Text)

abbrev pub compare_keys : SortKey → SortKey → Ordering
compare_keys = compare_pair compare (compare_pair compare_ℤ (compare_list compare))

abbrev pub result_key : (Explanation → Text) → MatchResult → SortKey
result_key render r = (rank r.classification, (sub_ℕ 0 r.match_score, render r.explanation))

abbrev pub is_better : (Explanation → Text) → MatchResult → MatchResult → Bool
is_better render a b = is_le (compare_keys (result_key render a) (result_key render b))

module _ (config : MatchingConfig) (stages : List MatchStage) where
  abbrev pub evidence_of : (left right : MatchCandidate) → List StageEvidence
  evidence_of left right = map (λ evaluate. evaluate left right) stages

  -- `none` is the `KeyError` of a stage that is not there.
  unfoldable pub compare_listings : (left right : MatchCandidate) → Option MatchResult
  unfolding decide
  compare_listings left right =
      decide config (evidence_of left right) left.provenance right.provenance

  abbrev pub compare_all : MatchCandidate → List MatchCandidate → Option (List MatchResult)
  compare_all candidate [] = some []
  compare_all candidate (other ∷ catalog) = compare_listings candidate other >>= λ result.
      compare_all candidate catalog >>= λ results. some (result ∷ results)

  unfoldable pub find_best_match :
      (render : Explanation → Text)
      → MatchCandidate
      → List MatchCandidate
      → Option (Option MatchResult)
  unfolding compare_listings
  find_best_match render candidate catalog =
      compare_all candidate catalog >>= λ results. some (head? (sort_by (is_better render) results))
