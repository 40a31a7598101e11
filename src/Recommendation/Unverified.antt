-- ===== src/Recommendation/Unverified.antt =====
-- The recommendation on a price history of which no observation is verified.
use Prim.Native.String.{String}
use mathlib.Core.List.Perm
use price_intelligence_india.Base.{
  ◌≡◌, refl, ap, ◌∙◌, Bool, true, not, Option, none, some, List, [], ◌∷◌, filter, all, arith,
}
use price_intelligence_india.Base.Members.{all-of_mem, all-of_forall}
use price_intelligence_india.Base.Sort.{sort_by, sort_by-perm}
use price_intelligence_india.Domain.{Uuid, Datetime}
use price_intelligence_india.Pricing.Freshness.{FreshnessWindows}
use price_intelligence_india.Pricing.History.Points.{
  HistoricalObservationPoint, qualifies_for_calculations, qualifying_observations, comes_before,
  VariantHistory,
}
use price_intelligence_india.Pricing.History.Changes.{last?}
use price_intelligence_india.Pricing.History.Engine.{HistoryConfig, compute_variant}
use price_intelligence_india.Recommendation.Models.{
  Recommendation, InsufficientRecommendationReason, PredictionInput, UpcomingSaleInput,
  RecommendationInput, RecommendationConfig,
}
use price_intelligence_india.Recommendation.Projection.{input_from_variant_history}
use price_intelligence_india.Recommendation.Engine.{recommend}
use price_intelligence_india.Recommendation.Engine.Decision.{
  recommend-eq-decision_table, recommend-eq-withheld_reason,
}

abbrev pub is_unverified : HistoricalObservationPoint → Bool
is_unverified p = not (qualifies_for_calculations p)

abbrev Points : Type 0
Points = List HistoricalObservationPoint

filter-unverified :
    (ps : Points) → all is_unverified ps ≡ true → filter qualifies_for_calculations ps ≡ []
filter-unverified [] h = refl
filter-unverified (p ∷ ps) h = ground (arith, filter-unverified ps)

all-sort_by :
    (ps : Points) → all is_unverified ps ≡ true → all is_unverified (sort_by comes_before ps) ≡ true
all-sort_by ps h =
    all-of_forall is_unverified (sort_by comes_before ps)
      (λ p m. all-of_mem is_unverified ps p h ((Perm.mem_iff (sort_by-perm comes_before ps)).0 m))

no_qualifying : (ps : Points) → all is_unverified ps ≡ true → qualifying_observations ps ≡ []
unfolding qualifying_observations sort_by
no_qualifying ps h = rw (filter-unverified ps h) refl

no_current :
    (config : HistoryConfig) (now : Datetime) (product_id variant_id : Uuid) (ps : Points)
    (key : Option String)
    → all is_unverified ps ≡ true
    → (compute_variant config now product_id variant_id ps key).current_observation ≡ none
unfolding compute_variant
no_current config now product_id variant_id ps key h =
    ap last? (no_qualifying (sort_by comes_before ps) (all-sort_by ps h))

module _ (history : VariantHistory) (prediction : Option PredictionInput)
    (events : List UpcomingSaleInput) (as_of : Option Datetime) (windows : FreshnessWindows) where
  no_price :
      history.current_observation ≡ none
      → (input_from_variant_history history prediction events as_of windows).current_effective_price
        ≡ none
  unfolding input_from_variant_history
  no_price h = rw h refl

without_price :
    (config : RecommendationConfig) (payload : RecommendationInput)
    → payload.current_effective_price ≡ none
    → ((recommend config payload).recommendation ≡ Recommendation.insufficient_data)
      × ((recommend config payload).insufficient
          ≡ some InsufficientRecommendationReason.no_current_price)
without_price config payload h = (
  recommend-eq-decision_table config payload ∙ rw h refl,
  recommend-eq-withheld_reason config payload ∙ rw h refl,
)

-- Unverified observations alone never give advice to buy or to wait: where no observation of a variant
-- is verified, the recommendation on its history is withheld for want of a current price, whatever is
-- predicted and whatever sale is upcoming.
pub recommend-compute_variant-unverified :
    (config : RecommendationConfig) (history_config : HistoryConfig) (now : Datetime)
    (product_id variant_id : Uuid) (observations : List HistoricalObservationPoint)
    (key : Option String) (prediction : Option PredictionInput) (events : List UpcomingSaleInput)
    (as_of : Option Datetime)
    → all is_unverified observations ≡ true
    → let history = compute_variant history_config now product_id variant_id observations key in
      let payload =
        input_from_variant_history history prediction events as_of history_config.windows in
      ((recommend config payload).recommendation ≡ Recommendation.insufficient_data)
      × ((recommend config payload).insufficient
          ≡ some InsufficientRecommendationReason.no_current_price)
recommend-compute_variant-unverified config history_config now product_id variant_id observations
      key prediction events as_of h =
    without_price config _ (
      no_price _ prediction events as_of history_config.windows
        (no_current history_config now product_id variant_id observations key h))
