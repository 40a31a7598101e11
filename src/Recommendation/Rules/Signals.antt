-- ===== src/Recommendation/Rules/Signals.antt =====
-- The buy, wait and watch signals of backend/app/recommendation/rules.py.
use price_intelligence_india.Base.{
  ℕ, Bool, false, ◌&&◌, ◌||◌, not, Option, none, some, List, [], ◌∷◌, pos, leb_ℤ, is_some,
  if◌then◌else◌, any, leb, ltb,
}
use price_intelligence_india.Domain.{TrendDirection}
use price_intelligence_india.Recommendation.Models.{
  Recommendation, RuleId, OptionalMetric, UpcomingSaleInput, RecommendationInput, EvaluatedRule,
  RecommendationConfig, is_trend,
}
use price_intelligence_india.Recommendation.Rules.Values.{
  metric_value, both, known, is_near_historical_low, percent_above, predicted_savings, is_before,
  is_inferred, is_low, select_credible_upcoming,
}
use price_intelligence_india.Recommendation.Rules.Gates.{rule}

-- `prediction.predicted_price` of a prediction that is used
abbrev pub used_price : RecommendationInput → Bool → Option ℕ
used_price payload prediction_used = elim payload.prediction [
  | none ↦ none
  | some p ↦ if prediction_used then p.predicted_price else none
]

-- The local variables of `evaluate_buy_signals` and of `evaluate_wait_signals`.
module _ (payload : RecommendationInput) (config : RecommendationConfig) where
  abbrev pub favorable_percentile : Bool
  favorable_percentile =
      known leb (metric_value payload.historical_percentile) config.buy_percentile_max

  abbrev pub strong_percentile : Bool
  strong_percentile =
      known leb (metric_value payload.historical_percentile) config.buy_strong_percentile_max

  abbrev pub near_low : Bool
  near_low =
      is_near_historical_low payload.current_effective_price (metric_value payload.historical_low)
        config.near_historical_low_percent

  abbrev pub strong_near_low : Bool
  strong_near_low =
      is_near_historical_low payload.current_effective_price (metric_value payload.historical_low)
        config.near_historical_low_strong_percent

  abbrev pub below_both : Bool
  below_both =
      both leb payload.current_effective_price (metric_value payload.average_30d)
      && both leb payload.current_effective_price (metric_value payload.average_90d)

  -- `savings_pct`
  abbrev pub savings_percent : Bool → Option ℕ
  savings_percent prediction_used =
      (predicted_savings payload.current_effective_price (used_price payload prediction_used)).1

  abbrev pub material_predicted : Bool → Bool
  material_predicted prediction_used =
      known (λ s threshold. leb threshold s) (savings_percent prediction_used)
        config.min_predicted_savings_percent

  -- `current` is at least the threshold above a positive average.
  abbrev pub above_average : Option OptionalMetric → Bool
  above_average average =
      both
        (λ c avg. ltb 0 avg && (elim (percent_above c avg) [
          | none ↦ false
          | some gap ↦ leb_ℤ (pos config.min_above_average_percent) gap
        ]))
        payload.current_effective_price (metric_value average)

  abbrev pub above_averages : Bool
  above_averages =
      above_average payload.average_30d
      && (above_average payload.average_90d || not (is_some (metric_value payload.average_90d)))

  abbrev pub unfavorable : Bool → Bool
  unfavorable near =
      known (λ p threshold. leb threshold p) (metric_value payload.historical_percentile)
        config.wait_percentile_min
      && not near

  abbrev pub event_wait : Bool → Bool
  event_wait strongly_favorable =
      is_some (select_credible_upcoming payload.upcoming_events config) && not strongly_favorable

  unfoldable pub evaluate_buy_signals : Bool → List EvaluatedRule
  evaluate_buy_signals prediction_used =
      rule RuleId.buy_favorable_percentile favorable_percentile Recommendation.buy_now
      ∷ rule RuleId.buy_strong_percentile strong_percentile Recommendation.buy_now
      ∷ rule RuleId.buy_near_historical_low near_low Recommendation.buy_now
      ∷ rule RuleId.buy_strong_near_historical_low strong_near_low Recommendation.buy_now
      ∷ rule RuleId.buy_below_averages below_both Recommendation.buy_now
      ∷ rule RuleId.buy_prediction_no_material_savings
          (prediction_used
            && (not (is_some (savings_percent prediction_used))
                || known ltb (savings_percent prediction_used)
                    config.min_predicted_savings_percent))
          Recommendation.buy_now
      ∷ rule RuleId.buy_falling_trend
          (is_trend TrendDirection.falling payload.trend_direction
            && (favorable_percentile || near_low || below_both))
          Recommendation.buy_now
      ∷ []

  unfoldable pub evaluate_wait_signals :
      (prediction_used strongly_favorable near_low : Bool) → List EvaluatedRule
  evaluate_wait_signals prediction_used strongly_favorable near =
      rule RuleId.wait_unfavorable_percentile (unfavorable near) Recommendation.wait
      ∷ rule RuleId.wait_above_averages above_averages Recommendation.wait
      ∷ rule RuleId.wait_predicted_savings (material_predicted prediction_used) Recommendation.wait
      ∷ rule RuleId.wait_upcoming_sale (event_wait strongly_favorable) Recommendation.wait
      ∷ rule RuleId.wait_rising_trend
          (is_trend TrendDirection.rising payload.trend_direction
            && (unfavorable near || above_averages || event_wait strongly_favorable))
          Recommendation.wait
      ∷ []

  -- An event before its start that is not evidence for waiting.
  abbrev is_weak_event : UpcomingSaleInput → Bool
  is_weak_event e =
      is_before e.status
      && (is_low e.confidence
          || is_inferred e.source
          || ltb config.upcoming_horizon_days e.days_until_start)

  abbrev event_not_credible : Bool
  event_not_credible =
      any is_weak_event payload.upcoming_events
      && not (is_some (select_credible_upcoming payload.upcoming_events config))

  abbrev neutral_percentile : Bool → Bool
  neutral_percentile strongly_favorable =
      known (λ p low. ltb low p) (metric_value payload.historical_percentile)
        config.buy_percentile_max
      && known ltb (metric_value payload.historical_percentile) config.wait_percentile_min
      && not strongly_favorable

  unfoldable pub evaluate_watch_signals :
      (strongly_favorable weakly_favorable wait_fired conflict : Bool) → List EvaluatedRule
  evaluate_watch_signals strongly weakly wait_fired conflict =
      rule RuleId.watch_conflicting_signals conflict Recommendation.watch
      ∷ rule RuleId.watch_neutral_history
          (neutral_percentile strongly && not wait_fired && not strongly) Recommendation.watch
      ∷ rule RuleId.watch_weak_favorable (weakly && not wait_fired) Recommendation.watch
      ∷ rule RuleId.watch_event_not_credible (event_not_credible && not wait_fired)
          Recommendation.watch
      ∷ rule RuleId.watch_neutral_trend
          (is_trend TrendDirection.stable payload.trend_direction && not strongly && not wait_fired)
          Recommendation.watch
      ∷ []
