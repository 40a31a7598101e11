-- ===== src/Recommendation/Rules.antt =====
-- backend/app/recommendation/rules.py: the rules, without the sentences that report them.
pub mod Values
pub mod Gates
pub mod Signals
pub mod Evidence
unfoldable pub use price_intelligence_india.Recommendation.Rules.Values.{
  metric_value, predicted_status, has_status, both, known, near_ceiling, is_near_historical_low,
  percent_above, predicted_savings, prediction_is_usable, is_credible, sale_key, starts_before,
  select_credible_upcoming,
}
unfoldable pub use price_intelligence_india.Recommendation.Rules.Gates.{
  rule, short_history, evaluate_gates, evaluate_prediction_usability,
}
unfoldable pub use price_intelligence_india.Recommendation.Rules.Signals.{
  used_price, favorable_percentile, strong_percentile, near_low, strong_near_low, below_both,
  savings_percent, material_predicted, above_average, above_averages, unfavorable, event_wait,
  evaluate_buy_signals, evaluate_wait_signals, evaluate_watch_signals,
}
unfoldable pub use price_intelligence_india.Recommendation.Rules.Evidence.{
  fired_in, strongly_favorable_from, weakly_favorable_from, wait_evidence_from,
}
