-- ===== src/Recommendation/Rules/Evidence.antt =====
-- What the engine of backend/app/recommendation asks of the rules that fired.
use price_intelligence_india.Base.{Bool, true, false, ◌&&◌, ◌||◌, List, if◌then◌else◌, any}
use price_intelligence_india.Recommendation.Models.{RuleId, EvaluatedRule, same_rule}

-- `rule_id in {item.rule_id for item in rules if item.fired}`
abbrev pub fired_in : List EvaluatedRule → RuleId → Bool
fired_in rules rule_id = any (λ r. r.fired && same_rule r.rule_id rule_id) rules

unfoldable pub strongly_favorable_from : List EvaluatedRule → Bool
strongly_favorable_from rules =
    if fired_in rules RuleId.buy_strong_percentile
      || fired_in rules RuleId.buy_strong_near_historical_low
    then true
    else if fired_in rules RuleId.buy_favorable_percentile
        && fired_in rules RuleId.buy_near_historical_low
    then true
    else fired_in rules RuleId.buy_favorable_percentile && fired_in rules RuleId.buy_below_averages

unfoldable pub weakly_favorable_from : List EvaluatedRule → Bool → Bool
weakly_favorable_from rules strongly =
    if strongly
    then false
    else fired_in rules RuleId.buy_favorable_percentile
      || fired_in rules RuleId.buy_near_historical_low
      || fired_in rules RuleId.buy_below_averages

unfoldable pub wait_evidence_from : List EvaluatedRule → Bool
wait_evidence_from rules =
    fired_in rules RuleId.wait_unfavorable_percentile
    || fired_in rules RuleId.wait_above_averages
    || fired_in rules RuleId.wait_predicted_savings
    || fired_in rules RuleId.wait_upcoming_sale
