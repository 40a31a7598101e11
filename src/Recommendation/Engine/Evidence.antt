-- ===== src/Recommendation/Engine/Evidence.antt =====
-- What a prediction contributes to the result of `recommend`, and the bounds of its confidence.
use price_intelligence_india.Base.{
  inl, inr, Option-cases, ℕ, ◌+◌, ◌*◌, ◌≤◌, min, ◌≡◌, refl, ◌∙◌, sym, Bool, true, false, ◌&&◌, ◌||◌,
  Option, none, some, leb, ltb, ◌==◌, arith, subst, is_some,
}
use price_intelligence_india.Domain.{FreshnessStatus}
use price_intelligence_india.Money.{round_half_up-le}
use price_intelligence_india.Recommendation.Models.{
  Recommendation, PredictionInput, RecommendationInput, RecommendationConfig,
}
use price_intelligence_india.Recommendation.Rules.{
  prediction_is_usable, predicted_savings, both, evaluate_prediction_usability, metric_value,
  used_price, near_low, strong_near_low, unfavorable, above_averages, known, event_wait,
  select_credible_upcoming,
}
use price_intelligence_india.Recommendation.Confidence.{
  evidence_score, unclipped_confidence, recommendation_confidence, prediction_confidence, points_if,
  freshness_points, prediction_points, has_trend, conflict_percent, insufficient_percent,
}
use price_intelligence_india.Recommendation.Engine.{
  build_evidence, recommend, expected_saving, prediction_used, strongly, wait_fired,
}
use price_intelligence_india.Recommendation.Engine.Decision.{
  prediction_used-eq-usable, recommend-eq-decision_table, is_worth_waiting, is_cheap, can_decide,
  table, waits_given, strongly-eq, wait_fired-eq,
}

abbrev pub predicted_price_of : Option PredictionInput → Option ℕ
predicted_price_of none = none
predicted_price_of (some p) = p.predicted_price

abbrev AtMostOne : Option ℕ → Type 0
AtMostOne none = Unit
AtMostOne (some c) = c ≤ 10_000

-- The confidence of a prediction is at most one.
abbrev pub ConfidenceLeOne : Option PredictionInput → Type 0
ConfidenceLeOne prediction = AtMostOne (prediction_confidence prediction)

-- The amount saved and the predicted price make up the current price.
predicted_savings-parts :
    (current predicted : Option ℕ) (s : ℕ)
    → (predicted_savings current predicted).0 ≡ some s
    → both (λ c p. (s + p == c) && ltb 0 s) current predicted ≡ true
unfolding predicted_savings
predicted_savings-parts none predicted s e = cc
predicted_savings-parts (some c) none s e = cc
predicted_savings-parts (some c) (some p) s e = ground arith

points_if-le : (b : Bool) (n : ℕ) → points_if b n ≤ n
points_if-le b n = ground arith

freshness_points-le : (status : FreshnessStatus) → freshness_points status ≤ 15_000
freshness_points-le status = ground arith

prediction_points-le :
    (used : Bool) (prediction : Option PredictionInput)
    → ConfidenceLeOne prediction
    → prediction_points used prediction ≤ 10_000
prediction_points-le used prediction h = ground arith

-- A score of at most one gives a confidence of at most the percentage that is kept.
reduced-le :
    (score : ℕ) (conflict : Bool) (decision : Recommendation)
    → score ≤ 100_000
    → score * (conflict_percent conflict * insufficient_percent decision)
      ≤ 100 * insufficient_percent decision * 100_000
reduced-le score conflict decision h = ground arith

clip_idle :
    (n : ℕ) (decision : Recommendation) → n ≤ 100 * insufficient_percent decision → min 10_000 n ≡ n
clip_idle n decision h = ground arith

module _ (config : RecommendationConfig) (payload : RecommendationInput) where
  expected_saving-parts :
      (p : Option PredictionInput) (used : Bool) (s : ℕ)
      → payload.prediction ≡ p
      → (expected_saving payload used).0 ≡ some s
      → (used ≡ true)
        × ((predicted_savings payload.current_effective_price (predicted_price_of p)).0 ≡ some s)
  unfolding expected_saving
  expected_saving-parts none used s e h = cc
  expected_saving-parts (some p) true s e h = (refl, ground arith)
  expected_saving-parts (some p) false s e h = cc

  -- An expected saving comes from a usable prediction, is positive, and makes up the current price
  -- together with the predicted price.
  pub recommend-saving :
      (s : ℕ)
      → (recommend config payload).expected_saving ≡ some s
      → (prediction_is_usable payload.prediction config ≡ true)
        × (both
              (λ c p. (s + p == c) && ltb 0 s)
              payload.current_effective_price
              (predicted_price_of payload.prediction)
            ≡ true)
  unfolding recommend
  recommend-saving s h =
      let (used, saved) =
        expected_saving-parts payload.prediction (prediction_used config payload) s refl h in
      (
        sym (prediction_used-eq-usable config payload) ∙ used,
        predicted_savings-parts payload.current_effective_price
            (predicted_price_of payload.prediction) s saved,
      )

  -- The unreduced score is at most one.
  evidence_score-le :
      (used : Bool)
      → ConfidenceLeOne payload.prediction
      → evidence_score payload used config ≤ 100_000
  unfolding evidence_score
  evidence_score-le used h = omega (
    arith,
    points_if-le (is_some payload.current_effective_price) 20_000,
    points_if-le (is_some (metric_value payload.historical_percentile)) 15_000,
    points_if-le (is_some (metric_value payload.historical_low)) 10_000,
    points_if-le (is_some (metric_value payload.average_30d)) 10_000,
    points_if-le (is_some (metric_value payload.average_90d)) 10_000,
    points_if-le (has_trend payload.trend_direction) 5_000,
    freshness_points-le payload.freshness_status,
    prediction_points-le used payload.prediction h,
    points_if-le (is_some (select_credible_upcoming payload.upcoming_events config)) 5_000,
  )

  -- The confidence is at most one before it is clipped, and at most one half if the decision is
  -- withheld.
  pub unclipped_confidence-le :
      (used conflict : Bool) (decision : Recommendation)
      → ConfidenceLeOne payload.prediction
      → unclipped_confidence payload used conflict decision config
        ≤ 100 * insufficient_percent decision
  unfolding unclipped_confidence
  unclipped_confidence-le used conflict decision h =
      round_half_up-le _ 100_000 (100 * insufficient_percent decision) (omega arith) (
        reduced-le (evidence_score payload used config) conflict decision
          (evidence_score-le used h))

  -- If the confidence of the prediction is at most one, the clip of the result's confidence does
  -- nothing, and this confidence is at most one, or one half if the decision is withheld.
  pub recommend-confidence :
      ConfidenceLeOne payload.prediction
      → let result = recommend config payload in
        (result.confidence
          ≡ unclipped_confidence payload
              (prediction_used config payload)
              (strongly config payload && wait_fired config payload)
              result.recommendation
              config)
        × (result.confidence ≤ 100 * insufficient_percent result.recommendation)
  unfolding recommend recommendation_confidence
  recommend-confidence h =
      let result = recommend config payload in
      let le =
        unclipped_confidence-le (prediction_used config payload)
          (strongly config payload && wait_fired config payload) result.recommendation h in
      let idle = clip_idle _ result.recommendation le in
      (idle, subst (λ n. n ≤ 100 * insufficient_percent result.recommendation) (sym idle) le)

  used_price-unused : used_price payload false ≡ none
  used_price-unused = ground arith

  prediction_points-unused : (p : Option PredictionInput) → prediction_points false p ≡ 0
  prediction_points-unused p = ground arith

  abbrev pub without_prediction : RecommendationInput
  without_prediction = record payload { prediction = none }

  score-unused :
      evidence_score payload false config ≡ evidence_score without_prediction false config
  unfolding evidence_score
  score-unused = rw (prediction_points-unused payload.prediction) refl

  module _ (unusable : prediction_is_usable payload.prediction config ≡ false) where
    used-eq-false : prediction_used config payload ≡ false
    used-eq-false = prediction_used-eq-usable config payload ∙ unusable

    waits-unused : is_worth_waiting config payload ≡ is_worth_waiting config without_prediction
    unfolding prediction_is_usable
    waits-unused =
        let cheap = is_cheap config payload in
        let near = near_low payload config || strong_near_low payload config in
        (λ i. waits_given config payload (unusable i) cheap near) ∙ λ i.
        unfavorable payload config near
        || above_averages payload config
        || known (λ s threshold. leb threshold s)
            ((predicted_savings payload.current_effective_price (used_price-unused i)).1)
            config.min_predicted_savings_percent
        || event_wait payload config cheap

    decision-unused :
        (recommend config payload).recommendation
        ≡ (recommend config without_prediction).recommendation
    decision-unused =
        recommend-eq-decision_table config payload
        ∙ (λ i. table (can_decide config payload) (is_cheap config payload) (waits-unused i))
        ∙ sym (recommend-eq-decision_table config without_prediction)

    conflict-unused :
        (strongly config payload && wait_fired config payload)
        ≡ (strongly config without_prediction && wait_fired config without_prediction)
    conflict-unused =
        (λ i. strongly-eq config payload i && (wait_fired-eq config payload ∙ waits-unused) i)
        ∙ λ i.
            sym (strongly-eq config without_prediction) i
            && sym (wait_fired-eq config without_prediction) i

    confidence-unused :
        (conflict : Bool) (decision : Recommendation)
        → recommendation_confidence payload false conflict decision config
          ≡ recommendation_confidence without_prediction false conflict decision config
    unfolding recommendation_confidence unclipped_confidence
    confidence-unused conflict decision = rw score-unused refl

    saving-unused : (expected_saving payload false).0 ≡ none
    unfolding expected_saving
    saving-unused = ground arith

    basis-unused : (expected_saving payload false).1 ≡ none
    unfolding expected_saving
    basis-unused = ground arith

    evidence-unused :
        build_evidence payload false (expected_saving payload false).1 config
        ≡ build_evidence without_prediction false none config
    unfolding build_evidence
    evidence-unused =
        rw basis-unused
          (elim (Option-cases payload.prediction) [ inl e ↦ rw e refl | inr (p, e) ↦ rw e refl ])

    -- A prediction that is not usable is not used: the decision, the confidence, the expected saving,
    -- which is none, and the evidence are those without a prediction.
    pub recommend-unusable :
        let result = recommend config payload in
        let other = recommend config without_prediction in
        (result.recommendation ≡ other.recommendation)
        × (result.confidence ≡ other.confidence)
        × (result.expected_saving ≡ none)
        × (other.expected_saving ≡ none)
        × (result.evidence ≡ other.evidence)
    unfolding recommend evaluate_prediction_usability expected_saving
    recommend-unusable = (
      decision-unused,
      (λ i.
            recommendation_confidence payload (used-eq-false i) (conflict-unused i)
              (decision-unused i) config)
          ∙ confidence-unused
              (strongly config without_prediction && wait_fired config without_prediction)
              (recommend config without_prediction).recommendation,
      (λ i. (expected_saving payload (used-eq-false i)).0) ∙ saving-unused,
      refl,
      (λ i.
            build_evidence payload (used-eq-false i) (expected_saving payload (used-eq-false i)).1
              config)
          ∙ evidence-unused,
    )
