-- ===== src/Recommendation/Engine/Thresholds.antt =====
-- The signals of one payload against each other, by the order of the thresholds.
use price_intelligence_india.Base.{
  not, ◌||◌, ◌&&◌, ℕ, ◌+◌, ◌*◌, ◌≤◌, ◌<◌, ◌≡◌, refl, Bool, true, false, Option, none, some, leb,
  arith, leb→le, le→leb,
}
use price_intelligence_india.Money.{round_half_up_mono}
use price_intelligence_india.Recommendation.Models.{RecommendationInput, RecommendationConfig}
use price_intelligence_india.Recommendation.Rules.{
  metric_value, known, near_ceiling, is_near_historical_low, favorable_percentile,
  strong_percentile, near_low, strong_near_low, unfavorable,
}

known-leb_mono :
    (value : Option ℕ) (a b : ℕ) → a ≤ b → known leb value a ≡ true → known leb value b ≡ true
known-leb_mono none a b h e = e
known-leb_mono (some v) a b h e = ground arith

known-exclusive :
    (value : Option ℕ) (a b : ℕ)
    → a < b
    → known leb value a ≡ true
    → known (λ p t. leb t p) value b ≡ false
known-exclusive none a b h e = refl
known-exclusive (some v) a b h e = ground arith

near_ceiling_mono : (low p q : ℕ) → p ≤ q → near_ceiling p low ≤ near_ceiling q low
near_ceiling_mono low p q h =
    round_half_up_mono (low * (1_000_000 + p)) (low * (1_000_000 + q)) 1_000_000 (omega arith)
      (grind arith)

is_near_mono :
    (current low : Option ℕ) (p q : ℕ)
    → p ≤ q
    → is_near_historical_low current low p ≡ true
    → is_near_historical_low current low q ≡ true
unfolding is_near_historical_low
is_near_mono none low p q h e = e
is_near_mono (some c) none p q h e = e
is_near_mono (some c) (some low) p q h e =
    le→leb c (near_ceiling q low)
      (omega (arith, leb→le c (near_ceiling p low) e, near_ceiling_mono low p q h))

implies_of : (a b : Bool) → (a ≡ true → b ≡ true) → (not a || b) ≡ true
implies_of a b h = ground arith

excludes_of : (a b : Bool) → (a ≡ true → b ≡ false) → (a && b) ≡ false
excludes_of a b h = ground arith

module _ (config : RecommendationConfig) (payload : RecommendationInput) where
  -- A strong signal implies the weak one, and a favorable percentile excludes the unfavorable one.
  pub signals-agree :
      (near : Bool)
      → ((not (strong_percentile payload config) || favorable_percentile payload config) ≡ true)
        × ((not (strong_near_low payload config) || near_low payload config) ≡ true)
        × ((favorable_percentile payload config && unfavorable payload config near) ≡ false)
  signals-agree near = (
    implies_of (strong_percentile payload config) (favorable_percentile payload config) (
        known-leb_mono (metric_value payload.historical_percentile) config.buy_strong_percentile_max
          config.buy_percentile_max config.strong_percentile_ordered),
    implies_of (strong_near_low payload config) (near_low payload config) (
        is_near_mono payload.current_effective_price (metric_value payload.historical_low)
          config.near_historical_low_strong_percent config.near_historical_low_percent
          config.near_low_ordered),
    excludes_of (favorable_percentile payload config) (unfavorable payload config near) λ e.
        let not_high =
          known-exclusive (metric_value payload.historical_percentile) config.buy_percentile_max
            config.wait_percentile_min config.percentiles_ordered e in
        rw not_high refl,
  )
