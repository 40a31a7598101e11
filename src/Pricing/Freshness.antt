-- ===== src/Pricing/Freshness.antt =====
-- backend/app/pricing/freshness.py and the windows of backend/app/pricing/config.py. Times are in
-- microseconds: a `datetime` is exact to the microsecond, and the windows are whole microseconds.
pub mod Status
pub mod Groups
use price_intelligence_india.Base.{
  ℕ, ◌≤◌, min, max, Bool, true, false, ◌&&◌, ◌||◌, Option, none, some, List, [], ◌∷◌, ℤ, sub_ℕ,
  leb_ℤ, ltb_ℤ, pos, if◌then◌else◌, any, ltb, sum_of, foldl,
}
use price_intelligence_india.Domain.{
  Datetime, FreshnessStatus, fresh, aging, stale, missing, is_stale, is_missing, is_aging,
}
use price_intelligence_india.Pricing.Models.{DataFreshness}

-- `fresh_within_seconds` and `stale_after_seconds`, with the check `_windows_are_ordered`.
pub record FreshnessWindows : Type 0 where
  pub fresh_within : ℕ
  pub stale_after : ℕ
  pub windows_are_ordered : fresh_within ≤ stale_after

-- `(as_of - observed_at).total_seconds()`
abbrev pub age_between : Datetime → Datetime → ℤ
age_between as_of observed_at = sub_ℕ as_of observed_at

unfoldable pub classify_freshness : Option Datetime → Datetime → FreshnessWindows → FreshnessStatus
classify_freshness none as_of config = missing
classify_freshness (some observed_at) as_of config =
    let age = age_between as_of observed_at in
    if ltb_ℤ age (pos 0)
    then fresh
    else if leb_ℤ age (pos config.fresh_within)
    then fresh
    else if leb_ℤ age (pos config.stale_after)
    then aging
    else stale

abbrev pub age_of : Datetime → Option Datetime → Option ℤ
age_of as_of none = none
age_of as_of (some observed_at) = some (age_between as_of observed_at)

unfoldable pub offer_freshness : Option Datetime → Datetime → FreshnessWindows → DataFreshness
unfolding classify_freshness
offer_freshness observed_at as_of config =
    let status = classify_freshness observed_at as_of config in
    record {
      status = status;
      as_of = as_of;
      observed_at = observed_at;
      age_seconds = age_of as_of observed_at;
      oldest_observation = observed_at;
      newest_observation = observed_at;
      stale_offer_count = if is_stale status then 1 else 0;
      missing_observation_count = if is_missing status then 1 else 0;
      offer_count = 1;
    }

-- `[item.observed_at for item in items if item.observed_at is not None]`
abbrev pub observed_times : List DataFreshness → List Datetime
observed_times [] = []
observed_times (item ∷ items) =
    let rest = observed_times items in elim item.observed_at [ none ↦ rest | some t ↦ t ∷ rest ]

-- `min(times)` and `max(times)`, or `None` for an empty list
abbrev pub oldest : List Datetime → Option Datetime
oldest [] = none
oldest (t ∷ times) = some (foldl min t times)

abbrev pub newest : List Datetime → Option Datetime
newest [] = none
newest (t ∷ times) = some (foldl max t times)

abbrev pub is_empty : List Datetime → Bool
is_empty [] = true
is_empty (_ ∷ _) = false

unfoldable pub aggregate_status : List DataFreshness → FreshnessStatus
aggregate_status items =
    let any_missing = any (λ item. is_missing item.status) items in
    if any_missing && is_empty (observed_times items)
    then missing
    else if any (λ item. is_stale item.status) items
        || ltb 0 (sum_of (λ item. item.stale_offer_count) items)
    then stale
    else if any_missing
    then stale
    else if any (λ item. is_aging item.status) items
    then aging
    else fresh

unfoldable pub aggregate_freshness : List DataFreshness → Datetime → DataFreshness
unfolding aggregate_status
aggregate_freshness [] as_of = record {
  status = missing;
  as_of = as_of;
  observed_at = none;
  age_seconds = none;
  oldest_observation = none;
  newest_observation = none;
  stale_offer_count = 0;
  missing_observation_count = 0;
  offer_count = 0;
}
aggregate_freshness (first ∷ rest) as_of =
    let items = first ∷ rest in
    let observed = observed_times items in
    record {
      status = aggregate_status items;
      as_of = as_of;
      observed_at = newest observed;
      age_seconds = age_of as_of (newest observed);
      oldest_observation = oldest observed;
      newest_observation = newest observed;
      stale_offer_count = sum_of (λ item. item.stale_offer_count) items;
      missing_observation_count = sum_of (λ item. item.missing_observation_count) items;
      offer_count = sum_of (λ item. item.offer_count) items;
    }
