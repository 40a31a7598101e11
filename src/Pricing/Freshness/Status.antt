-- ===== src/Pricing/Freshness/Status.antt =====
-- The combined status, as the fold of an operation on two statuses.
use price_intelligence_india.Base.{
  ℕ, max, ◌≡◌, refl, sym, ap, ◌∙◌, Bool, true, false, ◌&&◌, ◌||◌, not, Option, none, some, List, [],
  ◌∷◌, ◌++◌, is_some, any, all, sum_of, ◌==◌, arith,
}
use price_intelligence_india.Domain.{
  Datetime, FreshnessStatus, fresh, aging, stale, missing, is_stale, is_missing, is_aging,
}
use price_intelligence_india.Pricing.Models.{DataFreshness}
use price_intelligence_india.Pricing.Freshness.{
  FreshnessWindows, offer_freshness, observed_times, is_empty, aggregate_status,
}

-- Two statuses together: the worse one, where a missing observation beside a real one counts as
-- stale.
abbrev pub join : FreshnessStatus → FreshnessStatus → FreshnessStatus
join missing missing = missing
join missing _ = stale
join _ missing = stale
join stale _ = stale
join _ stale = stale
join aging _ = aging
join _ aging = aging
join fresh fresh = fresh

pub join_assoc : (a b c : FreshnessStatus) → join (join a b) c ≡ join a (join b c)
join_assoc a b c = ground arith

-- A summary is missing exactly if it has no observation, and counts stale offers only if stale.
abbrev pub is_consistent : DataFreshness → Bool
is_consistent item =
    not (is_some item.observed_at) && (is_missing item.status && item.stale_offer_count == 0)
    || is_some item.observed_at
      && (not (is_missing item.status) && (item.stale_offer_count == 0 || is_stale item.status))

pub offer_freshness-consistent :
    (observed_at : Option Datetime) (as_of : Datetime) (config : FreshnessWindows)
    → is_consistent (offer_freshness observed_at as_of config) ≡ true
unfolding offer_freshness
offer_freshness-consistent none as_of config = refl
offer_freshness-consistent (some t) as_of config = ground arith

-- Without an observation every consistent member is missing.
pub all_missing :
    (items : List DataFreshness)
    → all is_consistent items ≡ true
    → is_empty (observed_times items) ≡ true
    → (any (λ item. is_stale item.status) items ≡ false)
      × (any (λ item. is_aging item.status) items ≡ false)
      × (sum_of (λ item. item.stale_offer_count) items ≡ 0)
all_missing [] c e = (refl, refl, refl)
all_missing (x ∷ xs) c e = ground (arith, all_missing xs)

pub some_missing :
    (x : DataFreshness) (xs : List DataFreshness)
    → all is_consistent (x ∷ xs) ≡ true
    → is_empty (observed_times (x ∷ xs)) ≡ true
    → any (λ item. is_missing item.status) (x ∷ xs) ≡ true
some_missing x xs c e = ground arith

aggregate_status-cons :
    (x y : DataFreshness) (ys : List DataFreshness)
    → all is_consistent (x ∷ y ∷ ys) ≡ true
    → aggregate_status (x ∷ y ∷ ys) ≡ join x.status (aggregate_status (y ∷ ys))
unfolding aggregate_status
aggregate_status-cons x y ys c = ground (arith, all_missing (y ∷ ys), some_missing y ys)

abbrev pub join_option : Option FreshnessStatus → Option FreshnessStatus → Option FreshnessStatus
join_option none o = o
join_option (some s) none = some s
join_option (some s) (some t) = some (join s t)

-- All the statuses together, or `none` if there are none.
abbrev pub join_all : List DataFreshness → Option FreshnessStatus
join_all [] = none
join_all (x ∷ xs) = join_option (some x.status) (join_all xs)

join_option_assoc :
    (a b c : Option FreshnessStatus)
    → join_option (join_option a b) c ≡ join_option a (join_option b c)
join_option_assoc a b c = ground (arith)

single :
    (x : DataFreshness)
    → all is_consistent (x ∷ []) ≡ true
    → some x.status ≡ some (aggregate_status (x ∷ []))
unfolding aggregate_status
single x c = ground arith

pub join_all-append :
    (xs ys : List DataFreshness) → join_all (xs ++ ys) ≡ join_option (join_all xs) (join_all ys)
join_all-append [] ys = refl
join_all-append (x ∷ xs) ys =
    ap (join_option (some x.status)) (join_all-append xs ys)
    ∙ sym (join_option_assoc (some x.status) (join_all xs) (join_all ys))

pub aggregate_status-eq-join_all :
    (x : DataFreshness) (xs : List DataFreshness)
    → all is_consistent (x ∷ xs) ≡ true
    → join_all (x ∷ xs) ≡ some (aggregate_status (x ∷ xs))
aggregate_status-eq-join_all x [] c = single x c
aggregate_status-eq-join_all x (y ∷ ys) c =
    rw (aggregate_status-cons x y ys c, aggregate_status-eq-join_all y ys (ground arith))

-- How bad a status is beside others: a missing observation is as bad as a stale one.
abbrev pub severity : FreshnessStatus → ℕ
severity fresh = 0
severity aging = 1
severity stale = 2
severity missing = 2

-- The greatest severity of the members
abbrev pub worst : List DataFreshness → ℕ
worst [] = 0
worst (x ∷ xs) = max (severity x.status) (worst xs)

abbrev severity_option : Option FreshnessStatus → ℕ
severity_option none = 0
severity_option (some s) = severity s

abbrev missing_option : Option FreshnessStatus → Bool
missing_option none = true
missing_option (some s) = is_missing s

severity-join_all : (xs : List DataFreshness) → severity_option (join_all xs) ≡ worst xs
severity-join_all [] = refl
severity-join_all (x ∷ xs) =
    severity-join_option x.status (join_all xs)
    ∙ ap (max (severity x.status)) (severity-join_all xs)
  where
    severity-join_option :
        (s : FreshnessStatus) (o : Option FreshnessStatus)
        → severity_option (join_option (some s) o) ≡ max (severity s) (severity_option o)
    severity-join_option s none = ground arith
    severity-join_option s (some t) = ground arith

missing-join_all :
    (xs : List DataFreshness)
    → missing_option (join_all xs) ≡ all (λ item. is_missing item.status) xs
missing-join_all [] = refl
missing-join_all (x ∷ xs) =
    missing-join_option x.status (join_all xs)
    ∙ ap (λ b. is_missing x.status && b) (missing-join_all xs)
  where
    missing-join_option :
        (s : FreshnessStatus) (o : Option FreshnessStatus)
        → missing_option (join_option (some s) o) ≡ (is_missing s && missing_option o)
    missing-join_option s none = ground arith
    missing-join_option s (some t) = ground arith

-- The combined status of consistent summaries is missing exactly if all of them are missing, and as
-- bad as the worst of them, where, unlike in the docstring, a missing one is only as bad as a stale one.
pub aggregate_status-worst :
    (x : DataFreshness) (xs : List DataFreshness)
    → all is_consistent (x ∷ xs) ≡ true
    → (is_missing (aggregate_status (x ∷ xs)) ≡ all (λ item. is_missing item.status) (x ∷ xs))
      × (severity (aggregate_status (x ∷ xs)) ≡ worst (x ∷ xs))
aggregate_status-worst x xs c =
    let same = sym (aggregate_status-eq-join_all x xs c) in
    (
      ap missing_option same ∙ missing-join_all (x ∷ xs),
      ap severity_option same ∙ severity-join_all (x ∷ xs),
    )
