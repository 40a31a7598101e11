-- ===== src/Pricing/Freshness/Groups.antt =====
-- Freshness of a product: combining the summaries of its variants against combining its offers.
use price_intelligence_india.Base.{
  ℕ, ◌<◌, ◌≡◌, refl, sym, ap, ap₂, ◌∙◌, inl, inr, Option-cases, Bool, true, false, Option, none,
  some, List, [], ◌∷◌, ◌++◌, map, foldl, max, all, all-append, sum_of, sum_of-append, arith,
}
use price_intelligence_india.Domain.{Datetime, FreshnessStatus, missing}
use price_intelligence_india.Pricing.Models.{DataFreshness}
use price_intelligence_india.Pricing.Freshness.{
  FreshnessWindows, offer_freshness, observed_times, newest, aggregate_freshness,
}
use price_intelligence_india.Pricing.Freshness.Status.{
  is_consistent, join_all, join_all-append, aggregate_status-eq-join_all, all_missing, some_missing,
}

abbrev pub flatten {ℓ} : {A : Type ℓ} → List (List A) → List A
flatten [] = []
flatten (g ∷ gs) = g ++ flatten gs

-- The offers of one variant: at least one, each with a consistent summary.
abbrev pub is_group : List DataFreshness → Bool
is_group [] = false
is_group (x ∷ xs) = all is_consistent (x ∷ xs)

abbrev max_option : Option ℕ → Option ℕ → Option ℕ
max_option none o = o
max_option (some a) none = some a
max_option (some a) (some b) = some (max a b)

foldl-max : (a b : ℕ) (xs : List ℕ) → foldl max (max a b) xs ≡ max a (foldl max b xs)
foldl-max a b [] = refl
foldl-max a b (x ∷ xs) = ap (λ m. foldl max m xs) (omega arith) ∙ foldl-max a (max b x) xs

newest-cons : (x : ℕ) (xs : List ℕ) → newest (x ∷ xs) ≡ max_option (some x) (newest xs)
newest-cons x [] = refl
newest-cons x (y ∷ ys) = ap some (foldl-max x y ys)

max_option_assoc :
    (a b c : Option ℕ) → max_option (max_option a b) c ≡ max_option a (max_option b c)
max_option_assoc a b c = ground arith

newest-append : (xs ys : List ℕ) → newest (xs ++ ys) ≡ max_option (newest xs) (newest ys)
newest-append [] ys = refl
newest-append (x ∷ []) ys = newest-cons x ys
newest-append (x ∷ y ∷ xs) ys =
    newest-cons x (y ∷ xs ++ ys)
    ∙ (ap (max_option (some x)) (newest-append (y ∷ xs) ys)
        ∙ (sym (max_option_assoc (some x) (newest (y ∷ xs)) (newest ys))
            ∙ ap (λ o. max_option o (newest ys)) (sym (newest-cons x (y ∷ xs)))))

observed_times-append :
    (xs ys : List DataFreshness)
    → observed_times (xs ++ ys) ≡ observed_times xs ++ observed_times ys
observed_times-append [] ys = refl
observed_times-append (x ∷ xs) ys = ground (arith, observed_times-append xs ys)

summary-consistent :
    (as_of : Datetime) (group : List DataFreshness)
    → is_group group ≡ true
    → is_consistent (aggregate_freshness group as_of) ≡ true
unfolding aggregate_freshness
summary-consistent as_of [] c = cc
summary-consistent as_of (x ∷ xs) c = ground (arith, all_missing (x ∷ xs), some_missing x xs)

status-eq-join_all :
    (as_of : Datetime) (group : List DataFreshness)
    → is_group group ≡ true
    → join_all group ≡ some (aggregate_freshness group as_of).status
unfolding aggregate_freshness
status-eq-join_all as_of [] c = cc
status-eq-join_all as_of (x ∷ xs) c = aggregate_status-eq-join_all x xs c

newest-observed :
    (x : DataFreshness) (xs : List DataFreshness)
    → newest (observed_times (x ∷ xs)) ≡ max_option x.observed_at (newest (observed_times xs))
newest-observed x xs = elim (Option-cases x.observed_at) [
  | inl e ↦ rw (e, max_option)
  | inr (t, e) ↦ rw e (newest-cons t (observed_times xs))
]

abbrev status_or_missing : Option FreshnessStatus → FreshnessStatus
status_or_missing none = missing
status_or_missing (some s) = s

module _ (as_of : Datetime) where
  abbrev summaries : List (List DataFreshness) → List DataFreshness
  summaries = map λ group. aggregate_freshness group as_of

  summaries-consistent :
      (groups : List (List DataFreshness))
      → all is_group groups ≡ true
      → (all is_consistent (summaries groups) ≡ true) × (all is_consistent (flatten groups) ≡ true)
  summaries-consistent [] h = (refl, refl)
  summaries-consistent ([] ∷ gs) h = cc
  summaries-consistent ((x ∷ xs) ∷ gs) h = ground (
    arith,
    summary-consistent as_of (x ∷ xs),
    summaries-consistent gs,
    all-append is_consistent (x ∷ xs) (flatten gs),
  )

  join_all-summaries :
      (groups : List (List DataFreshness))
      → all is_group groups ≡ true
      → join_all (summaries groups) ≡ join_all (flatten groups)
  join_all-summaries [] h = refl
  join_all-summaries (g ∷ gs) h =
      let first = status-eq-join_all as_of g (ground arith) in
      rw (join_all-append g (flatten gs), first, join_all-summaries gs (ground arith))

  observed_at-summary :
      (group : List DataFreshness)
      → (aggregate_freshness group as_of).observed_at ≡ newest (observed_times group)
  unfolding aggregate_freshness
  observed_at-summary [] = refl
  observed_at-summary (x ∷ xs) = refl

  newest-summaries :
      (groups : List (List DataFreshness))
      → newest (observed_times (summaries groups)) ≡ newest (observed_times (flatten groups))
  newest-summaries [] = refl
  newest-summaries (g ∷ gs) =
      newest-observed (aggregate_freshness g as_of) (summaries gs)
      ∙ (ap₂ max_option (observed_at-summary g) (newest-summaries gs)
          ∙ (sym (newest-append (observed_times g) (observed_times (flatten gs)))
              ∙ ap newest (sym (observed_times-append g (flatten gs)))))

  sum_of-summaries :
      (count : DataFreshness → ℕ)
      → ((group : List DataFreshness)
          → count (aggregate_freshness group as_of) ≡ sum_of count group)
      → (groups : List (List DataFreshness))
      → sum_of count (summaries groups) ≡ sum_of count (flatten groups)
  sum_of-summaries count each [] = refl
  sum_of-summaries count each (g ∷ gs) =
      omega (arith, each g, sum_of-summaries count each gs, sum_of-append count g (flatten gs))

  counts-summary :
      (group : List DataFreshness)
      → let whole = aggregate_freshness group as_of in
        (whole.stale_offer_count ≡ sum_of (λ x. x.stale_offer_count) group)
        × (whole.missing_observation_count ≡ sum_of (λ x. x.missing_observation_count) group)
        × (whole.offer_count ≡ sum_of (λ x. x.offer_count) group)
  unfolding aggregate_freshness
  counts-summary [] = (refl, refl, refl)
  counts-summary (x ∷ xs) = (refl, refl, refl)

  status_or_missing-summary :
      (items : List DataFreshness)
      → all is_consistent items ≡ true
      → (aggregate_freshness items as_of).status ≡ status_or_missing (join_all items)
  unfolding aggregate_freshness
  status_or_missing-summary [] c = refl
  status_or_missing-summary (x ∷ xs) c =
      sym (ap status_or_missing (aggregate_status-eq-join_all x xs c))

  -- If every variant has an offer, combining the summaries of the variants gives the status, the
  -- newest observation and the counts that combining all their offers at once gives.
  pub aggregate-of_summaries :
      (groups : List (List DataFreshness))
      → all is_group groups ≡ true
      → let product = aggregate_freshness (summaries groups) as_of in
        let whole = aggregate_freshness (flatten groups) as_of in
        (product.status ≡ whole.status)
        × (product.observed_at ≡ whole.observed_at)
        × (product.stale_offer_count ≡ whole.stale_offer_count)
        × (product.missing_observation_count ≡ whole.missing_observation_count)
        × (product.offer_count ≡ whole.offer_count)
  aggregate-of_summaries groups h =
      let (parts, all_parts) = summaries-consistent groups h in
      let product = counts-summary (summaries groups) in
      let whole = counts-summary (flatten groups) in
      (
        status_or_missing-summary (summaries groups) parts
            ∙ (ap status_or_missing (join_all-summaries groups h)
                ∙ sym (status_or_missing-summary (flatten groups) all_parts)),
        observed_at-summary (summaries groups)
            ∙ (newest-summaries groups ∙ sym (observed_at-summary (flatten groups))),
        product.0 ∙ (sum_of-summaries _ (λ g. (counts-summary g).0) groups ∙ sym whole.0),
        product.1 ∙ (sum_of-summaries _ (λ g. (counts-summary g).1) groups ∙ sym whole.1),
        product.2 ∙ (sum_of-summaries _ (λ g. (counts-summary g).2) groups ∙ sym whole.2),
      )

-- The oldest observation is not kept: for a variant with two observed offers, the product reports
-- the newer of the two as its oldest observation, while the variant reports the older.
pub oldest-of_summaries :
    (early late as_of : Datetime) (config : FreshnessWindows)
    → early < late
    → let offers =
        offer_freshness (some early) as_of config ∷ offer_freshness (some late) as_of config ∷ [] in
      let variant = aggregate_freshness offers as_of in
      let product = aggregate_freshness (variant ∷ []) as_of in
      (variant.oldest_observation ≡ some early) × (product.oldest_observation ≡ some late)
unfolding aggregate_freshness offer_freshness
oldest-of_summaries early late as_of config h = (ap some (omega arith), ap some (omega arith))
