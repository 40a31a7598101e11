-- ===== src/Sales/Detection/Valid.antt =====
-- What every detected window is: a sale event that the validators accept.
use mathlib.Core.List.{List, [], ◌∷◌, ◌++◌}
use price_intelligence_india.Base.{
  ℕ, ◌≡◌, refl, ◌∙◌, Bool, true, Option, none, some, all, all-append, ◌==◌, arith, foldl,
}
use price_intelligence_india.Base.Sort.{sort_by, sort_by-IsSorted}
use price_intelligence_india.Base.Distinct.{all-sort_by}
use price_intelligence_india.Domain.{Text, Uuid}
use price_intelligence_india.Pricing.History.Points.{qualifying_observations}
use price_intelligence_india.Sales.Models.{SalePricePoint, SalesConfig}
use price_intelligence_india.Sales.History.Engine.{observations_of}
use price_intelligence_india.Sales.Detection.Drops.{
  append_to, Drop, drop_order, discounted_observations,
}
use price_intelligence_india.Sales.Detection.Thresholds.{reaches, discounted-reaches}
use price_intelligence_india.Sales.Detection.Windows.{
  Scope, point_of, clusters, windows_of_items, Bucket, scope_id_of, buckets, in_bucket,
  windows_of_buckets, cluster_windows, detect, window_order,
}
use price_intelligence_india.Sales.Detection.Closed.{
  cluster_ok, clusters-ok, follows-none, drop_order_total, drop_order_trans,
}
use price_intelligence_india.Sales.Detection.Accepted.{is_acceptable, both, emitted_all-acceptable}

module _ (config : SalesConfig) (source_ref : Text) where
  abbrev threshold : ℕ
  threshold = config.drop_percent_threshold

  items-acceptable :
      (scope : Scope) (id : Uuid) (items : List Drop)
      → all (reaches threshold) items ≡ true
      → all (is_acceptable config source_ref) (windows_of_items config scope id items) ≡ true
  unfolding windows_of_items cluster_ok
  items-acceptable scope id items h =
      let sorted = sort_by drop_order items in
      emitted_all-acceptable config source_ref scope id (clusters config [] sorted) (
        clusters-ok config threshold [] sorted refl
          (all-sort_by drop_order (reaches threshold) items h) (follows-none sorted)
          (sort_by-IsSorted drop_order drop_order_total drop_order_trans items))

  abbrev bucket_ok : Bucket → Bool
  bucket_ok (id, items) = all (reaches threshold) items

  append_to-ok :
      (id : Uuid) (d : Drop) (groups : List Bucket)
      → reaches threshold d ≡ true
      → all bucket_ok groups ≡ true
      → all bucket_ok (append_to ◌==◌ id d groups) ≡ true
  unfolding append_to
  append_to-ok id d [] r h = ground arith
  append_to-ok id d ((k, items) ∷ rest) r h =
      ground (arith, append_to-ok id d rest, all-append (reaches threshold) items (d ∷ []))

  in_bucket-ok :
      (id : Option Uuid) (d : Drop) (groups : List Bucket)
      → reaches threshold d ≡ true
      → all bucket_ok groups ≡ true
      → all bucket_ok (in_bucket id d groups) ≡ true
  in_bucket-ok none d groups r h = h
  in_bucket-ok (some id) d groups r h = append_to-ok id d groups r h

  buckets-ok :
      (points : List SalePricePoint) (scope : Scope) (discounted : List Drop) (groups : List Bucket)
      → all (reaches threshold) discounted ≡ true
      → all bucket_ok groups ≡ true
      → all bucket_ok
          (foldl (λ g d. in_bucket (scope_id_of points scope (point_of d)) d g) groups discounted)
        ≡ true
  buckets-ok points scope [] groups r h = h
  buckets-ok points scope (d ∷ ds) groups r h =
      let id = scope_id_of points scope (point_of d) in
      buckets-ok points scope ds (in_bucket id d groups) (ground arith)
        (in_bucket-ok id d groups (ground arith) h)

  windows_of_buckets-acceptable :
      (scope : Scope) (groups : List Bucket)
      → all bucket_ok groups ≡ true
      → all (is_acceptable config source_ref) (windows_of_buckets config scope groups) ≡ true
  unfolding windows_of_buckets
  windows_of_buckets-acceptable scope [] h = refl
  windows_of_buckets-acceptable scope ((id, items) ∷ rest) h =
      all-append (is_acceptable config source_ref) (windows_of_items config scope id items)
        (windows_of_buckets config scope rest)
      ∙ both (items-acceptable scope id items (ground arith))
          (windows_of_buckets-acceptable scope rest (ground arith))

  cluster_windows-acceptable :
      (points : List SalePricePoint) (scope : Scope) (discounted : List Drop)
      → all (reaches threshold) discounted ≡ true
      → all (is_acceptable config source_ref) (cluster_windows config points scope discounted)
        ≡ true
  unfolding cluster_windows buckets
  cluster_windows-acceptable points scope discounted r =
      windows_of_buckets-acceptable scope (buckets points scope discounted)
        (buckets-ok points scope discounted [] r refl)

  -- Every detected window has at least the configured number of listings and no more of them than
  -- observations, a median drop of at least the threshold, and dates, scope and source that the checks
  -- of a sale event accept.
  pub detect-acceptable :
      (points : List SalePricePoint)
      → all (is_acceptable config source_ref) (detect config points) ≡ true
  unfolding detect
  detect-acceptable points =
      let discounted =
        discounted_observations config (qualifying_observations (observations_of points)) in
      let r = discounted-reaches config (qualifying_observations (observations_of points)) in
      let windows = λ (scope : Scope). cluster_windows config points scope discounted in
      let found = λ (scope : Scope). cluster_windows-acceptable points scope discounted r in
      all-sort_by window_order (is_acceptable config source_ref) _ (
        all-append (is_acceptable config source_ref)
          (windows Scope.retailer ++ windows Scope.category) (windows Scope.brand)
        ∙ both
            (all-append (is_acceptable config source_ref) (windows Scope.retailer)
                (windows Scope.category)
              ∙ both (found Scope.retailer) (found Scope.category))
            (found Scope.brand))
