-- ===== src/Sales/Detection/Closed.antt =====
-- What is known of a cluster of drops when `_cluster_windows` of sales/detection.py closes it.
use mathlib.Core.List.{List, [], ◌∷◌, ◌++◌, Pairwise}
use mathlib.Core.List.Pairwise
use price_intelligence_india.Base.{
  ℕ, ◌≡◌, refl, Bool, true, ◌&&◌, all, all-append, leb, arith, Bool-cases, inl, inr, ◌⊎◌,
}
use price_intelligence_india.Base.Compare.{
  compare_list-IsComparison, compare-IsComparison, is_le_total, is_le_trans,
}
use price_intelligence_india.Base.Members.{all-of_forall}
use price_intelligence_india.Base.Sort.{IsSorted}
use price_intelligence_india.Sales.Models.{SalesConfig}
use price_intelligence_india.Sales.Detection.Drops.{Drop, drop_key, drop_order}
use price_intelligence_india.Sales.Detection.Thresholds.{reaches}
use price_intelligence_india.Sales.Detection.Windows.{point_of, last_of, splits, clusters}

-- What is known of a cluster when it is closed
unfoldable pub cluster_ok : ℕ → List Drop → Bool
cluster_ok t [] = true
cluster_ok t (first ∷ rest) =
    all (reaches t) (first ∷ rest)
    && leb (point_of first).observed_at (point_of (last_of first rest)).observed_at

-- A drop is not before the end of a cluster.
pub follows : List Drop → Drop → Bool
follows [] d = true
follows (first ∷ rest) d = leb (point_of (last_of first rest)).observed_at (point_of d).observed_at

last_of-append : (first : Drop) (ds : List Drop) (d : Drop) → last_of first (ds ++ d ∷ []) ≡ d
last_of-append first [] d = refl
last_of-append first (e ∷ ds) d = last_of-append e ds d

follows-append :
    (cluster : List Drop) (d x : Drop)
    → follows (cluster ++ d ∷ []) x ≡ leb (point_of d).observed_at (point_of x).observed_at
unfolding follows
follows-append [] d x = refl
follows-append (first ∷ rest) d x = rw (last_of-append first rest d) refl

cluster_ok-append :
    (t : ℕ) (cluster : List Drop) (d : Drop)
    → cluster_ok t cluster ≡ true
    → reaches t d ≡ true
    → follows cluster d ≡ true
    → cluster_ok t (cluster ++ d ∷ []) ≡ true
unfolding cluster_ok follows
cluster_ok-append t [] d c r f = ground arith
cluster_ok-append t (first ∷ rest) d c r f =
    rw (last_of-append first rest d, all-append (reaches t) rest (d ∷ [])) (ground arith)

drop_order-time :
    (a b : Drop)
    → drop_order a b ≡ true
    → leb (point_of a).observed_at (point_of b).observed_at ≡ true
drop_order-time (p, m) (q, n) h = ground arith

follows-sorted :
    (d : Drop) (ds : List Drop) → IsSorted drop_order (d ∷ ds) → all (follows (d ∷ [])) ds ≡ true
unfolding follows
follows-sorted d ds (Pairwise.cons h s) =
    all-of_forall (follows (d ∷ [])) ds (λ x m. drop_order-time d x (h x m))

follows-all :
    (cluster : List Drop) (d : Drop) (ds : List Drop)
    → all (follows (d ∷ [])) ds ≡ true
    → all (follows (cluster ++ d ∷ [])) ds ≡ true
follows-all cluster d [] h = refl
follows-all cluster d (x ∷ xs) h =
    ground (arith, follows-append cluster d x, follows-append [] d x, follows-all cluster d xs)

pub clusters-ok :
    (config : SalesConfig) (t : ℕ) (cluster ds : List Drop)
    → cluster_ok t cluster ≡ true
    → all (reaches t) ds ≡ true
    → all (follows cluster) ds ≡ true
    → IsSorted drop_order ds
    → all (cluster_ok t) (clusters config cluster ds) ≡ true
unfolding clusters cluster_ok follows
clusters-ok config t cluster [] c r f s = ground arith
clusters-ok config t cluster (d ∷ ds) c r f s =
    let later = follows-sorted d ds s in
    elim (Bool-cases (splits config cluster d)) [
      | inl e ↦
          let rest =
            clusters-ok config t (d ∷ []) ds (cluster_ok-append t [] d refl (ground arith) refl)
              (ground arith) later (Pairwise.of_cons s) in
          rw e (ground (arith, rest))
      | inr e ↦ rw e (
          clusters-ok config t (cluster ++ d ∷ []) ds
            (cluster_ok-append t cluster d c (ground arith) (ground arith)) (ground arith)
            (follows-all cluster d ds later) (Pairwise.of_cons s))
    ]

pub follows-none : (ds : List Drop) → all (follows []) ds ≡ true
unfolding follows
follows-none [] = refl
follows-none (d ∷ ds) = follows-none ds

pub drop_order_total : (a b : Drop) → (drop_order a b ≡ true) ⊎ (drop_order b a ≡ true)
drop_order_total a b =
    is_le_total (compare_list-IsComparison compare-IsComparison) (drop_key a) (drop_key b)

pub drop_order_trans :
    (a b c : Drop) → drop_order a b ≡ true → drop_order b c ≡ true → drop_order a c ≡ true
drop_order_trans a b c h k =
    is_le_trans (compare_list-IsComparison compare-IsComparison) (drop_key a) (drop_key b)
      (drop_key c) h k
