-- ===== src/Sales/Detection/Clusters.antt =====
-- What the clusters of a scope's items are: the items in their order, cut where a gap is too long.
use mathlib.Core.List.{List, [], ◌∷◌, ◌++◌}
use price_intelligence_india.Base.{
  ◌≡◌, refl, ap, sym, ◌∙◌, Bool, true, false, ◌&&◌, not, all, arith, Bool-cases, inl, inr,
}
use price_intelligence_india.Sales.Models.{SalesConfig}
use price_intelligence_india.Sales.Lifecycle.{flatten}
use price_intelligence_india.Sales.Detection.Drops.{Drop}
use price_intelligence_india.Sales.Detection.Windows.{splits, clusters}

append_assoc : (xs ys zs : List Drop) → (xs ++ ys) ++ zs ≡ xs ++ (ys ++ zs)
append_assoc [] ys zs = refl
append_assoc (x ∷ xs) ys zs = ap (λ (l : List Drop). x ∷ l) (append_assoc xs ys zs)

append_nil : (xs : List Drop) → xs ++ [] ≡ xs
append_nil [] = refl
append_nil (x ∷ xs) = ap (λ (l : List Drop). x ∷ l) (append_nil xs)

module _ (config : SalesConfig) where
  -- Each item starts within the longest gap after the one before it.
  abbrev pub is_close : List Drop → Bool
  is_close [] = true
  is_close (first ∷ []) = true
  is_close (first ∷ d ∷ ds) = not (splits config (first ∷ []) d) && is_close (d ∷ ds)

  -- A cluster ends too long before the first item of the next.
  abbrev ends_before : List Drop → List (List Drop) → Bool
  ends_before cluster [] = true
  ends_before cluster ([] ∷ rest) = false
  ends_before cluster ((d ∷ ds) ∷ rest) = splits config cluster d

  abbrev pub are_apart : List (List Drop) → Bool
  are_apart [] = true
  are_apart (cluster ∷ rest) = ends_before cluster rest && are_apart rest

  clusters-concat : (cluster ds : List Drop) → flatten (clusters config cluster ds) ≡ cluster ++ ds
  unfolding clusters
  clusters-concat cluster [] = append_nil cluster ∙ sym (append_nil cluster)
  clusters-concat cluster (d ∷ ds) = elim (Bool-cases (splits config cluster d)) [
    | inl e ↦ rw e (ap (λ (l : List Drop). cluster ++ l) (clusters-concat (d ∷ []) ds))
    | inr e ↦ rw e (clusters-concat (cluster ++ d ∷ []) ds ∙ append_assoc cluster (d ∷ []) ds)
  ]

  is_close-append :
      (cluster : List Drop) (d : Drop)
      → is_close cluster ≡ true
      → splits config cluster d ≡ false
      → is_close (cluster ++ d ∷ []) ≡ true
  is_close-append [] d h s = refl
  is_close-append (first ∷ []) d h s = ground arith
  is_close-append (first ∷ e ∷ ds) d h s = ground (arith, is_close-append (e ∷ ds) d)

  clusters-close :
      (cluster ds : List Drop)
      → is_close cluster ≡ true
      → all is_close (clusters config cluster ds) ≡ true
  unfolding clusters
  clusters-close cluster [] h = ground arith
  clusters-close cluster (d ∷ ds) h = elim (Bool-cases (splits config cluster d)) [
    | inl e ↦ rw e (ground (arith, clusters-close (d ∷ []) ds refl))
    | inr e ↦ rw e (clusters-close (cluster ++ d ∷ []) ds (is_close-append cluster d h e))
  ]

  ends_before-clusters :
      (cluster : List Drop) (d : Drop) (rest ds : List Drop)
      → ends_before cluster (clusters config (d ∷ rest) ds) ≡ splits config cluster d
  unfolding clusters
  ends_before-clusters cluster d rest [] = refl
  ends_before-clusters cluster d rest (x ∷ ds) = elim (Bool-cases (splits config (d ∷ rest) x)) [
    | inl e ↦ rw e refl
    | inr e ↦ rw e (ends_before-clusters cluster d (rest ++ x ∷ []) ds)
  ]

  clusters-apart : (cluster ds : List Drop) → are_apart (clusters config cluster ds) ≡ true
  unfolding clusters
  clusters-apart cluster [] = refl
  clusters-apart cluster (d ∷ ds) = elim (Bool-cases (splits config cluster d)) [
    | inl e ↦ rw e (rw (ends_before-clusters cluster d [] ds, e) (clusters-apart (d ∷ []) ds))
    | inr e ↦ rw e (clusters-apart (cluster ++ d ∷ []) ds)
  ]

  -- The clusters of the items, one after the other, are the items; inside a cluster no two neighbours
  -- are further apart than the longest gap, and from one cluster to the next they are.
  pub clusters-partition :
      (items : List Drop)
      → (flatten (clusters config [] items) ≡ items)
        × (all is_close (clusters config [] items) ≡ true)
        × (are_apart (clusters config [] items) ≡ true)
  clusters-partition items =
      (clusters-concat [] items, clusters-close [] items refl, clusters-apart [] items)
