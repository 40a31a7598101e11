-- ===== src/Adapters/Fleet/Isolation.antt =====
-- What a search of the fleet gives: every answer and every failure of the capable retailers.
use mathlib.Core.List.{List, [], ◌∷◌, ◌++◌, map, append_assoc, append-nil}
use price_intelligence_india.Base.{
  ◌≡◌, refl, sym, ap, ◌∙◌, true, all, ◌⊎◌, inl, inr, arith, Option, none, some, Option-cases,
}
use price_intelligence_india.Collection.Models.{RetailerAdapterError, Raised, Call, returns, raises}
use price_intelligence_india.Adapters.Models.{
  RetailerProduct, NormalizedProduct, ProductSearchQuery, ProductSearchResult,
}
use price_intelligence_india.Adapters.Interface.{
  RetailerAdapter, adapter_id, is_own, result_is_own, search_products,
}
use price_intelligence_india.Adapters.Interface.Calls.{CallEnds, operations-end}
use price_intelligence_india.Adapters.Registry.{Registry}
use price_intelligence_india.Adapters.Fleet.{
  RetailerFailure, Answers, no_answers, add_product, add_products, add_answer, gather_answers,
  capable_adapters, search, normalization_failure, from_error,
}

-- The listings of an answer
abbrev pub listings : Call ProductSearchResult → List RetailerProduct
listings (returns result) = result.products
listings (raises e) = []

abbrev present : Option NormalizedProduct → List NormalizedProduct
present none = []
present (some n) = n ∷ []

abbrev absent : RetailerAdapter → Option NormalizedProduct → List RetailerFailure
absent adapter none = normalization_failure adapter ∷ []
absent adapter (some n) = []

-- What the adapter's mapping makes of its listings
abbrev pub normalized_of : RetailerAdapter → List RetailerProduct → List NormalizedProduct
normalized_of adapter [] = []
normalized_of adapter (p ∷ ps) = present (adapter.normalize_product p) ++ normalized_of adapter ps

-- A failure for each listing that the adapter cannot normalize
abbrev pub unnormalized : RetailerAdapter → List RetailerProduct → List RetailerFailure
unnormalized adapter [] = []
unnormalized adapter (p ∷ ps) =
    absent adapter (adapter.normalize_product p) ++ unnormalized adapter ps

-- The failures of a retailer: the error that its search raised, or those of its listings
abbrev pub failures_of : RetailerAdapter → Call ProductSearchResult → List RetailerFailure
failures_of adapter (returns result) = unnormalized adapter result.products
failures_of adapter (raises (Raised.adapter_error e)) = from_error e ∷ []
failures_of adapter (raises other) = []

-- What `f` gives for each adapter, in order
abbrev pub of_each {ℓ} : {A : Type ℓ} → (RetailerAdapter → List A) → List RetailerAdapter → List A
of_each f [] = []
of_each f (a ∷ rest) = f a ++ of_each f rest

abbrev more :
    Answers → List RetailerProduct → List NormalizedProduct → List RetailerFailure → Answers
more a ps ns fs = record {
  products = a.products ++ ps;
  normalized = a.normalized ++ ns;
  failures = a.failures ++ fs;
}

more-more :
    (a : Answers) (ps qs : List RetailerProduct) (ns ms : List NormalizedProduct)
    (fs gs : List RetailerFailure)
    → more (more a ps ns fs) qs ms gs ≡ more a (ps ++ qs) (ns ++ ms) (fs ++ gs)
more-more a ps qs ns ms fs gs =
    rw
      (
        append_assoc a.products ps qs,
        append_assoc a.normalized ns ms,
        append_assoc a.failures fs gs,
      )
      refl

more_nothing : (a : Answers) → more a [] [] [] ≡ a
more_nothing a = rw (append-nil a.products, append-nil a.normalized, append-nil a.failures) refl

add_product-eq :
    (adapter : RetailerAdapter) (p : RetailerProduct) (a : Answers)
    → add_product adapter p a
      ≡ more a
          (p ∷ [])
          (present (adapter.normalize_product p))
          (absent adapter (adapter.normalize_product p))
unfolding add_product
add_product-eq adapter p a = elim (Option-cases (adapter.normalize_product p)) [
  | inl e ↦ rw (e, append-nil a.normalized) refl
  | inr (n, e) ↦ rw (e, append-nil a.failures) refl
]

add_products-eq :
    (adapter : RetailerAdapter) (ps : List RetailerProduct) (a : Answers)
    → add_products adapter ps a ≡ more a ps (normalized_of adapter ps) (unnormalized adapter ps)
unfolding add_products
add_products-eq adapter [] a = sym (more_nothing a)
add_products-eq adapter (p ∷ ps) a =
    add_products-eq adapter ps (add_product adapter p a)
    ∙ rw (add_product-eq adapter p a) (
        more-more a (p ∷ []) ps (present (adapter.normalize_product p)) (normalized_of adapter ps)
          (absent adapter (adapter.normalize_product p)) (unnormalized adapter ps))

-- A search of one retailer returns a result of its own, or raises a framework error.
search-cases :
    (adapter : RetailerAdapter) (query : ProductSearchQuery)
    → ((r : ProductSearchResult) × (search_products adapter query ≡ returns r)
        × (result_is_own adapter r ≡ true))
      ⊎ ((e : RetailerAdapterError) × (search_products adapter query
            ≡ raises (Raised.adapter_error e)))
search-cases adapter query = elim ((operations-end adapter).0 query) [
  | CallEnds.disabled off e ↦ inr (_, e)
  | CallEnds.unsupported on off e ↦ inr (_, e)
  | CallEnds.own_payload r operable h own e ↦ inl (r, e, own)
  | CallEnds.foreign_payload r operable h own e ↦ inr (_, e)
  | CallEnds.passed_on error operable h e ↦ inr (error, e)
  | CallEnds.timed_out operable h e ↦ inr (_, e)
  | CallEnds.leaked name operable h e ↦ inr (_, e)
]

module _ (query : ProductSearchQuery) where
  abbrev pub listings_of : RetailerAdapter → List RetailerProduct
  listings_of adapter = listings (search_products adapter query)

  -- The answers after those of more retailers
  abbrev and_from : Answers → List RetailerAdapter → Answers
  and_from a adapters =
      more a (of_each listings_of adapters)
        (of_each (λ x. normalized_of x (listings_of x)) adapters)
        (of_each (λ x. failures_of x (search_products x query)) adapters)

  add_answer-eq :
      (adapter : RetailerAdapter) (a : Answers)
      → add_answer adapter (search_products adapter query) a
        ≡ returns (
            more a
              (listings_of adapter)
              (normalized_of adapter (listings_of adapter))
              (failures_of adapter (search_products adapter query)))
  unfolding add_answer
  add_answer-eq adapter a = elim (search-cases adapter query) [
    | inl (r, e, own) ↦ rw e (ap returns (add_products-eq adapter r.products a))
    | inr (error, e) ↦ rw (e, append-nil a.products, append-nil a.normalized) refl
  ]

  gather_answers-eq :
      (adapters : List RetailerAdapter) (a : Answers)
      → gather_answers query adapters a ≡ returns (and_from a adapters)
  unfolding gather_answers
  gather_answers-eq [] a = ap returns (sym (more_nothing a))
  gather_answers-eq (adapter ∷ rest) a =
      let answer =
        more a (listings_of adapter) (normalized_of adapter (listings_of adapter))
          (failures_of adapter (search_products adapter query)) in
      rw (add_answer-eq adapter a)
        (gather_answers-eq rest answer ∙ ap returns (more-more a _ _ _ _ _ _))

  listings-own :
      (adapter : RetailerAdapter)
      → all (λ p. is_own adapter p.retailer_id) (listings_of adapter) ≡ true
  listings-own adapter = elim (search-cases adapter query) [
    | inl (r, e, own) ↦ rw e (ground arith)
    | inr (error, e) ↦ rw e refl
  ]

  -- A search never raises, whatever single retailers raise. Its listings are those of the capable
  -- retailers whose search returned, each under the identity of its retailer; its normalized listings
  -- are what the retailers' mappings make of them; its failures are the errors of the retailers whose
  -- search raised and one for each listing that its retailer could not normalize; all of them in the
  -- order of the retailers, and every capable retailer is named as consulted.
  pub search-total :
      (registry : Registry)
      → let capable = capable_adapters query registry in
        (search query registry
          ≡ returns (record {
            query = query;
            products = of_each listings_of capable;
            normalized_products = of_each (λ x. normalized_of x (listings_of x)) capable;
            failures = of_each (λ x. failures_of x (search_products x query)) capable;
            consulted_retailer_ids = map adapter_id capable;
          }))
        × ((adapter : RetailerAdapter)
            → all (λ p. is_own adapter p.retailer_id) (listings_of adapter) ≡ true)
  unfolding search
  search-total registry =
      (rw (gather_answers-eq (capable_adapters query registry) no_answers) refl, listings-own)
