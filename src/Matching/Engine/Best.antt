-- ===== src/Matching/Engine/Best.antt =====
-- The strongest match of a candidate in a catalog.
use mathlib.Core.Option.{some-injective}
use mathlib.Core.List.{Mem, not-mem-nil, mem-cons, mem-cons_self, mem-cons_of_mem}
use mathlib.Core.Logic.Or
use mathlib.Core.Logic.{∥∥₁_prop, ∥∥₁_map}
use price_intelligence_india.Base.{
  ◌≡◌, sym, subst, ap, ◌∙◌, Bool, true, ◌&&◌, ◌||◌, some, List, [], ◌∷◌, head?, ltb, leb, ◌==◌,
  arith, Option-cases, inl, inr, ◌⊎◌,
}
use price_intelligence_india.Base.Compare.{
  compare_list-IsComparison, compare-IsComparison, compare_ℤ-IsComparison,
  compare_pair-IsComparison, IsComparison, is_le_total, is_le_trans,
}
use price_intelligence_india.Base.Sort.{sort_by, sort_by-head, sort_by-mem_head}
use price_intelligence_india.Domain.{Text}
use price_intelligence_india.Matching.Models.{MatchingConfig, Explanation, MatchResult}
use price_intelligence_india.Matching.Stages.{MatchCandidate, MatchStage}
use price_intelligence_india.Matching.Engine.{
  rank, compare_listings, compare_all, result_key, compare_keys, is_better, find_best_match,
}

-- A better classification, or the same one with a score that is at least as high.
abbrev pub outranks : MatchResult → MatchResult → Bool
outranks a b =
    ltb (rank a.classification) (rank b.classification)
    || rank a.classification == rank b.classification && leb b.match_score a.match_score

module _ (config : MatchingConfig) (stages : List MatchStage) (candidate : MatchCandidate) where
  -- The results of a catalog that is not empty.
  record Compared (other : MatchCandidate) (rest : List MatchCandidate) (results : List MatchResult)
      : Type 0 where
    first : MatchResult
    others : List MatchResult
    first_eq : compare_listings config stages candidate other ≡ some first
    others_eq : compare_all config stages candidate rest ≡ some others
    results_eq : first ∷ others ≡ results

  compare_all-cons :
      (other : MatchCandidate) (rest : List MatchCandidate) (results : List MatchResult)
      → compare_all config stages candidate (other ∷ rest) ≡ some results
      → Compared other rest results
  compare_all-cons other rest results h =
      elim (Option-cases (compare_listings config stages candidate other)) [
        | inl e ↦ cc (rw e at h)
        | inr (first, e) ↦ elim (Option-cases (compare_all config stages candidate rest)) [
          | inl e' ↦ cc (rw (e, e') at h)
          | inr (others, e') ↦ record {
            first = first;
            others = others;
            first_eq = e;
            others_eq = e';
            results_eq = some-injective _ _ (rw (e, e') at h);
          }
        ]
      ]

  -- The result of an entry of the catalog is among the results.
  compare_all-mem :
      (catalog : List MatchCandidate) (results : List MatchResult) (other : MatchCandidate)
      (r : MatchResult)
      → compare_all config stages candidate catalog ≡ some results
      → Mem other catalog
      → compare_listings config stages candidate other ≡ some r
      → Mem r results
  compare_all-mem [] results other r h m e = absurd (not-mem-nil m)
  compare_all-mem (x ∷ xs) results other r h m e =
      let c = compare_all-cons x xs results h in
      subst (Mem r) c.results_eq (
        Or.elim (hlevel) (mem-cons.0 m)
          (λ same.
            let eq : c.first ≡ r =
              some-injective _ _
                (sym c.first_eq ∙ (ap (compare_listings config stages candidate) (sym same) ∙ e)) in
            subst (λ v. Mem v (c.first ∷ c.others)) eq mem-cons_self)
          (λ later.
            mem-cons_of_mem c.first (compare_all-mem xs c.others other r c.others_eq later e)))

  -- An entry of the catalog with the result.
  abbrev pub IsCompared : List MatchCandidate → MatchResult → Type 0
  IsCompared catalog r =
      (other : MatchCandidate) × (Mem other catalog)
      × (compare_listings config stages candidate other ≡ some r)

  compare_all-IsCompared :
      (catalog : List MatchCandidate) (results : List MatchResult) (r : MatchResult)
      → compare_all config stages candidate catalog ≡ some results
      → Mem r results
      → ∥ IsCompared catalog r ∥₁
  compare_all-IsCompared [] results r h m =
      absurd (not-mem-nil (subst (Mem r) (sym (some-injective _ _ h)) m))
  compare_all-IsCompared (x ∷ xs) results r h m =
      let c = compare_all-cons x xs results h in
      Or.elim ∥∥₁_prop (mem-cons.0 (subst (Mem r) (sym c.results_eq) m))
        (λ same. ∣ (x, mem-cons_self, c.first_eq ∙ ap some (sym same)) ∣₁)
        (λ later.
          ∥∥₁_map (compare_all-IsCompared xs c.others r c.others_eq later)
            (λ (other, inside, e). (other, mem-cons_of_mem x inside, e)))

compare_keys-IsComparison : IsComparison compare_keys
compare_keys-IsComparison = compare_pair-IsComparison compare-IsComparison (
    compare_pair-IsComparison compare_ℤ-IsComparison
      (compare_list-IsComparison compare-IsComparison))

module _ (render : Explanation → Text) where
  is_better_total :
      (a b : MatchResult) → (is_better render a b ≡ true) ⊎ (is_better render b a ≡ true)
  is_better_total a b =
      is_le_total compare_keys-IsComparison (result_key render a) (result_key render b)

  is_better_trans :
      (a b c : MatchResult)
      → is_better render a b ≡ true
      → is_better render b c ≡ true
      → is_better render a c ≡ true
  is_better_trans a b c h k =
      is_le_trans compare_keys-IsComparison (result_key render a) (result_key render b)
        (result_key render c) h k

  is_better-outranks : (a b : MatchResult) → is_better render a b ≡ true → outranks a b ≡ true
  is_better-outranks a b h = ground arith

  module _ (config : MatchingConfig) (stages : List MatchStage) (candidate : MatchCandidate) where
    head-results :
        (catalog : List MatchCandidate) (best : MatchResult)
        → find_best_match config stages render candidate catalog ≡ some (some best)
        → (results : List MatchResult) × (compare_all config stages candidate catalog
            ≡ some results)
          × (head? (sort_by (is_better render) results) ≡ some best)
    unfolding find_best_match
    head-results catalog best h =
        elim (Option-cases (compare_all config stages candidate catalog)) [
          | inl n ↦ cc (rw n at h)
          | inr (results, n) ↦ (results, n, some-injective _ _ (rw n at h))
        ]

    -- The best match is the result of an entry of the catalog, and it outranks the result of every
    -- entry: its classification is better, or the same with a score at least as high.
    pub find_best_match-outranks :
        (catalog : List MatchCandidate) (best : MatchResult) (other : MatchCandidate)
        (r : MatchResult)
        → find_best_match config stages render candidate catalog ≡ some (some best)
        → Mem other catalog
        → compare_listings config stages candidate other ≡ some r
        → ∥ IsCompared config stages candidate catalog best ∥₁ × (outranks best r ≡ true)
    find_best_match-outranks catalog best other r h m e =
        let (results, n, first) = head-results catalog best h in
        (
          compare_all-IsCompared config stages candidate catalog results best n (
              sort_by-mem_head (is_better render) is_better_total is_better_trans results best
                first),
          is_better-outranks best r (
              sort_by-head (is_better render) is_better_total is_better_trans results best r first
                (compare_all-mem config stages candidate catalog results other r n m e)),
        )
