-- ===== src/Matching/Identifiers/Symmetry.antt =====
-- The comparison of identifiers from either side.
use price_intelligence_india.Base.{
  ◌≡◌, refl, sym, ap, ap₂, ◌∙◌, Bool, true, false, ◌||◌, not, List, [], ◌∷◌, any, map, arith, ◌⊎◌,
  Bool-cases, inl, inr, filter-cons_true, filter-cons_false,
}
use price_intelligence_india.Base.Compare.{compare_list-IsComparison, compare-IsComparison}
use mathlib.Core.List.{map-append}
use price_intelligence_india.Domain.{Text}
use price_intelligence_india.Matching.Models.{
  IdentifierFamily, MatchIdentifier, FamilyMatch, FamilyConflict,
}
use price_intelligence_india.Matching.Identifiers.{UnicodeData}
use price_intelligence_india.Matching.Identifiers.Comparison.{
  same_text, mem_text, FamilyOutcome, shared_of, matched_or_conflicting, family_outcome, match_of,
  conflict_of, unilateral_of, over_families, Groups, compare_groups, compare_identifiers,
  normalized_values_by_family,
}

is_eq-flip : (a b : Text) → same_text a b ≡ same_text b a
is_eq-flip a b = ground (arith, (compare_list-IsComparison compare-IsComparison).flipped a b)

-- A conflict with its sides exchanged.
abbrev pub swap_conflict : FamilyConflict → FamilyConflict
swap_conflict c = record { family = c.family; left = c.right; right = c.left }

-- Whether two lists share a value.
abbrev meets : List Text → List Text → Bool
meets xs ys = any (λ x. mem_text x ys) xs

meets-nil : (xs : List Text) → meets xs [] ≡ false
meets-nil [] = refl
meets-nil (x ∷ xs) = meets-nil xs

any-same : (y : Text) (xs : List Text) → any (λ x. same_text x y) xs ≡ mem_text y xs
any-same y [] = refl
any-same y (x ∷ xs) = ap₂ (λ a b. a || b) (is_eq-flip x y) (any-same y xs)

meets-cons :
    (xs : List Text) (y : Text) (ys : List Text)
    → meets xs (y ∷ ys) ≡ (mem_text y xs || meets xs ys)
meets-cons [] y ys = refl
meets-cons (x ∷ xs) y ys = ground (arith, is_eq-flip x y, meets-cons xs y ys)

meets_comm : (xs ys : List Text) → meets xs ys ≡ meets ys xs
meets_comm xs [] = meets-nil xs
meets_comm xs (y ∷ ys) = meets-cons xs y ys ∙ ap (λ b. mem_text y xs || b) (meets_comm xs ys)

abbrev is_nil : List Text → Bool
is_nil [] = true
is_nil (_ ∷ _) = false

shared-meets : (xs ys : List Text) → is_nil (shared_of xs ys) ≡ not (meets xs ys)
shared-meets [] ys = refl
shared-meets (x ∷ xs) ys = elim (Bool-cases (mem_text x ys)) [
  | inl e ↦ ap is_nil (filter-cons_true (λ v. mem_text v ys) x xs e) ∙ rw e refl
  | inr e ↦ ap is_nil (filter-cons_false (λ v. mem_text v ys) x xs e) ∙ rw e (shared-meets xs ys)
]

shared-nil_comm : (xs ys : List Text) → is_nil (shared_of xs ys) ≡ is_nil (shared_of ys xs)
shared-nil_comm xs ys = shared-meets xs ys ∙ ap not (meets_comm xs ys) ∙ sym (shared-meets ys xs)

-- What the outcomes of one family from both sides have in common.
record IsSwapped (one other : FamilyOutcome) : Type 0 where
  matches_agree :
      (k : IdentifierFamily)
      → map (λ m. m.family) (match_of k one) ≡ map (λ m. m.family) (match_of k other)
  conflicts_swap :
      (k : IdentifierFamily) → map swap_conflict (conflict_of k one) ≡ conflict_of k other
  unilateral_agree : (k : IdentifierFamily) → unilateral_of k one ≡ unilateral_of k other

matched_or_conflicting-swap :
    (left right shared others : List Text)
    → is_nil shared ≡ is_nil others
    → IsSwapped
        (matched_or_conflicting left right shared)
        (matched_or_conflicting right left others)
matched_or_conflicting-swap left right [] [] h = record {
  matches_agree = λ k. refl;
  conflicts_swap = λ k. refl;
  unilateral_agree = λ k. refl;
}
matched_or_conflicting-swap left right [] (_ ∷ _) h = cc
matched_or_conflicting-swap left right (_ ∷ _) [] h = cc
matched_or_conflicting-swap left right (_ ∷ _) (_ ∷ _) h = record {
  matches_agree = λ k. refl;
  conflicts_swap = λ k. refl;
  unilateral_agree = λ k. refl;
}

one_sided :
    (o : FamilyOutcome)
    → (o ≡ FamilyOutcome.absent) ⊎ (o ≡ FamilyOutcome.unilateral)
    → IsSwapped o o
one_sided o (inl e) =
    rw e (record {
      matches_agree = λ k. refl;
      conflicts_swap = λ k. refl;
      unilateral_agree = λ k. refl;
    })
one_sided o (inr e) =
    rw e (record {
      matches_agree = λ k. refl;
      conflicts_swap = λ k. refl;
      unilateral_agree = λ k. refl;
    })

family_outcome-swap :
    (left right : List Text) → IsSwapped (family_outcome left right) (family_outcome right left)
unfolding family_outcome
family_outcome-swap [] [] = one_sided FamilyOutcome.absent (inl refl)
family_outcome-swap [] (y ∷ right) = one_sided FamilyOutcome.unilateral (inr refl)
family_outcome-swap (x ∷ left) [] = one_sided FamilyOutcome.unilateral (inr refl)
family_outcome-swap (x ∷ left) (y ∷ right) =
    matched_or_conflicting-swap (x ∷ left) (y ∷ right) _ _ (shared-nil_comm (x ∷ left) (y ∷ right))

map-over_families {ℓ κ} :
    {A : Type ℓ} {B : Type κ} (g : A → B) (f : IdentifierFamily → List A)
    → map g (over_families f) ≡ over_families (λ k. map g (f k))
map-over_families g f = simp (map-append)

module _ (left right : Groups) where
  swapped :
      (k : IdentifierFamily)
      → IsSwapped (family_outcome (left k) (right k)) (family_outcome (right k) (left k))
  swapped k = family_outcome-swap (left k) (right k)

  found_matches : Groups → Groups → IdentifierFamily → List FamilyMatch
  found_matches xs ys k = match_of k (family_outcome (xs k) (ys k))

  found_conflicts : Groups → Groups → IdentifierFamily → List FamilyConflict
  found_conflicts xs ys k = conflict_of k (family_outcome (xs k) (ys k))

  compare_groups-swap :
      let one = compare_groups left right in
      let other = compare_groups right left in
      (map (λ m. m.family) one.matches ≡ map (λ m. m.family) other.matches)
      × (map swap_conflict one.conflicts ≡ other.conflicts)
      × (one.unilateral ≡ other.unilateral)
  unfolding compare_groups found_matches found_conflicts
  compare_groups-swap = (
    map-over_families (λ (m : FamilyMatch). m.family) (found_matches left right)
        ∙ ((λ i. over_families (λ k. (swapped k).matches_agree k i))
            ∙ sym (map-over_families (λ (m : FamilyMatch). m.family) (found_matches right left))),
    map-over_families swap_conflict (found_conflicts left right)
        ∙ (λ i. over_families (λ k. (swapped k).conflicts_swap k i)),
    (λ i. over_families (λ k. (swapped k).unilateral_agree k i)),
  )

-- Which families of identifiers match, conflict, or are on one side only does not depend on which
-- listing is the left one; a conflict has its sides exchanged.
pub compare_identifiers-swap :
    (unicode : UnicodeData) (left right : List MatchIdentifier)
    → let one = compare_identifiers unicode left right in
      let other = compare_identifiers unicode right left in
      (map (λ m. m.family) one.matches ≡ map (λ m. m.family) other.matches)
      × (map swap_conflict one.conflicts ≡ other.conflicts)
      × (one.unilateral ≡ other.unilateral)
unfolding compare_identifiers
compare_identifiers-swap unicode left right =
    compare_groups-swap (normalized_values_by_family unicode left)
      (normalized_values_by_family unicode right)
