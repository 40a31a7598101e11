-- ===== src/Base/Distinct.antt =====
-- Lists of which no two members have one key: what sorting and filtering leave of that.
use Prim.Native.Nat.{ℕ, ◌+◌}
use mathlib.Core.Path.{◌≡◌, refl, ap, ◌∙◌}
use mathlib.Core.Bool.{Bool, true, not, ◌||◌}
use mathlib.Core.List.{List, [], ◌∷◌}
use mathlib.Core.List.Perm
use native.Mathlib.Omega.{arith}
use price_intelligence_india.Base.Tests.{◌==◌}
use price_intelligence_india.Base.Lists.{all, any, filter, length}
use price_intelligence_india.Base.Members.{distinct_by, all-of_mem, all-of_forall, all-of_filter}
use price_intelligence_india.Base.Sort.{insert_sorted, sort_by, sort_by-perm}

module _ {ℓ} {A : Type ℓ} where
  pub all-sort_by :
      (le : A → A → Bool) (p : A → Bool) (xs : List A)
      → all p xs ≡ true
      → all p (sort_by le xs) ≡ true
  all-sort_by le p xs h =
      all-of_forall p (sort_by le xs)
        (λ a m. all-of_mem p xs a h ((Perm.mem_iff (sort_by-perm le xs)).0 m))

  any-insert_sorted :
      (le : A → A → Bool) (p : A → Bool) (x : A) (ys : List A)
      → any p (insert_sorted le x ys) ≡ (p x || any p ys)
  unfolding insert_sorted
  any-insert_sorted le p x [] = refl
  any-insert_sorted le p x (y ∷ ys) = ground (arith, any-insert_sorted le p x ys)

  pub any-sort_by :
      (le : A → A → Bool) (p : A → Bool) (xs : List A) → any p (sort_by le xs) ≡ any p xs
  unfolding sort_by
  any-sort_by le p [] = refl
  any-sort_by le p (x ∷ xs) =
      any-insert_sorted le p x (sort_by le xs) ∙ ap (λ b. p x || b) (any-sort_by le p xs)

  pub filter-same :
      (p q : A → Bool) (xs : List A) → ((a : A) → p a ≡ q a) → filter p xs ≡ filter q xs
  filter-same p q [] h = refl
  filter-same p q (x ∷ xs) h = ground (arith, h x, filter-same p q xs h)

  pub length-filter-not :
      (p : A → Bool) (xs : List A)
      → length (filter p xs) + length (filter (λ x. not (p x)) xs) ≡ length xs
  length-filter-not p [] = refl
  length-filter-not p (x ∷ xs) = ground (arith, length-filter-not p xs)

module _ {ℓ} {A : Type ℓ} (key : A → ℕ) where
  abbrev differs : A → A → Bool
  differs a b = not (key a == key b)

  pub distinct-filter :
      (p : A → Bool) (xs : List A)
      → distinct_by key xs ≡ true
      → distinct_by key (filter p xs) ≡ true
  distinct-filter p [] h = refl
  distinct-filter p (x ∷ xs) h =
      ground (arith, distinct-filter p xs, all-of_filter (differs x) p xs)

  insert_sorted-all :
      (le : A → A → Bool) (p : A → Bool) (x : A) (ys : List A)
      → p x ≡ true
      → all p ys ≡ true
      → all p (insert_sorted le x ys) ≡ true
  unfolding insert_sorted
  insert_sorted-all le p x [] h k = ground arith
  insert_sorted-all le p x (y ∷ ys) h k = ground (arith, insert_sorted-all le p x ys)

  insert_sorted-distinct :
      (le : A → A → Bool) (x : A) (ys : List A)
      → distinct_by key (x ∷ ys) ≡ true
      → distinct_by key (insert_sorted le x ys) ≡ true
  unfolding insert_sorted
  insert_sorted-distinct le x [] h = refl
  insert_sorted-distinct le x (y ∷ ys) h =
      ground (arith, insert_sorted-distinct le x ys, insert_sorted-all le (differs y) x ys)

  pub distinct-sort_by :
      (le : A → A → Bool) (xs : List A)
      → distinct_by key xs ≡ true
      → distinct_by key (sort_by le xs) ≡ true
  unfolding sort_by
  distinct-sort_by le [] h = refl
  distinct-sort_by le (x ∷ xs) h =
      insert_sorted-distinct le x (sort_by le xs)
        (ground (arith, distinct-sort_by le xs, all-sort_by le (differs x) xs))
