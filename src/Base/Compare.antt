-- ===== src/Base/Compare.antt =====
-- Three-way comparisons and the lexicographic order of Python's tuples and strings.
use Prim.Native.Nat.{compare, Ordering, ◌+◌}
use mathlib.Core.Path.{◌≡◌, refl, ap₂}
use mathlib.Core.Logic.{◌⊎◌}
use mathlib.Core.Bool.{Bool, true, false}
use mathlib.Core.List.{List, [], ◌∷◌}
use native.Mathlib.Omega.{arith}
use price_intelligence_india.Base.Int.{ℤ, pos_part, neg_part}

abbrev pub flip : Ordering → Ordering
flip Ordering.lt = Ordering.gt
flip Ordering.eq = Ordering.eq
flip Ordering.gt = Ordering.lt

-- The second comparison decides where the first one ties.
abbrev pub and_then : Ordering → Ordering → Ordering
and_then Ordering.eq o = o
and_then o _ = o

abbrev pub is_le : Ordering → Bool
is_le Ordering.gt = false
is_le _ = true

abbrev pub is_eq : Ordering → Bool
is_eq Ordering.eq = true
is_eq _ = false

pub record IsComparison {ℓ} {A : Type ℓ} (cmp : A → A → Ordering) : Type ℓ where
  pub reflexive : (a : A) → cmp a a ≡ Ordering.eq
  pub equal : (a b : A) → cmp a b ≡ Ordering.eq → a ≡ b
  pub flipped : (a b : A) → cmp b a ≡ flip (cmp a b)
  pub transitive :
      (a b c : A) → cmp a b ≡ Ordering.lt → cmp b c ≡ Ordering.lt → cmp a c ≡ Ordering.lt

pub compare-IsComparison : IsComparison compare
compare-IsComparison = record {
  reflexive = λ a. ground arith;
  equal = λ a b h. ground arith;
  flipped = λ a b. ground arith;
  transitive = λ a b c h k. ground arith;
}

-- The comparison of two integers
abbrev pub compare_ℤ : ℤ → ℤ → Ordering
compare_ℤ a b = compare (pos_part a + neg_part b) (pos_part b + neg_part a)

pub compare_ℤ-IsComparison : IsComparison compare_ℤ
compare_ℤ-IsComparison = record {
  reflexive = λ a. ground arith;
  equal = λ a b h. ground arith;
  flipped = λ a b. ground arith;
  transitive = λ a b c h k. ground arith;
}

module _ {ℓ} {A : Type ℓ} where
  -- Two sequences are compared at the first place where they differ.
  abbrev pub compare_list : (A → A → Ordering) → List A → List A → Ordering
  compare_list cmp [] [] = Ordering.eq
  compare_list cmp [] (_ ∷ _) = Ordering.lt
  compare_list cmp (_ ∷ _) [] = Ordering.gt
  compare_list cmp (x ∷ xs) (y ∷ ys) = and_then (cmp x y) (compare_list cmp xs ys)

-- Two pairs are compared by their first parts, then by their second parts.
abbrev pub compare_pair {ℓ κ} :
    {A : Type ℓ} {B : Type κ} → (A → A → Ordering) → (B → B → Ordering) → A × B → A × B → Ordering
compare_pair c d (a, b) (a', b') = and_then (c a a') (d b b')

flip-and_then : (o p : Ordering) → and_then (flip o) (flip p) ≡ flip (and_then o p)
flip-and_then o p = ground arith

and_then-eq : (o p : Ordering) → and_then o p ≡ Ordering.eq → (o ≡ Ordering.eq) × (p ≡ Ordering.eq)
and_then-eq o p h = ground arith

module _ {ℓ} {A : Type ℓ} {cmp : A → A → Ordering} (c : IsComparison cmp) where
  and_then-transitive :
      (x y z : A) (p q r : Ordering)
      → (p ≡ Ordering.lt → q ≡ Ordering.lt → r ≡ Ordering.lt)
      → and_then (cmp x y) p ≡ Ordering.lt
      → and_then (cmp y z) q ≡ Ordering.lt
      → and_then (cmp x z) r ≡ Ordering.lt
  and_then-transitive x y z p q r k = ground (arith, c.transitive x y z, c.equal x y, c.equal y z)

  compare_list-reflexive : (xs : List A) → compare_list cmp xs xs ≡ Ordering.eq
  compare_list-reflexive [] = refl
  compare_list-reflexive (x ∷ xs) = rw (c.reflexive x) (compare_list-reflexive xs)

  compare_list-equal : (xs ys : List A) → compare_list cmp xs ys ≡ Ordering.eq → xs ≡ ys
  compare_list-equal [] [] h = refl
  compare_list-equal [] (y ∷ ys) h = cc
  compare_list-equal (x ∷ xs) [] h = cc
  compare_list-equal (x ∷ xs) (y ∷ ys) h =
      let (p, q) = and_then-eq (cmp x y) (compare_list cmp xs ys) h in
      ap₂ ◌∷◌ (c.equal x y p) (compare_list-equal xs ys q)

  compare_list-flipped : (xs ys : List A) → compare_list cmp ys xs ≡ flip (compare_list cmp xs ys)
  compare_list-flipped [] [] = refl
  compare_list-flipped [] (y ∷ ys) = refl
  compare_list-flipped (x ∷ xs) [] = refl
  compare_list-flipped (x ∷ xs) (y ∷ ys) =
      rw (c.flipped x y, compare_list-flipped xs ys)
        (flip-and_then (cmp x y) (compare_list cmp xs ys))

  compare_list-transitive :
      (xs ys zs : List A)
      → compare_list cmp xs ys ≡ Ordering.lt
      → compare_list cmp ys zs ≡ Ordering.lt
      → compare_list cmp xs zs ≡ Ordering.lt
  compare_list-transitive [] [] zs h k = k
  compare_list-transitive [] (y ∷ ys) [] h k = cc
  compare_list-transitive [] (y ∷ ys) (z ∷ zs) h k = refl
  compare_list-transitive (x ∷ xs) [] zs h k = cc
  compare_list-transitive (x ∷ xs) (y ∷ ys) [] h k = k
  compare_list-transitive (x ∷ xs) (y ∷ ys) (z ∷ zs) h k =
      and_then-transitive x y z _ _ _ (compare_list-transitive xs ys zs) h k

  pub compare_list-IsComparison : IsComparison (compare_list cmp)
  compare_list-IsComparison = record {
    reflexive = compare_list-reflexive;
    equal = compare_list-equal;
    flipped = compare_list-flipped;
    transitive = compare_list-transitive;
  }

  pub compare_pair-IsComparison {κ} :
      {B : Type κ} {d : B → B → Ordering} → IsComparison d → IsComparison (compare_pair cmp d)
  compare_pair-IsComparison {d = d} e = record {
    reflexive = λ (a, b). rw (c.reflexive a) (e.reflexive b);
    equal = λ (a, b) (a', b') h.
        let (p, q) = and_then-eq (cmp a a') (d b b') h in λ i. (c.equal a a' p i, e.equal b b' q i);
    flipped =
        λ (a, b) (a', b'). rw (c.flipped a a', e.flipped b b') (flip-and_then (cmp a a') (d b b'));
    transitive =
        λ (a, b) (a', b') (a'', b''). and_then-transitive a a' a'' _ _ _ (e.transitive b b' b'');
  }

  -- The order that the comparison decides is total, transitive and antisymmetric.
  pub is_le_total : (a b : A) → (is_le (cmp a b) ≡ true) ⊎ (is_le (cmp b a) ≡ true)
  is_le_total a b = ground (arith, c.flipped a b)

  pub is_le_trans :
      (a b d : A) → is_le (cmp a b) ≡ true → is_le (cmp b d) ≡ true → is_le (cmp a d) ≡ true
  is_le_trans a b d h k = ground (arith, c.transitive a b d, c.equal a b, c.equal b d)

  pub is_le_antisymm : (a b : A) → is_le (cmp a b) ≡ true → is_le (cmp b a) ≡ true → a ≡ b
  is_le_antisymm a b h k = c.equal a b (ground (arith, c.flipped a b))
