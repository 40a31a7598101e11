-- ===== src/Base/Sort.antt =====
-- Python's `sorted`: a stable sort, written as an insertion sort over a Boolean order.
use Prim.Native.Nat.{suc}
use price_intelligence_india.Base.Lists.{length, head?}
use price_intelligence_india.Base.Members.{mem-of_head}
use mathlib.Core.Option.{some, some-injective}
use mathlib.Core.Path.{◌≡◌, refl, ap₂, sym, subst}
use mathlib.Core.Logic.{◌⊎◌, inl, inr}
use mathlib.Core.Logic.Or
use mathlib.Core.Bool.{Bool, true, Bool-set}
use mathlib.Core.List.{
  List, [], ◌∷◌, Mem, Perm, Pairwise, not-mem-nil, mem-cons, mem-cons_self, mem-cons_of_mem,
}
use mathlib.Core.List.Pairwise
use mathlib.Core.List.Perm
use native.Mathlib.Omega.{arith}
use price_intelligence_india.Base.Tests.{if◌then◌else◌, Bool-cases}

module _ {ℓ} {A : Type ℓ} (le : A → A → Bool) where
  -- Equal keys keep their order: `x` came first, so it goes in front of a tie.
  unfoldable pub insert_sorted : A → List A → List A
  insert_sorted x [] = x ∷ []
  insert_sorted x (y ∷ ys) =
      let rest = insert_sorted x ys in if le x y then x ∷ y ∷ ys else y ∷ rest

  unfoldable pub sort_by : List A → List A
  unfolding insert_sorted
  sort_by [] = []
  sort_by (x ∷ xs) = insert_sorted x (sort_by xs)

  abbrev pub IsSorted : List A → Type ℓ
  IsSorted = Pairwise λ a b. le a b ≡ true

  insert_sorted-perm : (x : A) (ys : List A) → Perm (insert_sorted x ys) (x ∷ ys)
  unfolding insert_sorted
  insert_sorted-perm x [] = Perm.rfl
  insert_sorted-perm x (y ∷ ys) = elim (Bool-cases (le x y)) [
    | inl e ↦ rw e Perm.rfl
    | inr e ↦ rw e (Perm.trans (Perm.cons y (insert_sorted-perm x ys)) (Perm.swap x y ys))
  ]

  pub sort_by-perm : (xs : List A) → Perm (sort_by xs) xs
  unfolding sort_by
  sort_by-perm [] = Perm.rfl
  sort_by-perm (x ∷ xs) =
      Perm.trans (insert_sorted-perm x (sort_by xs)) (Perm.cons x (sort_by-perm xs))

  length-insert_sorted : (x : A) (ys : List A) → length (insert_sorted x ys) ≡ suc (length ys)
  unfolding insert_sorted
  length-insert_sorted x [] = refl
  length-insert_sorted x (y ∷ ys) = ground (arith, length-insert_sorted x ys)

  pub length-sort_by : (xs : List A) → length (sort_by xs) ≡ length xs
  unfolding sort_by
  length-sort_by [] = refl
  length-sort_by (x ∷ xs) = omega (arith, length-insert_sorted x (sort_by xs), length-sort_by xs)

  module _ (total : (a b : A) → (le a b ≡ true) ⊎ (le b a ≡ true)) where
    le_refl : (a : A) → le a a ≡ true
    le_refl a = ground (arith, total a a)

    -- The head of an ascending list is at most every member.
    pub le_of_mem-head :
        {x : A} {xs : List A} (a : A) → IsSorted (x ∷ xs) → Mem a (x ∷ xs) → le x a ≡ true
    le_of_mem-head {x} a (Pairwise.cons h s) m =
        Or.elim (Bool-set _ _) (mem-cons.0 m) (λ e. subst (λ b. le x b ≡ true) (sym e) (le_refl x))
          (h a)

    IsSorted-head :
        (xs : List A) (x a : A) → IsSorted xs → head? xs ≡ some x → Mem a xs → le x a ≡ true
    IsSorted-head [] x a s h m = absurd (not-mem-nil m)
    IsSorted-head (y ∷ ys) x a s h m =
        subst (λ v. le v a ≡ true) (some-injective _ _ h) (le_of_mem-head a s m)

    -- A list has one ascending order, if members that tie are one.
    pub IsSorted-unique :
        (xs ys : List A)
        → ((a b : A) → Mem a xs → Mem b xs → le a b ≡ true → le b a ≡ true → a ≡ b)
        → Perm xs ys
        → IsSorted xs
        → IsSorted ys
        → xs ≡ ys
    IsSorted-unique [] ys anti p s t = Perm.nil-eq p
    IsSorted-unique (x ∷ xs) [] anti p s t = Perm.eq-nil p
    IsSorted-unique (x ∷ xs) (y ∷ ys) anti p s t =
        let y_in : Mem y (x ∷ xs) = (Perm.mem_iff p).1 mem-cons_self in
        let x_in : Mem x (y ∷ ys) = (Perm.mem_iff p).0 mem-cons_self in
        let same : x ≡ y =
          anti x y mem-cons_self y_in (le_of_mem-head y s y_in) (le_of_mem-head x t x_in) in
        let rest : Perm xs ys = Perm.cons_inv (Perm.trans p (Perm.cons' (sym same) Perm.rfl)) in
        ap₂ ◌∷◌ same (
          IsSorted-unique xs ys (λ a b m n. anti a b (mem-cons_of_mem x m) (mem-cons_of_mem x n))
            rest (Pairwise.of_cons s) (Pairwise.of_cons t))

    module _ (trans : (a b c : A) → le a b ≡ true → le b c ≡ true → le a c ≡ true) where
      insert_sorted-IsSorted : (x : A) (ys : List A) → IsSorted ys → IsSorted (insert_sorted x ys)
      unfolding insert_sorted
      insert_sorted-IsSorted x [] s = Pairwise.cons (λ b m. absurd (not-mem-nil m)) Pairwise.nil
      insert_sorted-IsSorted x (y ∷ ys) s = elim (Bool-cases (le x y)) [
        | inl e ↦ rw e (Pairwise.cons (λ b m. trans x y b e (le_of_mem-head b s m)) s)
        | inr e ↦
            let back : le y x ≡ true = ground (arith, total x y) in
            rw e (
              Pairwise.cons
                (λ b m.
                  Or.elim (Bool-set _ _) (mem-cons.0 ((Perm.mem_iff (insert_sorted-perm x ys)).0 m))
                    (λ same. subst (λ c. le y c ≡ true) (sym same) back)
                    (λ n. le_of_mem-head b s (mem-cons_of_mem y n)))
                (insert_sorted-IsSorted x ys (Pairwise.of_cons s)))
      ]

      pub sort_by-IsSorted : (xs : List A) → IsSorted (sort_by xs)
      unfolding sort_by
      sort_by-IsSorted [] = Pairwise.nil
      sort_by-IsSorted (x ∷ xs) = insert_sorted-IsSorted x (sort_by xs) (sort_by-IsSorted xs)

      -- The sorted list does not depend on the order of the input.
      pub sort_by-perm_invariant :
          (xs ys : List A)
          → ((a b : A) → Mem a xs → Mem b xs → le a b ≡ true → le b a ≡ true → a ≡ b)
          → Perm xs ys
          → sort_by xs ≡ sort_by ys
      sort_by-perm_invariant xs ys anti p =
          let back = sort_by-perm xs in
          IsSorted-unique (sort_by xs) (sort_by ys)
            (λ a b m n. anti a b ((Perm.mem_iff back).0 m) ((Perm.mem_iff back).0 n))
            (Perm.trans back (Perm.trans p (Perm.symm (sort_by-perm ys)))) (sort_by-IsSorted xs)
            (sort_by-IsSorted ys)

      -- Nothing comes before the first.
      pub sort_by-head :
          (xs : List A) (x a : A) → head? (sort_by xs) ≡ some x → Mem a xs → le x a ≡ true
      sort_by-head xs x a h m =
          IsSorted-head (sort_by xs) x a (sort_by-IsSorted xs) h
            ((Perm.mem_iff (sort_by-perm xs)).1 m)

      pub sort_by-mem_head : (xs : List A) (x : A) → head? (sort_by xs) ≡ some x → Mem x xs
      sort_by-mem_head xs x h = (Perm.mem_iff (sort_by-perm xs)).0 (mem-of_head (sort_by xs) x h)
