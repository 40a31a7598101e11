-- ===== src/Base/Members.antt =====
-- Boolean quantifiers over a list and the members of the list.
use mathlib.Core.Path.{ap, ◌∙◌, ◌≡◌, refl, sym, subst}
use mathlib.Core.Logic.Or
use Prim.Native.Nat.{ℕ}
use mathlib.Core.Bool.{Bool, true, Bool-set, not, ◌&&◌}
use mathlib.Core.List.{List, [], ◌∷◌, Mem, not-mem-nil, mem-cons, mem-cons_self, mem-cons_of_mem}
use native.Mathlib.Omega.{arith}
use mathlib.Core.Option.{some, some-injective}
use mathlib.Core.Logic.{inl, inr}
use price_intelligence_india.Base.Tests.{Bool-cases, ◌==◌}
use price_intelligence_india.Base.Lists.{all, filter, head?, filter-cons_true, filter-cons_false}

module _ {ℓ} {A : Type ℓ} (p : A → Bool) where
  pub all-of_mem : (xs : List A) (a : A) → all p xs ≡ true → Mem a xs → p a ≡ true
  all-of_mem [] a h m = absurd (not-mem-nil m)
  all-of_mem (x ∷ xs) a h m =
      Or.elim (Bool-set _ _) (mem-cons.0 m)
        (λ same. subst (λ v. p v ≡ true) (sym same) (ground arith)) (all-of_mem xs a (ground arith))

  pub all-of_forall : (xs : List A) → ((a : A) → Mem a xs → p a ≡ true) → all p xs ≡ true
  all-of_forall [] h = refl
  all-of_forall (x ∷ xs) h =
      ground (arith, h x mem-cons_self, all-of_forall xs (λ a m. h a (mem-cons_of_mem x m)))

  pub mem-filter : (xs : List A) (a : A) → Mem a xs → p a ≡ true → Mem a (filter p xs)
  mem-filter [] a m h = absurd (not-mem-nil m)
  mem-filter (x ∷ xs) a m h =
      Or.elim (hlevel) (mem-cons.0 m)
        (λ same.
          let e : p x ≡ true = subst (λ v. p v ≡ true) same h in
          subst (Mem a) (sym (filter-cons_true p x xs e))
            (subst (λ v. Mem v (x ∷ filter p xs)) (sym same) mem-cons_self))
        (λ later.
          let rest = mem-filter xs a later h in
          elim (Bool-cases (p x)) [
            | inl e ↦ subst (Mem a) (sym (filter-cons_true p x xs e)) (mem-cons_of_mem x rest)
            | inr e ↦ subst (Mem a) (sym (filter-cons_false p x xs e)) rest
          ])

  pub mem-of_filter : (xs : List A) (a : A) → Mem a (filter p xs) → Mem a xs
  mem-of_filter [] a m = m
  mem-of_filter (x ∷ xs) a m = elim (Bool-cases (p x)) [
    | inl e ↦
        Or.elim (hlevel) (mem-cons.0 (subst (Mem a) (filter-cons_true p x xs e) m))
          (λ same. subst (λ v. Mem v (x ∷ xs)) (sym same) mem-cons_self)
          (λ later. mem-cons_of_mem x (mem-of_filter xs a later))
    | inr e ↦ mem-cons_of_mem x (mem-of_filter xs a (subst (Mem a) (filter-cons_false p x xs e) m))
  ]

  pub all-filter : (xs : List A) → all p (filter p xs) ≡ true
  all-filter [] = refl
  all-filter (x ∷ xs) = ground (arith, all-filter xs)

  pub filter-all : (xs : List A) → all p xs ≡ true → filter p xs ≡ xs
  filter-all [] h = refl
  filter-all (x ∷ xs) h = ground (arith, filter-all xs)

  -- What holds of every member holds of every selected one.
  pub all-of_filter : (q : A → Bool) (xs : List A) → all p xs ≡ true → all p (filter q xs) ≡ true
  all-of_filter q [] h = refl
  all-of_filter q (x ∷ xs) h = ground (arith, all-of_filter q xs)

module _ {ℓ} {A : Type ℓ} where
  pub mem-of_head : (xs : List A) (a : A) → head? xs ≡ some a → Mem a xs
  mem-of_head [] a h = cc
  mem-of_head (x ∷ xs) a h = subst (λ v. Mem v (x ∷ xs)) (some-injective _ _ h) mem-cons_self

module _ {ℓ} {A : Type ℓ} (key : A → ℕ) where
  -- No two members have one key.
  abbrev pub distinct_by : List A → Bool
  distinct_by [] = true
  distinct_by (a ∷ rest) = all (λ x. not (key a == key x)) rest && distinct_by rest

  keys_differ :
      (a : A) (rest : List A) (x : A)
      → distinct_by (a ∷ rest) ≡ true
      → Mem x rest
      → key a ≡ key x
      → ⊥
  keys_differ a rest x d m e =
      let other : not (key a == key x) ≡ true =
        all-of_mem (λ y. not (key a == key y)) rest x (ground arith) m in
      ground arith

  -- Members of one key are one.
  pub eq_of_distinct :
      IsSet A
      → (xs : List A) (a b : A) → distinct_by xs ≡ true
      → Mem a xs
      → Mem b xs
      → key a ≡ key b
      → a ≡ b
  eq_of_distinct set [] a b d m n e = absurd (not-mem-nil m)
  eq_of_distinct set (x ∷ rest) a b d m n e =
      Or.elim (set a b) (mem-cons.0 m)
        (λ first.
          Or.elim (set a b) (mem-cons.0 n) (λ second. first ∙ sym second)
            (λ later. absurd (keys_differ x rest b d later (sym (ap key first) ∙ e))))
        (λ later.
          Or.elim (set a b) (mem-cons.0 n)
            (λ second. absurd (keys_differ x rest a d later (sym (ap key second) ∙ sym e)))
            (λ last. eq_of_distinct set rest a b (ground arith) later last e))
