-- ===== src/Base/Dict.antt =====
-- A Python `dict` with text keys, as its items in their order: what is set under a key that is there
-- keeps its place, what is set under a new key comes last.
use Prim.Native.Nat.{ℕ, compare}
use mathlib.Core.Path.{◌≡◌, refl, sym, subst}
use mathlib.Core.Bool.{Bool, true}
use mathlib.Core.Option.{Option, none, some}
use mathlib.Core.List.{List, [], ◌∷◌}
use mathlib.Core.Logic.{inl, inr}
use native.Mathlib.Omega.{arith}
use price_intelligence_india.Base.Tests.{if◌then◌else◌, Bool-cases}
use price_intelligence_india.Base.Compare.{
  compare_list, compare_list-IsComparison, compare-IsComparison, is_eq,
}

abbrev pub Key : Type 0
Key = List ℕ

unfoldable pub same_key : Key → Key → Bool
same_key a b = is_eq (compare_list compare a b)

pub same_key_refl : (a : Key) → same_key a a ≡ true
unfolding same_key
same_key_refl a = ground (arith, (compare_list-IsComparison compare-IsComparison).reflexive a)

pub same_key-eq : (a b : Key) → same_key a b ≡ true → a ≡ b
unfolding same_key
same_key-eq a b h = (compare_list-IsComparison compare-IsComparison).equal a b (ground arith)

pub same_key_trans : (a b c : Key) → same_key a b ≡ true → same_key a c ≡ same_key b c
same_key_trans a b c h = subst (λ x. same_key a c ≡ same_key x c) (same_key-eq a b h) refl

same_key-clash :
    (k key j : Key) → same_key k j ≡ true → same_key key j ≡ true → same_key k key ≡ true
same_key-clash k key j h g = subst (λ x. same_key k x ≡ true) (sym (same_key-eq key j g)) h

pub same_key_symm : (a b : Key) → same_key a b ≡ same_key b a
unfolding same_key
same_key_symm a b = ground (arith, (compare_list-IsComparison compare-IsComparison).flipped a b)

module _ {ℓ} {A : Type ℓ} where
  -- `items.get(key)`
  unfoldable pub find : Key → List (Key × A) → Option A
  unfolding same_key
  find key [] = none
  find key ((k, a) ∷ rest) = let later = find key rest in if same_key k key then some a else later

  -- `items[key] = value`
  unfoldable pub set_key : Key → A → List (Key × A) → List (Key × A)
  unfolding same_key
  set_key key value [] = (key, value) ∷ []
  set_key key value ((k, a) ∷ rest) =
      let later = set_key key value rest in
      if same_key k key then (k, value) ∷ rest else (k, a) ∷ later

  -- `del items[key]`, of a key that is there
  unfoldable pub remove : Key → List (Key × A) → List (Key × A)
  unfolding same_key
  remove key [] = []
  remove key ((k, a) ∷ rest) =
      let later = remove key rest in if same_key k key then later else (k, a) ∷ later

  pub find-set_key :
      (j key : Key) (value : A) (items : List (Key × A))
      → find j (set_key key value items) ≡ (if same_key key j then some value else find j items)
  unfolding find set_key
  find-set_key j key value [] = refl
  find-set_key j key value ((k, a) ∷ rest) = elim (Bool-cases (same_key k key)) [
    | inl e ↦ let same = same_key_trans k key j e in rw e (ground (arith, same))
    | inr e ↦ rw e (
        ground
          (arith, find-set_key j key value rest, same_key_trans key j k, same_key-clash k key j))
  ]

  pub find-remove :
      (j key : Key) (items : List (Key × A))
      → find j (remove key items) ≡ (if same_key key j then none else find j items)
  unfolding find remove
  find-remove j key [] = ground arith
  find-remove j key ((k, a) ∷ rest) = elim (Bool-cases (same_key k key)) [
    | inl e ↦
        let same = same_key_trans k key j e in rw e (ground (arith, same, find-remove j key rest))
    | inr e ↦ rw e (ground (arith, find-remove j key rest, same_key-clash k key j))
  ]
