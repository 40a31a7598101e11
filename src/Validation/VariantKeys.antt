-- ===== src/Validation/VariantKeys.antt =====
-- What a variant key says of the attributes that it was built from.
use mathlib.Core.List.{map, Perm}
use mathlib.Core.List.Perm
use price_intelligence_india.Base.{
  ℕ, suc, ◌≡◌, refl, ap, ap₂, sym, subst, ◌∙◌, ◌↔◌, Bool, true, false, ◌&&◌, not, List, [], ◌∷◌,
  all, length, all-append, compare, ◌==◌, arith,
}
use price_intelligence_india.Base.Compare.{
  compare_list, compare_pair, compare-IsComparison, compare_list-IsComparison,
  compare_pair-IsComparison, is_le_total, is_le_trans, is_le_antisymm, IsComparison,
}
use price_intelligence_india.Base.Members.{all-of_mem, all-of_forall}
use price_intelligence_india.Base.Sort.{
  sort_by, sort_by-perm, sort_by-perm_invariant, length-sort_by,
}
use price_intelligence_india.Domain.{Text}
use price_intelligence_india.Validation.Text.{is_empty, split_on, split_on-word, split_on-append}
use price_intelligence_india.Validation.Attributes.{
  Attribute, item_order, item_text, joined, semicolon, equals_sign, build_variant_key,
}

attribute_order : IsComparison (compare_pair (compare_list compare) (compare_list compare))
attribute_order =
    compare_pair-IsComparison (compare_list-IsComparison compare-IsComparison)
      (compare_list-IsComparison compare-IsComparison)

-- The key does not depend on the order of the attributes.
build_variant_key-perm_invariant :
    (xs ys : List Attribute) → Perm xs ys → build_variant_key xs ≡ build_variant_key ys
unfolding build_variant_key
build_variant_key-perm_invariant xs ys p = ap joined (
    sort_by-perm_invariant item_order (is_le_total attribute_order) (is_le_trans attribute_order) xs
      ys (λ a b m n h k. is_le_antisymm attribute_order a b h k) p)

-- No mark of the key's own.
abbrev is_plain : Text → Bool
is_plain = all λ c. not (c == semicolon) && not (c == equals_sign)

abbrev pub is_unambiguous : Attribute → Bool
is_unambiguous (key, value) = is_plain key && is_plain value

abbrev pair_of : List Text → Attribute
pair_of (key ∷ value ∷ rest) = (key, value)
pair_of _ = ([], [])

parse : Text → List Attribute
parse text = map (λ part. pair_of (split_on equals_sign part)) (split_on semicolon text)

plain-semicolon : (t : Text) → is_plain t ≡ true → all (λ c. not (c == semicolon)) t ≡ true
plain-semicolon [] h = refl
plain-semicolon (c ∷ cs) h = ground (arith, plain-semicolon cs)

plain-equals : (t : Text) → is_plain t ≡ true → all (λ c. not (c == equals_sign)) t ≡ true
plain-equals [] h = refl
plain-equals (c ∷ cs) h = ground (arith, plain-equals cs)

item_text-semicolon :
    (item : Attribute)
    → is_unambiguous item ≡ true
    → all (λ c. not (c == semicolon)) (item_text item) ≡ true
item_text-semicolon (key, value) h =
    all-append (λ c. not (c == semicolon)) key (equals_sign ∷ value)
    ∙ ground (arith, plain-semicolon key, plain-semicolon value)

item_text-split :
    (item : Attribute)
    → is_unambiguous item ≡ true
    → pair_of (split_on equals_sign (item_text item)) ≡ item
item_text-split (key, value) h =
    rw
      (
        split_on-append equals_sign key value (plain-equals key (ground arith)),
        split_on-word equals_sign value (plain-equals value (ground arith)),
      )
      refl

parse-joined :
    (item : Attribute) (rest : List Attribute)
    → all is_unambiguous (item ∷ rest) ≡ true
    → parse (joined (item ∷ rest)) ≡ item ∷ rest
unfolding parse
parse-joined item [] h =
    rw (split_on-word semicolon (item_text item) (item_text-semicolon item (ground arith)))
      (ap (λ (i : Attribute). i ∷ []) (item_text-split item (ground arith)))
parse-joined item (other ∷ rest) h =
    rw
      (split_on-append semicolon (item_text item) (joined (other ∷ rest))
        (item_text-semicolon item (ground arith)))
      (ap₂ ◌∷◌ (item_text-split item (ground arith)) (parse-joined other rest (ground arith)))

parse-joined_nonempty :
    (items : List Attribute)
    → is_empty items ≡ false
    → all is_unambiguous items ≡ true
    → parse (joined items) ≡ items
parse-joined_nonempty [] n h = cc
parse-joined_nonempty (item ∷ rest) n h = parse-joined item rest h

all-of_perm :
    (xs ys : List Attribute)
    → Perm ys xs
    → all is_unambiguous xs ≡ true
    → all is_unambiguous ys ≡ true
all-of_perm xs ys p h =
    all-of_forall is_unambiguous ys (λ a m. all-of_mem is_unambiguous xs a h ((Perm.mem_iff p).0 m))

nonempty_of_length : (xs : List Attribute) (n : ℕ) → length xs ≡ suc n → is_empty xs ≡ false
nonempty_of_length [] n h = cc
nonempty_of_length (x ∷ xs) n h = refl

sorted-nonempty :
    (xs : List Attribute) → is_empty xs ≡ false → is_empty (sort_by item_order xs) ≡ false
sorted-nonempty [] n = cc
sorted-nonempty (x ∷ xs) n =
    nonempty_of_length (sort_by item_order (x ∷ xs)) (length xs)
      (length-sort_by item_order (x ∷ xs))

parse-key :
    (xs : List Attribute)
    → is_empty xs ≡ false
    → all is_unambiguous xs ≡ true
    → parse (build_variant_key xs) ≡ sort_by item_order xs
unfolding build_variant_key
parse-key xs n h =
    parse-joined_nonempty (sort_by item_order xs) (sorted-nonempty xs n)
      (all-of_perm xs (sort_by item_order xs) (sort_by-perm item_order xs) h)

-- Two sets of attributes, neither of them empty and with no `;` or `=` inside, have one key exactly
-- if they are the same set.
pub build_variant_key-eq :
    (xs ys : List Attribute)
    → is_empty xs ≡ false
    → is_empty ys ≡ false
    → all is_unambiguous xs ≡ true
    → all is_unambiguous ys ≡ true
    → (build_variant_key xs ≡ build_variant_key ys) ↔ Perm xs ys
build_variant_key-eq xs ys n m h k = (
  λ same.
      let sorted : sort_by item_order xs ≡ sort_by item_order ys =
        sym (parse-key xs n h) ∙ ap parse same ∙ parse-key ys m k in
      Perm.trans (Perm.symm (sort_by-perm item_order xs))
        (subst (λ l. Perm l ys) (sym sorted) (sort_by-perm item_order ys)),
  build_variant_key-perm_invariant xs ys,
)
