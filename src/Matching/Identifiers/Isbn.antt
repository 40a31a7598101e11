-- ===== src/Matching/Identifiers/Isbn.antt =====
-- The check digit of a converted ISBN, and its normal form.
use mathlib.Core.Option.{some-injective}
use price_intelligence_india.Base.{
  all-append, ℕ, zero, suc, ◌+◌, ◌-◌, ◌*◌, ◌%◌, ◌≡◌, ◌≤◌, refl, subst, ap, ◌∙◌, Bool, true, ◌&&◌,
  some, [], ◌∷◌, ◌++◌, all, filter, length, ◌==◌, arith, Bool-cases, inl, inr,
}
use price_intelligence_india.Base.Members.{all-of_mem, all-of_forall, filter-all}
use price_intelligence_india.Domain.{Text}
use price_intelligence_india.Matching.Identifiers.{
  UnicodeData, is_digit, is_alnum, weighted_digits, check_digit, with_check, isbn13_of, is_tail,
  upper_text, compact_of, isbn10_to_isbn13, normalize_isbn, normalize_barcode,
}

-- An ISBN-13: thirteen digits whose weighted sum is a multiple of ten.
abbrev pub is_valid_isbn13 : Text → Bool
is_valid_isbn13 text = length text == 13 && all is_digit text && weighted_digits 1 text % 10 == 0

check-closes : (total : ℕ) → (total + (10 - total % 10) % 10) % 10 ≡ 0
check-closes total = omega arith

check_digit-lt : (total : ℕ) → (10 - total % 10) % 10 ≤ 9
check_digit-lt total = omega arith

length-snoc : (xs : Text) (c : ℕ) → length (xs ++ c ∷ []) ≡ length xs + 1
length-snoc [] c = omega arith
length-snoc (x ∷ xs) c = omega (arith, length-snoc xs c)

-- A digit after an even number of digits has the first one's weight.
weighted_digits-snoc :
    (k weight : ℕ) (xs : Text) (c : ℕ)
    → weight ≤ 4
    → length xs ≡ 2 * k
    → weighted_digits weight (xs ++ c ∷ []) ≡ weighted_digits weight xs + (c - 48) * weight
weighted_digits-snoc k weight [] c h l = omega arith
weighted_digits-snoc zero weight (x ∷ xs) c h l = absurd (omega arith)
weighted_digits-snoc (suc k) weight (x ∷ []) c h l = absurd (omega arith)
weighted_digits-snoc (suc k) weight (x ∷ y ∷ xs) c h l =
    let back : 4 - (4 - weight) ≡ weight = omega arith in
    let rest : weighted_digits weight (xs ++ c ∷ [])
        ≡ weighted_digits weight xs + (c - 48) * weight =
      weighted_digits-snoc k weight xs c h (omega arith) in
    rw back (omega (arith, rest))

-- A number with its check digit is valid.
with_check-valid :
    (body : Text)
    → length body ≡ 12
    → all is_digit body ≡ true
    → is_valid_isbn13 (with_check body) ≡ true
with_check-valid body l d =
    let c = 48 + check_digit body in
    let total = weighted_digits 1 body in
    let sum = weighted_digits-snoc 6 1 body c (omega arith) l in
    let small = check_digit-lt total in
    let digits = all-append is_digit body (c ∷ []) in
    let len = length-snoc body c in rw (len, digits, sum) (ground (arith, check-closes total))

isbn13_of-valid :
    (text result : Text) → isbn13_of text ≡ some result → is_valid_isbn13 result ≡ true
unfolding isbn13_of
isbn13_of-valid (a ∷ b ∷ c ∷ d ∷ e ∷ f ∷ g ∷ h ∷ i ∷ tail) result made =
    let body = a ∷ b ∷ c ∷ d ∷ e ∷ f ∷ g ∷ h ∷ i ∷ [] in
    elim (Bool-cases (all is_digit body && is_tail tail)) [
      | inl yes_ ↦
          subst (λ r. is_valid_isbn13 r ≡ true) (some-injective _ _ (rw yes_ at made))
            (with_check-valid (57 ∷ 55 ∷ 56 ∷ body) refl (ground arith))
      | inr no_ ↦ cc (rw no_ at made)
    ]
isbn13_of-valid _ result made = cc

alnum_digits : (text : Text) → all is_digit text ≡ true → all is_alnum text ≡ true
alnum_digits [] h = refl
alnum_digits (c ∷ text) h = ground (arith, alnum_digits text)

module _ (unicode : UnicodeData)
    (upper_digit : (c : ℕ) → is_digit c ≡ true → unicode.upper c ≡ c ∷ [])
    (decimal_digit : (c : ℕ) → is_digit c ≡ true → unicode.is_decimal c ≡ true) where
  upper_digits : (text : Text) → all is_digit text ≡ true → upper_text unicode text ≡ text
  upper_digits [] h = refl
  upper_digits (c ∷ text) h =
      rw (upper_digit c (ground arith), upper_digits text (ground arith)) refl

  compact_digits : (text : Text) → all is_digit text ≡ true → compact_of unicode text ≡ text
  unfolding compact_of
  compact_digits text h =
      ap (filter is_alnum) (upper_digits text h) ∙ filter-all is_alnum text (alnum_digits text h)

  decimal_digits : (text : Text) → all is_digit text ≡ true → filter unicode.is_decimal text ≡ text
  decimal_digits text h = filter-all unicode.is_decimal text (
      all-of_forall unicode.is_decimal text
        (λ c m. decimal_digit c (all-of_mem is_digit text c h m)))

  normal_isbn :
      (text : Text) → is_valid_isbn13 text ≡ true → normalize_isbn unicode text ≡ some text
  unfolding normalize_isbn
  normal_isbn text h =
      let digits : all is_digit text ≡ true = ground arith in
      rw (compact_digits text digits) (ground arith)

  normal_barcode :
      (text : Text)
      → is_valid_isbn13 text ≡ true
      → normalize_barcode unicode text ≡ some (48 ∷ text)
  unfolding normalize_barcode
  normal_barcode text h =
      let digits : all is_digit text ≡ true = ground arith in
      let long : length text ≡ 13 = ground arith in rw (decimal_digits text digits, long) refl

  -- An ISBN-10 is converted to thirteen digits whose weighted sum is a multiple of ten, the ISBN-13 it
  -- is converted to is its own normal form, and as a barcode it has one zero in front.
  pub isbn10_to_isbn13-normalize_isbn :
      (isbn10 isbn13 : Text)
      → isbn10_to_isbn13 unicode isbn10 ≡ some isbn13
      → (is_valid_isbn13 isbn13 ≡ true)
        × (normalize_isbn unicode isbn13 ≡ some isbn13)
        × (normalize_barcode unicode isbn13 ≡ some (48 ∷ isbn13))
  unfolding isbn10_to_isbn13
  isbn10_to_isbn13-normalize_isbn isbn10 isbn13 made =
      let valid = isbn13_of-valid (upper_text unicode isbn10) isbn13 made in
      (valid, normal_isbn isbn13 valid, normal_barcode isbn13 valid)
