-- ===== src/Matching/Identifiers/Barcode.antt =====
-- The normal form of a barcode.
use mathlib.Core.Option.{some-injective}
use price_intelligence_india.Base.{
  ℕ, zero, suc, ◌+◌, ◌-◌, ◌≡◌, refl, subst, ◌∙◌, true, false, ◌⊎◌, some, [], ◌∷◌, ◌++◌, all,
  all-append, filter, length, arith, Bool-cases, inl, inr,
}
use price_intelligence_india.Base.Members.{all-filter, filter-all}
use price_intelligence_india.Domain.{Text}
use price_intelligence_india.Matching.Identifiers.{
  UnicodeData, zeros, zfill, is_gtin_length, nonempty, normalize_barcode,
}

length-zfill : (n : ℕ) (text : Text) → length (zeros n ++ text) ≡ n + length text
length-zfill zero text = omega arith
length-zfill (suc n) text = omega (arith, length-zfill n text)

module _ (unicode : UnicodeData) (zero_decimal : unicode.is_decimal 48 ≡ true) where
  all-zeros : (n : ℕ) → all unicode.is_decimal (zeros n) ≡ true
  all-zeros zero = refl
  all-zeros (suc n) = ground (arith, all-zeros n)

  -- A UPC and the EAN and the GTIN-14 that put zeros in front of it are one barcode: with twelve or
  -- thirteen digits, a zero in front changes nothing.
  pub normalize_barcode-zero :
      (value : Text)
      → (length (filter unicode.is_decimal value) ≡ 12)
        ⊎ (length (filter unicode.is_decimal value) ≡ 13)
      → normalize_barcode unicode (48 ∷ value) ≡ normalize_barcode unicode value
  unfolding normalize_barcode
  normalize_barcode-zero value (inl l) = rw (zero_decimal, l) refl
  normalize_barcode-zero value (inr l) = rw (zero_decimal, l) refl

  padded : (digits : Text) → is_gtin_length (length digits) ≡ true → length (zfill digits 14) ≡ 14
  padded digits g = length-zfill (14 - length digits) digits ∙ ground arith

  fourteen :
      (text : Text)
      → all unicode.is_decimal text ≡ true
      → length text ≡ 14
      → normalize_barcode unicode text ≡ some text
  unfolding normalize_barcode
  fourteen text h l = rw (filter-all unicode.is_decimal text h, l) refl

  unpadded :
      (text : Text)
      → all unicode.is_decimal text ≡ true
      → is_gtin_length (length text) ≡ false
      → normalize_barcode unicode text ≡ nonempty text
  unfolding normalize_barcode
  unpadded text h g = rw (filter-all unicode.is_decimal text h, g) refl

  nonempty-same : (text d : Text) → nonempty text ≡ some d → text ≡ d
  nonempty-same [] d h = cc
  nonempty-same (c ∷ text) d h = some-injective _ _ h

  -- A normal form is its own normal form.
  pub normalize_barcode-idempotent :
      (value normal : Text)
      → normalize_barcode unicode value ≡ some normal
      → normalize_barcode unicode normal ≡ some normal
  unfolding normalize_barcode
  normalize_barcode-idempotent value normal h =
      let digits = filter unicode.is_decimal value in
      let decimal = all-filter unicode.is_decimal value in
      elim (Bool-cases (is_gtin_length (length digits))) [
        | inl g ↦
            let same : zfill digits 14 ≡ normal = some-injective _ _ (rw g at h) in
            subst (λ text. normalize_barcode unicode text ≡ some text) same
              (fourteen (zfill digits 14)
                (all-append unicode.is_decimal (zeros (14 - length digits)) digits
                  ∙ rw (all-zeros (14 - length digits), decimal) refl)
                (padded digits g))
        | inr g ↦
            let found : nonempty digits ≡ some normal = rw g at h in
            let same = nonempty-same digits normal found in
            subst (λ text. normalize_barcode unicode text ≡ some normal) same
              (unpadded digits decimal g ∙ found)
      ]
