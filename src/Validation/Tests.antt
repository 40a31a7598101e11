-- ===== src/Validation/Tests.antt =====
-- Runs of the checks on sample texts, and their theorems at these inputs.
use mathlib.Core.List.{map, Perm}
use price_intelligence_india.Base.{
  ◌+◌, ◌≡◌, refl, ◌⊎◌, ◌↔◌, true, false, ◌&&◌, any, all, none, some, List, [], ◌∷◌, leb,
  if◌then◌else◌, arith,
}
use price_intelligence_india.Base.Sort.{sort_by}
use price_intelligence_india.Domain.{Text, SaleEventType, SaleEventSource}
use price_intelligence_india.Validation.Outcome.{SaleEventFault, DomainError, ok, raised}
use price_intelligence_india.Validation.Text.{strip, split_on}
use price_intelligence_india.Validation.Slugs.{
  is_slug_char, is_slug_or_hyphen, is_kebab, validate_slug, without_newline, validate_slug-eq,
  validate_currency_code, validate_country_code,
}
use price_intelligence_india.Validation.Slugify.{slugify, slugify-kebab, slugify-slug}
use price_intelligence_india.Validation.Attributes.{
  Attribute, normalize_variant_attributes, build_variant_key,
}
use price_intelligence_india.Validation.VariantKeys.{build_variant_key-eq}
use price_intelligence_india.Validation.SaleEvents.{Moment, fault, validate_sale_event}

-- The lower case of the letters `A` to `Z`
abbrev lower : Text → Text
lower = map λ c. if leb 65 c && leb c 90 then c + 32 else c

program : Unit {0}
unfolding validate_slug validate_currency_code validate_country_code slugify
    normalize_variant_attributes build_variant_key sort_by validate_sale_event
program = tt

-- " A-1! b "
abbrev title : Text
title = 32 ∷ 65 ∷ 45 ∷ 49 ∷ 33 ∷ 32 ∷ 98 ∷ 32 ∷ []

-- "a-1-b"
abbrev slug : Text
slug = 97 ∷ 45 ∷ 49 ∷ 45 ∷ 98 ∷ []

slug_of_title : slugify lower title ≡ ok slug
unfolding program
slug_of_title = refl

no_slug : slugify lower (33 ∷ []) ≡ raised DomainError.invalid_slug
unfolding program
no_slug = refl

-- A slug with a newline after it is accepted, and so is a currency code.
accepts_newline : validate_slug (97 ∷ 10 ∷ []) ≡ ok (97 ∷ 10 ∷ [])
unfolding program
accepts_newline = refl

currency_newline : validate_currency_code (73 ∷ 78 ∷ 82 ∷ 10 ∷ []) ≡ ok (73 ∷ 78 ∷ 82 ∷ 10 ∷ [])
unfolding program
currency_newline = refl

country : validate_country_code (73 ∷ 78 ∷ []) ≡ ok (73 ∷ 78 ∷ [])
unfolding program
country = refl

-- {" B ": "x", "b": "Y"}: the second key replaces the first.
one_key :
    normalize_variant_attributes lower ((32 ∷ 66 ∷ 32 ∷ [], 120 ∷ []) ∷ (98 ∷ [], 89 ∷ []) ∷ [])
    ≡ ok ((98 ∷ [], 121 ∷ []) ∷ [])
unfolding program
one_key = refl

blank_value :
    normalize_variant_attributes lower ((98 ∷ [], 32 ∷ []) ∷ [])
    ≡ raised DomainError.invalid_variant_attributes
unfolding program
blank_value = refl

abbrev xs : List Attribute
xs = (98 ∷ [], 49 ∷ []) ∷ (97 ∷ [], 50 ∷ []) ∷ []

abbrev ys : List Attribute
ys = (97 ∷ [], 50 ∷ []) ∷ (98 ∷ [], 49 ∷ []) ∷ []

-- "a=2;b=1"
key_of_xs : build_variant_key xs ≡ 97 ∷ 61 ∷ 50 ∷ 59 ∷ 98 ∷ 61 ∷ 49 ∷ []
unfolding program
key_of_xs = refl

-- {"a": "2;b=1"} has the key of {"a": "2", "b": "1"}.
same_key_otherwise :
    build_variant_key ((97 ∷ [], 50 ∷ 59 ∷ 98 ∷ 61 ∷ 49 ∷ []) ∷ []) ≡ build_variant_key ys
unfolding program
same_key_otherwise = refl

brand_event_without_brand :
    validate_sale_event SaleEventType.brand SaleEventSource.manual_curation none none none none
      (Moment.aware 1)
      (Moment.aware 2)
    ≡ fault SaleEventFault.missing_brand
unfolding program
brand_event_without_brand = refl

blank_source_ref :
    validate_sale_event SaleEventType.externally_sourced SaleEventSource.official_api
      (some (32 ∷ []))
      none
      none
      none
      (Moment.aware 1)
      (Moment.aware 2)
    ≡ fault SaleEventFault.missing_source_ref
unfolding program
blank_source_ref = refl

keeps : (t : Text) → all is_slug_or_hyphen t ≡ true → lower t ≡ t
unfolding is_slug_char
keeps [] h = refl
keeps (c ∷ cs) h = ground (arith, keeps cs)

kebab : is_kebab slug ≡ true
unfolding is_slug_char split_on
kebab = refl

slugify-kebab_example :
    ((s : Text) × (slugify lower title ≡ ok s)
      × (is_kebab s ≡ true)
      × (any is_slug_char (lower (strip title)) ≡ true))
    ⊎ ((slugify lower title ≡ raised DomainError.invalid_slug)
        × (any is_slug_char (lower (strip title)) ≡ false))
slugify-kebab_example = slugify-kebab lower title

slugify-slug_example : slugify lower slug ≡ ok slug
slugify-slug_example = slugify-slug lower slug keeps kebab

build_variant_key-eq_example : (build_variant_key xs ≡ build_variant_key ys) ↔ Perm xs ys
build_variant_key-eq_example = build_variant_key-eq xs ys refl refl refl refl

validate_slug-eq_example : validate_slug (97 ∷ 10 ∷ []) ≡ (
    if is_kebab (without_newline (97 ∷ 10 ∷ []))
    then ok (97 ∷ 10 ∷ [])
    else raised DomainError.invalid_slug)
validate_slug-eq_example = validate_slug-eq (97 ∷ 10 ∷ [])
