-- ===== src/Matching/Tests.antt =====
-- Runs of the matching engine on sample listings, and its theorems at these inputs.
use mathlib.Core.List.{mem-cons_self}
use price_intelligence_india.Base.{
  ℕ, ◌-◌, ◌≡◌, refl, true, false, ◌&&◌, Option, none, some, List, [], ◌∷◌, map, if◌then◌else◌, leb,
  arith,
}
use price_intelligence_india.Base.Sort.{sort_by}
use price_intelligence_india.Money.{round_half_even}
use price_intelligence_india.Domain.{Text}
use price_intelligence_india.Matching.Models.{
  MatchClassification, MatchIdentifierType, MatchIdentifier, MatchingConfig, ListingProvenance,
  Explanation, MatchResult,
}
use price_intelligence_india.Matching.Identifiers.{
  UnicodeData, is_digit, normalize_barcode, isbn10_to_isbn13, normalize_isbn,
}
use price_intelligence_india.Matching.Identifiers.Comparison.{compare_identifiers}
use price_intelligence_india.Matching.Identifiers.Isbn.{
  is_valid_isbn13, isbn10_to_isbn13-normalize_isbn,
}
use price_intelligence_india.Matching.Identifiers.Symmetry.{swap_conflict, compare_identifiers-swap}
use price_intelligence_india.Matching.Attributes.{color_key, compare_attributes}
use price_intelligence_india.Matching.Score.{weighted_score}
use price_intelligence_india.Matching.Decision.{
  decide, verdict_of, attribute_verdict, merging_verdict, similarity_verdict,
}
use price_intelligence_india.Matching.Decision.Merging.{is_same}
use price_intelligence_india.Matching.Decision.Bands.{in_band, decide-in_band}
use price_intelligence_india.Matching.Stages.{
  MatchCandidate, Similarities, MatchStage, default_stages,
}
use price_intelligence_india.Matching.Engine.{compare_listings, find_best_match}
use price_intelligence_india.Matching.Engine.Pipeline.{
  are_one, evidence, default_result, decide-default, compare_listings-same_iff,
}
use price_intelligence_india.Matching.Engine.Best.{IsCompared, outranks, find_best_match-outranks}

-- Unicode's tables on ASCII.
abbrev unicode : UnicodeData
unicode = record {
  upper = λ c. (if leb 97 c && leb c 122 then c - 32 else c) ∷ [];
  is_decimal = is_digit;
}

upper_digit : (c : ℕ) → is_digit c ≡ true → unicode.upper c ≡ c ∷ []
upper_digit c h = ground arith

abbrev isbn10 : Text
isbn10 = 48 ∷ 51 ∷ 48 ∷ 54 ∷ 52 ∷ 48 ∷ 54 ∷ 49 ∷ 53 ∷ 50 ∷ []

abbrev isbn13 : Text
isbn13 = 57 ∷ 55 ∷ 56 ∷ 48 ∷ 51 ∷ 48 ∷ 54 ∷ 52 ∷ 48 ∷ 54 ∷ 49 ∷ 53 ∷ 55 ∷ []

converted : isbn10_to_isbn13 unicode isbn10 ≡ some isbn13
unfolding isbn10_to_isbn13
converted = refl

isbn10_to_isbn13-normalize_isbn_example :
    (is_valid_isbn13 isbn13 ≡ true)
    × (normalize_isbn unicode isbn13 ≡ some isbn13)
    × (normalize_barcode unicode isbn13 ≡ some (48 ∷ isbn13))
isbn10_to_isbn13-normalize_isbn_example =
    isbn10_to_isbn13-normalize_isbn unicode upper_digit (λ c h. h) isbn10 isbn13 converted

-- Twelve digits, with a dash.
abbrev upc : Text
upc = 48 ∷ 51 ∷ 54 ∷ 48 ∷ 48 ∷ 48 ∷ 45 ∷ 50 ∷ 57 ∷ 49 ∷ 52 ∷ 53 ∷ 50 ∷ []

abbrev gtin : Text
gtin = 48 ∷ 48 ∷ 48 ∷ 51 ∷ 54 ∷ 48 ∷ 48 ∷ 48 ∷ 50 ∷ 57 ∷ 49 ∷ 52 ∷ 53 ∷ 50 ∷ []

padded : normalize_barcode unicode upc ≡ some gtin
unfolding normalize_barcode
padded = refl

abbrev config : MatchingConfig
config = record {
  title_high_threshold = 8_200;
  title_medium_threshold = 6_000;
  embedding_high_threshold = 8_600;
  embedding_medium_threshold = 7_200;
  weight_identifier = 4_500;
  weight_attributes = 3_500;
  weight_title = 1_200;
  weight_embedding = 800;
  same_product_min_score = 7_800;
  possible_match_min_score = 5_200;
  needs_review_min_score = 3_400;
  min_variant_agreements_for_same = 2;
  same_le_one = omega arith;
  possible_le_one = omega arith;
  review_le_one = omega arith;
}

abbrev provenance : ListingProvenance
provenance = record {
  retailer_id = none;
  retailer_sku = none;
  source_url = none;
  source_type = none;
}

abbrev candidate : List MatchIdentifier → (color : Text) → MatchCandidate
candidate identifiers color = record {
  provenance = provenance;
  title = b'p' ∷ b'h' ∷ b'o' ∷ b'n' ∷ b'e' ∷ [];
  identifiers = identifiers;
  extracted = record {
    attributes = (color_key, color) ∷ [];
    model_hint = some (b'x' ∷ b'1' ∷ []);
    brand_signature = some (b'a' ∷ b'c' ∷ b'm' ∷ b'e' ∷ []);
    is_accessory = false;
  };
}

abbrev code : MatchIdentifierType → Text → MatchIdentifier
code identifier_type value = record { identifier_type = identifier_type; value = value }

abbrev black : Text
black = b'b' ∷ b'l' ∷ b'a' ∷ b'c' ∷ b'k' ∷ []

abbrev green : Text
green = b'g' ∷ b'r' ∷ b'e' ∷ b'e' ∷ b'n' ∷ []

abbrev listing : MatchCandidate
listing = candidate (code MatchIdentifierType.upc upc ∷ []) black

-- The same number as a GTIN, another number, and another color.
abbrev twin : MatchCandidate
twin = candidate (code MatchIdentifierType.gtin gtin ∷ []) black

abbrev stranger : MatchCandidate
stranger =
    candidate (code MatchIdentifierType.isbn isbn10 ∷ code MatchIdentifierType.ean isbn13 ∷ [])
      black

abbrev variant : MatchCandidate
variant = candidate [] green

abbrev similarities : Similarities
similarities = record {
  unicode = unicode;
  similar = λ left right. false;
  titles = λ left right. 9_000;
  embeddings = λ left right. 9_000;
}

abbrev stages : List MatchStage
stages = default_stages similarities

-- The engine opened, for runs by evaluation.
program : Unit {0}
unfolding find_best_match compare_listings decide verdict_of attribute_verdict merging_verdict
    similarity_verdict weighted_score default_stages round_half_even sort_by default_result
program = tt

abbrev class_of : Option MatchResult → Option MatchClassification
class_of none = none
class_of (some r) = some r.classification

twin_is_same :
    class_of (compare_listings config stages listing twin) ≡ some MatchClassification.same_product
unfolding program
twin_is_same = refl

stranger_is_different :
    class_of (compare_listings config stages listing stranger)
    ≡ some MatchClassification.different_product
unfolding program
stranger_is_different = refl

variant_is_different :
    class_of (compare_listings config stages listing variant)
    ≡ some MatchClassification.different_product
unfolding program
variant_is_different = refl

compare_identifiers-swap_example :
    let one = compare_identifiers unicode listing.identifiers stranger.identifiers in
    let other = compare_identifiers unicode stranger.identifiers listing.identifiers in
    (map (λ m. m.family) one.matches ≡ map (λ m. m.family) other.matches)
    × (map swap_conflict one.conflicts ≡ other.conflicts)
    × (one.unilateral ≡ other.unilateral)
compare_identifiers-swap_example =
    compare_identifiers-swap unicode listing.identifiers stranger.identifiers

compare_listings-same_iff_example :
    (result : MatchResult) × (compare_listings config (default_stages similarities) listing twin
      ≡ some result)
    × (is_same result.classification
        ≡ are_one
            (compare_identifiers unicode listing.identifiers twin.identifiers)
            (compare_attributes similarities.similar listing.extracted twin.extracted))
compare_listings-same_iff_example = compare_listings-same_iff config similarities listing twin

abbrev twin_result : MatchResult
twin_result = default_result config similarities listing twin

decide-in_band_example : in_band config twin_result.classification twin_result.match_score ≡ true
decide-in_band_example =
    decide-in_band config (evidence config similarities listing twin) provenance provenance
      twin_result (decide-default config similarities listing twin)

abbrev catalog : List MatchCandidate
catalog = variant ∷ twin ∷ []

-- Every sentence is rendered alike.
abbrev render : Explanation → Text
render explanation = []

best_is_twin : find_best_match config stages render listing catalog ≡ some (some twin_result)
unfolding program
best_is_twin = refl

variant_result :
    compare_listings config stages listing variant
    ≡ some (default_result config similarities listing variant)
unfolding compare_listings
variant_result = decide-default config similarities listing variant

find_best_match-outranks_example :
    ∥ IsCompared config stages listing catalog twin_result ∥₁
    × (outranks twin_result (default_result config similarities listing variant) ≡ true)
find_best_match-outranks_example =
    find_best_match-outranks render config stages listing catalog twin_result variant
      (default_result config similarities listing variant) best_is_twin mem-cons_self variant_result
