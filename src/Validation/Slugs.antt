-- ===== src/Validation/Slugs.antt =====
-- `validate_slug`, `validate_currency_code` and `validate_country_code` of validation.py. The
-- patterns are read as Python's `re.match` does: `$` matches at the end of the text and before a
-- newline that ends it.
use mathlib.Core.List.{List, [], ◌∷◌}
use price_intelligence_india.Base.{
  ℕ, zero, suc, ◌≡◌, refl, ap, ◌∙◌, Bool, true, false, ◌&&◌, ◌||◌, not, all, leb, ◌==◌,
  if◌then◌else◌, arith,
}
use price_intelligence_india.Domain.{Text}
use price_intelligence_india.Validation.Outcome.{DomainError, Validated, ok, raised}
use price_intelligence_india.Validation.Text.{is_empty, push, split_on}

-- `[a-z0-9]`
unfoldable pub is_slug_char : ℕ → Bool
is_slug_char c = leb 97 c && leb c 122 || leb 48 c && leb c 57

abbrev pub hyphen : ℕ
hyphen = 45

abbrev pub newline : ℕ
newline = 10

-- What `$` matches before.
abbrev pub is_at_end : Text → Bool
is_at_end [] = true
is_at_end (c ∷ cs) = c == newline && is_empty cs

-- `_SLUG_PATTERN`, within a word (`true`) or where a word must begin.
unfoldable pub matches_slug : (within : Bool) → Text → Bool
unfolding is_slug_char
matches_slug within [] = within
matches_slug within (c ∷ cs) =
    let rest = matches_slug (is_slug_char c) cs in
    is_slug_char c && rest || within && (c == hyphen && rest || is_at_end (c ∷ cs))

unfoldable pub validate_slug : Text → Validated Text
unfolding matches_slug
validate_slug value =
    if is_empty value || not (matches_slug false value)
    then raised DomainError.invalid_slug
    else ok value

-- `[A-Z]`
abbrev is_upper : ℕ → Bool
is_upper c = leb 65 c && leb c 90

-- `^[A-Z]{count}$`
unfoldable pub matches_code : (count : ℕ) → Text → Bool
matches_code zero text = is_at_end text
matches_code (suc count) [] = false
matches_code (suc count) (c ∷ cs) = is_upper c && matches_code count cs

unfoldable pub validate_currency_code : Text → Validated Text
unfolding matches_code
validate_currency_code value =
    if is_empty value || not (matches_code 3 value)
    then raised DomainError.invalid_currency_code
    else ok value

unfoldable pub validate_country_code : Text → Validated Text
unfolding matches_code
validate_country_code value =
    if is_empty value || not (matches_code 2 value)
    then raised DomainError.invalid_country_code
    else ok value

-- A word of a slug.
abbrev is_word : Text → Bool
is_word w = not (is_empty w) && all is_slug_char w

-- Words of lower-case letters and digits, joined by single hyphens.
abbrev pub is_kebab : Text → Bool
is_kebab text = all is_word (split_on hyphen text)

-- The same where the first word may have begun before the text.
abbrev continues : (within : Bool) → List Text → Bool
continues within [] = false
continues within (w ∷ ws) = (within || not (is_empty w)) && all is_slug_char w && all is_word ws

-- One newline at the end is left off.
abbrev pub without_newline : Text → Text
without_newline [] = []
without_newline (c ∷ []) = if c == newline then [] else c ∷ []
without_newline (c ∷ d ∷ ds) = c ∷ without_newline (d ∷ ds)

split_on-nonempty : (t : Text) → is_empty (split_on hyphen t) ≡ false
unfolding split_on
split_on-nonempty [] = refl
split_on-nonempty (c ∷ cs) = ground (arith, split_on-nonempty cs)

continues-false : (ws : List Text) → is_empty ws ≡ false → continues false ws ≡ all is_word ws
continues-false [] h = cc
continues-false (w ∷ ws) h = ground arith

pub slug_char-marks :
    (c : ℕ) → is_slug_char c ≡ true → ((c == hyphen) ≡ false) × ((c == newline) ≡ false)
unfolding is_slug_char
slug_char-marks c h = ground arith

continues-push :
    (within : Bool) (c : ℕ) (matched : Bool) (ws : List Text)
    → is_empty ws ≡ false
    → matched ≡ continues (is_slug_char c) ws
    → (is_slug_char c && matched || within && ((c == hyphen) && matched || (c == newline) && false))
      ≡ continues within (if c == hyphen then [] ∷ ws else push c ws)
continues-push within c matched [] n h = cc
continues-push within c matched (w ∷ ws) n h = ground (arith, slug_char-marks c)

matches_slug-eq :
    (within : Bool) (t : Text)
    → matches_slug within t ≡ continues within (split_on hyphen (without_newline t))
unfolding matches_slug split_on
matches_slug-eq within [] = ground arith
matches_slug-eq within (c ∷ []) = ground arith
matches_slug-eq within (c ∷ d ∷ ds) =
    let rest = d ∷ ds in
    continues-push within c (matches_slug (is_slug_char c) (d ∷ ds))
      (split_on hyphen (without_newline rest)) (split_on-nonempty (without_newline rest))
      (matches_slug-eq (is_slug_char c) (d ∷ ds))

without_newline-none : (t : Text) → all (λ c. not (c == newline)) t ≡ true → without_newline t ≡ t
without_newline-none [] h = refl
without_newline-none (c ∷ []) h = ground arith
without_newline-none (c ∷ d ∷ ds) h = ground (arith, without_newline-none (d ∷ ds))

-- Without a newline, the pattern says what a slug is.
pub matches_slug-kebab :
    (t : Text) → all (λ c. not (c == newline)) t ≡ true → matches_slug false t ≡ is_kebab t
matches_slug-kebab t h =
    matches_slug-eq false t
    ∙ continues-false (split_on hyphen (without_newline t)) (split_on-nonempty (without_newline t))
    ∙ ap is_kebab (without_newline-none t h)

abbrev pub is_slug_or_hyphen : ℕ → Bool
is_slug_or_hyphen c = is_slug_char c || (c == hyphen)

push-chars :
    (c : ℕ) (ws : List Text)
    → all (all is_slug_char) (push c ws) ≡ true
    → (is_slug_char c ≡ true) × (all (all is_slug_char) ws ≡ true)
push-chars c [] h = ground arith
push-chars c (w ∷ ws) h = ground arith

split_on-chars :
    (t : Text) → all (all is_slug_char) (split_on hyphen t) ≡ true → all is_slug_or_hyphen t ≡ true
unfolding split_on
split_on-chars [] h = refl
split_on-chars (c ∷ cs) h = ground (arith, split_on-chars cs, push-chars c (split_on hyphen cs))

words-chars : (ws : List Text) → all is_word ws ≡ true → all (all is_slug_char) ws ≡ true
words-chars [] h = refl
words-chars (w ∷ ws) h = ground (arith, words-chars ws)

pub is_kebab-chars : (t : Text) → is_kebab t ≡ true → all is_slug_or_hyphen t ≡ true
is_kebab-chars t h = split_on-chars t (words-chars (split_on hyphen t) h)

pub validate_slug-matched : (t : Text) → matches_slug false t ≡ true → validate_slug t ≡ ok t
unfolding validate_slug
validate_slug-matched [] h = cc
validate_slug-matched (c ∷ cs) h = rw h refl

pub validate_slug-unmatched :
    (t : Text) → matches_slug false t ≡ false → validate_slug t ≡ raised DomainError.invalid_slug
unfolding validate_slug
validate_slug-unmatched [] h = refl
validate_slug-unmatched (c ∷ cs) h = rw h refl

-- A text is accepted, as it is, exactly if it is words of lower-case letters and digits joined by
-- single hyphens, perhaps with one newline after them; else the error is that of slugs.
pub validate_slug-eq :
    (t : Text)
    → validate_slug t
      ≡ (if is_kebab (without_newline t) then ok t else raised DomainError.invalid_slug)
unfolding validate_slug split_on
validate_slug-eq [] = ground arith
validate_slug-eq (c ∷ cs) =
    rw
      (
        matches_slug-eq false (c ∷ cs),
        continues-false (split_on hyphen (without_newline (c ∷ cs)))
            (split_on-nonempty (without_newline (c ∷ cs))),
      )
      (ground arith)
