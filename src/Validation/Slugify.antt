-- ===== src/Validation/Slugify.antt =====
-- `slugify` of validation.py. Python's `str.lower` is a parameter.
use mathlib.Core.List.{[], ◌∷◌}
use price_intelligence_india.Base.{
  ℕ, ◌≡◌, refl, sym, ◌∙◌, Bool, true, false, ◌&&◌, ◌||◌, not, any, all, ◌==◌, if◌then◌else◌, arith,
  inl, inr, ◌⊎◌, Bool-cases,
}
use price_intelligence_india.Domain.{Text, is_space}
use price_intelligence_india.Validation.Outcome.{DomainError, Validated, ok, raised}
use price_intelligence_india.Validation.Text.{
  is_empty, trim_start, trim_end, strip, strip-none, any-trim_start, any-trim_end, all-trim_start,
  all-trim_end,
}
use price_intelligence_india.Validation.Slugs.{
  is_slug_char, slug_char-marks, hyphen, newline, matches_slug, validate_slug, is_kebab,
  matches_slug-kebab, is_slug_or_hyphen, is_kebab-chars, validate_slug-matched,
  validate_slug-unmatched,
}

abbrev pub is_hyphen : ℕ → Bool
is_hyphen c = c == hyphen

-- `re.sub(r"[^a-z0-9]+", "-", text)`, within a run of other code points or not
unfoldable pub collapse : (in_run : Bool) → Text → Text
unfolding is_slug_char
collapse in_run [] = []
collapse in_run (c ∷ cs) =
    let rest = collapse (not (is_slug_char c)) cs in
    if is_slug_char c then c ∷ rest else if in_run then rest else hyphen ∷ rest

-- Slug characters and hyphens, no two hyphens side by side.
spaced : (after_hyphen : Bool) → Text → Bool
spaced after [] = true
spaced after (c ∷ cs) = (is_slug_char c || is_hyphen c && not after) && spaced (is_hyphen c) cs

collapse-spaced : (in_run : Bool) (t : Text) → spaced in_run (collapse in_run t) ≡ true
unfolding collapse spaced
collapse-spaced in_run [] = refl
collapse-spaced in_run (c ∷ cs) = elim (Bool-cases (is_slug_char c)) [
  | inl e ↦ rw e (ground (arith, collapse-spaced false cs, slug_char-marks c))
  | inr e ↦ rw e (ground (arith, collapse-spaced true cs))
]

-- What is left after the hyphens at the end are trimmed goes on with a slug.
goes_on : (after_hyphen : Bool) → Text → Bool
goes_on true t = is_empty t || matches_slug false t
goes_on false t = matches_slug true t

trim_end-goes_on :
    (after : Bool) (t : Text) → spaced after t ≡ true → goes_on after (trim_end is_hyphen t) ≡ true
unfolding spaced goes_on matches_slug trim_end
trim_end-goes_on true [] h = refl
trim_end-goes_on false [] h = refl
trim_end-goes_on true (c ∷ cs) h =
    ground (arith, trim_end-goes_on (is_hyphen c) cs, slug_char-marks c)
trim_end-goes_on false (c ∷ cs) h =
    ground (arith, trim_end-goes_on (is_hyphen c) cs, slug_char-marks c)

trimmed-matches :
    (after : Bool) (t : Text)
    → spaced after t ≡ true
    → let trimmed = trim_end is_hyphen (trim_start is_hyphen t) in
      (is_empty trimmed || matches_slug false trimmed) ≡ true
unfolding spaced goes_on trim_start trim_end matches_slug
trimmed-matches after [] h = refl
trimmed-matches after (c ∷ cs) h = elim (Bool-cases (is_hyphen c)) [
  | inl e ↦ rw e (trimmed-matches true cs (ground arith))
  | inr e ↦
      let next = trim_end-goes_on (is_hyphen c) cs (ground arith) in
      rw e (ground (arith, slug_char-marks c, next))
]

any-collapse :
    (in_run : Bool) (t : Text) → any is_slug_char (collapse in_run t) ≡ any is_slug_char t
unfolding collapse
any-collapse in_run [] = refl
any-collapse in_run (c ∷ cs) =
    ground (arith, any-collapse (not (is_slug_char c)) cs, slug_char-marks hyphen)

-- A hyphen is no slug character, so that trimming hyphens loses none.
hyphens_only : (t : Text) → all (λ c. not (is_hyphen c && is_slug_char c)) t ≡ true
hyphens_only [] = refl
hyphens_only (c ∷ cs) = ground (arith, hyphens_only cs, slug_char-marks c)

spaced-newline :
    (after : Bool) (t : Text) → spaced after t ≡ true → all (λ c. not (c == newline)) t ≡ true
unfolding spaced
spaced-newline after [] h = refl
spaced-newline after (c ∷ cs) h = ground (arith, spaced-newline (is_hyphen c) cs, slug_char-marks c)

no_match : (t : Text) → any is_slug_char t ≡ false → matches_slug false t ≡ false
unfolding matches_slug
no_match [] h = refl
no_match (c ∷ cs) h = ground arith

matched_any : (t : Text) → matches_slug false t ≡ true → any is_slug_char t ≡ true
unfolding matches_slug
matched_any [] h = cc
matched_any (c ∷ cs) h = ground arith

empty_any : (t : Text) → is_empty t ≡ true → any is_slug_char t ≡ false
empty_any [] h = refl
empty_any (c ∷ cs) h = cc

no_newline : (t : Text) → all is_slug_or_hyphen t ≡ true → all (λ c. not (c == newline)) t ≡ true
no_newline [] h = refl
no_newline (c ∷ cs) h = ground (arith, no_newline cs, slug_char-marks c)

plain_char : (c : ℕ) → is_slug_or_hyphen c ≡ true → is_space c ≡ false
unfolding is_slug_char is_space
plain_char c h = ground arith

plain_chars : (t : Text) → all is_slug_or_hyphen t ≡ true → all (λ c. not (is_space c)) t ≡ true
plain_chars [] h = refl
plain_chars (c ∷ cs) h = ground (arith, plain_chars cs, plain_char c)

collapse-matched :
    (within : Bool) (t : Text)
    → all (λ c. not (c == newline)) t ≡ true
    → matches_slug within t ≡ true
    → collapse (not within) t ≡ t
unfolding collapse matches_slug
collapse-matched within [] n h = refl
collapse-matched within (c ∷ cs) n h =
    ground (arith, collapse-matched (is_slug_char c) cs, slug_char-marks c)

trim_end-matched :
    (within : Bool) (t : Text)
    → all (λ c. not (c == newline)) t ≡ true
    → matches_slug within t ≡ true
    → trim_end is_hyphen t ≡ t
unfolding trim_end matches_slug
trim_end-matched within [] n h = refl
trim_end-matched within (c ∷ cs) n h =
    ground (arith, trim_end-matched (is_slug_char c) cs, slug_char-marks c)

-- A slug has no runs of other code points, and no hyphen at an end.
rewritten :
    (t : Text)
    → all (λ c. not (c == newline)) t ≡ true
    → matches_slug false t ≡ true
    → trim_end is_hyphen (trim_start is_hyphen (collapse false t)) ≡ t
rewritten [] n h = unfold matches_slug in cc
rewritten (c ∷ cs) n h =
    let first : is_slug_char c ≡ true = unfold matches_slug in ground arith in
    let started : trim_start is_hyphen (c ∷ cs) ≡ c ∷ cs =
      unfold trim_start in ground (arith, slug_char-marks c) in
    let same : collapse false (c ∷ cs) ≡ c ∷ cs =
      unfold collapse matches_slug in ground (arith, collapse-matched true cs, slug_char-marks c) in
    rw (same, started) (trim_end-matched false (c ∷ cs) n h)

module _ (lower : Text → Text) where
  unfoldable pub slugify : Text → Validated Text
  unfolding collapse trim_start trim_end strip
  slugify value =
      validate_slug
        (trim_end is_hyphen (trim_start is_hyphen (collapse false (lower (strip value)))))

  -- A slug is derived exactly if some letter `a` to `z` or digit is left of the lower-cased text, and
  -- it is words of these, joined by single hyphens; else the error is that of slugs.
  pub slugify-kebab :
      (value : Text)
      → let found = any is_slug_char (lower (strip value)) in
        ((s : Text) × (slugify value ≡ ok s) × (is_kebab s ≡ true) × (found ≡ true))
        ⊎ ((slugify value ≡ raised DomainError.invalid_slug) × (found ≡ false))
  unfolding slugify validate_slug
  slugify-kebab value =
      let chars = lower (strip value) in
      let runs = collapse false chars in
      let started = trim_start is_hyphen runs in
      let slug = trim_end is_hyphen started in
      let clean = spaced-newline false runs (collapse-spaced false chars) in
      let plain =
        all-trim_end is_hyphen (λ c. not (c == newline)) started
          (all-trim_start is_hyphen (λ c. not (c == newline)) runs clean) in
      let matched = trimmed-matches false runs (collapse-spaced false chars) in
      let same : any is_slug_char slug ≡ any is_slug_char chars =
        any-trim_end is_hyphen is_slug_char started (hyphens_only started)
        ∙ any-trim_start is_hyphen is_slug_char runs (hyphens_only runs)
        ∙ any-collapse false chars in
      elim (Bool-cases (matches_slug false slug)) [
        | inl e ↦ inl (
          slug,
          validate_slug-matched slug e,
          sym (matches_slug-kebab slug plain) ∙ e,
          sym same ∙ matched_any slug e,
        )
        | inr e ↦
            inr
              (validate_slug-unmatched slug e, sym same ∙ empty_any slug (ground (arith, matched)))
      ]

  -- A slug is its own slug, where `lower` leaves lower-case letters, digits and hyphens alone.
  pub slugify-slug :
      (slug : Text)
      → ((t : Text) → all is_slug_or_hyphen t ≡ true → lower t ≡ t)
      → is_kebab slug ≡ true
      → slugify slug ≡ ok slug
  unfolding slugify
  slugify-slug slug keeps h =
      let chars = is_kebab-chars slug h in
      let plain = plain_chars slug chars in
      let matched = matches_slug-kebab slug (no_newline slug chars) ∙ h in
      rw (strip-none slug plain, keeps slug chars, rewritten slug (no_newline slug chars) matched)
        (validate_slug-matched slug matched)
