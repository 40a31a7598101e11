-- ===== src/Validation/Text.antt =====
-- The text operations of Python that the checks use, on code points.
use mathlib.Core.List.{List, [], ◌∷◌, ◌++◌}
use price_intelligence_india.Base.{
  ℕ, ◌≡◌, refl, Bool, true, false, ◌&&◌, not, any, all, ◌==◌, if◌then◌else◌, arith,
}
use price_intelligence_india.Domain.{Text, is_space}

abbrev pub is_empty {ℓ} : {A : Type ℓ} → List A → Bool
is_empty [] = true
is_empty (_ ∷ _) = false

-- The code point joins the first part.
abbrev pub push : ℕ → List Text → List Text
push c [] = (c ∷ []) ∷ []
push c (w ∷ ws) = (c ∷ w) ∷ ws

-- The parts of a text between the separators: `text.split(separator)`
unfoldable pub split_on : (separator : ℕ) → Text → List Text
split_on separator [] = [] ∷ []
split_on separator (c ∷ cs) =
    let rest = split_on separator cs in if c == separator then [] ∷ rest else push c rest

module _ (removed : ℕ → Bool) where
  unfoldable pub trim_start : Text → Text
  trim_start [] = []
  trim_start (c ∷ cs) = let rest = trim_start cs in if removed c then rest else c ∷ cs

  unfoldable pub trim_end : Text → Text
  trim_end [] = []
  trim_end (c ∷ cs) = let rest = trim_end cs in if removed c && is_empty rest then [] else c ∷ rest

  -- A test that no removed code point passes is not affected by trimming.
  pub any-trim_start :
      (p : ℕ → Bool) (t : Text)
      → all (λ c. not (removed c && p c)) t ≡ true
      → any p (trim_start t) ≡ any p t
  unfolding trim_start
  any-trim_start p [] h = refl
  any-trim_start p (c ∷ cs) h = ground (arith, any-trim_start p cs)

  pub any-trim_end :
      (p : ℕ → Bool) (t : Text)
      → all (λ c. not (removed c && p c)) t ≡ true
      → any p (trim_end t) ≡ any p t
  unfolding trim_end
  any-trim_end p [] h = refl
  any-trim_end p (c ∷ cs) h = ground (arith, any-trim_end p cs, empty_any p (trim_end cs))
    where
      empty_any : (p : ℕ → Bool) (t : Text) → is_empty t ≡ true → any p t ≡ false
      empty_any p [] e = refl
      empty_any p (c ∷ cs) e = cc

  pub trim_start-none : (t : Text) → all (λ c. not (removed c)) t ≡ true → trim_start t ≡ t
  unfolding trim_start
  trim_start-none [] h = refl
  trim_start-none (c ∷ cs) h = ground arith

  pub trim_end-none : (t : Text) → all (λ c. not (removed c)) t ≡ true → trim_end t ≡ t
  unfolding trim_end
  trim_end-none [] h = refl
  trim_end-none (c ∷ cs) h = ground (arith, trim_end-none cs)

  -- What holds of every code point holds of those that are left.
  pub all-trim_start : (p : ℕ → Bool) (t : Text) → all p t ≡ true → all p (trim_start t) ≡ true
  unfolding trim_start
  all-trim_start p [] h = refl
  all-trim_start p (c ∷ cs) h = ground (arith, all-trim_start p cs)

  pub all-trim_end : (p : ℕ → Bool) (t : Text) → all p t ≡ true → all p (trim_end t) ≡ true
  unfolding trim_end
  all-trim_end p [] h = refl
  all-trim_end p (c ∷ cs) h = ground (arith, all-trim_end p cs)

-- `text.strip()`
unfoldable pub strip : Text → Text
unfolding trim_start trim_end is_space
strip text = trim_end is_space (trim_start is_space text)

pub strip-none : (t : Text) → all (λ c. not (is_space c)) t ≡ true → strip t ≡ t
unfolding strip
strip-none t h = rw (trim_start-none is_space t h) (trim_end-none is_space t h)

-- A text without the separator is one part.
pub split_on-word :
    (separator : ℕ) (w : Text)
    → all (λ c. not (c == separator)) w ≡ true
    → split_on separator w ≡ w ∷ []
unfolding split_on
split_on-word separator [] h = refl
split_on-word separator (c ∷ cs) h = ground (arith, split_on-word separator cs)

-- A part ends at its separator.
pub split_on-append :
    (separator : ℕ) (w rest : Text)
    → all (λ c. not (c == separator)) w ≡ true
    → split_on separator (w ++ separator ∷ rest) ≡ w ∷ split_on separator rest
unfolding split_on
split_on-append separator [] rest h = ground arith
split_on-append separator (c ∷ cs) rest h = ground (arith, split_on-append separator cs rest)
