-- ===== src/Validation/Outcome.antt =====
-- backend/app/domain/exceptions.py: what a check returns or raises. The sentence of an error is the
-- case that writes it. The division of a `Decimal` by zero, which raises an error of `decimal`, stands
-- with the domain's errors.
use mathlib.Core.Path.{◌≡◌, refl, ap, ◌∙◌}
use mathlib.Core.Logic.{◌⊎◌, inl, inr}

pub data SaleEventFault : Type 0 where
  naive_start naive_end naive_comparison reversed_dates missing_retailer missing_brand
        missing_category not_manually_curated inferred_as_external source_not_permitted
        missing_source_ref :
      SaleEventFault

pub data DomainError : Type 0 where
  invalid_slug invalid_currency_code invalid_country_code invalid_variant_attributes
        negative_amount :
      DomainError
  invalid_sale_event : SaleEventFault → DomainError
  division_by_zero : DomainError

pub data Validated {ℓ} (A : Type ℓ) : Type ℓ where
  ok : A → Validated A
  raised : DomainError → Validated A

-- A statement that may raise, and what follows it.
infixl 5 ◌>>=◌
abbrev pub ◌>>=◌ {ℓ κ} : {A : Type ℓ} {B : Type κ} → Validated A → (A → Validated B) → Validated B
ok a >>= f = f a
raised e >>= f = raised e

pub Validated-cases {ℓ} :
    {A : Type ℓ} (v : Validated A) → ((a : A) × (v ≡ ok a)) ⊎ ((e : DomainError) × (v ≡ raised e))
Validated-cases (ok a) = inl (a, refl)
Validated-cases (raised e) = inr (e, refl)

pub ok-injective {ℓ} : {A : Type ℓ} (a b : A) → ok a ≡ ok b → a ≡ b
ok-injective a b h = cc

pub raised≢ok {ℓ} : {A : Type ℓ} (e : DomainError) (a : A) → raised e ≡ ok a → ⊥
raised≢ok e a h = cc

-- If a step returns and what follows it returns, both together do.
pub bind-ok {ℓ κ} :
    {A : Type ℓ} {B : Type κ} (v : Validated A) (f : A → Validated B) (a : A)
    → v ≡ ok a
    → (b : B) × (f a ≡ ok b)
    → (b : B) × ((v >>= f) ≡ ok b)
bind-ok v f a e (b, h) = (b, ap (λ w. w >>= f) e ∙ h)
