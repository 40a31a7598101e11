-- ===== src/Adapters/Registry/Checks.antt =====
-- What `health_check_all` of backend/app/retailer_adapters/base/registry.py does to the registrations.
use mathlib.Core.Option.{some-injective}
use mathlib.Core.List.{[], ◌∷◌}
use price_intelligence_india.Base.{
  ◌≡◌, refl, Bool, true, false, ◌||◌, ◌&&◌, not, is_some, subst, sym, ◌⊎◌, inl, inr, if◌then◌else◌,
  Bool-cases, arith, some,
}
use price_intelligence_india.Domain.{Datetime}
use price_intelligence_india.Collection.Models.{Raised, Call, returns, raises}
use price_intelligence_india.Adapters.Models.{HealthCheckResult}
use price_intelligence_india.Base.Dict.{Key, same_key, same_key-eq, same_key_refl, find}
use price_intelligence_india.Adapters.Interface.{adapter_id, health_check}
use price_intelligence_india.Adapters.Registry.{
  RetailerRegistration, Registry, ok, check_raised, with_health, check_included, health_check_all,
}

abbrev pub is_included : (include_disabled : Bool) → RetailerRegistration → Bool
is_included include_disabled r = include_disabled || r.adapter.enabled

-- One registration for an identity, under the adapter's own identity
abbrev pub is_consistent : Registry → Bool
is_consistent [] = true
is_consistent ((k, r) ∷ rest) =
    same_key (adapter_id r.adapter) k && not (is_some (find k rest)) && is_consistent rest

-- The registration with what its check returned, or as it is
abbrev pub with_call : RetailerRegistration → Call HealthCheckResult → RetailerRegistration
with_call r (returns result) = with_health result r
with_call r (raises e) = r

abbrev pub checked_registration :
    (include_disabled : Bool) → Datetime → RetailerRegistration → RetailerRegistration
checked_registration include_disabled now r =
    if is_included include_disabled r then with_call r (health_check r.adapter now) else r

abbrev pub checked_registry : (include_disabled : Bool) → Datetime → Registry → Registry
checked_registry include_disabled now [] = []
checked_registry include_disabled now ((id, r) ∷ rest) =
    (id, checked_registration include_disabled now r) ∷ checked_registry include_disabled now rest

pub call-cases {ℓ} :
    {A : Type ℓ} (c : Call A) → ((a : A) × (c ≡ returns a)) ⊎ ((e : Raised) × (c ≡ raises e))
call-cases (returns a) = inl (a, refl)
call-cases (raises e) = inr (e, refl)

abbrev pub is_raised {ℓ} : {A : Type ℓ} → Call A → Bool
is_raised (returns a) = false
is_raised (raises e) = true

-- The registration is checked, and its check raises.
abbrev pub check_raises : (include_disabled : Bool) → Datetime → RetailerRegistration → Bool
check_raises include_disabled now r =
    is_included include_disabled r && is_raised (health_check r.adapter now)

check_included-cases :
    (include_disabled : Bool) (now : Datetime) (r : RetailerRegistration)
    → ((check_included include_disabled now r ≡ ok (checked_registration include_disabled now r))
        × (check_raises include_disabled now r ≡ false))
      ⊎ ((e : Raised) × (check_raises include_disabled now r ≡ true)
          × (health_check r.adapter now ≡ raises e)
          × (check_included include_disabled now r ≡ check_raised e))
check_included-cases include_disabled now r = elim (Bool-cases (is_included include_disabled r)) [
  | inr off ↦ inl (rw off refl, rw off refl)
  | inl on ↦ elim (call-cases (health_check r.adapter now)) [
    | inl (result, f) ↦ inl (rw (on, f) refl, rw (on, f) refl)
    | inr (e, f) ↦ inr (e, rw (on, f) refl, f, rw (on, f) refl)
  ]
]

shadowed :
    (k id : Key) (rest : Registry) (r : RetailerRegistration)
    → not (is_some (find k rest)) ≡ true
    → same_key k id ≡ true
    → find id rest ≡ some r
    → ⊥
shadowed k id rest r h same found =
    let first : find k rest ≡ some r =
      subst (λ x. find x rest ≡ some r) (sym (same_key-eq k id same)) found in
    cc (rw first at h)

-- No check of a registration in the registry raises.
abbrev pub NoneRaises : (include_disabled : Bool) → Datetime → Registry → Type 0
NoneRaises include_disabled now registry =
    (id : Key) (r : RetailerRegistration)
    → find id registry ≡ some r
    → check_raises include_disabled now r ≡ false

-- The checks of all are those of each, or raise what one of them raises.
pub health_check_all-cases :
    (include_disabled : Bool) (now : Datetime) (registry : Registry)
    → is_consistent registry ≡ true
    → ((health_check_all include_disabled now registry
          ≡ ok (checked_registry include_disabled now registry))
        × NoneRaises include_disabled now registry)
      ⊎ ((id : Key) × (r : RetailerRegistration) × (e : Raised) × (find id registry ≡ some r)
          × (check_raises include_disabled now r ≡ true)
          × (health_check r.adapter now ≡ raises e)
          × (health_check_all include_disabled now registry ≡ check_raised e))
unfolding health_check_all find
health_check_all-cases include_disabled now [] c = inl (refl, λ id r h. cc)
health_check_all-cases include_disabled now ((k, s) ∷ rest) c =
    elim (check_included-cases include_disabled now s) [
      | inr (e, on, f, g) ↦ inr (k, s, e, rw (same_key_refl k) refl, on, f, rw g refl)
      | inl (g, quiet) ↦ elim (health_check_all-cases include_disabled now rest (ground arith)) [
        | inl (h, none_raises) ↦ inl (
          rw (g, h) refl,
          λ id r found. elim (Bool-cases (same_key k id)) [
            | inl e ↦
                subst (λ x. check_raises include_disabled now x ≡ false)
                  (some-injective _ _ (rw e at found)) quiet
            | inr e ↦ none_raises id r (rw e at found)
          ],
        )
        | inr (id, r, e, found, on, f, h) ↦ inr (
          id,
          r,
          e,
          elim (Bool-cases (same_key k id)) [
            | inl same ↦ absurd (shadowed k id rest r (ground arith) same found)
            | inr other ↦ rw other found
          ],
          on,
          f,
          rw (g, h) refl,
        )
      ]
    ]
