-- ===== src/Adapters/Registry.antt =====
-- `RetailerRegistry` of backend/app/retailer_adapters/base/registry.py: the adapters by their
-- identity. An adapter is changed through the registry only; log records are left out.
pub mod Commands
pub mod Checks
pub mod Consistent
pub mod Refinement
use price_intelligence_india.Base.{
  ℕ, Bool, true, false, ◌&&◌, ◌||◌, not, Option, none, some, List, [], ◌∷◌, map, filter, length,
  if◌then◌else◌, is_some,
}
use price_intelligence_india.Base.Dict.{Key, find, set_key, remove}
use price_intelligence_india.Domain.{Text, Datetime}
use price_intelligence_india.Collection.Models.{Raised, Call, returns, raises}
use price_intelligence_india.Adapters.Models.{
  HealthStatus, HealthCheckResult, AdapterOperation, serves_category,
}
use price_intelligence_india.Adapters.Interface.{
  RetailerAdapter, adapter_id, supports, health_check,
}

pub record RetailerRegistration : Type 0 where
  pub adapter : RetailerAdapter
  pub registered_at : Datetime
  pub last_health : Option HealthCheckResult

-- `_registrations`
abbrev pub Registry : Type 0
Registry = List (Key × RetailerRegistration)

-- What an operation returns or raises: an error of the registry, with the identity that it names, or
-- what a health check raised
pub data Checked {ℓ} (A : Type ℓ) : Type ℓ where
  ok : A → Checked A
  not_registered already_registered adapter_disabled : Text → Checked A
  check_raised : Raised → Checked A

infixl 5 ◌>>=◌
abbrev pub ◌>>=◌ {ℓ κ} : {A : Type ℓ} {B : Type κ} → Checked A → (A → Checked B) → Checked B
ok a >>= f = f a
not_registered id >>= f = not_registered id
already_registered id >>= f = already_registered id
adapter_disabled id >>= f = adapter_disabled id
check_raised e >>= f = check_raised e

abbrev pub of_call {ℓ} : {A : Type ℓ} → Call A → Checked A
of_call (returns a) = ok a
of_call (raises e) = check_raised e

abbrev pub new_registration : RetailerAdapter → Datetime → RetailerRegistration
new_registration adapter now = record { adapter = adapter; registered_at = now; last_health = none }

unfoldable pub register :
    RetailerAdapter → (replace : Bool) → (now : Datetime) → Registry → Checked Registry
unfolding find set_key
register adapter replace now registry =
    let id = adapter_id adapter in
    if is_some (find id registry) && not replace
    then already_registered id
    else ok (set_key id (new_registration adapter now) registry)

unfoldable pub register_all :
    List RetailerAdapter → (replace : Bool) → (now : Datetime) → Registry → Checked Registry
unfolding register
register_all [] replace now registry = ok registry
register_all (adapter ∷ rest) replace now registry = do
  registered ← register adapter replace now registry
  register_all rest replace now registered

unfoldable pub unregister : Text → Registry → Checked Registry
unfolding find remove
unregister id registry =
    if is_some (find id registry) then ok (remove id registry) else not_registered id

abbrev pub or_missing : Text → Option RetailerRegistration → Checked RetailerRegistration
or_missing id none = not_registered id
or_missing id (some r) = ok r

unfoldable pub registration : Text → Registry → Checked RetailerRegistration
unfolding find
registration id registry = or_missing id (find id registry)

unfoldable pub get : Text → Registry → Checked RetailerAdapter
unfolding registration
get id registry = do r ← registration id registry; ok r.adapter

unfoldable pub get_enabled : Text → Registry → Checked RetailerAdapter
unfolding get
get_enabled id registry = do
  adapter ← get id registry
  if adapter.enabled then ok adapter else adapter_disabled id

abbrev registrations_of : Registry → List RetailerRegistration
registrations_of [] = []
registrations_of ((id, r) ∷ rest) = r ∷ registrations_of rest

unfoldable pub registrations : Registry → List RetailerRegistration
registrations registry = registrations_of registry

-- `if registration.enabled or not enabled_only`
abbrev listed : (enabled_only : Bool) → RetailerRegistration → Bool
listed enabled_only r = r.adapter.enabled || not enabled_only

unfoldable pub adapters : (enabled_only : Bool) → Registry → List RetailerAdapter
unfolding registrations
adapters enabled_only registry =
    map (λ (r : RetailerRegistration). r.adapter)
      (filter (listed enabled_only) (registrations registry))

unfoldable pub retailer_ids : (enabled_only : Bool) → Registry → List Text
unfolding adapters
retailer_ids enabled_only registry = map adapter_id (adapters enabled_only registry)

abbrev serves_option : RetailerAdapter → Option Text → Bool
serves_option adapter none = true
serves_option adapter (some category) = serves_category adapter.config category

abbrev pub is_capable : AdapterOperation → Option Text → RetailerAdapter → Bool
is_capable operation category adapter = supports adapter operation && serves_option adapter category

unfoldable pub adapters_supporting :
    AdapterOperation
    → (category : Option Text) → (enabled_only : Bool) → Registry
    → List RetailerAdapter
unfolding adapters serves_category
adapters_supporting operation category enabled_only registry =
    filter (is_capable operation category) (adapters enabled_only registry)

-- `enable` and `disable` set the adapter's own flag.
abbrev pub with_enabled : Bool → RetailerRegistration → RetailerRegistration
with_enabled flag r = record r { adapter = record r.adapter { enabled = flag } }

unfoldable pub set_enabled : Bool → Text → Registry → Checked Registry
unfolding registration set_key
set_enabled flag id registry = do
  r ← registration id registry
  ok (set_key id (with_enabled flag r) registry)

unfoldable pub enable : Text → Registry → Checked Registry
unfolding set_enabled
enable = set_enabled true

unfoldable pub disable : Text → Registry → Checked Registry
unfolding set_enabled
disable = set_enabled false

unfoldable pub is_enabled : Text → Registry → Checked Bool
unfolding get
is_enabled id registry = do adapter ← get id registry; ok adapter.enabled

-- The registration with the result of its health check
abbrev pub with_health : HealthCheckResult → RetailerRegistration → RetailerRegistration
with_health result r = record r { last_health = some result }

unfoldable pub registry_health_check : Text → (now : Datetime) → Registry → Checked Registry
unfolding registration set_key health_check
registry_health_check id now registry = do
  r ← registration id registry
  result ← of_call (health_check r.adapter now)
  ok (set_key id (with_health result r) registry)

-- The check of a registration, if it is included
abbrev pub check_included :
    (include_disabled : Bool)
    → (now : Datetime) → RetailerRegistration
    → Checked RetailerRegistration
check_included include_disabled now r =
    if include_disabled || r.adapter.enabled
    then of_call (health_check r.adapter now) >>= (λ result. ok (with_health result r))
    else ok r

-- `health_check_all`: the checks run side by side, and each registration remembers its own result. If a
-- check raises, `gather` raises and no result is kept; all that a check raises is one exception.
unfoldable pub health_check_all :
    (include_disabled : Bool) → (now : Datetime) → Registry → Checked Registry
unfolding health_check
health_check_all include_disabled now [] = ok []
health_check_all include_disabled now ((id, r) ∷ rest) =
    let later = health_check_all include_disabled now rest in
    check_included include_disabled now r >>= λ checked.
    later >>= λ others. ok ((id, checked) ∷ others)

unfoldable pub last_health : Text → Registry → Checked (Option HealthCheckResult)
unfolding registration
last_health id registry = do r ← registration id registry; ok r.last_health

-- `health_status`: `unknown` before the first check
unfoldable pub health_status : RetailerRegistration → HealthStatus
health_status r = elim r.last_health [ none ↦ HealthStatus.unknown | some result ↦ result.status ]
