-- ===== src/Adapters/Registry/Consistent.antt =====
-- What every registry is: one registration for an identity, under the adapter's own identity.
use mathlib.Core.List.{[], ◌∷◌}
use mathlib.Core.Option.{some-injective}
use price_intelligence_india.Base.{
  ◌≡◌, refl, ap, sym, subst, Bool, true, false, ◌&&◌, not, Option, none, some, is_some, Bool-cases,
  inl, inr, arith,
}
use price_intelligence_india.Base.Dict.{
  Key, same_key, same_key_refl, same_key-eq, same_key_symm, find, set_key, remove, find-set_key,
  find-remove,
}
use price_intelligence_india.Domain.{Datetime}
use price_intelligence_india.Adapters.Interface.{adapter_id, health_check}
use price_intelligence_india.Collection.Models.{Call, returns, raises}
use price_intelligence_india.Adapters.Models.{HealthCheckResult}
use price_intelligence_india.Adapters.Registry.{
  RetailerRegistration, Registry, Checked, ok, new_registration, with_enabled, or_missing, ◌>>=◌,
  of_call, with_health, health_check_all,
}
use price_intelligence_india.Adapters.Registry.Commands.{Command, run_command}
use price_intelligence_india.Adapters.Registry.Checks.{
  is_consistent, is_included, with_call, checked_registration, checked_registry, call-cases,
  health_check_all-cases,
}

set_key-consistent :
    (id : Key) (r : RetailerRegistration) (registry : Registry)
    → same_key (adapter_id r.adapter) id ≡ true
    → is_consistent registry ≡ true
    → is_consistent (set_key id r registry) ≡ true
unfolding set_key
set_key-consistent id r [] h c = unfold find in ground arith
set_key-consistent id r ((k, s) ∷ rest) h c = elim (Bool-cases (same_key k id)) [
  | inl e ↦ rw e (
      ground
        (arith, subst (λ x. same_key (adapter_id r.adapter) x ≡ true) (sym (same_key-eq k id e)) h))
  | inr e ↦
      rw e (
        ground
          (arith, set_key-consistent id r rest h, find-set_key k id r rest, same_key_symm id k))
]

find-own :
    (id : Key) (r : RetailerRegistration) (registry : Registry)
    → is_consistent registry ≡ true
    → find id registry ≡ some r
    → same_key (adapter_id r.adapter) id ≡ true
unfolding find
find-own id r [] c h = cc
find-own id r ((k, s) ∷ rest) c h = elim (Bool-cases (same_key k id)) [
  | inl e ↦
      let same : s ≡ r = some-injective _ _ (rw e at h) in
      subst (λ (x : RetailerRegistration). same_key (adapter_id x.adapter) id ≡ true) same
        (subst (λ x. same_key (adapter_id s.adapter) x ≡ true) (same_key-eq k id e) (ground arith))
  | inr e ↦ find-own id r rest (ground arith) (rw e at h)
]

remove-consistent :
    (id : Key) (registry : Registry)
    → is_consistent registry ≡ true
    → is_consistent (remove id registry) ≡ true
unfolding remove
remove-consistent id [] c = refl
remove-consistent id ((k, s) ∷ rest) c = elim (Bool-cases (same_key k id)) [
  | inl e ↦ rw e (remove-consistent id rest (ground arith))
  | inr e ↦ rw e (ground (arith, remove-consistent id rest, find-remove k id rest))
]

with_call-adapter :
    (r : RetailerRegistration) (c : Call HealthCheckResult) → (with_call r c).adapter ≡ r.adapter
with_call-adapter r (returns result) = refl
with_call-adapter r (raises e) = refl

checked-own :
    (include_disabled : Bool) (now : Datetime) (r : RetailerRegistration)
    → (checked_registration include_disabled now r).adapter ≡ r.adapter
checked-own include_disabled now r = elim (Bool-cases (is_included include_disabled r)) [
  | inl on ↦ rw on (with_call-adapter r (health_check r.adapter now))
  | inr off ↦ rw off refl
]

checked_registry-find :
    (include_disabled : Bool) (now : Datetime) (registry : Registry) (id : Key)
    → is_some (find id (checked_registry include_disabled now registry))
      ≡ is_some (find id registry)
unfolding find
checked_registry-find include_disabled now [] id = refl
checked_registry-find include_disabled now ((k, r) ∷ rest) id =
    ground (arith, checked_registry-find include_disabled now rest id)

checked_registry-consistent :
    (include_disabled : Bool) (now : Datetime) (registry : Registry)
    → is_consistent registry ≡ true
    → is_consistent (checked_registry include_disabled now registry) ≡ true
checked_registry-consistent include_disabled now [] c = refl
checked_registry-consistent include_disabled now ((k, r) ∷ rest) c =
    let own = ap adapter_id (checked-own include_disabled now r) in
    let keys = checked_registry-find include_disabled now rest k in
    let later = checked_registry-consistent include_disabled now rest (ground arith) in
    rw (own, keys) (ground (arith, later))

-- What follows an operation, if it returns
abbrev pub Ensures : Checked Registry → Type 0
Ensures (ok registry) = is_consistent registry ≡ true
Ensures _ = Unit

changed-consistent :
    (f : RetailerRegistration → RetailerRegistration) (id : Key) (registry : Registry)
    → ((r : RetailerRegistration) → adapter_id (f r).adapter ≡ adapter_id r.adapter)
    → is_consistent registry ≡ true
    → (o : Option RetailerRegistration) → find id registry ≡ o
    → Ensures (or_missing id o >>= λ r. ok (set_key id (f r) registry))
changed-consistent f id registry same c none e = tt
changed-consistent f id registry same c (some r) e =
    set_key-consistent id (f r) registry (rw (same r) (find-own id r registry c e)) c

check-consistent :
    (id : Key) (now : Datetime) (registry : Registry)
    → is_consistent registry ≡ true
    → (o : Option RetailerRegistration) → find id registry ≡ o
    → Ensures (
        or_missing id o >>= λ r. of_call (health_check r.adapter now) >>= λ result.
        ok (set_key id (with_health result r) registry))
check-consistent id now registry c none e = tt
check-consistent id now registry c (some r) e = elim (call-cases (health_check r.adapter now)) [
  | inl (result, f) ↦
      rw f (set_key-consistent id (with_health result r) registry (find-own id r registry c e) c)
  | inr (error, f) ↦ rw f tt
]

check_all-consistent :
    (include_disabled : Bool) (now : Datetime) (registry : Registry)
    → is_consistent registry ≡ true
    → Ensures (health_check_all include_disabled now registry)
check_all-consistent include_disabled now registry c =
    elim (health_check_all-cases include_disabled now registry c) [
      | inl (e, none_raises) ↦ rw e (checked_registry-consistent include_disabled now registry c)
      | inr (id, r, error, found, on, f, e) ↦ rw e tt
    ]

-- Every operation that changes the registry keeps it consistent: an identity is registered once, under
-- the identity that its adapter has.
pub run_command-consistent :
    (now : Datetime) (command : Command) (registry : Registry)
    → is_consistent registry ≡ true
    → Ensures (run_command now command registry)
unfolding run_command
run_command-consistent now (Command.register_adapter adapter replace) registry c =
    elim (Bool-cases (is_some (find (adapter_id adapter) registry) && not replace)) [
      | inl e ↦ rw e tt
      | inr e ↦ rw e (
          set_key-consistent (adapter_id adapter) (new_registration adapter now) registry
            (same_key_refl (adapter_id adapter)) c)
    ]
run_command-consistent now (Command.unregister_id id) registry c =
    elim (Bool-cases (is_some (find id registry))) [
      | inl e ↦ rw e (remove-consistent id registry c)
      | inr e ↦ rw e tt
    ]
run_command-consistent now (Command.enable_id id) registry c =
    changed-consistent (with_enabled true) id registry (λ r. refl) c (find id registry) refl
run_command-consistent now (Command.disable_id id) registry c =
    changed-consistent (with_enabled false) id registry (λ r. refl) c (find id registry) refl
run_command-consistent now (Command.check_id id) registry c =
    check-consistent id now registry c (find id registry) refl
run_command-consistent now (Command.check_all include_disabled) registry c =
    check_all-consistent include_disabled now registry c
