-- ===== src/Adapters/Registry/Refinement.antt =====
-- The registry as a map from identities to registrations.
use mathlib.Core.List.{[], ◌∷◌}
use mathlib.Core.Path.{fun_ext}
use price_intelligence_india.Base.{
  ◌≡◌, refl, ap, ◌∙◌, Bool, true, false, ◌&&◌, not, Option, none, some, is_some, if◌then◌else◌,
  Bool-cases, ◌⊎◌, inl, inr,
}
use price_intelligence_india.Base.Dict.{
  Key, same_key, find, set_key, remove, find-set_key, find-remove,
}
use price_intelligence_india.Domain.{Datetime}
use price_intelligence_india.Collection.Models.{Raised, raises}
use price_intelligence_india.Adapters.Interface.{adapter_id, health_check}
use price_intelligence_india.Adapters.Registry.{
  RetailerRegistration, Registry, Checked, ok, not_registered, already_registered, adapter_disabled,
  check_raised, new_registration, register, unregister, with_enabled, enable, disable, or_missing,
  ◌>>=◌, of_call, with_health, registry_health_check, health_check_all,
}
use price_intelligence_india.Adapters.Registry.Commands.{Command, run_command}
use price_intelligence_india.Adapters.Registry.Checks.{
  is_consistent, checked_registration, checked_registry, check_raises, call-cases,
  health_check_all-cases,
}

-- The abstract view: the registration of an identity, without the order
abbrev pub View : Type 0
View = Key → Option RetailerRegistration

abbrev pub view : Registry → View
view registry = λ id. find id registry

abbrev pub view_checked : Checked Registry → Checked View
view_checked (ok registry) = ok (view registry)
view_checked (not_registered id) = not_registered id
view_checked (already_registered id) = already_registered id
view_checked (adapter_disabled id) = adapter_disabled id
view_checked (check_raised e) = check_raised e

abbrev pub assign : Key → Option RetailerRegistration → View → View
assign key value v = λ j. if same_key key j then value else v j

abbrev change :
    (RetailerRegistration → Checked RetailerRegistration)
    → Key
    → Option RetailerRegistration
    → View
    → Checked View
change f id none v = not_registered id
change f id (some r) v = f r >>= λ changed. ok (assign id (some changed) v)

abbrev checked_option :
    (include_disabled : Bool) → Datetime → Option RetailerRegistration → Option RetailerRegistration
checked_option include_disabled now none = none
checked_option include_disabled now (some r) = some (checked_registration include_disabled now r)

-- What a command may do to the view. A check of all registrations records the result of each that is
-- included, if none of them raises; else it raises what the check of one of them raises.
abbrev pub Specifies : (now : Datetime) → Command → View → Checked View → Type 0
Specifies now (Command.register_adapter adapter replace) v result =
    let id = adapter_id adapter in
    result ≡ (
      if is_some (v id) && not replace
      then already_registered id
      else ok (assign id (some (new_registration adapter now)) v))
Specifies now (Command.unregister_id id) v result =
    result ≡ (if is_some (v id) then ok (assign id none v) else not_registered id)
Specifies now (Command.enable_id id) v result =
    result ≡ change (λ r. ok (with_enabled true r)) id (v id) v
Specifies now (Command.disable_id id) v result =
    result ≡ change (λ r. ok (with_enabled false r)) id (v id) v
Specifies now (Command.check_id id) v result =
    result
    ≡ change (λ r. of_call (health_check r.adapter now) >>= λ found. ok (with_health found r)) id
        (v id) v
Specifies now (Command.check_all include_disabled) v result =
    ((result ≡ ok (λ id. checked_option include_disabled now (v id)))
      × ((id : Key) (r : RetailerRegistration)
          → v id ≡ some r
          → check_raises include_disabled now r ≡ false))
    ⊎ ((id : Key) × (r : RetailerRegistration) × (e : Raised) × (v id ≡ some r)
        × (check_raises include_disabled now r ≡ true)
        × (health_check r.adapter now ≡ raises e)
        × (result ≡ check_raised e))

view-set_key :
    (key : Key) (r : RetailerRegistration) (registry : Registry)
    → view (set_key key r registry) ≡ assign key (some r) (view registry)
view-set_key key r registry = fun_ext (λ j. find-set_key j key r registry)

view-remove :
    (key : Key) (registry : Registry) → view (remove key registry) ≡ assign key none (view registry)
view-remove key registry = fun_ext (λ j. find-remove j key registry)

view-checked_registry :
    (include_disabled : Bool) (now : Datetime) (registry : Registry) (id : Key)
    → find id (checked_registry include_disabled now registry)
      ≡ checked_option include_disabled now (find id registry)
unfolding find
view-checked_registry include_disabled now [] id = refl
view-checked_registry include_disabled now ((k, r) ∷ rest) id = elim (Bool-cases (same_key k id)) [
  | inl e ↦ rw e refl
  | inr e ↦ rw e (view-checked_registry include_disabled now rest id)
]

view-change :
    (f : RetailerRegistration → RetailerRegistration) (id : Key) (registry : Registry)
    (o : Option RetailerRegistration)
    → view_checked (or_missing id o >>= λ r. ok (set_key id (f r) registry))
      ≡ change (λ r. ok (f r)) id o (view registry)
view-change f id registry none = refl
view-change f id registry (some r) = ap ok (view-set_key id (f r) registry)

view-check :
    (id : Key) (now : Datetime) (registry : Registry) (o : Option RetailerRegistration)
    → view_checked (
        or_missing id o >>= λ r. of_call (health_check r.adapter now) >>= λ found.
        ok (set_key id (with_health found r) registry))
      ≡ change
          (λ r. of_call (health_check r.adapter now) >>= λ found. ok (with_health found r))
          id
          o
          (view registry)
view-check id now registry none = refl
view-check id now registry (some r) = elim (call-cases (health_check r.adapter now)) [
  | inl (found, e) ↦ rw e (ap ok (view-set_key id (with_health found r) registry))
  | inr (error, e) ↦ rw e refl
]

view-check_all :
    (include_disabled : Bool) (now : Datetime) (registry : Registry)
    → is_consistent registry ≡ true
    → Specifies now
        (Command.check_all include_disabled)
        (view registry)
        (view_checked (health_check_all include_disabled now registry))
view-check_all include_disabled now registry c =
    elim (health_check_all-cases include_disabled now registry c) [
      | inl (e, none_raises) ↦ inl (
        ap view_checked e ∙ ap ok (fun_ext (view-checked_registry include_disabled now registry)),
        none_raises,
      )
      | inr (id, r, error, found, on, f, e) ↦ inr (id, r, error, found, on, f, ap view_checked e)
    ]

-- Each operation that changes a registry with one registration for an identity, its errors and what a
-- health check raises included, does to the map of registrations what it says: it sets, removes or
-- updates the registration of one identity, or records the checks of all, and leaves every other
-- registration.
pub run_command-refines :
    (now : Datetime) (command : Command) (registry : Registry)
    → is_consistent registry ≡ true
    → Specifies now command (view registry) (view_checked (run_command now command registry))
unfolding run_command register unregister enable disable registry_health_check
run_command-refines now (Command.register_adapter adapter replace) registry c =
    elim (Bool-cases (is_some (find (adapter_id adapter) registry) && not replace)) [
      | inl e ↦ rw e refl
      | inr e ↦
          rw e (ap ok (view-set_key (adapter_id adapter) (new_registration adapter now) registry))
    ]
run_command-refines now (Command.unregister_id id) registry c =
    elim (Bool-cases (is_some (find id registry))) [
      | inl e ↦ rw e (ap ok (view-remove id registry))
      | inr e ↦ rw e refl
    ]
run_command-refines now (Command.enable_id id) registry c =
    view-change (with_enabled true) id registry (find id registry)
run_command-refines now (Command.disable_id id) registry c =
    view-change (with_enabled false) id registry (find id registry)
run_command-refines now (Command.check_id id) registry c =
    view-check id now registry (find id registry)
run_command-refines now (Command.check_all include_disabled) registry c =
    view-check_all include_disabled now registry c
