-- ===== src/Adapters/Registry/Commands.antt =====
-- The operations that change the registry of backend/app/retailer_adapters/base/registry.py.
use price_intelligence_india.Base.{Bool}
use price_intelligence_india.Domain.{Text, Datetime}
use price_intelligence_india.Adapters.Interface.{RetailerAdapter}
use price_intelligence_india.Adapters.Registry.{
  Registry, Checked, register, unregister, enable, disable, registry_health_check, health_check_all,
}

-- A call of an operation that changes the registry
pub data Command : Type 0 where
  register_adapter : RetailerAdapter → (replace : Bool) → Command
  unregister_id enable_id disable_id check_id : Text → Command
  check_all : (include_disabled : Bool) → Command

unfoldable pub run_command : (now : Datetime) → Command → Registry → Checked Registry
unfolding register unregister enable disable registry_health_check health_check_all
run_command now (Command.register_adapter adapter replace) registry =
    register adapter replace now registry
run_command now (Command.unregister_id id) registry = unregister id registry
run_command now (Command.enable_id id) registry = enable id registry
run_command now (Command.disable_id id) registry = disable id registry
run_command now (Command.check_id id) registry = registry_health_check id now registry
run_command now (Command.check_all include_disabled) registry =
    health_check_all include_disabled now registry
