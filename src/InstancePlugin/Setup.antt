-- ===== src/InstancePlugin/Setup.antt =====
-- The plugin's start: instance.ts, validateInstanceConfiguration, onStart, ensureLuaConsoleUnlocked,
-- sendConfigurationToLua, sendGatewayConfigToLua, handlePushGatewayConfig and
-- handleTeleportRosterRequest. Which settings are sent is left out.
use clusterio_surface_export.Prelude.{zero, suc, String, Bool, true, false, Option, none, some, ◌∷◌}
use clusterio_surface_export.Prelude.Int.{ℤ, pos, negsuc}
use clusterio_surface_export.InstancePlugin.{
  RconCall, signal_ready, configure, configure_gateways, push_teleport_roster, RconReply, printed,
  rcon_threw, get_gateway_config_request, get_instance_roster_request, ControllerReply, succeeded,
  declined, unreachable, waited, PluginState, Surroundings, call, report,
}
use clusterio_surface_export.InstancePlugin.Source.{SourceAnswer, done, failed}

-- The error that is thrown, if any; a limit that is no integer is missing.
abbrev cache_limit_error : Option ℤ → Option String
cache_limit_error none = some "surface_export.max_export_cache_size must be >= 1"
cache_limit_error (some (negsuc n)) = some "surface_export.max_export_cache_size must be >= 1"
cache_limit_error (some (pos zero)) = some "surface_export.max_export_cache_size must be >= 1"
cache_limit_error (some (pos (suc n))) = none

unfoldable pub validate_instance_configuration : Bool → Option ℤ → Option String
validate_instance_configuration false limit =
    some "Surface Export requires factorio.enable_script_commands to be enabled"
validate_instance_configuration true limit = cache_limit_error limit

abbrev is_printed : RconReply → Bool
is_printed (printed text) = true
is_printed (rcon_threw e) = false

-- A call of the game, and whether it threw no error.
abbrev tried : Surroundings → RconCall → PluginState → Bool × PluginState
tried v c s = (is_printed (v.rcon s.trace c), call c s)

-- Both attempts are made, and the second one counts.
unfoldable pub ensure_lua_console_unlocked : Surroundings → PluginState → Bool × PluginState
ensure_lua_console_unlocked v s = tried v signal_ready (tried v signal_ready s).1

unfoldable pub send_configuration_to_lua : Surroundings → PluginState → PluginState
send_configuration_to_lua v s = call configure s

abbrev pub answered_with :
    Surroundings → RconCall → ControllerReply → PluginState → Bool × PluginState
answered_with v c (unreachable why) s = (false, s)
answered_with v c succeeded s = tried v c s
answered_with v c (declined e safe) s = tried v c s

abbrev pull_and_apply : Surroundings → PluginState → Bool × PluginState
pull_and_apply v s =
    answered_with v configure_gateways (v.controller s.trace get_gateway_config_request)
      (report get_gateway_config_request s)

-- Whether the settings are applied at once. If not, the retry comes 10 seconds later, in the
-- background.
unfoldable pub send_gateway_config_to_lua : Surroundings → PluginState → Bool × PluginState
send_gateway_config_to_lua v s = pull_and_apply v s

unfoldable pub retry_gateway_config : Surroundings → PluginState → Bool × PluginState
retry_gateway_config v s = pull_and_apply v (record s { trace = waited 10000 ∷ s.trace })

unfoldable pub on_start : Surroundings → PluginState → Bool × PluginState
unfolding ensure_lua_console_unlocked send_configuration_to_lua send_gateway_config_to_lua
on_start v s =
    send_gateway_config_to_lua v (send_configuration_to_lua v (ensure_lua_console_unlocked v s).1)

abbrev gateway_answer : RconReply → SourceAnswer
gateway_answer (printed text) = done
gateway_answer (rcon_threw e) = failed e

unfoldable pub handle_push_gateway_config : Surroundings → PluginState → SourceAnswer × PluginState
handle_push_gateway_config v s =
    (gateway_answer (v.rcon s.trace configure_gateways), call configure_gateways s)

unfoldable pub handle_teleport_roster_request : Surroundings → PluginState → PluginState
handle_teleport_roster_request v s =
    (answered_with v push_teleport_roster (v.controller s.trace get_instance_roster_request)
      (report get_instance_roster_request s)).1
