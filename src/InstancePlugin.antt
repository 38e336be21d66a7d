-- ===== src/InstancePlugin.antt =====
-- The plugin of an instance: instance.ts, with the remote calls of lib/lua-interface.ts. A number that
-- a report of the game carries is an integer or missing. The content of an export is opaque.
pub mod Exports
pub mod Transfers
pub mod Unlocks
pub mod Source
pub mod Polls
pub mod Events
pub mod LockState
pub mod Managed
mod Tests
pub mod Kept
pub mod LeftAlone
pub mod Verdict
pub mod Imports
pub mod Setup
pub mod Delivered
use clusterio_surface_export.Prelude.{ℕ, String, Bool, Option, none, some, List, [], ◌∷◌}
use clusterio_surface_export.Prelude.Int.{ℤ}
use clusterio_surface_export.CanonicalId.{NumberText}
use clusterio_surface_export.Transfer.{ValidationEvent, Stage}

-- What a platform's export says, as far as the plugin reads it.
pub record ExportData : Type 0 where
  pub platform_name : Option String
  pub target_planet : Option String
  pub json : String

-- The calls of LuaInterface; an import is one call, whatever its chunks, and so is a push of gateway
-- settings. The settings and the roster are left out.
pub data RconCall : Type 0 where
  export_platform : ℤ → String → Option ℕ → RconCall
  get_export_json : String → RconCall
  list_exports_json : RconCall
  import_platform_chunked : String → String → ExportData → RconCall
  delete_source_platform : ℤ → String → String → Option String → RconCall
  get_source_transfer_lock_state : String → ℤ → String → String → RconCall
  unlock_platform : ℤ → Option String → RconCall
  print_to_game : String → String → RconCall
  signal_ready : RconCall
  configure : RconCall
  configure_gateways : RconCall
  push_teleport_roster : RconCall

-- The text that the game prints, or the message of the error.
pub data RconReply : Type 0 where
  printed : String → RconReply
  rcon_threw : String → RconReply

-- A platform's import that is no transfer has ended: ImportOperationCompleteEvent.
pub record ImportEnd : Type 0 where
  pub operation_id : String
  pub platform_name : String
  pub success : Bool
  pub error_text : Option String
  pub failed_stage : Option String
  pub cleanup_has_failed : Bool
  pub destination_preserved : Bool
  pub has_validation : Bool

-- The messages to the controller.
pub data Report : Type 0 where
  platform_export : String → String → Option ℤ → ExportData → ℕ → Report
  transfer_platform_request : String → ℤ → String → Report
  platform_state_changed : String → String → Report
  transfer_validation : ValidationEvent → Report
  import_operation_complete : ImportEnd → Report
  get_gateway_config_request : Report
  get_instance_roster_request : Report

-- What the controller answers: its `success`, `error` and whether `safeToUnlockSource === true`; or
-- the error of the send.
pub data ControllerReply : Type 0 where
  succeeded : ControllerReply
  declined : Option String → Bool → ControllerReply
  unreachable : String → ControllerReply

-- What the plugin does to the outside.
pub data PluginEffect : Type 0 where
  called : RconCall → PluginEffect
  reported : Report → PluginEffect
  waited : ℕ → PluginEffect

-- A job id is a text or a number.
pub data JobId : Type 0 where
  text_id : String → JobId
  number_id : ℤ → JobId

pub record PendingTransfer : Type 0 where
  pub platform_index : Option ℤ
  pub platform_name : Option String
  pub force_name : Option String
  pub destination_instance_id : Option ℤ
  pub job_id : Option JobId

-- The plugin's fields, and its trace, newest first. The set keeps each id once.
pub record PluginState : Type 0 where
  pub controller_managed_transfer_exports : List String
  pub pending_transfer : Option PendingTransfer
  pub trace : List PluginEffect

-- What `JSON.parse` makes of the text of an export: it throws, it is an object, or anything else.
pub data ParsedExport : Type 0 where
  not_json : String → ParsedExport
  no_object : ParsedExport
  object : ExportData → ParsedExport

-- A file of the game's output directory: the error of reading or parsing it, or an export.
pub data ExportFile : Type 0 where
  unreadable : String → ExportFile
  holds : ExportData → ExportFile

-- The instance's id and what the game, the controller, the clock and JavaScript's library do.
pub record Surroundings : Type 0 where
  pub id : ℤ
  pub number : NumberText
  pub write : ℤ → String  -- `String(n)`
  pub rcon : List PluginEffect → RconCall → RconReply
  pub controller : List PluginEffect → Report → ControllerReply
  pub clock : List PluginEffect → ℕ
  pub parse_export : String → ParsedExport
  pub read_file : List PluginEffect → String → ExportFile

abbrev pub call : RconCall → PluginState → PluginState
call c s = record s { trace = called c ∷ s.trace }

abbrev pub report : Report → PluginState → PluginState
report r s = record s { trace = reported r ∷ s.trace }
