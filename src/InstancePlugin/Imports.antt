-- ===== src/InstancePlugin/Imports.antt =====
-- Imports that an instance passes to its game: instance.ts, importPlatform, importPlatformFromFile and
-- the handlers that call them. The chunks of a payload are in Payload.
use clusterio_surface_export.Prelude.{
  String, Option, none, some, concat, is_empty, given_or, or_null, or_option, or_else,
  if◌then◌else◌,
}
use clusterio_surface_export.InstancePlugin.{
  ExportData, import_platform_chunked, RconReply, printed, rcon_threw, PluginState, ExportFile,
  unreadable, holds, Surroundings, call,
}

pub data ImportResult : Type 0 where
  imported : ImportResult
  import_failed : String → ImportResult

abbrev import_answered : RconReply → ImportResult
import_answered (printed text) = imported
import_answered (rcon_threw e) = import_failed e

abbrev imported_name : Surroundings → PluginState → String
imported_name v s = concat "Imported_" (v.number.write (v.clock s.trace))

abbrev import_as :
    Surroundings → String → String → ExportData → PluginState → ImportResult × PluginState
import_as v name force d s =
    let c = import_platform_chunked name force d in (import_answered (v.rcon s.trace c), call c s)

unfoldable pub import_platform :
    Surroundings → ExportData → String → PluginState → ImportResult × PluginState
import_platform v d force s = import_as v (given_or d.platform_name (imported_name v s)) force d s

abbrev pub import_read :
    Surroundings → ExportFile → Option String → String → PluginState → ImportResult × PluginState
import_read v (unreadable e) name force s = (import_failed e, s)
import_read v (holds d) name force s =
    import_as v (or_else (or_option (or_null name) (or_null d.platform_name)) (imported_name v s))
      force d s

unfoldable pub import_platform_from_file :
    Surroundings → String → Option String → String → PluginState → ImportResult × PluginState
import_platform_from_file v file name force s =
    import_read v (v.read_file s.trace file) name force s

abbrev with_planet : Option String → ExportData → ExportData
with_planet none d = d
with_planet (some planet) d =
    if is_empty planet then d else record d { target_planet = some planet }

-- handleImportPlatformRequest
unfoldable pub handle_import_platform_request :
    Surroundings
    → ExportData
    → Option String
    → Option String
    → PluginState
    → ImportResult × PluginState
unfolding import_platform
handle_import_platform_request v d force planet s =
    import_platform v (with_planet planet d) (given_or force "player") s

-- handleImportPlatformFromFileRequest
unfoldable pub handle_import_platform_from_file_request :
    Surroundings → String → Option String → Option String → PluginState → ImportResult × PluginState
unfolding import_platform_from_file
handle_import_platform_from_file_request v file name force s =
    import_platform_from_file v file name (given_or force "player") s

-- handleImportFileRequest: the result is only logged.
unfoldable pub handle_import_file_request :
    Surroundings → String → Option String → Option String → PluginState → PluginState
unfolding import_platform_from_file
handle_import_file_request v file name force s =
    (import_platform_from_file v file name (or_else force "player") s).1
