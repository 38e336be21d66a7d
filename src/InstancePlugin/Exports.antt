-- ===== src/InstancePlugin/Exports.antt =====
-- Exports of an instance: instance.ts, normalizeRconScalarResult, isInvalidExportId, exportPlatform,
-- handleExportPlatformRequest, getExportData, listExports and waitForExportData, and getExportJson of
-- lib/lua-interface.ts.
use clusterio_surface_export.Prelude.{
  ℕ, zero, suc, ◌+◌, String, Bool, false, not, ◌||◌, Option, none, some, List, [], ◌∷◌, ◌++◌, map,
  any, get_last?, filter, ltb, eqb, is_empty, concat, or_else, string_eq, ◌==◌, if◌then◌else◌,
}
use clusterio_surface_export.Prelude.Int.{ℤ, pos, negsuc}
use clusterio_surface_export.Prelude.Text.{trim, lower, upper, starts_with, is_text, split_lines}
use clusterio_surface_export.CanonicalId.{split_at_colon}
use clusterio_surface_export.InstancePlugin.{
  ExportData, export_platform, get_export_json, list_exports_json, RconReply, printed, rcon_threw,
  PluginState, ParsedExport, not_json, no_object, object, Surroundings, waited, call,
}

-- The last line that is not blank.
unfoldable pub normalize_rcon_scalar_result : String → String
unfolding trim
normalize_rcon_scalar_result text =
    or_else (get_last? (filter (λ l. not (is_empty l)) (map trim (split_lines text)))) ""

unfoldable pub is_invalid_export_id : String → Bool
unfolding trim
is_invalid_export_id id =
    let lowered = trim id in
    is_empty id
    || starts_with lower "export_failed" lowered
    || is_text lower "nil" lowered
    || starts_with lower "error" lowered

pub data ExportResult : Type 0 where
  exported : String → ExportResult
  export_failed : String → ExportResult

abbrev reason_of : Option (String × String) → String
reason_of none = ""
reason_of (some (head, tail)) = trim tail

abbrev failed_because : String → String
failed_because reason =
    if is_empty reason then "Export failed" else concat "Export failed - " reason

-- What exportPlatform makes of the last line of the game's answer.
unfoldable pub read_export_result : String → ExportResult
unfolding trim is_invalid_export_id split_at_colon
read_export_result r =
    if is_empty r || is_text lower "nil" r
    then export_failed "Export failed - no export_id returned"
    else if starts_with upper "EXPORT_FAILED" r
    then export_failed (failed_because (reason_of (split_at_colon r)))
    else if is_invalid_export_id (trim r)
    then export_failed "Export failed - invalid export_id returned"
    else exported (trim r)

abbrev export_answered : RconReply → ExportResult
export_answered (printed text) = read_export_result (normalize_rcon_scalar_result text)
export_answered (rcon_threw e) = export_failed e

-- A target that is a positive instance id; the code's null reads as 0.
abbrev pub target_arg : Option ℤ → Option ℕ
target_arg none = none
target_arg (some (negsuc n)) = none
target_arg (some (pos n)) = if eqb n 0 then none else some n

unfoldable pub request_export :
    Surroundings → ℤ → String → Option ℤ → PluginState → ExportResult × PluginState
unfolding read_export_result normalize_rcon_scalar_result
request_export v index force target s =
    let c = export_platform index force (target_arg target) in
    (export_answered (v.rcon s.trace c), call c s)

-- `set.add(id)`
abbrev pub add_id : String → List String → List String
add_id id ids = if any (λ x. x == id) ids then ids else ids ++ id ∷ []

abbrev pub managed_if : Option ℕ → ExportResult × PluginState → ExportResult × PluginState
managed_if none (r, s) = (r, s)
managed_if (some n) (export_failed e, s) = (export_failed e, s)
managed_if (some n) (exported id, s) = (
  exported id,
  record s {
    controller_managed_transfer_exports = add_id id s.controller_managed_transfer_exports;
  },
)

-- handleExportPlatformRequest; the index is an integer.
unfoldable pub handle_export_platform_request :
    Surroundings → ℤ → Option String → Option ℤ → PluginState → ExportResult × PluginState
unfolding request_export
handle_export_platform_request v index force target s =
    managed_if (target_arg target) (request_export v index (or_else force "player") target s)

-- getExportJson: it throws, or finds an export or none.
pub data Lookup : Type 0 where
  lookup_threw missing : Lookup
  found : ExportData → Lookup

abbrev lookup_of : ParsedExport → Lookup
lookup_of (not_json e) = lookup_threw
lookup_of no_object = missing
lookup_of (object d) = found d

abbrev pub lookup : Surroundings → RconReply → Lookup
lookup v (rcon_threw e) = lookup_threw
lookup v (printed text) =
    let json = trim text in
    if is_empty json || json == "null" then missing else lookup_of (v.parse_export json)

-- listExports catches what its call throws.
abbrev pub list_exports : PluginState → PluginState
list_exports s = call list_exports_json s

abbrev pub fetched : Bool → Lookup → PluginState → Option ExportData × PluginState
fetched log_on_missing lookup_threw s = (none, s)
fetched log_on_missing missing s = (none, if log_on_missing then list_exports s else s)
fetched log_on_missing (found d) s = (some d, s)

unfoldable pub get_export_data :
    Surroundings → Bool → String → PluginState → Option ExportData × PluginState
unfolding trim is_invalid_export_id
get_export_data v log_on_missing id s =
    let c = get_export_json (trim id) in
    if is_invalid_export_id (trim id)
    then (none, s)
    else fetched log_on_missing (lookup v (v.rcon s.trace c)) (call c s)

-- How the poll for an export ends; the last does not come of the code.
pub data PollEnd : Type 0 where
  arrived : ExportData → PollEnd
  timed_out out_of_fuel : PollEnd

abbrev pub after_poll :
    Option ExportData × PluginState → (PluginState → PollEnd × PluginState) → PollEnd × PluginState
after_poll (some d, s) rest = (arrived d, s)
after_poll (none, s) rest = rest s

-- The loop of waitForExportData.
abbrev pub poll : ℕ → Surroundings → String → ℕ → ℕ → PluginState → PollEnd × PluginState
poll zero v id deadline interval s = (out_of_fuel, s)
poll (suc fuel) v id deadline interval s =
    let again =
      after_poll (get_export_data v false id s)
        (λ u. poll fuel v id deadline interval (record u { trace = waited interval ∷ u.trace })) in
    if ltb (v.clock s.trace) deadline then again else (timed_out, list_exports s)

-- waitForExportData: a turn of the loop passes a millisecond or more, so the timeout is fuel enough.
unfoldable pub wait_for_export_data :
    Surroundings → String → ℕ → ℕ → PluginState → PollEnd × PluginState
unfolding get_export_data
wait_for_export_data v id timeout interval s =
    poll (suc timeout) v id (v.clock s.trace + timeout) interval s
