-- ===== src/InstancePlugin/Tests.antt =====
-- An instance whose game prints one text, on which the theorems about the plugin run.
use clusterio_surface_export.Prelude.{
  ℕ, ◌+◌, ◌*◌, ◌≤◌, ◌<◌, ◌≢◌, String, ◌≡◌, refl, true, false, none, some, List, [], ◌∷◌, ◌++◌,
  arith, string_eq,
}
use clusterio_surface_export.Prelude.Int.{ℤ, pos}
use clusterio_surface_export.Prelude.Text.{trim}
use clusterio_surface_export.JsMap.{get}
use clusterio_surface_export.CanonicalId.{make_canonical_transfer_id, split_at_colon}
use clusterio_surface_export.CanonicalId.Tests.{stroke_text}
use clusterio_surface_export.Transfer.{awaiting_validation}
use clusterio_surface_export.Transfer.World.{accepted}
use clusterio_surface_export.Transfer.Verdict.Commands.{commands}
use clusterio_surface_export.Transfer.Start.{Refusal}
use clusterio_surface_export.Transfer.Request.{TransferRequest, handle_transfer_platform_request}
use clusterio_surface_export.Transfer.Tests.{env_with, world_with, ship_in}
use clusterio_surface_export.InstancePlugin.{
  RconReply, printed, Report, transfer_platform_request, ControllerReply, succeeded, PluginEffect,
  called, reported, waited, PluginState, no_object, unreadable, Surroundings,
}
use clusterio_surface_export.InstancePlugin.Exports.{
  normalize_rcon_scalar_result, is_invalid_export_id, read_export_result, export_failed, exported,
  out_of_fuel, timed_out, wait_for_export_data, request_export, handle_export_platform_request,
}
use clusterio_surface_export.InstancePlugin.Transfers.{
  ExportComplete, after_catch, start_controller_transfer, handle_export_complete,
}
use clusterio_surface_export.Transfer.Request.Rollback.{UnlocksOrRefuses}
use clusterio_surface_export.InstancePlugin.Unlocks.{
  wire_reply, plugin_owes, game_unlocks, start_controller_transfer-game_unlocks,
}
use clusterio_surface_export.InstancePlugin.Source.{
  ParsedLockState, lock_state, handle_get_source_transfer_lock_state,
}
use clusterio_surface_export.InstancePlugin.LockState.{
  IsLockState, handle_get_source_transfer_lock_state-IsLockState,
}
use clusterio_surface_export.InstancePlugin.Polls.{IsClock, asked, wait_for_export_data-Ends}
use clusterio_surface_export.InstancePlugin.Events.{platform_changed, handle_all}
use clusterio_surface_export.InstancePlugin.Kept.{transfer_requests}
use clusterio_surface_export.InstancePlugin.LeftAlone.{transfer_requests-handle_all}
use clusterio_surface_export.InstancePlugin.Verdict.{
  ImportReport, transfer_of, handle_import_complete_validation,
}
use clusterio_surface_export.InstancePlugin.Delivered.{
  arrived_verdict, deliver, decided, commands-handle_import_complete_validation,
}

abbrev elapsed : List PluginEffect → ℕ
elapsed [] = 0
elapsed (waited n ∷ es) = elapsed es + n
elapsed (called c ∷ es) = elapsed es
elapsed (reported r ∷ es) = elapsed es

elapsed-IsClock : IsClock elapsed
elapsed-IsClock = record { passes = passes; wait_passes = λ n es. omega arith }
  where
    passes : (e : PluginEffect) (es : List PluginEffect) → elapsed es ≤ elapsed (e ∷ es)
    passes (waited n) es = omega arith
    passes (called c) es = omega arith
    passes (reported r) es = omega arith

abbrev wording : Refusal → String
wording x = "refused"

abbrev request : String → ℤ → String → TransferRequest
request canonical target id = record {
  export_id = canonical;
  target_instance_id = target;
  source_instance_id = some (pos 1);
  source_export_id = some id;
}

-- The controller's own answer to a transfer, in a world with one stored export.
abbrev answer_of : Report → ControllerReply
answer_of (transfer_platform_request canonical target id) =
    wire_reply wording
      (handle_transfer_platform_request (env_with (accepted none)) (request canonical target id)
        (world_with [])).0
answer_of _ = succeeded

abbrev game_with : RconReply → Surroundings
game_with r = record {
  id = pos 1;
  number = stroke_text;
  write = λ n. "1";
  rcon = λ es c. r;
  controller = λ es m. answer_of m;
  clock = elapsed;
  parse_export = λ text. no_object;
  read_file = λ es name. unreadable "no such file";
}

abbrev idle : PluginState
idle = record { controller_managed_transfer_exports = []; pending_transfer = none; trace = [] }

last_line : normalize_rcon_scalar_result "warning\r\n export_7 \n\n" ≡ "export_7"
unfolding normalize_rcon_scalar_result trim
last_line = refl

failed_reason :
    read_export_result "export_failed: no hub:1" ≡ export_failed "Export failed - no hub:1"
unfolding read_export_result trim split_at_colon is_invalid_export_id
failed_reason = refl

made : make_canonical_transfer_id stroke_text (pos 1) "7" ≡ some "11:7"
unfolding make_canonical_transfer_id
made = refl

start_controller_transfer-game_unlocks_example :
    let answer =
      handle_transfer_platform_request
        (env_with (accepted none))
        (request "11:7" (pos 9) "7")
        (world_with []) in
    (game_unlocks
        (after_catch (
          start_controller_transfer
            (game_with (printed "SUCCESS"))
            "7"
            (pos 9)
            (some (pos 4))
            idle)).trace
      ≡ plugin_owes answer.0 (some (pos 4)) ++ game_unlocks idle.trace)
    × UnlocksOrRefuses answer (world_with [])
start_controller_transfer-game_unlocks_example =
    start_controller_transfer-game_unlocks (game_with (printed "SUCCESS"))
      (env_with (accepted none)) wording "7" "11:7" (pos 9) (some (pos 4)) idle (world_with []) made
      refl

wait_for_export_data-Ends_example :
    let p = wait_for_export_data (game_with (printed "null")) "export_7" 30000 500 idle in
    (p.0 ≢ out_of_fuel)
    × ((k : ℕ) × (asked p.1.trace ≤ 0 + k) × (k * 500 < 30000 + 500))
    × (p.0 ≡ timed_out → 0 + 30000 ≤ elapsed p.1.trace)
wait_for_export_data-Ends_example =
    wait_for_export_data-Ends (game_with (printed "null")) "export_7" 30000 500 idle elapsed-IsClock
      (omega arith)

abbrev garbled : String → ParsedLockState
garbled text =
    lock_state (record { raw_state = some "gone"; raw_transfer_id = none; raw_error = none })

handle_get_source_transfer_lock_state-IsLockState_example :
    IsLockState
      (handle_get_source_transfer_lock_state
        (game_with (printed "{}"))
        garbled
        "11:7"
        (some (pos 4))
        "Hauler"
        none
        idle).0
handle_get_source_transfer_lock_state-IsLockState_example =
    handle_get_source_transfer_lock_state-IsLockState (game_with (printed "{}")) garbled "11:7"
      (some (pos 4)) "Hauler" none idle

abbrev completion : ExportComplete
completion = record {
  export_id = "export_7 ";
  platform_name = "Hauler";
  platform_index = some (pos 4);
  destination_instance_id = pos 2;
  job_id = none;
}

export_made :
    (handle_export_platform_request
      (game_with (printed "export_7"))
      (pos 4)
      none
      (some (pos 2))
      idle).0
    ≡ exported "export_7"
unfolding handle_export_platform_request request_export read_export_result
    normalize_rcon_scalar_result trim is_invalid_export_id
export_made = refl

completion_trimmed : trim completion.export_id ≡ "export_7"
unfolding trim
completion_trimmed = refl

transfer_requests-handle_all_example :
    let v = game_with (printed "export_7") in
    let u =
      handle_all v garbled
        (platform_changed "Hauler" none ∷ [])
        (handle_export_platform_request v (pos 4) none (some (pos 2)) idle).1 in
    transfer_requests (handle_export_complete v completion u).trace ≡ transfer_requests u.trace
transfer_requests-handle_all_example =
    transfer_requests-handle_all (game_with (printed "export_7")) garbled (pos 4) none
      (some (pos 2)) "export_7" (platform_changed "Hauler" none ∷ []) completion idle export_made
      refl (refl, tt) completion_trimmed refl

abbrev import_report : ImportReport
import_report = record {
  platform_name = "Hauler";
  force_name = none;
  transfer_id = "11:7";
  source_instance_id = some (pos 1);
  operation_id = none;
  success = some true;
  failed_stage = none;
  error_text = none;
  cleanup_has_failed = false;
  cleanup_error = none;
  destination_preserved = false;
  validation = none;
}

named : transfer_of import_report ≡ some "11:7"
unfolding trim
named = refl

commands-handle_import_complete_validation_example :
    commands
      (deliver
        (env_with (accepted none))
        (arrived_verdict
          (game_with (printed ""))
          (handle_import_complete_validation (game_with (printed "")) import_report idle).trace)
        (ship_in awaiting_validation)).trace
    ≡ decided false (get "11:7" (ship_in awaiting_validation).transfers) ++ []
commands-handle_import_complete_validation_example =
    commands-handle_import_complete_validation (game_with (printed "")) (env_with (accepted none))
      import_report "11:7" idle (ship_in awaiting_validation) named
