-- ===== src/Transfer/Tests.antt =====
-- Two instances, 1 and 2, and one transfer between them, on which the theorems about transfers run.
use clusterio_surface_export.Prelude.{
  ℕ, String, ◌≡◌, ◌≤◌, refl, Bool, true, false, none, some, List, [], ◌∷◌, arith, length, string_eq,
}
use clusterio_surface_export.Prelude.Int.{ℤ, pos, int_eq}
use clusterio_surface_export.CanonicalId.Tests.{stroke_text}
use clusterio_surface_export.Cluster.{Cluster, Instance, is_instance_online}
use clusterio_surface_export.Transfer.{
  Status, transporting, awaiting_validation, failed, ActiveTransfer, transfer, StoredExport,
  ValidationEvent,
}
use clusterio_surface_export.Transfer.World.{
  World, Env, Reply, seconds, accepted, rejected, session_lost, send_failed, unlock_source,
  delete_source, import_platform, end_phase, start_phase, update_transfer,
}
use clusterio_surface_export.Transfer.Unlock.{unlock_error}
use clusterio_surface_export.Transfer.Verdict.{handle_transfer_validation}
use clusterio_surface_export.Transfer.Verdict.Commands.{
  commands, commands-handle_transfer_validation,
}
use clusterio_surface_export.Transfer.Verdict.Outcome.{KeptDelete, success_outcome}
use clusterio_surface_export.Transfer.Verdict.Settle.{judged}
use clusterio_surface_export.Transfer.Verdict.Retained.{started_since}
use clusterio_surface_export.Transfer.Verdict.Failure.{KeptRollback, failure_outcome}
use clusterio_surface_export.Transfer.Verdict.Once.{IsSettled, second_verdict_silent}
use clusterio_surface_export.Transfer.Settles.{launch-on_validation_timeout}
use clusterio_surface_export.Transfer.Timeout.{
  on_validation_timeout, commands-on_validation_timeout,
}
use clusterio_surface_export.Transfer.Verdict.Late.{LateOutcome, late_outcome}
use clusterio_surface_export.Transfer.Start.{
  already_active, refused, export_not_found, validation_timeout_ms, after_import,
  enter_awaiting_validation, launch, transfer_platform,
}
use clusterio_surface_export.Transfer.Start.Commands.{commands-launch, safe_refusal_unchanged}
use clusterio_surface_export.Transfer.Start.Retry.{
  validation_timeout_bounds, armed_timers, Awaits, launch-Awaits, failed_send_blocks_retry,
}
use clusterio_surface_export.JsMap.{get, KeysOnce}
use clusterio_surface_export.Transfer.Start.Unlocks.{Unlocks, transfer_platform-Unlocks}
use clusterio_surface_export.Transfer.Request.{
  TransferRequest, handle_transfer_platform_request, StartRequest,
  handle_start_platform_transfer_request,
}
use clusterio_surface_export.Transfer.Request.Rollback.{
  UnlocksOrRefuses, handle_transfer_platform_request-UnlocksOrRefuses, Restores, start_unlock,
  handle_start_platform_transfer_request-Restores,
}

abbrev pub instance_on_1 : ℤ → Instance
instance_on_1 i = record {
  id = i;
  name = some "nauvis";
  assigned_host = some (pos 1);
  is_deleted = false;
  status = "running";
}

abbrev pub two_instances : Cluster
two_instances = record {
  instances = (pos 1, instance_on_1 (pos 1)) ∷ (pos 2, instance_on_1 (pos 2)) ∷ [];
  hosts = (pos 1, record { id = pos 1; connected = true }) ∷ [];
  write = λ n. "2";
}

abbrev pub env_with : Reply → Env
env_with r = record {
  cluster = two_instances;
  number = stroke_text;
  timeout_setting = seconds 60;
  reply = λ es i m. r;
  clock = λ es. length es;
  during_wait = λ es s. s;
}

abbrev pub ship : Status → ActiveTransfer
ship s = record {
  transfer_id = "11:7";
  operation_type = transfer;
  export_id = some "11:7";
  source_export_id = some "7";
  artifact_size_bytes = none;
  platform_name = "Hauler";
  platform_index = 4;
  force_name = "player";
  source_instance_id = pos 1;
  source_instance_name = some "nauvis";
  target_instance_id = pos 2;
  target_instance_name = some "nauvis";
  started_at = 0;
  status = s;
  completed_at = none;
  failed_at = none;
  error_text = none;
  validation_result = none;
  failed_stage = none;
  validation_timeout = none;
  armed_validation_timeout_ms = none;
  phases = [];
}

abbrev stored_ship : StoredExport
stored_ship = record {
  export_id = "11:7";
  source_export_id = "7";
  platform_name = "Hauler";
  platform_index = some (pos 4);
  instance_id = pos 1;
  force = none;
  timestamp = 0;
  size = some 10;
}

abbrev pub world_with : List (String × ActiveTransfer) → World
world_with ts = record {
  transfers = ts;
  storage = ("11:7", stored_ship) ∷ [];
  pending = [];
  trace = [];
}

abbrev pub ship_in : Status → World
ship_in s = world_with (("11:7", ship s) ∷ [])

abbrev pub verdict : Bool → ValidationEvent
verdict b = record { transfer_id = "11:7"; success = b; validation = none }

commands-handle_transfer_validation_example :
    commands
      (handle_transfer_validation
        (env_with (accepted none))
        (verdict true)
        (ship_in awaiting_validation)).trace
    ≡ (pos 1, delete_source 4 "Hauler" "player" (some "7")) ∷ []
commands-handle_transfer_validation_example =
    commands-handle_transfer_validation (env_with (accepted none)) (verdict true)
      (ship_in awaiting_validation)

success_outcome_example :
    KeptDelete
      (rejected none)
      (judged
        (env_with (rejected none))
        (verdict true)
        (ship awaiting_validation)
        (ship_in awaiting_validation))
      (ship_in awaiting_validation)
      (handle_transfer_validation
        (env_with (rejected none))
        (verdict true)
        (ship_in awaiting_validation))
success_outcome_example =
    success_outcome (env_with (rejected none)) (verdict true) (ship awaiting_validation)
      (ship_in awaiting_validation) refl refl refl refl (refl, tt) (omega arith)

failure_outcome_example :
    KeptRollback none
      (unlock_error (accepted none))
      (judged
        (env_with (accepted none))
        (verdict false)
        (ship awaiting_validation)
        (ship_in awaiting_validation))
      (ship_in awaiting_validation)
      (handle_transfer_validation
        (env_with (accepted none))
        (verdict false)
        (ship_in awaiting_validation))
failure_outcome_example =
    failure_outcome (env_with (accepted none)) (verdict false) (ship awaiting_validation)
      (ship_in awaiting_validation) refl refl refl refl (refl, tt) (omega arith)

late_outcome_example :
    LateOutcome
      (verdict true)
      (ship failed)
      (ship_in failed)
      (handle_transfer_validation (env_with (accepted none)) (verdict true) (ship_in failed))
late_outcome_example =
    late_outcome (env_with (accepted none)) (verdict true) (ship failed) (ship_in failed) refl refl
      refl

commands-launch_example :
    commands (launch (env_with (rejected none)) (ship transporting) "11:7" (world_with [])).1.trace
    ≡ (pos 1, unlock_source 4 (some "Hauler") "player")
      ∷ (pos 2, import_platform "11:7" "11:7")
      ∷ []
commands-launch_example =
    commands-launch (env_with (rejected none)) (ship transporting) "11:7" (world_with [])

not_found :
    (transfer_platform (env_with (accepted none)) "lost" (pos 2) none (world_with [])).0
    ≡ refused (export_not_found "lost") true
unfolding transfer_platform
not_found = refl

safe_refusal_unchanged_run :
    (transfer_platform (env_with (accepted none)) "lost" (pos 2) none (world_with [])).1
    ≡ world_with []
safe_refusal_unchanged_run =
    safe_refusal_unchanged (env_with (accepted none)) "lost" (pos 2) none (world_with [])
      (export_not_found "lost") not_found

timeout_of_one_second :
    (5000 ≤ validation_timeout_ms (seconds 1)) × (validation_timeout_ms (seconds 1) ≤ 120000)
timeout_of_one_second = validation_timeout_bounds (seconds 1)

launch_of_ship :
    Awaits
      (ship transporting)
      (world_with [])
      (launch (env_with (session_lost "gone")) (ship transporting) "11:7" (world_with [])).1
launch_of_ship =
    launch-Awaits (env_with (session_lost "gone")) (ship transporting) "11:7" (world_with []) tt

online : is_instance_online two_instances (pos 2) ≡ true
unfolding is_instance_online
online = refl

failed_send_blocks_retry_example :
    transfer_platform
      (env_with (accepted none))
      "11:7"
      (pos 2)
      none
      (launch (env_with (send_failed "full")) (ship transporting) "11:7" (world_with [])).1
    ≡ (
      already_active "11:7",
      (launch (env_with (send_failed "full")) (ship transporting) "11:7" (world_with [])).1,
    )
failed_send_blocks_retry_example =
    failed_send_blocks_retry (env_with (send_failed "full")) (env_with (accepted none))
      (ship transporting) stored_ship "11:7" (world_with []) "full" (pos 2) none refl refl refl refl
      online

one_refusal :
    Unlocks
      (get "11:7" (world_with []).storage)
      (transfer_platform (env_with (rejected none)) "11:7" (pos 2) none (world_with []))
      (world_with [])
one_refusal =
    transfer_platform-Unlocks (env_with (rejected none)) "11:7" (pos 2) none (world_with [])

abbrev start_request : StartRequest
start_request = record {
  source_instance_id = pos 1;
  source_platform_index = pos 4;
  target_instance_id = pos 2;
  force_name = none;
}

handle_start_platform_transfer_request-Restores_example :
    Restores
      (env_with (session_lost "gone"))
      (start_unlock start_request)
      (handle_start_platform_transfer_request
        (env_with (session_lost "gone"))
        start_request
        (world_with []))
      (world_with [])
handle_start_platform_transfer_request-Restores_example =
    handle_start_platform_transfer_request-Restores (env_with (session_lost "gone")) start_request
      (world_with [])

second_verdict_silent_run :
    commands
      (handle_transfer_validation (env_with (accepted none)) (verdict false) (
        handle_transfer_validation
          (env_with (accepted none))
          (verdict true)
          (ship_in awaiting_validation))).trace
    ≡ (pos 1, delete_source 4 "Hauler" "player" (some "7")) ∷ []
second_verdict_silent_run =
    second_verdict_silent (env_with (accepted none)) (env_with (accepted none)) (verdict true)
      (verdict false) (ship awaiting_validation) (ship_in awaiting_validation) refl refl refl refl
      (refl, tt) (omega arith)

timeout_of_ship :
    commands
      (on_validation_timeout
        (env_with (accepted none))
        "11:7"
        30000
        (ship_in awaiting_validation)).trace
    ≡ (pos 1, unlock_source 4 (some "Hauler") "player") ∷ []
timeout_of_ship =
    commands-on_validation_timeout (env_with (accepted none)) "11:7" 30000
      (ship_in awaiting_validation)

abbrev transfer_request : TransferRequest
transfer_request = record {
  export_id = "11:7";
  target_instance_id = pos 2;
  source_instance_id = none;
  source_export_id = none;
}

refused_request_settles :
    UnlocksOrRefuses
      (handle_transfer_platform_request (env_with (rejected none)) transfer_request (world_with []))
      (world_with [])
refused_request_settles =
    handle_transfer_platform_request-UnlocksOrRefuses (env_with (rejected none)) transfer_request
      (world_with [])

abbrev launched_ship : World
launched_ship =
    (launch (env_with (session_lost "gone")) (ship transporting) "11:7" (world_with [])).1

few_launched : started_since (ship transporting).started_at launched_ship.transfers ≤ 100
unfolding launch after_import enter_awaiting_validation end_phase start_phase update_transfer
few_launched = omega arith

once_launched : KeysOnce launched_ship.transfers
unfolding launch after_import enter_awaiting_validation end_phase start_phase update_transfer
once_launched = (refl, tt)

launch-on_validation_timeout_example :
    (ms : ℕ) × (t' : ActiveTransfer) × (armed_timers launched_ship.trace ≡ ("11:7", ms) ∷ [])
    × (5000 ≤ ms)
    × (ms ≤ 120000)
    × (get "11:7" launched_ship.transfers ≡ some t')
    × (t'.validation_timeout ≡ some ms)
    × IsSettled "11:7" (on_validation_timeout (env_with (accepted none)) "11:7" ms launched_ship)
launch-on_validation_timeout_example =
    launch-on_validation_timeout (env_with (session_lost "gone")) (env_with (accepted none))
      (ship transporting) "11:7" (world_with []) tt once_launched few_launched
