-- ===== src/Transfer/Operation.antt =====
-- lib/operation-record.ts: createOperationRecord, for transfers, exports and imports.
use clusterio_surface_export.Prelude.{
  ℕ, String, Bool, true, false, Option, none, some, [], eqb, or_else, or_null, given_or,
  if◌then◌else◌,
}
use clusterio_surface_export.Prelude.Int.{ℤ, pos, negsuc}
use clusterio_surface_export.Transfer.{ActiveTransfer, OperationType, transfer, Status, in_progress}

-- The options that the callers give; a numeric option that is no integer is missing here.
pub record OperationOptions : Type 0 where
  pub operation_id : Option String
  pub export_id : Option String
  pub source_export_id : Option String
  pub artifact_size_bytes : Option ℕ
  pub platform_name : Option String
  pub platform_index : Option ℤ
  pub force_name : Option String
  pub source_instance_id : Option ℤ
  pub source_instance_name : Option String
  pub target_instance_id : Option ℤ
  pub target_instance_name : Option String
  pub status : Option Status
  pub started_at : Option ℕ

abbrev no_instance : ℤ
no_instance = negsuc 0

-- `candidate > 0 ? candidate : null`
abbrev pub positive_index : Option ℤ → Option ℕ
positive_index none = none
positive_index (some (negsuc n)) = none
positive_index (some (pos n)) = if eqb n 0 then none else some n

-- `given ?? (id > 0 ? resolve(id) : null)`
abbrev name_or_resolved : (ℤ → Option String) → Option String → ℤ → Option String
name_or_resolved resolve (some n) id = some n
name_or_resolved resolve none (negsuc i) = none
name_or_resolved resolve none (pos i) = if eqb i 0 then none else resolve (pos i)

-- `startedAt || Date.now()`
abbrev started_or : Option ℕ → ℕ → ℕ
started_or none at = at
started_or (some s) at = if eqb s 0 then at else s

abbrev needs_index : OperationType → Option ℕ → Bool
needs_index transfer none = true
needs_index _ _ = false

-- `none` is the error that the code throws: a transfer with no platform index. `fresh` is the id
-- that generateOperationId makes, and `at` the time.
unfoldable pub create_operation_record :
    OperationType → OperationOptions → (ℤ → Option String) → String → ℕ → Option ActiveTransfer
create_operation_record type o resolve fresh at =
    let source = or_else o.source_instance_id no_instance in
    let target = or_else o.target_instance_id no_instance in
    let index = positive_index o.platform_index in
    if needs_index type index
    then none
    else some (record {
      transfer_id = given_or o.operation_id fresh;
      operation_type = type;
      export_id = or_null o.export_id;
      source_export_id = or_null o.source_export_id;
      artifact_size_bytes = o.artifact_size_bytes;
      platform_name = given_or o.platform_name "Unknown";
      platform_index = or_else index 1;
      force_name = given_or o.force_name "player";
      source_instance_id = source;
      source_instance_name = name_or_resolved resolve o.source_instance_name source;
      target_instance_id = target;
      target_instance_name = name_or_resolved resolve o.target_instance_name target;
      started_at = started_or o.started_at at;
      status = or_else o.status in_progress;
      completed_at = none;
      failed_at = none;
      error_text = none;
      validation_result = none;
      failed_stage = none;
      validation_timeout = none;
      armed_validation_timeout_ms = none;
      phases = [];
    })
