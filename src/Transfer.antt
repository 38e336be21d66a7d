-- ===== src/Transfer.antt =====
-- The transfer records of the controller (messages.ts: ActiveTransfer, StoredExport,
-- PendingTransferIntent, TransferValidationEvent; shared/dto.ts: ValidationResult).
-- Instance ids are integers, -1 for none. Metrics and item counts, which no decision reads, are
-- left out.
pub mod World
pub mod Unlock
pub mod Verdict
pub mod Start
pub mod Request
pub mod Operation
pub mod Pending
pub mod Timeout
pub mod Settles
pub mod Escrow
pub mod Tests
use clusterio_surface_export.Prelude.{
  ℕ, String, Bool, true, false, Option, none, some, List, [], ◌∷◌, is_empty, concat, ◌≡◌,
  if◌then◌else◌,
}
use clusterio_surface_export.Prelude.Int.{ℤ}
use clusterio_surface_export.JsMap.{JsMap}

pub data Status : Type 0 where
  in_progress transporting awaiting_validation awaiting_completion : Status
  completed failed cleanup_failed error unknown : Status

pub Status-discrete : Discrete Status
Status-discrete = hlevel

pub data OperationType : Type 0 where
  transfer export import : OperationType

pub data Stage : Type 0 where
  items fluids belts test_hook : Stage

-- The verdict that the destination reports, as far as the controller acts on it.
pub record Validation : Type 0 where
  pub mismatch_details : Option String
  pub cleanup_has_failed : Bool
  pub cleanup_error : Option String
  pub destination_preserved : Bool
  pub failed_stage : Option Stage

pub record Phase : Type 0 where
  pub start_ms : ℕ
  pub duration_ms : Option ℕ

pub record ActiveTransfer : Type 0 where
  pub transfer_id : String
  pub operation_type : OperationType
  pub export_id : Option String
  pub source_export_id : Option String
  pub artifact_size_bytes : Option ℕ
  pub platform_name : String
  pub platform_index : ℕ
  pub force_name : String
  pub source_instance_id : ℤ
  pub source_instance_name : Option String
  pub target_instance_id : ℤ
  pub target_instance_name : Option String
  pub started_at : ℕ
  pub status : Status
  pub completed_at : Option ℕ
  pub failed_at : Option ℕ
  pub error_text : Option String
  pub validation_result : Option Validation
  pub failed_stage : Option Stage
  pub validation_timeout : Option ℕ
  pub armed_validation_timeout_ms : Option ℕ
  pub phases : JsMap String Phase

pub record StoredExport : Type 0 where
  pub export_id : String
  pub source_export_id : String
  pub platform_name : String
  pub platform_index : Option ℤ
  pub instance_id : ℤ
  pub force : Option String
  pub timestamp : ℕ
  pub size : Option ℕ

pub record PendingIntent : Type 0 where
  pub transfer_id : String
  pub source_instance_id : ℤ
  pub source_platform_index : ℕ
  pub source_platform_name : String
  pub force_name : String
  pub target_instance_id : ℤ
  pub started_at : ℕ
  pub export_id : Option String

pub record ValidationEvent : Type 0 where
  pub transfer_id : String
  pub success : Bool
  pub validation : Option Validation

-- `[a, b, …].filter(Boolean).join("; ")`
abbrev pub join_texts : List String → String
join_texts [] = ""
join_texts (s ∷ []) = s
join_texts (s ∷ t ∷ ts) = concat s (concat "; " (join_texts (t ∷ ts)))

abbrev pub given_texts : List (Option String) → List String
given_texts [] = []
given_texts (none ∷ ts) = given_texts ts
given_texts (some s ∷ ts) = let rest = given_texts ts in if is_empty s then rest else s ∷ rest

unfoldable pub join_errors : List (Option String) → String
join_errors parts = join_texts (given_texts parts)
