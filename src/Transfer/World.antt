-- ===== src/Transfer/World.antt =====
-- What the handlers of lib/transfer-orchestrator.ts read and write: the controller's maps, and a
-- trace of what they do to the outside, newest first. An answer of an instance and the clock may
-- depend on all that has happened, so they are functions of the trace.
use clusterio_surface_export.Prelude.{ℕ, String, Option, none, some, List, ◌∷◌, ◌-◌, string_eq}
use clusterio_surface_export.Prelude.Int.{ℤ}
use clusterio_surface_export.JsMap.{JsMap, get, set}
use clusterio_surface_export.CanonicalId.{NumberText}
use clusterio_surface_export.Cluster.{Cluster}
use clusterio_surface_export.Transfer.{ActiveTransfer, StoredExport, PendingIntent, Phase}

pub data Message : Type 0 where
  export_platform : ℕ → String → ℤ → Message
  import_platform : String → String → Message
  delete_source : ℕ → String → String → Option String → Message
  unlock_source : ℕ → Option String → String → Message
  transfer_status : String → Message

-- The event types of the transaction log.
pub data Event : Type 0 where
  transfer_created import_started import_delivery_uncertain import_failed : Event
  rollback_attempt rollback_success rollback_failed : Event
  validation_timeout validation_received validation_after_settle validation_failed : Event
  transfer_completed transfer_failed : Event
  import_requested import_queued import_completed import_recovered : Event
  export_requested export_completed export_failed : Event

-- Messages to instances, and calls of the transaction logger, the subscription manager and the disk.
pub data Effect : Type 0 where
  sent : ℤ → Message → Effect
  logged : String → Event → Effect
  updated : ActiveTransfer → Effect
  tree_broadcast : String → Effect
  archived : String → ℕ → Effect
  start_recorded : ActiveTransfer → Effect
  log_persisted : ActiveTransfer → Effect
  storage_persisted : Effect
  timer_armed : String → ℕ → Effect

pub record World : Type 0 where
  pub transfers : JsMap String ActiveTransfer
  pub storage : JsMap String StoredExport
  pub pending : JsMap String PendingIntent
  pub trace : List Effect

-- What `controller.sendTo` does: an instance answers, or the call throws.
pub data Reply : Type 0 where
  accepted : Option String → Reply
  rejected : Option String → Reply
  session_lost : String → Reply
  send_failed : String → Reply

-- `config.get("surface_export.transfer_validation_timeout_seconds")`: reading it throws, or it is
-- no positive number, or it is one with this whole part.
pub data Setting : Type 0 where
  unreadable not_positive : Setting
  seconds : ℕ → Setting

-- What Clusterio, the instances and the configuration do.
pub record Env : Type 0 where
  pub cluster : Cluster
  pub number : NumberText
  pub timeout_setting : Setting
  pub reply : List Effect → ℤ → Message → Reply
  pub clock : List Effect → ℕ
  -- What other handlers make of the stored exports while one waits for an export to arrive.
  pub during_wait : List Effect → JsMap String StoredExport → JsMap String StoredExport

abbrev pub emit : Effect → World → World
emit e w = record w { trace = e ∷ w.trace }

abbrev pub send : ℤ → Message → World → World
send i m w = emit (sent i m) w

abbrev pub answer : Env → World → ℤ → Message → Reply
answer v w i m = v.reply w.trace i m

abbrev pub now : Env → World → ℕ
now v w = v.clock w.trace

abbrev pub log : String → Event → World → World
log t e w = emit (logged t e) w

-- The map holds the object that the handler mutates: the new value is written back.
abbrev pub store : ActiveTransfer → World → World
store t w = record w { transfers = set t.transfer_id t w.transfers }

-- updateTransfer
unfoldable pub update_transfer : ActiveTransfer → World → World
update_transfer t w = emit (tree_broadcast t.force_name) (emit (updated t) (store t w))

-- broadcastTransferStatus: a failure to send is caught, and so changes nothing here.
unfoldable pub broadcast_transfer_status : ActiveTransfer → World → World
broadcast_transfer_status t w =
    send t.target_instance_id (transfer_status t.transfer_id)
      (send t.source_instance_id (transfer_status t.transfer_id) w)

-- TransactionLogger.startPhase and endPhase, on the transfer's own record
unfoldable pub start_phase : String → ℕ → ActiveTransfer → ActiveTransfer
start_phase name at t = record t {
  phases = set name (record { start_ms = at; duration_ms = none }) t.phases;
}

ended : String → ℕ → Option Phase → JsMap String Phase → JsMap String Phase
ended name at none phases = phases
ended name at (some p) phases = set name (record p { duration_ms = some (at - p.start_ms) }) phases

unfoldable pub end_phase : String → ℕ → ActiveTransfer → ActiveTransfer
unfolding ended
end_phase name at t = record t { phases = ended name at (get name t.phases) t.phases }
