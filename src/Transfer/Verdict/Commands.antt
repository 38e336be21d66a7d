-- ===== src/Transfer/Verdict/Commands.antt =====
-- Which commands a verdict sends to the instances: lib/transfer-orchestrator.ts,
-- handleTransferValidation. Status notices are left out.
use clusterio_surface_export.Prelude.{
  String, Option, none, some, List, [], ◌∷◌, ◌++◌, ◌≡◌, refl, arith, or_option, if◌then◌else◌,
  string_eq, inl, inr, Bool-cases,
}
use clusterio_surface_export.Prelude.Int.{ℤ}
use clusterio_surface_export.JsMap.{get}
use clusterio_surface_export.Transfer.{ActiveTransfer, ValidationEvent, Validation}
use clusterio_surface_export.Transfer.World.{
  World, Env, Effect, sent, Message, export_platform, import_platform, delete_source, unlock_source,
  transfer_status, Reply, accepted, rejected, session_lost, send_failed, end_phase, update_transfer,
}
use clusterio_surface_export.Transfer.Unlock.{try_unlock_source, note_rollback}
use clusterio_surface_export.Transfer.Verdict.{
  is_awaiting_validation, late_change, apply_late, drop_export, remove_if_unlocked, late_verdict,
  receive, prune_old_transfers, complete, after_delete, after_rollback, validation_success,
  validation_failure, settle, handle_transfer_validation,
}

-- The messages of a trace that make an instance act, newest first.
abbrev pub commands : List Effect → List (ℤ × Message)
commands [] = []
commands (sent i (transfer_status t) ∷ es) = commands es
commands (sent i (export_platform a b c) ∷ es) = (i, export_platform a b c) ∷ commands es
commands (sent i (import_platform a b) ∷ es) = (i, import_platform a b) ∷ commands es
commands (sent i (delete_source a b c d) ∷ es) = (i, delete_source a b c d) ∷ commands es
commands (sent i (unlock_source a b c) ∷ es) = (i, unlock_source a b c) ∷ commands es
commands (_ ∷ es) = commands es

abbrev pub delete_command : ActiveTransfer → ℤ × Message
delete_command t = (
  t.source_instance_id,
  delete_source t.platform_index t.platform_name t.force_name
      (or_option t.source_export_id t.export_id),
)

abbrev pub unlock_command : ActiveTransfer → ℤ × Message
unlock_command t =
    (t.source_instance_id, unlock_source t.platform_index (some t.platform_name) t.force_name)

-- What a verdict must command: delete the source on success, give it back on failure, and nothing
-- where no verdict is awaited.
abbrev pub verdict_commands : ValidationEvent → Option ActiveTransfer → List (ℤ × Message)
verdict_commands ev none = []
verdict_commands ev (some t) =
    if is_awaiting_validation t.status
    then if ev.success then delete_command t ∷ [] else unlock_command t ∷ []
    else []

trace-prune : (w : World) → (prune_old_transfers w).trace ≡ w.trace
unfolding prune_old_transfers
trace-prune w = ground arith

commands-apply_late :
    (o : Option ActiveTransfer) (t : ActiveTransfer) (w : World)
    → commands (apply_late o t w).trace ≡ commands w.trace
unfolding update_transfer
commands-apply_late none t w = refl
commands-apply_late (some t') t w = refl

-- A late verdict commands nothing.
commands-late_verdict :
    (ev : ValidationEvent) (t : ActiveTransfer) (w : World)
    → commands (late_verdict ev t w).trace ≡ commands w.trace
unfolding late_verdict
commands-late_verdict ev t w = commands-apply_late (late_change ev t) t w

commands-drop_export :
    (e : Option String) (w : World) → commands (drop_export e w).trace ≡ commands w.trace
commands-drop_export none w = refl
commands-drop_export (some e) w = refl

commands-complete :
    (v : Env) (t : ActiveTransfer) (w : World) → commands (complete v t w).trace ≡ commands w.trace
unfolding complete
commands-complete v t w = rw commands-drop_export

commands-after_delete :
    (v : Env) (r : Reply) (t : ActiveTransfer) (w : World)
    → commands (after_delete v r t w).trace ≡ commands w.trace
unfolding after_delete
commands-after_delete v (accepted e) t w = simp (trace-prune, commands-complete)
commands-after_delete v (rejected e) t w = simp trace-prune
commands-after_delete v (session_lost e) t w = refl
commands-after_delete v (send_failed e) t w = refl

commands-validation_success :
    (v : Env) (t : ActiveTransfer) (w : World)
    → commands (validation_success v t w).trace ≡ delete_command t ∷ commands w.trace
unfolding validation_success
commands-validation_success v t w = rw commands-after_delete

commands-remove_if_unlocked :
    (o : Option String) (t : String) (w : World)
    → commands (remove_if_unlocked o t w).trace ≡ commands w.trace
commands-remove_if_unlocked none t w = refl
commands-remove_if_unlocked (some e) t w = refl

commands-after_rollback :
    (v : Env) (x : Option Validation) (t : ActiveTransfer) (r : Option String × World)
    → commands (after_rollback v x t r).trace ≡ commands r.1.trace
unfolding after_rollback
commands-after_rollback v x t (o, w) = simp (trace-prune, commands-remove_if_unlocked)

commands-note_rollback :
    (t : ActiveTransfer) (r : Option String × World)
    → commands (note_rollback t r).1.trace ≡ commands r.1.trace
commands-note_rollback t (none, w) = refl
commands-note_rollback t (some e, w) = refl

pub commands-try_unlock_source :
    (v : Env) (t : ActiveTransfer) (w : World)
    → commands (try_unlock_source v t w).1.trace ≡ unlock_command t ∷ commands w.trace
unfolding try_unlock_source
commands-try_unlock_source v t w = rw commands-note_rollback

commands-validation_failure :
    (v : Env) (x : Option Validation) (t : ActiveTransfer) (w : World)
    → commands (validation_failure v x t w).trace ≡ unlock_command t ∷ commands w.trace
unfolding validation_failure
commands-validation_failure v x t w = simp (commands-after_rollback, commands-try_unlock_source)

commands-settle :
    (v : Env) (ev : ValidationEvent) (t : ActiveTransfer) (w : World)
    → commands (settle v ev t w).trace
      ≡ (if ev.success then delete_command t else unlock_command t) ∷ commands w.trace
unfolding settle end_phase
commands-settle v ev t w = elim (Bool-cases ev.success) [
  | inl e ↦ simp (e, commands-validation_success)
  | inr e ↦ simp (e, commands-validation_failure)
]

commands-receive :
    (v : Env) (ev : ValidationEvent) (o : Option ActiveTransfer) (w : World)
    → commands (receive v ev o w).trace ≡ verdict_commands ev o ++ commands w.trace
commands-receive v ev none w = refl
commands-receive v ev (some t) w =
    ground (arith, commands-settle v ev t w, commands-late_verdict ev t w)

-- A verdict for a transfer that awaits one sends exactly one command: on success the deletion of
-- that transfer's source, on failure its unlock. A verdict for any other transfer sends none.
pub commands-handle_transfer_validation :
    (v : Env) (ev : ValidationEvent) (w : World)
    → commands (handle_transfer_validation v ev w).trace
      ≡ verdict_commands ev (get ev.transfer_id w.transfers) ++ commands w.trace
unfolding handle_transfer_validation
commands-handle_transfer_validation v ev w =
    commands-receive v ev (get ev.transfer_id w.transfers) w
