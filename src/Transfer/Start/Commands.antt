-- ===== src/Transfer/Start/Commands.antt =====
-- What starting a transfer commands, and when the caller may unlock the source:
-- lib/transfer-orchestrator.ts, transferPlatform.
use clusterio_surface_export.Prelude.{
  ℕ, String, true, Option, none, some, List, [], ◌∷◌, ◌++◌, ◌≡◌, ◌≢◌, refl, arith, ap, ◌∙◌, or_text,
  string_eq,
}
use clusterio_surface_export.Prelude.Int.{ℤ}
use clusterio_surface_export.JsMap.{get}
use clusterio_surface_export.Transfer.{ActiveTransfer, StoredExport}
use clusterio_surface_export.Transfer.World.{
  World, Env, Effect, Message, import_platform, Reply, accepted, rejected, session_lost,
  send_failed, transfer_created, logged, archived, start_recorded, updated, tree_broadcast,
  start_phase, end_phase,
}
use clusterio_surface_export.Transfer.Verdict.Commands.{
  commands, unlock_command, commands-try_unlock_source,
}
use clusterio_surface_export.Transfer.Start.{
  Refusal, Result, refused, retry_guard, enter_awaiting_validation, after_import_rollback,
  handle_import_failure, threw_result, after_import, launch, launch_if, transfer_record, guarded,
  from_stored, transfer_platform,
}

abbrev pub import_command : String → ActiveTransfer → ℤ × Message
import_command export_id t = (t.target_instance_id, import_platform export_id t.transfer_id)

-- The trace at which the destination is asked to import.
abbrev pub import_trace : ActiveTransfer → World → List Effect
import_trace t w =
    tree_broadcast t.force_name
    ∷ updated t
    ∷ start_recorded t
    ∷ logged t.transfer_id transfer_created
    ∷ archived t.transfer_id t.started_at
    ∷ w.trace

-- The source is given back where the destination certainly has no copy: it refused, or the request
-- did not reach it. A lost session leaves that open.
abbrev pub rollback_commands : Reply → ActiveTransfer → List (ℤ × Message)
rollback_commands (accepted e) t = []
rollback_commands (rejected e) t = unlock_command t ∷ []
rollback_commands (session_lost e) t = []
rollback_commands (send_failed e) t = unlock_command t ∷ []

commands-enter_awaiting :
    (v : Env) (t : ActiveTransfer) (w : World)
    → commands (enter_awaiting_validation v t w).trace ≡ commands w.trace
unfolding enter_awaiting_validation
commands-enter_awaiting v t w = refl

commands-threw_result :
    (e : String) (r : Option String × World)
    → commands (threw_result e r).1.trace ≡ commands r.1.trace
commands-threw_result e (none, w) = refl
commands-threw_result e (some x, w) = refl

commands-after_import_rollback :
    (t : ActiveTransfer) (r : Option String × World)
    → commands (after_import_rollback t r).trace ≡ commands r.1.trace
unfolding after_import_rollback
commands-after_import_rollback t (o, w) = refl

pub commands-after_import :
    (v : Env) (r : Reply) (t : ActiveTransfer) (w : World)
    → commands (after_import v r t w).1.trace ≡ rollback_commands r t ++ commands w.trace
unfolding after_import handle_import_failure end_phase
commands-after_import v (accepted e) t w = rw commands-enter_awaiting
commands-after_import v (rejected e) t w =
    simp (commands-after_import_rollback, commands-try_unlock_source)
commands-after_import v (session_lost e) t w = rw commands-enter_awaiting
commands-after_import v (send_failed e) t w =
    simp (commands-threw_result, commands-try_unlock_source)

rollback-start_phase :
    (r : Reply) (name : String) (at : ℕ) (t : ActiveTransfer)
    → rollback_commands r (start_phase name at t) ≡ rollback_commands r t
unfolding start_phase
rollback-start_phase (accepted e) name at t = refl
rollback-start_phase (rejected e) name at t = refl
rollback-start_phase (session_lost e) name at t = refl
rollback-start_phase (send_failed e) name at t = refl

-- A transfer that is launched sends one import to its destination, and then unlocks the source
-- exactly where the answer says that the destination has no copy.
pub commands-launch :
    (v : Env) (t : ActiveTransfer) (export_id : String) (w : World)
    → let r = v.reply (import_trace t w) t.target_instance_id (import_command export_id t).1 in
      commands (launch v t export_id w).1.trace
      ≡ rollback_commands r t ++ (import_command export_id t ∷ commands w.trace)
unfolding launch start_phase
commands-launch v t export_id w =
    let r = v.reply (import_trace t w) t.target_instance_id (import_command export_id t).1 in
    commands-after_import v r _ _
    ∙ ap (λ l. l ++ (import_command export_id t ∷ commands w.trace))
        (rollback-start_phase r "transmission" (v.clock (import_trace t w)) t)

threw_result-not_safe :
    (e : String) (r : Option String × World) (x : Refusal) → (threw_result e r).0 ≢ refused x true
threw_result-not_safe e (none, w) x = λ h. cc
threw_result-not_safe e (some r, w) x = λ h. cc

after_import-not_safe :
    (v : Env) (r : Reply) (t : ActiveTransfer) (w : World) (x : Refusal)
    → (after_import v r t w).0 ≢ refused x true
unfolding after_import handle_import_failure
after_import-not_safe v (accepted e) t w x = λ h. cc
after_import-not_safe v (rejected e) t w x = λ h. cc
after_import-not_safe v (session_lost e) t w x = λ h. cc
after_import-not_safe v (send_failed e) t w x = threw_result-not_safe e _ x

launch-not_safe :
    (v : Env) (t : ActiveTransfer) (export_id : String) (w : World) (x : Refusal)
    → (launch v t export_id w).0 ≢ refused x true
unfolding launch
launch-not_safe v t export_id w x = after_import-not_safe v _ _ _ x

launch_if-refusal :
    (v : Env) (o : Option ActiveTransfer) (export_id : String) (w : World) (x : Refusal)
    → (launch_if v o export_id w).0 ≡ refused x true
    → (launch_if v o export_id w).1 ≡ w
launch_if-refusal v none export_id w x h = refl
launch_if-refusal v (some t) export_id w x h = absurd (launch-not_safe v t export_id w x h)

guarded-refusal :
    (v : Env) (e : StoredExport) (id export_id : String) (target : ℤ) (at : Option ℕ) (w : World)
    (g : Option Result) (x : Refusal)
    → (guarded v e id export_id target at w g).0 ≡ refused x true
    → (guarded v e id export_id target at w g).1 ≡ w
guarded-refusal v e id export_id target at w (some r) x h = refl
guarded-refusal v e id export_id target at w none x h =
    ground (arith, launch_if-refusal v (transfer_record v e id export_id target at w) export_id w x)

from_stored-refusal :
    (v : Env) (export_id : String) (target : ℤ) (at : Option ℕ) (w : World)
    (o : Option StoredExport) (x : Refusal)
    → (from_stored v export_id target at w o).0 ≡ refused x true
    → (from_stored v export_id target at w o).1 ≡ w
from_stored-refusal v export_id target at w none x h = refl
from_stored-refusal v export_id target at w (some e) x h =
    let id = or_text e.export_id export_id in
    ground
      (arith, guarded-refusal v e id export_id target at w (retry_guard id (get id w.transfers)) x)

-- Where the answer lets the caller unlock the source, nothing was sent, recorded or logged.
pub safe_refusal_unchanged :
    (v : Env) (export_id : String) (target : ℤ) (at : Option ℕ) (w : World) (x : Refusal)
    → (transfer_platform v export_id target at w).0 ≡ refused x true
    → (transfer_platform v export_id target at w).1 ≡ w
unfolding transfer_platform
safe_refusal_unchanged v export_id target at w x h =
    from_stored-refusal v export_id target at w (get export_id w.storage) x h
